-- ===== src/Conversion/Splitter.antt =====
-- `ThinkTagSplitter` of app/conversion/anthropic_helpers.py: text between `<think>` and `</think>` goes
-- to the thinking output, and a tag that a chunk cuts is held back.
pub mod Cuts
pub mod Holds
pub mod Emits
pub mod Turns
pub mod Feeds
use Prim.Native.Char.{code}
use llm_proxy_server.Prelude.{
  ℕ, suc, zero, ◌+◌, Bool, true, false, not, ◌&&◌, Option, none, some, List, [], ◌∷◌, String,
  starts_with, text_length, str_eq, nat_eq, ltb, if◌then◌else◌, behind_chars, text_append,
}

pub data PieceKind : Type 0 where
  thinking text : PieceKind

abbrev pub kind_same : PieceKind → PieceKind → Bool
kind_same thinking thinking = true
kind_same text text = true
kind_same thinking text = false
kind_same text thinking = false

abbrev pub Piece : Type 0
Piece = PieceKind × String

pub record ThinkTagSplitter : Type 0 where
  pub in_think : Bool
  pub seen_text : Bool
  pub buffer : String

abbrev pub new_splitter : ThinkTagSplitter
new_splitter = record { in_think = false; seen_text = false; buffer = "" }

-- The tag that is looked for.
abbrev pub tag_of : Bool → String
tag_of true = "</think>"
tag_of false = "<think>"

-- What stands before the first place of a tag, and behind it.
unfoldable pub split_at_tag : String → String → Option (String × String)
unfolding starts_with behind_chars text_length
split_at_tag tag String.[] = none
split_at_tag tag (String.◌∷◌ c s) =
    let rest = split_at_tag tag s in
    if starts_with tag (String.◌∷◌ c s)
    then some ("", behind_chars (text_length tag) (String.◌∷◌ c s))
    else elim rest [ none ↦ none | some (before, after) ↦ some (String.◌∷◌ c before, after) ]

-- What is emitted of a buffer without the tag, and the longest end that may be the tag's beginning,
-- which is held.
unfoldable pub split_hold : String → String → String × String
unfolding starts_with text_length
split_hold tag String.[] = ("", "")
split_hold tag (String.◌∷◌ c s) =
    let (emit, hold) = split_hold tag s in
    if starts_with (String.◌∷◌ c s) tag && ltb (text_length (String.◌∷◌ c s)) (text_length tag)
    then ("", String.◌∷◌ c s)
    else (String.◌∷◌ c emit, hold)

-- `text.lstrip("\n")`
unfoldable pub lstrip_newlines : String → String
lstrip_newlines String.[] = ""
lstrip_newlines (String.◌∷◌ c s) =
    let rest = lstrip_newlines s in if nat_eq (code c) 10 then rest else String.◌∷◌ c s

-- `out[-1] = (kind, out[-1][1] + text)` or `out.append((kind, text))`
unfoldable pub add_piece : List Piece → PieceKind → String → List Piece
unfolding text_append
add_piece [] kind piece = (kind, piece) ∷ []
add_piece ((k, said) ∷ []) kind piece =
    if kind_same k kind then (kind, text_append said piece) ∷ [] else (k, said) ∷ (kind, piece) ∷ []
add_piece (p ∷ q ∷ out) kind piece = p ∷ add_piece (q ∷ out) kind piece

abbrev pub kind_of : Bool → PieceKind
kind_of true = thinking
kind_of false = text

-- `_emit`: the output and `seen_text`.
unfoldable pub emit : Bool → Bool → List Piece → String → List Piece × Bool
unfolding add_piece lstrip_newlines
emit true seen_text out piece = (add_piece out thinking piece, seen_text)
emit false true out piece = (add_piece out text piece, true)
emit false false out piece =
    let stripped = lstrip_newlines piece in
    if str_eq stripped "" then (out, false) else (add_piece out text stripped, true)

-- `if before: self._emit(out, before)`
unfoldable pub emit_some : Bool → Bool → List Piece → String → List Piece × Bool
unfolding emit
emit_some in_think seen_text out piece =
    if str_eq piece "" then (out, seen_text) else emit in_think seen_text out piece

-- The loop of `feed`, on fuel: each turn but the last takes a tag off the buffer.
unfoldable pub feed_loop : ℕ → ThinkTagSplitter → List Piece → ThinkTagSplitter × List Piece
unfolding split_at_tag split_hold emit_some
feed_loop zero s out = (s, out)
feed_loop (suc fuel) s out = elim (split_at_tag (tag_of s.in_think) s.buffer) [
  | some (before, after) ↦
      let r = emit_some s.in_think s.seen_text out before in
      feed_loop fuel (record { in_think = not s.in_think; seen_text = r.1; buffer = after }) r.0
  | none ↦
      let (now, hold) = split_hold (tag_of s.in_think) s.buffer in
      let r = emit_some s.in_think s.seen_text out now in
      (record { in_think = s.in_think; seen_text = r.1; buffer = hold }, r.0)
]

unfoldable pub feed : String → ThinkTagSplitter → ThinkTagSplitter × List Piece
unfolding feed_loop text_append text_length
feed chunk s =
    let whole = text_append s.buffer chunk in
    feed_loop (text_length whole + 1) (record s { buffer = whole }) []

unfoldable pub flush : ThinkTagSplitter → ThinkTagSplitter × List Piece
unfolding emit_some
flush s =
    let r = emit_some s.in_think s.seen_text [] s.buffer in
    (record { in_think = s.in_think; seen_text = r.1; buffer = "" }, r.0)
