-- ===== src/Conversion/Stream/Content.antt =====
-- Text and thinking keep the order of the events of the stream converter; while a tool block is live
-- they are deferred, and the block stays open.
use llm_proxy_server.Prelude.{
  ℕ, ◌≡◌, refl, ap, ◌∙◌, true, false, ◌&&◌, Option, none, some, List, [], ◌∷◌, ◌++◌, String, lookup,
  is_some, str_eq, if_true, if_false, arith, Bool-cases, inl, inr, ℕ-Keyed,
}
use llm_proxy_server.Conversion.Splitter.{PieceKind, thinking, text, Piece}
use llm_proxy_server.Conversion.Stream.{
  BlockType, tool_use_block, ContentBlock, content_block_delta, StreamConversionState, Emitted,
  and_then, index_of, open_block, block_of, start_of, delta_of, is_in, in_block, emit_content,
  emit_all, defer_piece, full_text_with,
}
use llm_proxy_server.Conversion.Stream.Protocol.{
  inside, started_type, delta_type, admit_events, admit_events-append, admit_deltas,
}
use llm_proxy_server.Conversion.Stream.Bracketed.{
  phase_of, Brackets, IsOpened, Brackets-and_then, Brackets-none, open_block-Brackets,
  open_block-live,
}

-- A step keeps the order of the events and the index of the block that is open.
abbrev pub Opens : StreamConversionState → Emitted → Type 0
Opens s r = Brackets s r × IsOpened r.1

pub Opens-and_then :
    (s : StreamConversionState) (r : Emitted) (f : StreamConversionState → Emitted)
    → Opens s r
    → (IsOpened r.1 → Opens r.1 (f r.1))
    → Opens s (and_then r f)
Opens-and_then s r f h k = (Brackets-and_then s r f h.0 (k h.1).0, (k h.1).1)

-- The live call's block is open, and its index is on record.
abbrev pub IsLiveAt : StreamConversionState → ℕ → Type 0
IsLiveAt s key =
    (s.block_open ≡ true)
    × (s.current_block_type ≡ tool_use_block)
    × (lookup key s.tool_call_indices ≡ some (index_of s))

abbrev pub IsLive : StreamConversionState → Type 0
IsLive s = (key : ℕ) → s.live_tool_index ≡ some key → IsLiveAt s key

pub IsLive-none : (s : StreamConversionState) → s.live_tool_index ≡ none → IsLive s
IsLive-none s e key l = absurd (ground (arith, e, l))

pub not_some : {A : Type 0} (o : Option A) → is_some o ≡ false → o ≡ none
not_some none e = refl
not_some (some a) e = absurd (ground (arith, e))

pub open_block-IsOpened :
    (block_type : BlockType) (block : ContentBlock) (s : StreamConversionState)
    → IsOpened (open_block block_type block s).1
unfolding open_block
open_block-IsOpened block_type block s e = refl

pub open_block_phase :
    (block_type : BlockType) (block : ContentBlock) (s : StreamConversionState)
    → let t = (open_block block_type block s).1 in phase_of t ≡ inside (index_of t) block_type
unfolding open_block
open_block_phase block_type block s = refl

start_type : (kind : PieceKind) → started_type (start_of kind) ≡ block_of kind
start_type thinking = refl
start_type text = refl

pub in_block_when_in :
    (kind : PieceKind) (s : StreamConversionState)
    → (s.block_open && is_in s.current_block_type (block_of kind)) ≡ true
    → in_block kind s ≡ ([], s)
unfolding in_block
in_block_when_in kind s e =
    if_true (s.block_open && is_in s.current_block_type (block_of kind)) _ _ e

pub in_block_when_out :
    (kind : PieceKind) (s : StreamConversionState)
    → (s.block_open && is_in s.current_block_type (block_of kind)) ≡ false
    → in_block kind s ≡ open_block (block_of kind) (start_of kind) s
unfolding in_block
in_block_when_out kind s e =
    if_false (s.block_open && is_in s.current_block_type (block_of kind)) _ _ e

is_in_same : (a b : BlockType) → is_in a b ≡ true → a ≡ b
is_in_same a b e = ground (arith, e)

inside_of :
    (kind : PieceKind) (s : StreamConversionState)
    → (s.block_open && is_in s.current_block_type (block_of kind)) ≡ true
    → phase_of s ≡ inside (index_of s) (block_of kind)
inside_of kind s e =
    let opened : s.block_open ≡ true = ground (arith, e) in
    let same : is_in s.current_block_type (block_of kind) ≡ true = ground (arith, e) in
    if_true s.block_open _ _ opened
    ∙ ap (λ t. inside (index_of s) t) (is_in_same s.current_block_type (block_of kind) same)

-- The block of a kind of content is open, whether it was or not.
in_block_cases :
    (kind : PieceKind) (s : StreamConversionState)
    → IsOpened s
    → let r = in_block kind s in
      Opens s r
      × (phase_of r.1 ≡ inside (index_of r.1) (block_of kind))
      × (r.1.live_tool_index ≡ s.live_tool_index)
unfolding in_block
in_block_cases kind s h =
    elim (Bool-cases (s.block_open && is_in s.current_block_type (block_of kind))) [
      | inl e ↦ rw (in_block_when_in kind s e) ((Brackets-none s, h), inside_of kind s e, refl)
      | inr e ↦ rw (in_block_when_out kind s e) (
        (
          open_block-Brackets (block_of kind) (start_of kind) s h (start_type kind),
          open_block-IsOpened (block_of kind) (start_of kind) s,
        ),
        open_block_phase (block_of kind) (start_of kind) s,
        open_block-live (block_of kind) (start_of kind) s,
      )
    ]

delta_fits :
    (kind : PieceKind) (piece : String)
    → is_in (block_of kind) (delta_type (delta_of kind piece)) ≡ true
delta_fits thinking piece = refl
delta_fits text piece = refl

-- A delta of the type of the block that is open.
admit_delta :
    (s : StreamConversionState) (kind : PieceKind) (piece : String)
    → phase_of s ≡ inside (index_of s) (block_of kind)
    → admit_events (phase_of s) (content_block_delta (index_of s) (delta_of kind piece) ∷ [])
      ≡ some (phase_of s)
admit_delta s kind piece e = rw e (
    admit_deltas (index_of s) (block_of kind) (delta_of kind piece ∷ [])
      (delta_fits kind piece, tt))

pub emit_content_empty :
    (kind : PieceKind) (piece : String) (s : StreamConversionState)
    → str_eq piece "" ≡ true
    → emit_content kind piece s ≡ ([], s)
unfolding emit_content
emit_content_empty kind piece s e = if_true (str_eq piece "") _ _ e

pub emit_content_deferred :
    (kind : PieceKind) (piece : String) (s : StreamConversionState)
    → str_eq piece "" ≡ false
    → is_some s.live_tool_index ≡ true
    → emit_content kind piece s
      ≡ ([], record s { deferred_content = defer_piece kind piece s.deferred_content })
unfolding emit_content
emit_content_deferred kind piece s e l =
    if_false (str_eq piece "") _ _ e ∙ if_true (is_some s.live_tool_index) _ _ l

pub emit_content_now :
    (kind : PieceKind) (piece : String) (s : StreamConversionState)
    → str_eq piece "" ≡ false
    → is_some s.live_tool_index ≡ false
    → let r = in_block kind s in
      emit_content kind piece s ≡ (
        r.0 ++ content_block_delta (index_of r.1) (delta_of kind piece) ∷ [],
        record r.1 { full_text = full_text_with kind r.1.full_text piece },
      )
unfolding emit_content
emit_content_now kind piece s e l =
    if_false (str_eq piece "") _ _ e ∙ if_false (is_some s.live_tool_index) _ _ l

pub emit_content-Opens :
    (kind : PieceKind) (piece : String) (s : StreamConversionState)
    → IsOpened s
    → Opens s (emit_content kind piece s) × (IsLive s → IsLive (emit_content kind piece s).1)
emit_content-Opens kind piece s h = elim (Bool-cases (str_eq piece "")) [
  | inl e ↦ rw (emit_content_empty kind piece s e) ((Brackets-none s, h), λ l. l)
  | inr e ↦ elim (Bool-cases (is_some s.live_tool_index)) [
    | inl l ↦ rw (emit_content_deferred kind piece s e l) ((Brackets-none s, h), λ l. l)
    | inr l ↦
        let (opens, phase, live) = in_block_cases kind s h in
        let r = in_block kind s in
        rw (emit_content_now kind piece s e l) (
          (
            admit_events-append (phase_of s) (phase_of r.1) r.0
                  (content_block_delta (index_of r.1) (delta_of kind piece) ∷ []) opens.0
                ∙ admit_delta r.1 kind piece phase,
            opens.1,
          ),
          λ _.
              IsLive-none (record r.1 { full_text = full_text_with kind r.1.full_text piece })
                (live ∙ not_some s.live_tool_index l),
        )
  ]
]

pub emit_all-Opens :
    (pieces : List Piece) (s : StreamConversionState)
    → IsOpened s
    → Opens s (emit_all pieces s) × (IsLive s → IsLive (emit_all pieces s).1)
unfolding emit_all
emit_all-Opens [] s h = ((Brackets-none s, h), λ l. l)
emit_all-Opens ((kind, piece) ∷ pieces) s h =
    let (opens, live) = emit_content-Opens kind piece s h in
    let (rest, rest_live) = emit_all-Opens pieces (emit_content kind piece s).1 opens.1 in
    (
      Opens-and_then s (emit_content kind piece s) (emit_all pieces) opens (λ _. rest),
      λ l. rest_live (live l),
    )
