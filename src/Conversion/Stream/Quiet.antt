-- ===== src/Conversion/Stream/Quiet.antt =====
-- The text and the thinking of pieces and of events, and the steps of the stream converter of
-- app/conversion/anthropic_openai.py that say none.
use llm_proxy_server.Prelude.{
  ℕ, ◌≡◌, refl, sym, ap, ap₂, ◌∙◌, subst, List, [], ◌∷◌, ◌++◌, map, String, if◌then◌else◌,
  Bool-cases, inl, inr, text_append, text_append_assoc,
}
use llm_proxy_server.Conversion.Splitter.{PieceKind, thinking, text, kind_same, Piece}
use llm_proxy_server.Conversion.Stream.{
  BlockType, text_block, thinking_block, tool_use_block, ContentBlock, Delta, text_delta,
  thinking_delta, citations_delta, Citation, StreamEvent, content_block_start, content_block_delta,
  content_block_stop, StreamConversionState, Emitted, and_then, index_of, close_block, open_block,
  closing_deltas, citations_due, citations_from_annotations, deltas_at,
}
use llm_proxy_server.Conversion.Stream.Bracketed.{close_block_when_open, close_block_when_shut}

abbrev pub of_kind : PieceKind → PieceKind → String → String
of_kind kind k piece = if kind_same k kind then piece else ""

-- The pieces of a kind, one after another.
unfoldable pub said : PieceKind → List Piece → String
unfolding text_append
said kind [] = ""
said kind ((k, piece) ∷ pieces) = text_append (of_kind kind k piece) (said kind pieces)

abbrev pub delta_text : PieceKind → Delta → String
delta_text text (text_delta s) = s
delta_text thinking (thinking_delta s) = s
delta_text _ _ = ""

abbrev pub event_text : PieceKind → StreamEvent → String
event_text kind (content_block_delta index delta) = delta_text kind delta
event_text kind _ = ""

-- The text of a kind in the deltas of events.
unfoldable pub heard : PieceKind → List StreamEvent → String
unfolding text_append
heard kind [] = ""
heard kind (e ∷ events) = text_append (event_text kind e) (heard kind events)

pub heard-append :
    (kind : PieceKind) (xs ys : List StreamEvent)
    → heard kind (xs ++ ys) ≡ text_append (heard kind xs) (heard kind ys)
unfolding heard text_append
heard-append kind [] ys = refl
heard-append kind (x ∷ xs) ys =
    ap (λ t. text_append (event_text kind x) t) (heard-append kind xs ys)
    ∙ sym (text_append_assoc (event_text kind x) (heard kind xs) (heard kind ys))

pub said-append :
    (kind : PieceKind) (xs ys : List Piece)
    → said kind (xs ++ ys) ≡ text_append (said kind xs) (said kind ys)
unfolding said text_append
said-append kind [] ys = refl
said-append kind ((k, piece) ∷ xs) ys =
    ap (λ t. text_append (of_kind kind k piece) t) (said-append kind xs ys)
    ∙ sym (text_append_assoc (of_kind kind k piece) (said kind xs) (said kind ys))

-- A step that says nothing, and leaves what is deferred, the live call and the splitter.
pub record IsQuiet (kind : PieceKind) (s : StreamConversionState) (r : Emitted) : Type 0 where
  pub silent : heard kind r.0 ≡ ""
  pub deferred : r.1.deferred_content ≡ s.deferred_content
  pub splitter : r.1.think_splitter ≡ s.think_splitter

pub IsQuiet-none : (kind : PieceKind) (s : StreamConversionState) → IsQuiet kind s ([], s)
unfolding heard
IsQuiet-none kind s = record { silent = refl; deferred = refl; splitter = refl }

pub heard_silent :
    (kind : PieceKind) (xs ys : List StreamEvent)
    → heard kind xs ≡ ""
    → heard kind ys ≡ ""
    → heard kind (xs ++ ys) ≡ ""
unfolding text_append
heard_silent kind xs ys h k = heard-append kind xs ys ∙ ap₂ text_append h k

pub IsQuiet-and_then :
    (kind : PieceKind) (s : StreamConversionState) (r : Emitted)
    (f : StreamConversionState → Emitted)
    → IsQuiet kind s r
    → IsQuiet kind r.1 (f r.1)
    → IsQuiet kind s (and_then r f)
IsQuiet-and_then kind s r f h k = record {
  silent = heard_silent kind r.0 (f r.1).0 h.silent k.silent;
  deferred = k.deferred ∙ h.deferred;
  splitter = k.splitter ∙ h.splitter;
}

pub citations_silent :
    (kind : PieceKind) (n : ℕ) (cs : List Citation)
    → heard kind (deltas_at n (map (λ c. citations_delta c) cs)) ≡ ""
unfolding heard text_append
citations_silent kind n [] = refl
citations_silent text n (c ∷ cs) = citations_silent text n cs
citations_silent thinking n (c ∷ cs) = citations_silent thinking n cs

pub closing_silent :
    (kind : PieceKind) (n : ℕ) (s : StreamConversionState) (block_type : BlockType)
    → heard kind (deltas_at n (closing_deltas s block_type)) ≡ ""
unfolding closing_deltas heard text_append
closing_silent text n s thinking_block = refl
closing_silent thinking n s thinking_block = refl
closing_silent kind n s tool_use_block = refl
closing_silent kind n s text_block = elim (Bool-cases (citations_due s)) [
  | inl e ↦ rw e (citations_silent kind n (citations_from_annotations s.full_text s.annotations))
  | inr e ↦ rw e refl
]

pub close_block-IsQuiet :
    (kind : PieceKind) (s : StreamConversionState) → IsQuiet kind s (close_block s)
unfolding heard text_append
close_block-IsQuiet kind s = elim (Bool-cases s.block_open) [
  | inl e ↦ subst (IsQuiet kind s) (sym (close_block_when_open s e)) (record {
    silent =
        heard_silent kind (deltas_at (index_of s) (closing_deltas s s.current_block_type))
          (content_block_stop (index_of s) ∷ [])
          (closing_silent kind (index_of s) s s.current_block_type) refl;
    deferred = refl;
    splitter = refl;
  })
  | inr e ↦ subst (IsQuiet kind s) (sym (close_block_when_shut s e)) (IsQuiet-none kind s)
]

pub open_block-IsQuiet :
    (kind : PieceKind) (block_type : BlockType) (block : ContentBlock) (s : StreamConversionState)
    → IsQuiet kind s (open_block block_type block s)
unfolding open_block heard text_append
open_block-IsQuiet kind block_type block s =
    let q = close_block-IsQuiet kind s in
    record {
      silent = heard_silent kind (close_block s).0 (content_block_start _ block ∷ []) q.silent refl;
      deferred = q.deferred;
      splitter = q.splitter;
    }
