-- ===== src/Conversion/Stream/Said.antt =====
-- What the events of a stream say: the text and the thinking of their deltas, against the pieces that
-- went in. A piece that is deferred while a tool block is live is said later, in its order.
use llm_proxy_server.Prelude.{
  ℕ, ◌≡◌, refl, sym, ap, ap₂, ◌∙◌, false, ◌&&◌, List, [], ◌∷◌, ◌++◌, String, is_some, str_eq,
  str_eq_iff, arith, Bool-cases, inl, inr, text_append, text_append_nil, text_append_assoc,
}
use llm_proxy_server.Conversion.Splitter.{PieceKind, thinking, text, Piece}
use llm_proxy_server.Conversion.Stream.{
  content_block_delta, StreamConversionState, Emitted, and_then, index_of, block_of, start_of,
  delta_of, is_in, in_block, defer_piece, full_text_with, emit_content, emit_all,
}
use llm_proxy_server.Conversion.Stream.Bracketed.{open_block-live}
use llm_proxy_server.Conversion.Stream.Content.{
  in_block_when_in, in_block_when_out, emit_content_empty, emit_content_deferred, emit_content_now,
}
use llm_proxy_server.Conversion.Stream.Quiet.{
  of_kind, said, heard, heard-append, IsQuiet, IsQuiet-none, open_block-IsQuiet,
}

pub of_kind-text_append :
    (kind k : PieceKind) (a b : String)
    → of_kind kind k (text_append a b) ≡ text_append (of_kind kind k a) (of_kind kind k b)
unfolding text_append
of_kind-text_append text text a b = refl
of_kind-text_append text thinking a b = refl
of_kind-text_append thinking text a b = refl
of_kind-text_append thinking thinking a b = refl

said_joined :
    (kind k : PieceKind) (old piece : String)
    → said kind ((k, text_append old piece) ∷ [])
      ≡ text_append (said kind ((k, old) ∷ [])) (of_kind kind k piece)
unfolding said
said_joined kind k old piece =
    text_append_nil (of_kind kind k (text_append old piece))
    ∙ of_kind-text_append kind k old piece
    ∙ ap (λ t. text_append t (of_kind kind k piece)) (sym (text_append_nil (of_kind kind k old)))

said_beside :
    (kind : PieceKind) (p : Piece) (k : PieceKind) (piece : String)
    → said kind (p ∷ (k, piece) ∷ []) ≡ text_append (said kind (p ∷ [])) (of_kind kind k piece)
unfolding said
said_beside kind p k piece =
    ap (λ t. text_append (of_kind kind p.0 p.1) t) (text_append_nil (of_kind kind k piece))
    ∙ ap (λ t. text_append t (of_kind kind k piece)) (sym (text_append_nil (of_kind kind p.0 p.1)))

pub said-defer_piece :
    (kind k : PieceKind) (piece : String) (deferred : List Piece)
    → said kind (defer_piece k piece deferred)
      ≡ text_append (said kind deferred) (of_kind kind k piece)
unfolding said defer_piece text_append
said-defer_piece kind k piece [] = text_append_nil (of_kind kind k piece)
said-defer_piece kind thinking piece ((thinking, old) ∷ []) = said_joined kind thinking old piece
said-defer_piece kind text piece ((text, old) ∷ []) = said_joined kind text old piece
said-defer_piece kind thinking piece ((text, old) ∷ []) =
    said_beside kind (text, old) thinking piece
said-defer_piece kind text piece ((thinking, old) ∷ []) =
    said_beside kind (thinking, old) text piece
said-defer_piece kind k piece (p ∷ q ∷ deferred) =
    ap (λ t. text_append (of_kind kind p.0 p.1) t) (said-defer_piece kind k piece (q ∷ deferred))
    ∙ sym
        (text_append_assoc (of_kind kind p.0 p.1) (said kind (q ∷ deferred)) (of_kind kind k piece))

-- Nothing is deferred while no tool block is live.
abbrev pub IsOrdered : StreamConversionState → Type 0
IsOrdered s = is_some s.live_tool_index ≡ false → s.deferred_content ≡ []

-- A step says a text, now or later: what is heard and still deferred behind it is what was deferred and
-- the text.
pub record IsSaid (kind : PieceKind) (s : StreamConversionState) (r : Emitted) (x : String)
    : Type 0 where
  pub says :
      text_append (heard kind r.0) (said kind r.1.deferred_content)
      ≡ text_append (said kind s.deferred_content) x
  pub ordered : IsOrdered r.1
  pub live : r.1.live_tool_index ≡ s.live_tool_index
  pub splitter : r.1.think_splitter ≡ s.think_splitter

-- The texts of two steps, one after the other.
pub says_both :
    (h₁ d₁ h₂ d₂ d x y : String)
    → text_append h₁ d₁ ≡ text_append d x
    → text_append h₂ d₂ ≡ text_append d₁ y
    → text_append (text_append h₁ h₂) d₂ ≡ text_append d (text_append x y)
says_both h₁ d₁ h₂ d₂ d x y p q =
    text_append_assoc h₁ h₂ d₂
    ∙ ap (λ t. text_append h₁ t) q
    ∙ sym (text_append_assoc h₁ d₁ y)
    ∙ ap (λ t. text_append t y) p
    ∙ text_append_assoc d x y

pub IsSaid-and_then :
    (kind : PieceKind) (s : StreamConversionState) (r : Emitted)
    (f : StreamConversionState → Emitted) (x y : String)
    → IsSaid kind s r x
    → IsSaid kind r.1 (f r.1) y
    → IsSaid kind s (and_then r f) (text_append x y)
IsSaid-and_then kind s r f x y h k = record {
  says =
      ap (λ t. text_append t (said kind (f r.1).1.deferred_content))
        (heard-append kind r.0 (f r.1).0)
      ∙ says_both (heard kind r.0) (said kind r.1.deferred_content) (heard kind (f r.1).0)
          (said kind (f r.1).1.deferred_content) (said kind s.deferred_content) x y h.says k.says;
  ordered = k.ordered;
  live = k.live ∙ h.live;
  splitter = k.splitter ∙ h.splitter;
}

in_block-IsQuiet :
    (kind k : PieceKind) (s : StreamConversionState)
    → IsQuiet kind s (in_block k s) × ((in_block k s).1.live_tool_index ≡ s.live_tool_index)
in_block-IsQuiet kind k s =
    elim (Bool-cases (s.block_open && is_in s.current_block_type (block_of k))) [
      | inl e ↦ rw (in_block_when_in k s e) (IsQuiet-none kind s, refl)
      | inr e ↦ rw (in_block_when_out k s e) (
        open_block-IsQuiet kind (block_of k) (start_of k) s,
        open_block-live (block_of k) (start_of k) s,
      )
    ]

delta_said :
    (kind k : PieceKind) (n : ℕ) (piece : String)
    → heard kind (content_block_delta n (delta_of k piece) ∷ []) ≡ of_kind kind k piece
unfolding heard text_append
delta_said text text n piece = text_append_nil piece
delta_said text thinking n piece = refl
delta_said thinking text n piece = refl
delta_said thinking thinking n piece = text_append_nil piece

emit_now-IsSaid :
    (kind k : PieceKind) (piece : String) (s : StreamConversionState)
    → is_some s.live_tool_index ≡ false
    → s.deferred_content ≡ []
    → let r = in_block k s in
      IsSaid kind s
        (
          r.0 ++ content_block_delta (index_of r.1) (delta_of k piece) ∷ [],
          record r.1 { full_text = full_text_with k r.1.full_text piece },
        )
        (of_kind kind k piece)
unfolding said text_append
emit_now-IsSaid kind k piece s l none_deferred =
    let (quiet, live) = in_block-IsQuiet kind k s in
    let r = in_block k s in
    let deferred = quiet.deferred ∙ none_deferred in
    record {
      says =
          ap₂ text_append
            (heard-append kind r.0 (content_block_delta (index_of r.1) (delta_of k piece) ∷ [])
              ∙ ap₂ text_append quiet.silent (delta_said kind k (index_of r.1) piece))
            (ap (said kind) deferred)
          ∙ text_append_nil (of_kind kind k piece)
          ∙ ap (λ d. text_append (said kind d) (of_kind kind k piece)) (sym none_deferred);
      ordered = λ e. deferred;
      live = live;
      splitter = quiet.splitter;
    }

of_kind_empty : (kind k : PieceKind) → of_kind kind k "" ≡ ""
of_kind_empty text text = refl
of_kind_empty text thinking = refl
of_kind_empty thinking text = refl
of_kind_empty thinking thinking = refl

pub emit_content-IsSaid :
    (kind k : PieceKind) (piece : String) (s : StreamConversionState)
    → IsOrdered s
    → IsSaid kind s (emit_content k piece s) (of_kind kind k piece)
unfolding heard text_append
emit_content-IsSaid kind k piece s h = elim (Bool-cases (str_eq piece "")) [
  | inl e ↦ rw (emit_content_empty k piece s e) (record {
    says =
        sym (text_append_nil (said kind s.deferred_content))
        ∙ ap (λ t. text_append (said kind s.deferred_content) t)
            (sym (ap (of_kind kind k) ((str_eq_iff piece "").0 e) ∙ of_kind_empty kind k));
    ordered = h;
    live = refl;
    splitter = refl;
  })
  | inr e ↦ elim (Bool-cases (is_some s.live_tool_index)) [
    | inl l ↦ rw (emit_content_deferred k piece s e l) (record {
      says = said-defer_piece kind k piece s.deferred_content;
      ordered = λ free. absurd (ground (arith, l, free));
      live = refl;
      splitter = refl;
    })
    | inr l ↦ rw (emit_content_now k piece s e l) (emit_now-IsSaid kind k piece s l (h l))
  ]
]

-- Pieces are said, each in its turn.
pub emit_all-IsSaid :
    (kind : PieceKind) (pieces : List Piece) (s : StreamConversionState)
    → IsOrdered s
    → IsSaid kind s (emit_all pieces s) (said kind pieces)
unfolding emit_all said heard text_append
emit_all-IsSaid kind [] s h = record {
  says = sym (text_append_nil (said kind s.deferred_content));
  ordered = h;
  live = refl;
  splitter = refl;
}
emit_all-IsSaid kind ((k, piece) ∷ pieces) s h =
    let first = emit_content-IsSaid kind k piece s h in
    IsSaid-and_then kind s (emit_content k piece s) (emit_all pieces) (of_kind kind k piece)
      (said kind pieces) first
      (emit_all-IsSaid kind pieces (emit_content k piece s).1 first.ordered)
