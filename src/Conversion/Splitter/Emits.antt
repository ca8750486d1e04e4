-- ===== src/Conversion/Splitter/Emits.antt =====
-- What `ThinkTagSplitter._emit` of app/conversion/anthropic_helpers.py adds to the output.
use Prim.Native.Char.{Char, code}
use llm_proxy_server.Prelude.{
  ◌≡◌, ◌≢◌, text_length, refl, sym, ap, ◌∙◌, Bool, true, false, not, String, List, [], ◌∷◌, str_eq,
  str_eq_iff, nat_eq, if_true, if_false, text_append, text_append_nil, arith, Bool-cases, inl, inr,
}
use llm_proxy_server.Conversion.Splitter.{
  PieceKind, thinking, text, Piece, lstrip_newlines, add_piece, emit, emit_some, kind_of,
}
use llm_proxy_server.Conversion.Stream.Quiet.{of_kind, said}
use llm_proxy_server.Conversion.Stream.Said.{of_kind-text_append, said-defer_piece}
use llm_proxy_server.Conversion.Stream.{defer_piece}

-- The output grows as the deferred pieces of a stream do.
add_piece-defer_piece :
    (k : PieceKind) (piece : String) (out : List Piece)
    → add_piece out k piece ≡ defer_piece k piece out
unfolding add_piece defer_piece
add_piece-defer_piece k piece [] = refl
add_piece-defer_piece k piece ((old, said) ∷ []) = refl
add_piece-defer_piece k piece (p ∷ q ∷ out) =
    ap (λ l. p ∷ l) (add_piece-defer_piece k piece (q ∷ out))

said-add_piece :
    (kind k : PieceKind) (piece : String) (out : List Piece)
    → said kind (add_piece out k piece) ≡ text_append (said kind out) (of_kind kind k piece)
said-add_piece kind k piece out =
    ap (said kind) (add_piece-defer_piece k piece out) ∙ said-defer_piece kind k piece out

-- What is left of a piece when the newlines before the first text are dropped.
unfoldable pub trimmed : Bool → Bool → String → String
unfolding lstrip_newlines
trimmed true seen piece = piece
trimmed false true piece = piece
trimmed false false piece = lstrip_newlines piece

unfoldable pub seen_after : Bool → Bool → String → Bool
unfolding lstrip_newlines
seen_after true seen piece = seen
seen_after false true piece = true
seen_after false false piece = not (str_eq (lstrip_newlines piece) "")

-- What a piece adds to the output of a kind.
abbrev pub voiced : PieceKind → Bool → Bool → String → String
voiced kind inside seen piece = of_kind kind (kind_of inside) (trimmed inside seen piece)

pub of_kind_nil : (kind k : PieceKind) → of_kind kind k "" ≡ ""
of_kind_nil text text = refl
of_kind_nil text thinking = refl
of_kind_nil thinking text = refl
of_kind_nil thinking thinking = refl

emit-seen :
    (inside seen : Bool) (out : List Piece) (piece : String)
    → (emit inside seen out piece).1 ≡ seen_after inside seen piece
unfolding emit seen_after
emit-seen true seen out piece = refl
emit-seen false true out piece = refl
emit-seen false false out piece = elim (Bool-cases (str_eq (lstrip_newlines piece) "")) [
  | inl e ↦ rw (e, emit, seen_after) refl
  | inr e ↦ rw (e, emit, seen_after) refl
]

said-emit :
    (kind : PieceKind) (inside seen : Bool) (out : List Piece) (piece : String)
    → said kind (emit inside seen out piece).0
      ≡ text_append (said kind out) (voiced kind inside seen piece)
unfolding emit trimmed text_append
said-emit kind true seen out piece = said-add_piece kind thinking piece out
said-emit kind false true out piece = said-add_piece kind text piece out
said-emit kind false false out piece = elim (Bool-cases (str_eq (lstrip_newlines piece) "")) [
  | inl e ↦
      let none_left : lstrip_newlines piece ≡ "" = (str_eq_iff (lstrip_newlines piece) "").0 e in
      ap (λ (r : List Piece × Bool). said kind r.0)
        (if_true (str_eq (lstrip_newlines piece) "") _ _ e)
      ∙ sym (text_append_nil (said kind out))
      ∙ ap (λ t. text_append (said kind out) t) (sym (of_kind_nil kind text))
      ∙ ap (λ t. text_append (said kind out) (of_kind kind text t)) (sym none_left)
  | inr e ↦
      ap (λ (r : List Piece × Bool). said kind r.0)
        (if_false (str_eq (lstrip_newlines piece) "") _ _ e)
      ∙ said-add_piece kind text (lstrip_newlines piece) out
]

trimmed_nil : (inside seen : Bool) → trimmed inside seen "" ≡ ""
unfolding trimmed lstrip_newlines
trimmed_nil true seen = refl
trimmed_nil false true = refl
trimmed_nil false false = refl

seen_after_nil : (inside seen : Bool) → seen_after inside seen "" ≡ seen
unfolding seen_after lstrip_newlines
seen_after_nil true seen = refl
seen_after_nil false true = refl
seen_after_nil false false = refl

pub emit_some-seen :
    (inside seen : Bool) (out : List Piece) (piece : String)
    → (emit_some inside seen out piece).1 ≡ seen_after inside seen piece
unfolding emit_some
emit_some-seen inside seen out piece = elim (Bool-cases (str_eq piece "")) [
  | inl e ↦
      ap (λ (r : List Piece × Bool). r.1) (if_true (str_eq piece "") _ _ e)
      ∙ sym (seen_after_nil inside seen)
      ∙ ap (seen_after inside seen) (sym ((str_eq_iff piece "").0 e))
  | inr e ↦
      ap (λ (r : List Piece × Bool). r.1) (if_false (str_eq piece "") _ _ e)
      ∙ emit-seen inside seen out piece
]

pub said-emit_some :
    (kind : PieceKind) (inside seen : Bool) (out : List Piece) (piece : String)
    → said kind (emit_some inside seen out piece).0
      ≡ text_append (said kind out) (voiced kind inside seen piece)
unfolding emit_some
said-emit_some kind inside seen out piece = elim (Bool-cases (str_eq piece "")) [
  | inl e ↦
      ap (λ (r : List Piece × Bool). said kind r.0) (if_true (str_eq piece "") _ _ e)
      ∙ sym (text_append_nil (said kind out))
      ∙ ap (λ t. text_append (said kind out) t)
          (sym (
            ap (of_kind kind (kind_of inside)) (trimmed_nil inside seen)
            ∙ of_kind_nil kind (kind_of inside)))
      ∙ ap (λ t. text_append (said kind out) (voiced kind inside seen t))
          (sym ((str_eq_iff piece "").0 e))
  | inr e ↦
      ap (λ (r : List Piece × Bool). said kind r.0) (if_false (str_eq piece "") _ _ e)
      ∙ said-emit kind inside seen out piece
]

lstrip_step_blank :
    (c : Char) (s : String)
    → nat_eq (code c) 10 ≡ true
    → lstrip_newlines (String.◌∷◌ c s) ≡ lstrip_newlines s
unfolding lstrip_newlines
lstrip_step_blank c s e = if_true (nat_eq (code c) 10) _ _ e

lstrip_step_said :
    (c : Char) (s : String)
    → nat_eq (code c) 10 ≡ false
    → lstrip_newlines (String.◌∷◌ c s) ≡ String.◌∷◌ c s
unfolding lstrip_newlines
lstrip_step_said c s e = if_false (nat_eq (code c) 10) _ _ e

not_empty : (c : Char) (s : String) → String.◌∷◌ c s ≢ ""
unfolding text_length
not_empty c s h = absurd (omega (arith, ap text_length h))

cons_str_eq : (c : Char) (s : String) → str_eq (String.◌∷◌ c s) "" ≡ false
cons_str_eq c s = elim (Bool-cases (str_eq (String.◌∷◌ c s) "")) [
  | inl e ↦ absurd (not_empty c s ((str_eq_iff (String.◌∷◌ c s) "").0 e))
  | inr e ↦ e
]

lstrip_blank :
    (p q : String) → lstrip_newlines p ≡ "" → lstrip_newlines (text_append p q) ≡ lstrip_newlines q
unfolding text_append
lstrip_blank String.[] q h = refl
lstrip_blank (String.◌∷◌ c p) q h = elim (Bool-cases (nat_eq (code c) 10)) [
  | inl e ↦
      lstrip_step_blank c (text_append p q) e ∙ lstrip_blank p q (sym (lstrip_step_blank c p e) ∙ h)
  | inr e ↦ absurd (not_empty c p (sym (lstrip_step_said c p e) ∙ h))
]

lstrip_said :
    (p q : String)
    → str_eq (lstrip_newlines p) "" ≡ false
    → (lstrip_newlines (text_append p q) ≡ text_append (lstrip_newlines p) q)
      × (str_eq (text_append (lstrip_newlines p) q) "" ≡ false)
unfolding text_append lstrip_newlines
lstrip_said String.[] q h = absurd (ground (arith, h))
lstrip_said (String.◌∷◌ c p) q h = elim (Bool-cases (nat_eq (code c) 10)) [
  | inl e ↦
      rw (lstrip_step_blank c (text_append p q) e, lstrip_step_blank c p e)
        (lstrip_said p q (ap (λ t. str_eq t "") (sym (lstrip_step_blank c p e)) ∙ h))
  | inr e ↦
      rw (lstrip_step_said c (text_append p q) e, lstrip_step_said c p e)
        (refl, cons_str_eq c (text_append p q))
]

pub seen_after-text_append :
    (inside seen : Bool) (p q : String)
    → seen_after inside seen (text_append p q) ≡ seen_after inside (seen_after inside seen p) q
unfolding seen_after
seen_after-text_append true seen p q = refl
seen_after-text_append false true p q = refl
seen_after-text_append false false p q = elim (Bool-cases (str_eq (lstrip_newlines p) "")) [
  | inl e ↦
      rw (e, seen_after)
        (ap (λ t. not (str_eq t "")) (lstrip_blank p q ((str_eq_iff (lstrip_newlines p) "").0 e)))
  | inr e ↦
      rw (e, seen_after)
        (ap (λ t. not (str_eq t "")) (lstrip_said p q e).0 ∙ ap not (lstrip_said p q e).1)
]

trimmed-text_append :
    (inside seen : Bool) (p q : String)
    → trimmed inside seen (text_append p q)
      ≡ text_append (trimmed inside seen p) (trimmed inside (seen_after inside seen p) q)
unfolding trimmed seen_after text_append
trimmed-text_append true seen p q = refl
trimmed-text_append false true p q = refl
trimmed-text_append false false p q = elim (Bool-cases (str_eq (lstrip_newlines p) "")) [
  | inl e ↦
      let none_left = (str_eq_iff (lstrip_newlines p) "").0 e in
      lstrip_blank p q none_left
      ∙ ap (λ t. text_append t (lstrip_newlines q)) (sym none_left)
      ∙ ap (λ b. text_append (lstrip_newlines p) (trimmed false (not b) q)) (sym e)
  | inr e ↦
      (lstrip_said p q e).0
      ∙ ap (λ b. text_append (lstrip_newlines p) (trimmed false (not b) q)) (sym e)
]

pub voiced-text_append :
    (kind : PieceKind) (inside seen : Bool) (p q : String)
    → voiced kind inside seen (text_append p q)
      ≡ text_append (voiced kind inside seen p) (voiced kind inside (seen_after inside seen p) q)
voiced-text_append kind inside seen p q =
    ap (of_kind kind (kind_of inside)) (trimmed-text_append inside seen p q)
    ∙ of_kind-text_append kind (kind_of inside) (trimmed inside seen p)
        (trimmed inside (seen_after inside seen p) q)
