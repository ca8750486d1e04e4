-- ===== src/Conversion/Splitter/Turns.antt =====
-- The loop of `ThinkTagSplitter.feed` of app/conversion/anthropic_helpers.py as a function of the
-- buffer: the splitter that it leaves and the text that it puts out of a kind.
use llm_proxy_server.Prelude.{
  ℕ, suc, zero, ◌≤◌, ◌<◌, ◌≡◌, refl, sym, ap, ◌∙◌, Bool, true, false, not, none, some, String, List,
  text_length, text_append, text_append_nil, text_append_assoc, arith, Option-cases, inl, inr,
}
use llm_proxy_server.Conversion.Splitter.{
  PieceKind, ThinkTagSplitter, Piece, tag_of, split_at_tag, split_hold, emit_some, feed_loop,
}
use llm_proxy_server.Conversion.Splitter.Cuts.{split_at_tag_length}
use llm_proxy_server.Conversion.Splitter.Emits.{seen_after, voiced, emit_some-seen, said-emit_some}
use llm_proxy_server.Conversion.Stream.Quiet.{said}

-- A splitter, and what it put out of a kind.
abbrev pub Turn : Type 0
Turn = ThinkTagSplitter × String

abbrev pub standing : Bool → Bool → String → ThinkTagSplitter
standing inside seen buffer = record { in_think = inside; seen_text = seen; buffer = buffer }

abbrev crossed : Bool → Bool → String × String → ThinkTagSplitter
crossed inside seen r = standing (not inside) (seen_after inside seen r.0) r.1

abbrev pub prepend : String → Turn → Turn
prepend said_before t = (t.0, text_append said_before t.1)

-- The splitter behind a buffer without a tag.
abbrev pub rest : PieceKind → Bool → Bool → String × String → Turn
rest kind inside seen p =
    (standing inside (seen_after inside seen p.0) p.1, voiced kind inside seen p.0)

unfoldable pub scan : ℕ → PieceKind → Bool → Bool → String → Turn
unfolding split_at_tag split_hold seen_after text_append
scan zero kind inside seen buffer = (standing inside seen buffer, "")
scan (suc fuel) kind inside seen buffer = elim (split_at_tag (tag_of inside) buffer) [
  | some r ↦
      prepend (voiced kind inside seen r.0)
        (scan fuel kind (not inside) (seen_after inside seen r.0) r.1)
  | none ↦ rest kind inside seen (split_hold (tag_of inside) buffer)
]

pub scan_found :
    (n : ℕ) (kind : PieceKind) (inside seen : Bool) (buffer : String) (r : String × String)
    → split_at_tag (tag_of inside) buffer ≡ some r
    → scan (suc n) kind inside seen buffer
      ≡ prepend
          (voiced kind inside seen r.0)
          (scan n kind (not inside) (seen_after inside seen r.0) r.1)
unfolding scan
scan_found n kind inside seen buffer r h = rw (h, scan) refl

pub scan_off :
    (n : ℕ) (kind : PieceKind) (inside seen : Bool) (buffer : String)
    → split_at_tag (tag_of inside) buffer ≡ none
    → scan (suc n) kind inside seen buffer
      ≡ rest kind inside seen (split_hold (tag_of inside) buffer)
unfolding scan
scan_off n kind inside seen buffer h = rw (h, scan) refl

feed_loop_found :
    (n : ℕ) (inside seen : Bool) (buffer : String) (out : List Piece) (r : String × String)
    → split_at_tag (tag_of inside) buffer ≡ some r
    → feed_loop (suc n) (standing inside seen buffer) out
      ≡ feed_loop n (crossed inside seen r) (emit_some inside seen out r.0).0
unfolding feed_loop
feed_loop_found n inside seen buffer out r h =
    rw (h, feed_loop)
      (ap (λ b. feed_loop n (standing (not inside) b r.1) (emit_some inside seen out r.0).0)
        (emit_some-seen inside seen out r.0))

feed_loop_off :
    (n : ℕ) (inside seen : Bool) (buffer : String) (out : List Piece)
    → split_at_tag (tag_of inside) buffer ≡ none
    → feed_loop (suc n) (standing inside seen buffer) out ≡ (
      standing inside
          (seen_after inside seen (split_hold (tag_of inside) buffer).0)
          (split_hold (tag_of inside) buffer).1,
      (emit_some inside seen out (split_hold (tag_of inside) buffer).0).0,
    )
unfolding feed_loop
feed_loop_off n inside seen buffer out h =
    let p = split_hold (tag_of inside) buffer in
    rw (h, feed_loop)
      (ap (λ b. (standing inside b p.1, (emit_some inside seen out p.0).0))
        (emit_some-seen inside seen out p.0))

-- What the loop of `feed` leaves and says of a kind.
abbrev pub IsTold : PieceKind → List Piece → ThinkTagSplitter × List Piece → Turn → Type 0
IsTold kind out r t = (r.0 ≡ t.0) × (said kind r.1 ≡ text_append (said kind out) t.1)

pub feed_loop-scan :
    (n : ℕ) (kind : PieceKind) (inside seen : Bool) (buffer : String) (out : List Piece)
    → IsTold kind out
        (feed_loop n (standing inside seen buffer) out)
        (scan n kind inside seen buffer)
unfolding feed_loop scan
feed_loop-scan zero kind inside seen buffer out = (refl, sym (text_append_nil (said kind out)))
feed_loop-scan (suc n) kind inside seen buffer out =
    elim (Option-cases (split_at_tag (tag_of inside) buffer)) [
      | inl h ↦
          let p = split_hold (tag_of inside) buffer in
          rw (feed_loop_off n inside seen buffer out h, scan_off n kind inside seen buffer h)
            (refl, said-emit_some kind inside seen out p.0)
      | inr (r, h) ↦
          let told =
            feed_loop-scan n kind (not inside) (seen_after inside seen r.0) r.1
              (emit_some inside seen out r.0).0 in
          let later = (scan n kind (not inside) (seen_after inside seen r.0) r.1).1 in
          rw
            (feed_loop_found n inside seen buffer out r h, scan_found n kind inside seen buffer r h)
            (
              told.0,
              told.1
                  ∙ ap (λ t. text_append t later) (said-emit_some kind inside seen out r.0)
                  ∙ text_append_assoc (said kind out) (voiced kind inside seen r.0) later,
            )
    ]

tag_of_length : (inside : Bool) → 1 ≤ text_length (tag_of inside)
unfolding text_length
tag_of_length true = omega arith
tag_of_length false = omega arith

-- A search leaves less than it was given.
pub shorter :
    (inside : Bool) (buffer : String) (r : String × String)
    → split_at_tag (tag_of inside) buffer ≡ some r
    → text_length r.1 < text_length buffer
shorter inside buffer r h =
    omega (arith, split_at_tag_length (tag_of inside) buffer r h, tag_of_length inside)

-- Any fuel over the length is enough.
pub scan_enough :
    (n m : ℕ) (kind : PieceKind) (inside seen : Bool) (buffer : String)
    → text_length buffer < n
    → text_length buffer < m
    → scan n kind inside seen buffer ≡ scan m kind inside seen buffer
scan_enough zero m kind inside seen buffer p q = absurd (omega (arith, p))
scan_enough (suc n) zero kind inside seen buffer p q = absurd (omega (arith, q))
scan_enough (suc n) (suc m) kind inside seen buffer p q =
    elim (Option-cases (split_at_tag (tag_of inside) buffer)) [
      | inl h ↦ scan_off n kind inside seen buffer h ∙ sym (scan_off m kind inside seen buffer h)
      | inr (r, h) ↦
          let less = shorter inside buffer r h in
          scan_found n kind inside seen buffer r h
          ∙ ap (prepend (voiced kind inside seen r.0)) (
              scan_enough n m kind (not inside) (seen_after inside seen r.0) r.1
                (omega (arith, less, p)) (omega (arith, less, q)))
          ∙ sym (scan_found m kind inside seen buffer r h)
    ]
