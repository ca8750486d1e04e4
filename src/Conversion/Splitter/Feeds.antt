-- ===== src/Conversion/Splitter/Feeds.antt =====
-- That the splitter of app/conversion/anthropic_helpers.py does not depend on how a text is cut.
use llm_proxy_server.Prelude.{
  ℕ, suc, zero, ◌+◌, ◌<◌, ◌≡◌, sym, ap, ap₂, ◌∙◌, Bool, not, none, some, String, [], text_length,
  text_append, text_append_assoc, arith, Option-cases, inl, inr,
}
use llm_proxy_server.Conversion.Splitter.{
  PieceKind, ThinkTagSplitter, tag_of, split_at_tag, split_hold, feed,
}
use llm_proxy_server.Conversion.Splitter.Cuts.{split_at_tag_found}
use llm_proxy_server.Conversion.Splitter.Holds.{split_at_tag_held, split_hold_longer, lead}
use llm_proxy_server.Conversion.Splitter.Emits.{
  seen_after, voiced, seen_after-text_append, voiced-text_append,
}
use llm_proxy_server.Conversion.Stream.Quiet.{said}
use llm_proxy_server.Conversion.Splitter.Turns.{
  Turn, standing, prepend, rest, scan, scan_found, scan_off, IsTold, feed_loop-scan, shorter,
  scan_enough,
}

abbrev settled : PieceKind → Bool → Bool → String → Turn
settled kind inside seen buffer = scan (text_length buffer + 1) kind inside seen buffer

-- The splitter behind a buffer with a tag.
abbrev cross : PieceKind → Bool → Bool → String × String → Turn
cross kind inside seen r =
    prepend (voiced kind inside seen r.0)
      (settled kind (not inside) (seen_after inside seen r.0) r.1)

settled_found :
    (kind : PieceKind) (inside seen : Bool) (buffer : String) (r : String × String)
    → split_at_tag (tag_of inside) buffer ≡ some r
    → settled kind inside seen buffer ≡ cross kind inside seen r
settled_found kind inside seen buffer r h =
    let less = shorter inside buffer r h in
    scan_enough (text_length buffer + 1) (suc (text_length buffer)) kind inside seen buffer
      (omega arith) (omega arith)
    ∙ scan_found (text_length buffer) kind inside seen buffer r h
    ∙ ap (prepend (voiced kind inside seen r.0)) (
        scan_enough (text_length buffer) (text_length r.1 + 1) kind (not inside)
          (seen_after inside seen r.0) r.1 less (omega arith))

settled_off :
    (kind : PieceKind) (inside seen : Bool) (buffer : String)
    → split_at_tag (tag_of inside) buffer ≡ none
    → settled kind inside seen buffer ≡ rest kind inside seen (split_hold (tag_of inside) buffer)
settled_off kind inside seen buffer h =
    scan_enough (text_length buffer + 1) (suc (text_length buffer)) kind inside seen buffer
      (omega arith) (omega arith)
    ∙ scan_off (text_length buffer) kind inside seen buffer h

prepend_append : (v w : String) (t : Turn) → prepend (text_append v w) t ≡ prepend v (prepend w t)
prepend_append v w t = ap (λ x. (t.0, x)) (text_append_assoc v w t.1)

rest_append :
    (kind : PieceKind) (inside seen : Bool) (now : String) (p : String × String)
    → rest kind inside seen (text_append now p.0, p.1)
      ≡ prepend (voiced kind inside seen now) (rest kind inside (seen_after inside seen now) p)
rest_append kind inside seen now p =
    ap₂ (λ x v. (standing inside x p.1, v)) (seen_after-text_append inside seen now p.0)
      (voiced-text_append kind inside seen now p.0)

cross_append :
    (kind : PieceKind) (inside seen : Bool) (now : String) (r : String × String)
    → cross kind inside seen (text_append now r.0, r.1)
      ≡ prepend (voiced kind inside seen now) (cross kind inside (seen_after inside seen now) r)
cross_append kind inside seen now r =
    let x = seen_after inside seen now in
    ap₂ (λ y v. prepend v (settled kind (not inside) y r.1))
      (seen_after-text_append inside seen now r.0) (voiced-text_append kind inside seen now r.0)
    ∙ prepend_append (voiced kind inside seen now) (voiced kind inside x r.0)
        (settled kind (not inside) (seen_after inside x r.0) r.1)

-- More text for a splitter that has settled.
abbrev resume : PieceKind → String → Turn → Turn
resume kind b t = prepend t.1 (settled kind t.0.in_think t.0.seen_text (text_append t.0.buffer b))

-- The text that is held, with more behind it, settles as the whole text does.
settled_held :
    (kind : PieceKind) (inside seen : Bool) (a b : String)
    → split_at_tag (tag_of inside) a ≡ none
    → settled kind inside seen (text_append a b)
      ≡ resume kind b (rest kind inside seen (split_hold (tag_of inside) a))
settled_held kind inside seen a b h =
    let tag = tag_of inside in
    let (now, hold) = split_hold tag a in
    let whole = split_at_tag_held tag a b h in
    let before = prepend (voiced kind inside seen now) in
    let x = seen_after inside seen now in
    elim (Option-cases (split_at_tag tag (text_append hold b))) [
      | inl e ↦
          settled_off kind inside seen (text_append a b) (whole ∙ ap (lead now) e)
          ∙ ap (rest kind inside seen) (split_hold_longer tag a b)
          ∙ rest_append kind inside seen now (split_hold tag (text_append hold b))
          ∙ ap before (sym (settled_off kind inside x (text_append hold b) e))
      | inr (r, e) ↦
          settled_found kind inside seen (text_append a b) (text_append now r.0, r.1)
            (whole ∙ ap (lead now) e)
          ∙ cross_append kind inside seen now r
          ∙ ap before (sym (settled_found kind inside x (text_append hold b) r e))
    ]

settled_cut :
    (n : ℕ) (kind : PieceKind) (inside seen : Bool) (a b : String)
    → text_length a < n
    → settled kind inside seen (text_append a b) ≡ resume kind b (settled kind inside seen a)
settled_cut zero kind inside seen a b p = absurd (omega (arith, p))
settled_cut (suc n) kind inside seen a b p = elim (Option-cases (split_at_tag (tag_of inside) a)) [
  | inl h ↦
      settled_held kind inside seen a b h
      ∙ ap (resume kind b) (sym (settled_off kind inside seen a h))
  | inr (r, h) ↦
      let v = voiced kind inside seen r.0 in
      let x = seen_after inside seen r.0 in
      let t = settled kind (not inside) x r.1 in
      settled_found kind inside seen (text_append a b) (r.0, text_append r.1 b)
        (split_at_tag_found (tag_of inside) a b r h)
      ∙ ap (prepend v)
          (settled_cut n kind (not inside) x r.1 b (omega (arith, shorter inside a r h, p)))
      ∙ sym (
          prepend_append v t.1 (settled kind t.0.in_think t.0.seen_text (text_append t.0.buffer b)))
      ∙ ap (resume kind b) (sym (settled_found kind inside seen a r h))
]

feed-settled :
    (kind : PieceKind) (chunk : String) (s : ThinkTagSplitter)
    → IsTold kind []
        (feed chunk s)
        (settled kind s.in_think s.seen_text (text_append s.buffer chunk))
unfolding feed
feed-settled kind chunk s =
    feed_loop-scan (text_length (text_append s.buffer chunk) + 1) kind s.in_think s.seen_text
      (text_append s.buffer chunk) []

-- However a text is cut in two, the splitter is left the same, with the same end held back, as when it
-- is fed the whole at once, and the text that it puts out of either kind is the same, whatever the
-- splitter was before.
pub feed-text_append :
    (kind : PieceKind) (a b : String) (s : ThinkTagSplitter)
    → ((feed b (feed a s).0).0 ≡ (feed (text_append a b) s).0)
      × (text_append (said kind (feed a s).1) (said kind (feed b (feed a s).0).1)
          ≡ said kind (feed (text_append a b) s).1)
unfolding said text_append
feed-text_append kind a b s =
    let whole = text_append s.buffer a in
    let first = feed-settled kind a s in
    let second = feed-settled kind b (feed a s).0 in
    let both = feed-settled kind (text_append a b) s in
    let joined : settled kind s.in_think s.seen_text (text_append s.buffer (text_append a b))
        ≡ resume kind b (settled kind s.in_think s.seen_text whole) =
      ap (settled kind s.in_think s.seen_text) (sym (text_append_assoc s.buffer a b))
      ∙ settled_cut (text_length whole + 1) kind s.in_think s.seen_text whole b (omega arith) in
    let later : ThinkTagSplitter → Turn =
      λ q. settled kind q.in_think q.seen_text (text_append q.buffer b) in
    (
      second.0 ∙ ap (λ q. (later q).0) first.0 ∙ sym (ap (λ (t : Turn). t.0) joined) ∙ sym both.0,
      ap₂ text_append first.1 (second.1 ∙ ap (λ q. (later q).1) first.0)
          ∙ sym (ap (λ (t : Turn). t.1) joined)
          ∙ sym both.1,
    )
