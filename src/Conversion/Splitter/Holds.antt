-- ===== src/Conversion/Splitter/Holds.antt =====
-- What the end that `ThinkTagSplitter.feed` of app/conversion/anthropic_helpers.py holds back is worth
-- when more text comes.
use Prim.Native.Char.{Char}
use llm_proxy_server.Prelude.{
  ◌≡◌, refl, sym, ap, ◌∙◌, Bool, true, false, ◌&&◌, Option, none, some, String, starts_with,
  text_length, ltb, if_true, if_false, text_append, arith, Bool-cases, Option-cases, inl, inr,
}
use llm_proxy_server.Conversion.Splitter.{split_at_tag, split_hold}
use llm_proxy_server.Conversion.Splitter.Cuts.{
  text_length-text_append, starts_with-over, starts_with-shorter, split_at_tag_here, before_all,
  split_at_tag_later,
}

-- What is emitted in front of what a search finds.
abbrev pub lead : String → Option (String × String) → Option (String × String)
lead emitted none = none
lead emitted (some (before, after)) = some (text_append emitted before, after)

lead_nil : (o : Option (String × String)) → o ≡ lead "" o
unfolding text_append
lead_nil none = refl
lead_nil (some r) = refl

lead_cons :
    (c : Char) (emitted : String) (o : Option (String × String))
    → before_all c (lead emitted o) ≡ lead (String.◌∷◌ c emitted) o
unfolding text_append
lead_cons c emitted none = refl
lead_cons c emitted (some r) = refl

-- The test for an end that is held.
abbrev is_held : String → String → Bool
is_held tag s = starts_with s tag && ltb (text_length s) (text_length tag)

split_hold_held :
    (tag : String) (c : Char) (s : String)
    → is_held tag (String.◌∷◌ c s) ≡ true
    → split_hold tag (String.◌∷◌ c s) ≡ ("", String.◌∷◌ c s)
unfolding split_hold
split_hold_held tag c s e = if_true (is_held tag (String.◌∷◌ c s)) _ _ e

split_hold_emitted :
    (tag : String) (c : Char) (s : String)
    → is_held tag (String.◌∷◌ c s) ≡ false
    → split_hold tag (String.◌∷◌ c s) ≡ (String.◌∷◌ c (split_hold tag s).0, (split_hold tag s).1)
unfolding split_hold
split_hold_emitted tag c s e = if_false (is_held tag (String.◌∷◌ c s)) _ _ e

not_found_later :
    (tag : String) (c : Char) (s : String)
    → split_at_tag tag (String.◌∷◌ c s) ≡ none
    → (starts_with tag (String.◌∷◌ c s) ≡ false) × (split_at_tag tag s ≡ none)
not_found_later tag c s h = elim (Bool-cases (starts_with tag (String.◌∷◌ c s))) [
  | inl e ↦ absurd (ground (arith, sym (split_at_tag_here tag c s e) ∙ h))
  | inr e ↦ (
    e,
    elim (Option-cases (split_at_tag tag s)) [
      | inl none_there ↦ none_there
      | inr (r, found) ↦
          absurd (ground (arith, sym (split_at_tag_later tag c s e) ∙ h, ap (before_all c) found))
    ],
  )
]

not_over_held :
    (tag : String) (c : Char) (s b : String)
    → starts_with tag (String.◌∷◌ c s) ≡ false
    → is_held tag (String.◌∷◌ c s) ≡ false
    → starts_with tag (String.◌∷◌ c (text_append s b)) ≡ false
unfolding text_append
not_over_held tag c s b e held =
    elim (Bool-cases (starts_with tag (String.◌∷◌ c (text_append s b)))) [
      | inl over ↦ absurd (ground (arith, held, starts_with-over tag (String.◌∷◌ c s) b over e))
      | inr off ↦ off
    ]

not_held_longer :
    (tag : String) (c : Char) (s b : String)
    → is_held tag (String.◌∷◌ c s) ≡ false
    → is_held tag (String.◌∷◌ c (text_append s b)) ≡ false
unfolding text_length text_append
not_held_longer tag c s b e =
    ground (arith, e, starts_with-shorter (String.◌∷◌ c s) b tag, text_length-text_append s b)

-- Without a tag, a longer text is searched from the end that is held.
pub split_at_tag_held :
    (tag s b : String)
    → split_at_tag tag s ≡ none
    → split_at_tag tag (text_append s b)
      ≡ lead (split_hold tag s).0 (split_at_tag tag (text_append (split_hold tag s).1 b))
unfolding text_append split_hold
split_at_tag_held tag String.[] b h = lead_nil (split_at_tag tag b)
split_at_tag_held tag (String.◌∷◌ c s) b h = elim (Bool-cases (is_held tag (String.◌∷◌ c s))) [
  | inl e ↦
      rw (split_hold_held tag c s e) (lead_nil (split_at_tag tag (String.◌∷◌ c (text_append s b))))
  | inr e ↦
      let (off, rest) = not_found_later tag c s h in
      rw (split_hold_emitted tag c s e) (
        split_at_tag_later tag c (text_append s b) (not_over_held tag c s b off e)
        ∙ ap (before_all c) (split_at_tag_held tag s b rest)
        ∙ lead_cons c (split_hold tag s).0 (split_at_tag tag (text_append (split_hold tag s).1 b)))
]

pub split_hold_longer :
    (tag s b : String)
    → split_hold tag (text_append s b) ≡ (
      text_append (split_hold tag s).0 (split_hold tag (text_append (split_hold tag s).1 b)).0,
      (split_hold tag (text_append (split_hold tag s).1 b)).1,
    )
unfolding text_append split_hold
split_hold_longer tag String.[] b = refl
split_hold_longer tag (String.◌∷◌ c s) b = elim (Bool-cases (is_held tag (String.◌∷◌ c s))) [
  | inl e ↦ rw (split_hold_held tag c s e) refl
  | inr e ↦
      rw
        (
          split_hold_emitted tag c s e,
          split_hold_emitted tag c (text_append s b) (not_held_longer tag c s b e),
          split_hold_longer tag s b,
        )
        refl
]
