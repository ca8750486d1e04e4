-- ===== src/Conversion/Splitter/Cuts.antt =====
-- How a text that is cut in two is searched for a tag, as `ThinkTagSplitter.feed` of
-- app/conversion/anthropic_helpers.py searches its buffer.
use Prim.Native.Char.{Char}
use llm_proxy_server.Prelude.{
  ℕ, suc, zero, ◌+◌, ◌≤◌, ◌<◌, ◌≡◌, ◌≢◌, refl, sym, ap, ◌∙◌, true, false, Option, none, some,
  String, starts_with, text_length, if_true, if_false, behind_chars, text_append, arith, Bool-cases,
  Option-cases, inl, inr,
}
use llm_proxy_server.Conversion.Splitter.{split_at_tag}

pub text_length-text_append :
    (s t : String) → text_length (text_append s t) ≡ text_length s + text_length t
unfolding text_append text_length
text_length-text_append String.[] t = omega arith
text_length-text_append (String.◌∷◌ c s) t = omega (arith, text_length-text_append s t)

starts_with-longer :
    (p s b : String) → starts_with p s ≡ true → starts_with p (text_append s b) ≡ true
unfolding starts_with text_append
starts_with-longer String.[] s b h = refl
starts_with-longer (String.◌∷◌ c p) String.[] b h = absurd (ground (arith, h))
starts_with-longer (String.◌∷◌ c p) (String.◌∷◌ d s) b h =
    ground (arith, h, starts_with-longer p s b)

-- A tag that begins a longer text and not its first part goes over the end of that part.
pub starts_with-over :
    (t x b : String)
    → starts_with t (text_append x b) ≡ true
    → starts_with t x ≡ false
    → (starts_with x t ≡ true) × (text_length x < text_length t)
unfolding starts_with text_append text_length
starts_with-over String.[] x b h n = absurd (ground (arith, n))
starts_with-over (String.◌∷◌ c t) String.[] b h n = (refl, omega arith)
starts_with-over (String.◌∷◌ c t) (String.◌∷◌ d x) b h n =
    ground (arith, h, n, starts_with-over t x b)

pub starts_with-shorter :
    (x b t : String) → starts_with (text_append x b) t ≡ true → starts_with x t ≡ true
unfolding starts_with text_append
starts_with-shorter String.[] b t h = refl
starts_with-shorter (String.◌∷◌ c x) b String.[] h = absurd (ground (arith, h))
starts_with-shorter (String.◌∷◌ c x) b (String.◌∷◌ d t) h =
    ground (arith, h, starts_with-shorter x b t)

behind_chars_step :
    (n : ℕ) (c : Char) (s : String) → behind_chars (n + 1) (String.◌∷◌ c s) ≡ behind_chars n s
unfolding behind_chars
behind_chars_step n c s =
    let step : n + 1 ≡ suc n = omega arith in ap (λ m. behind_chars m (String.◌∷◌ c s)) step

behind_chars-longer :
    (p s b : String)
    → starts_with p s ≡ true
    → behind_chars (text_length p) (text_append s b)
      ≡ text_append (behind_chars (text_length p) s) b
unfolding starts_with text_append text_length behind_chars
behind_chars-longer String.[] s b h = refl
behind_chars-longer (String.◌∷◌ c p) String.[] b h = absurd (ground (arith, h))
behind_chars-longer (String.◌∷◌ c p) (String.◌∷◌ d s) b h =
    behind_chars_step (text_length p) d (text_append s b)
    ∙ behind_chars-longer p s b (ground (arith, h))
    ∙ ap (λ t. text_append t b) (sym (behind_chars_step (text_length p) d s))

pub split_at_tag_here :
    (tag : String) (c : Char) (s : String)
    → starts_with tag (String.◌∷◌ c s) ≡ true
    → split_at_tag tag (String.◌∷◌ c s) ≡ some ("", behind_chars (text_length tag) (String.◌∷◌ c s))
unfolding split_at_tag
split_at_tag_here tag c s e = if_true (starts_with tag (String.◌∷◌ c s)) _ _ e

-- One character more in front.
abbrev pub before_all : Char → Option (String × String) → Option (String × String)
before_all c none = none
before_all c (some (before, after)) = some (String.◌∷◌ c before, after)

pub split_at_tag_later :
    (tag : String) (c : Char) (s : String)
    → starts_with tag (String.◌∷◌ c s) ≡ false
    → split_at_tag tag (String.◌∷◌ c s) ≡ before_all c (split_at_tag tag s)
unfolding split_at_tag
split_at_tag_later tag c s e = if_false (starts_with tag (String.◌∷◌ c s)) _ _ e

starts_with_length : (p s : String) → starts_with p s ≡ true → text_length p ≤ text_length s
unfolding starts_with text_length
starts_with_length String.[] s h = omega arith
starts_with_length (String.◌∷◌ c p) String.[] h = absurd (ground (arith, h))
starts_with_length (String.◌∷◌ c p) (String.◌∷◌ d s) h = ground (arith, h, starts_with_length p s)

not_found : (tag : String) (r : String × String) → split_at_tag tag "" ≢ some r
unfolding split_at_tag
not_found tag r h = ground (arith, h)

-- A tag that is no longer than the rest does not begin in front of it and go over its end.
not_over :
    (tag : String) (c : Char) (s b : String)
    → starts_with tag (String.◌∷◌ c s) ≡ false
    → text_length tag ≤ text_length s
    → starts_with tag (String.◌∷◌ c (text_append s b)) ≡ false
unfolding text_length text_append
not_over tag c s b e le = elim (Bool-cases (starts_with tag (String.◌∷◌ c (text_append s b)))) [
  | inl over ↦ absurd (omega (arith, (starts_with-over tag (String.◌∷◌ c s) b over e).1, le))
  | inr off ↦ off
]

behind_chars_length :
    (n : ℕ) (s : String) → n ≤ text_length s → text_length (behind_chars n s) + n ≤ text_length s
unfolding behind_chars text_length
behind_chars_length zero s h = omega arith
behind_chars_length (suc n) String.[] h = absurd (omega (arith, h))
behind_chars_length (suc n) (String.◌∷◌ c s) h =
    omega (arith, behind_chars_length n s (omega (arith, h)))

-- What is behind the place that a search finds.
abbrev after_of : Option (String × String) → String
after_of none = ""
after_of (some r) = r.1

pub split_at_tag_length :
    (tag s : String) (r : String × String)
    → split_at_tag tag s ≡ some r
    → text_length r.1 + text_length tag ≤ text_length s
unfolding text_length
split_at_tag_length tag String.[] r h = absurd (not_found tag r h)
split_at_tag_length tag (String.◌∷◌ c s) r h =
    elim (Bool-cases (starts_with tag (String.◌∷◌ c s))) [
      | inl e ↦
          let same : behind_chars (text_length tag) (String.◌∷◌ c s) ≡ r.1 =
            ap after_of (sym (split_at_tag_here tag c s e) ∙ h) in
          let fits = starts_with_length tag (String.◌∷◌ c s) e in
          let rest = behind_chars_length (text_length tag) (String.◌∷◌ c s) fits in
          omega (arith, rest, ap text_length same)
      | inr e ↦ elim (Option-cases (split_at_tag tag s)) [
        | inl none_there ↦
            absurd
              (ground (arith, sym (split_at_tag_later tag c s e) ∙ h, ap (before_all c) none_there))
        | inr (r', found) ↦
            let same : r'.1 ≡ r.1 =
              ap after_of
                (ap (before_all c) (sym found) ∙ sym (split_at_tag_later tag c s e) ∙ h) in
            let rest = split_at_tag_length tag s r' found in
            omega (arith, rest, ap text_length same)
      ]
    ]

-- The text behind the tag, with more at its end.
abbrev grown : String → Option (String × String) → Option (String × String)
grown b none = none
grown b (some (before, after)) = some (before, text_append after b)

-- A tag that is found is found at its place in a longer text.
pub split_at_tag_found :
    (tag s b : String) (r : String × String)
    → split_at_tag tag s ≡ some r
    → split_at_tag tag (text_append s b) ≡ some (r.0, text_append r.1 b)
unfolding text_append
split_at_tag_found tag String.[] b r h = absurd (not_found tag r h)
split_at_tag_found tag (String.◌∷◌ c s) b r h =
    elim (Bool-cases (starts_with tag (String.◌∷◌ c s))) [
      | inl e ↦
          split_at_tag_here tag c (text_append s b) (starts_with-longer tag (String.◌∷◌ c s) b e)
          ∙ ap (λ t. some ("", t)) (behind_chars-longer tag (String.◌∷◌ c s) b e)
          ∙ ap (grown b) (sym (split_at_tag_here tag c s e) ∙ h)
      | inr e ↦ elim (Option-cases (split_at_tag tag s)) [
        | inl none_there ↦
            absurd
              (ground (arith, sym (split_at_tag_later tag c s e) ∙ h, ap (before_all c) none_there))
        | inr (r', found) ↦
            split_at_tag_later tag c (text_append s b)
              (not_over tag c s b e (omega (arith, split_at_tag_length tag s r' found)))
            ∙ ap (before_all c) (split_at_tag_found tag s b r' found)
            ∙ ap (grown b) (ap (before_all c) (sym found) ∙ sym (split_at_tag_later tag c s e) ∙ h)
      ]
    ]
