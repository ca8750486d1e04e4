-- ===== src/Aliases/First.antt =====
-- The rule that a snapshot hits is the first in the order of the administrator that applies.
use llm_proxy_server.Prelude.{
  ◌≡◌, refl, true, false, Option, none, some, List, [], ◌∷◌, String, arith, Bool-cases, inl, inr,
  All, sym, ap, ◌∙◌, subst, ◌↔◌, ◌≤◌, ◌⊎◌, text_length, contains, get_or, ℤ, pos, negsuc, ltb_ℤ,
  str_eq_iff, String-Keyed,
}
use mathlib.Core.List.{Memᴰ}
use llm_proxy_server.Aliases.{
  Texts, MatchType, exact, including, regex, rule_matches, AliasRule, precedes, sort_rules,
  rule_applies, match_rules,
}
use llm_proxy_server.Aliases.Sorted.{
  best_rule, better, precedes_trans, precedes_total, first_rule-sort_rules,
}

-- A rule meets a name: names over 256 characters meet exact rules only.
abbrev pub IsMet : Texts → MatchType → String → String → Type 0
IsMet x exact pattern name = name ≡ pattern
IsMet x including pattern name =
    (text_length name ≤ 256) × (x.includes (x.casefold pattern) (x.casefold name) ≡ true)
IsMet x regex pattern name = (text_length name ≤ 256) × (x.search pattern name ≡ true)

-- A rule is for a surface; without one, every rule is.
abbrev pub IsFor : Option String → AliasRule → Type 0
IsFor none r = Unit
IsFor (some surface) r = contains r.apis surface ≡ true

abbrev pub IsHit : Texts → String → Option String → AliasRule → Type 0
IsHit x name api r = IsFor api r × IsMet x r.match_type r.pattern name

-- A lower priority, or the same and no greater id; a rule without id counts as 0.
abbrev pub IsAhead : AliasRule → AliasRule → Type 0
IsAhead r s =
    (ltb_ℤ r.priority s.priority ≡ true)
    ⊎ ((r.priority ≡ s.priority) × (get_or r.id 0 ≤ get_or s.id 0))

-- What is found among rules: none when none is hit, and otherwise one of them that is hit and that no
-- other that is hit is ahead of.
abbrev pub IsFirst : Texts → String → Option String → List AliasRule → Option AliasRule → Type 0
IsFirst x name api rules none = All (λ s. ¬ IsHit x name api s) rules
IsFirst x name api rules (some b) =
    Memᴰ b rules × IsHit x name api b × All (λ s. IsHit x name api s → IsAhead b s) rules

same_priority : (a b : ℤ) → ltb_ℤ a b ≡ false → ltb_ℤ b a ≡ false → a ≡ b
same_priority (pos m) (pos n) h k = ground (arith, h, k)
same_priority (negsuc m) (negsuc n) h k = ground (arith, h, k)
same_priority (pos m) (negsuc n) h k = ground (arith, h, k)
same_priority (negsuc m) (pos n) h k = ground (arith, h, k)

ltb_irrefl : (a : ℤ) → ltb_ℤ a a ≡ false
ltb_irrefl a = ground arith

precedes-IsAhead : (r s : AliasRule) → precedes r s ≡ true → IsAhead r s
unfolding precedes
precedes-IsAhead r s h = elim (Bool-cases (ltb_ℤ r.priority s.priority)) [
  | inl e ↦ inl e
  | inr e ↦ elim (Bool-cases (ltb_ℤ s.priority r.priority)) [
    | inl f ↦ absurd (ground (arith, h, e, f))
    | inr f ↦ inr (same_priority r.priority s.priority e f, ground (arith, h, e, f))
  ]
]

IsAhead-precedes : (r s : AliasRule) → IsAhead r s → precedes r s ≡ true
unfolding precedes
IsAhead-precedes r s (inl e) = ground (arith, e)
IsAhead-precedes r s (inr (same, e)) =
    let low : ltb_ℤ r.priority s.priority ≡ false =
      ap (λ p. ltb_ℤ p s.priority) same ∙ ltb_irrefl s.priority in
    let high : ltb_ℤ s.priority r.priority ≡ false =
      ap (λ p. ltb_ℤ s.priority p) same ∙ ltb_irrefl s.priority in
    ground (arith, low, high, e)

IsAhead-trans : (r s t : AliasRule) → IsAhead r s → IsAhead s t → IsAhead r t
IsAhead-trans r s t h k =
    precedes-IsAhead r t (precedes_trans r s t (IsAhead-precedes r s h) (IsAhead-precedes s t k))

IsAhead-refl : (r : AliasRule) → IsAhead r r
IsAhead-refl r = inr (refl, omega arith)

MatchType-cases : (m : MatchType) → (m ≡ exact) ⊎ ((m ≡ including) ⊎ (m ≡ regex))
MatchType-cases exact = inl refl
MatchType-cases including = inr (inl refl)
MatchType-cases regex = inr (inr refl)

rule_applies-IsHit :
    (x : Texts) (name : String) (api : Option String) (r : AliasRule)
    → (rule_applies x name api r ≡ true) ↔ IsHit x name api r
unfolding rule_applies rule_matches
rule_applies-IsHit x name none r = elim (MatchType-cases r.match_type) [
  | inl e ↦ rw (e, rule_matches) (ground (arith, str_eq_iff name r.pattern))
  | inr (inl e) ↦ rw (e, rule_matches) (ground arith)
  | inr (inr e) ↦ rw (e, rule_matches) (ground arith)
]
rule_applies-IsHit x name (some surface) r = elim (MatchType-cases r.match_type) [
  | inl e ↦ rw (e, rule_matches) (ground (arith, str_eq_iff name r.pattern))
  | inr (inl e) ↦ rw (e, rule_matches) (ground arith)
  | inr (inr e) ↦ rw (e, rule_matches) (ground arith)
]

IsAhead-All :
    (x : Texts) (name : String) (api : Option String) (r b : AliasRule) (rules : List AliasRule)
    → IsAhead r b
    → All (λ s. IsHit x name api s → IsAhead b s) rules
    → All (λ s. IsHit x name api s → IsAhead r s) rules
IsAhead-All x name api r b [] h a = tt
IsAhead-All x name api r b (s ∷ rules) h a =
    (λ k. IsAhead-trans r b s h (a.0 k), IsAhead-All x name api r b rules h a.1)

IsAhead-none :
    (x : Texts) (name : String) (api : Option String) (r : AliasRule) (rules : List AliasRule)
    → All (λ s. ¬ IsHit x name api s) rules
    → All (λ s. IsHit x name api s → IsAhead r s) rules
IsAhead-none x name api r [] a = tt
IsAhead-none x name api r (s ∷ rules) a = (λ k. absurd (a.0 k), IsAhead-none x name api r rules a.1)

better-IsFirst :
    (x : Texts) (name : String) (api : Option String) (r : AliasRule) (rules : List AliasRule)
    (best : Option AliasRule)
    → IsFirst x name api rules best
    → IsFirst x name api (r ∷ rules) (better (rule_applies x name api) r best)
better-IsFirst x name api r rules none h = elim (Bool-cases (rule_applies x name api r)) [
  | inl e ↦ rw e (
    Memᴰ.head refl,
    (rule_applies-IsHit x name api r).0 e,
    (λ _. IsAhead-refl r, IsAhead-none x name api r rules h),
  )
  | inr e ↦ rw e (λ k. absurd (ground (arith, e, (rule_applies-IsHit x name api r).1 k)), h)
]
better-IsFirst x name api r rules (some b) h = elim (Bool-cases (rule_applies x name api r)) [
  | inr e ↦ rw e (
    Memᴰ.tail h.0,
    h.1,
    (λ k. absurd (ground (arith, e, (rule_applies-IsHit x name api r).1 k)), h.2),
  )
  | inl e ↦ elim (Bool-cases (precedes r b)) [
    | inl p ↦
        rw (e, p)
          (
            Memᴰ.head refl,
            (rule_applies-IsHit x name api r).0 e,
            (λ _. IsAhead-refl r, IsAhead-All x name api r b rules (precedes-IsAhead r b p) h.2),
          )
    | inr p ↦
        rw (e, p) (Memᴰ.tail h.0, h.1, (λ _. precedes-IsAhead b r (precedes_total r b p), h.2))
  ]
]

best_rule-IsFirst :
    (x : Texts) (name : String) (api : Option String) (rules : List AliasRule)
    → IsFirst x name api rules (best_rule (rule_applies x name api) rules)
best_rule-IsFirst x name api [] = tt
best_rule-IsFirst x name api (r ∷ rules) =
    better-IsFirst x name api r rules (best_rule (rule_applies x name api) rules)
      (best_rule-IsFirst x name api rules)

-- The rule that a name hits on a surface is a rule of the list, it is for the surface and meets the
-- name, and no rule of the list of which that holds is ahead of it, by a lower priority or by the same
-- priority and a lower id; and none is hit only when no rule of the list is for the surface and meets
-- the name. Names over 256 characters meet exact rules only.
pub match_rules-IsFirst :
    (x : Texts) (rules : List AliasRule) (name : String) (api : Option String)
    → IsFirst x name api rules (match_rules x (sort_rules rules) name api)
unfolding match_rules
match_rules-IsFirst x rules name api =
    subst (IsFirst x name api rules) (sym (first_rule-sort_rules (rule_applies x name api) rules))
      (best_rule-IsFirst x name api rules)
