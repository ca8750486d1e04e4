-- ===== src/Aliases/Sorted.antt =====
-- A sorted list of rules has the best rule that applies in front of the others that do.
use llm_proxy_server.Prelude.{
  ◌≡◌, refl, Bool, true, false, Option, none, some, List, [], ◌∷◌, if◌then◌else◌, arith, Bool-cases,
  Option-cases, inl, inr, All, sym, ap, ◌∙◌, subst, String-Keyed,
}
use llm_proxy_server.Aliases.{AliasRule, precedes, insert_rule, sort_rules, first_rule}

-- The rule with the least key among those of a list that apply, the first of those with the same key.
abbrev pub best_rule : (AliasRule → Bool) → List AliasRule → Option AliasRule
best_rule applies [] = none
best_rule applies (r ∷ rules) =
    let best = best_rule applies rules in
    if applies r
    then (elim best as (λ _. Option AliasRule) [
      | none ↦ some r
      | some b ↦ if precedes r b then some r else some b
    ])
    else best

pub precedes_trans :
    (r s t : AliasRule) → precedes r s ≡ true → precedes s t ≡ true → precedes r t ≡ true
unfolding precedes
precedes_trans r s t h k = ground arith

pub precedes_total : (r s : AliasRule) → precedes r s ≡ false → precedes s r ≡ true
unfolding precedes
precedes_total r s h = ground arith

abbrev IsSorted : List AliasRule → Type 0
IsSorted [] = Unit
IsSorted (r ∷ rules) = All (λ s. precedes r s ≡ true) rules × IsSorted rules

All-trans :
    (r s : AliasRule) (rules : List AliasRule)
    → precedes r s ≡ true
    → All (λ t. precedes s t ≡ true) rules
    → All (λ t. precedes r t ≡ true) rules
All-trans r s [] h a = tt
All-trans r s (t ∷ rules) h a = (precedes_trans r s t h a.0, All-trans r s rules h a.1)

insert_rule_before :
    (r s : AliasRule) (rules : List AliasRule)
    → precedes r s ≡ true
    → insert_rule r (s ∷ rules) ≡ r ∷ s ∷ rules
unfolding insert_rule
insert_rule_before r s rules e = ground (arith, e)

insert_rule_after :
    (r s : AliasRule) (rules : List AliasRule)
    → precedes r s ≡ false
    → insert_rule r (s ∷ rules) ≡ s ∷ insert_rule r rules
unfolding insert_rule
insert_rule_after r s rules e = ground (arith, e)

All-insert_rule :
    (r s : AliasRule) (rules : List AliasRule)
    → precedes s r ≡ true
    → All (λ t. precedes s t ≡ true) rules
    → All (λ t. precedes s t ≡ true) (insert_rule r rules)
unfolding insert_rule
All-insert_rule r s [] h a = (h, tt)
All-insert_rule r s (t ∷ rules) h a = elim (Bool-cases (precedes r t)) [
  | inl e ↦ subst (All (λ t. precedes s t ≡ true)) (sym (insert_rule_before r t rules e)) (h, a)
  | inr e ↦
      subst (All (λ t. precedes s t ≡ true)) (sym (insert_rule_after r t rules e))
        (a.0, All-insert_rule r s rules h a.1)
]

insert_rule-IsSorted :
    (r : AliasRule) (rules : List AliasRule) → IsSorted rules → IsSorted (insert_rule r rules)
unfolding insert_rule
insert_rule-IsSorted r [] h = (tt, tt)
insert_rule-IsSorted r (s ∷ rules) h = elim (Bool-cases (precedes r s)) [
  | inl e ↦
      subst IsSorted (sym (insert_rule_before r s rules e)) ((e, All-trans r s rules e h.0), h)
  | inr e ↦
      subst IsSorted (sym (insert_rule_after r s rules e))
        (All-insert_rule r s rules (precedes_total r s e) h.0, insert_rule-IsSorted r rules h.1)
]

sort_rules-IsSorted : (rules : List AliasRule) → IsSorted (sort_rules rules)
unfolding sort_rules
sort_rules-IsSorted [] = tt
sort_rules-IsSorted (r ∷ rules) =
    insert_rule-IsSorted r (sort_rules rules) (sort_rules-IsSorted rules)

-- What holds of all the rules holds of the one that is found.
first_rule-All :
    (applies : AliasRule → Bool) (r b : AliasRule) (rules : List AliasRule)
    → All (λ t. precedes r t ≡ true) rules
    → first_rule applies rules ≡ some b
    → precedes r b ≡ true
unfolding first_rule
first_rule-All applies r b [] a e = ground (arith, e)
first_rule-All applies r b (s ∷ rules) a e = elim (Bool-cases (applies s)) [
  | inl t ↦ ground (arith, e, t, a.0)
  | inr f ↦ first_rule-All applies r b rules a.1 (ground (arith, e, f))
]

-- The better of a rule and the best of the others.
abbrev pub better : (AliasRule → Bool) → AliasRule → Option AliasRule → Option AliasRule
better applies r best =
    if applies r
    then (elim best as (λ _. Option AliasRule) [
      | none ↦ some r
      | some b ↦ if precedes r b then some r else some b
    ])
    else best

first_rule-insert_rule :
    (applies : AliasRule → Bool) (r : AliasRule) (rules : List AliasRule)
    → IsSorted rules
    → first_rule applies (insert_rule r rules) ≡ better applies r (first_rule applies rules)
unfolding first_rule insert_rule
first_rule-insert_rule applies r [] h = refl
first_rule-insert_rule applies r (s ∷ rules) h = elim (Option-cases (first_rule applies rules)) [
  | inl e ↦ ground (arith, e, first_rule-insert_rule applies r rules h.1)
  | inr (b, e) ↦ ground (
    arith,
    e,
    first_rule-insert_rule applies r rules h.1,
    precedes_trans r s b,
    first_rule-All applies s b rules h.0 e,
  )
]

pub first_rule-sort_rules :
    (applies : AliasRule → Bool) (rules : List AliasRule)
    → first_rule applies (sort_rules rules) ≡ best_rule applies rules
unfolding first_rule sort_rules
first_rule-sort_rules applies [] = refl
first_rule-sort_rules applies (r ∷ rules) =
    first_rule-insert_rule applies r (sort_rules rules) (sort_rules-IsSorted rules)
    ∙ ap (better applies r) (first_rule-sort_rules applies rules)
