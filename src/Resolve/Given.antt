-- ===== src/Resolve/Given.antt =====
-- What the candidates of an evaluation have in common, through the fallbacks of a resolution.
use llm_proxy_server.Prelude.{
  ◌≡◌, Bool, true, false, not, ◌&&◌, Option, none, some, List, [], ◌∷◌, filter, is_some, is_empty,
  String, str_eq, if◌then◌else◌, arith, Bool-cases, Option-cases, inl, inr,
}
use llm_proxy_server.Byok.{is_byok_model_of}
use llm_proxy_server.Outages.{Outage, outage_for}
use llm_proxy_server.Resolve.Index.{has_model_id}
use llm_proxy_server.Resolve.Evaluate.{
  Router, Principal, Evaluation, ok, unavailable, denied, outage, single, evaluate_pool, evaluate,
  has_provider_prefix, canonical_for_prefix, pool_for, rest_of, head_of, is_ok,
}
use llm_proxy_server.Resolve.Names.{Resolver, judge, regular_evaluation, or_served}

-- The candidates of an evaluation that has some.
abbrev pub IsGiven : (List String → Type 0) → Evaluation → Type 0
IsGiven Q (ok candidates) = Q candidates
IsGiven Q _ = Unit

failed-IsGiven : (Q : List String → Type 0) (ev : Evaluation) → is_ok ev ≡ false → IsGiven Q ev
failed-IsGiven Q (ok cs) h = absurd (ground (arith, h))
failed-IsGiven Q unavailable h = tt
failed-IsGiven Q denied h = tt
failed-IsGiven Q (outage os) h = tt

-- What is left of a pool by the last two filters of `_evaluate`.
abbrev pub live_of : Router → (String → Bool) → List String → List String
live_of r may_use pool =
    filter (λ m. not (is_some (outage_for r.outages (some m)))) (filter may_use pool)

-- What holds of one candidate that can be served, and of all that are left of a pool if any are.
module _ (r : Router) (may_use : String → Bool) (Q : List String → Type 0)
    (of_one : (m : String) → may_use m ≡ true → outage_for r.outages (some m) ≡ none → Q (m ∷ []))
    (of_pool : (pool : List String)
      → is_empty (live_of r may_use pool) ≡ false
      → Q (live_of r may_use pool)) where
  single-IsGiven : (m : String) → IsGiven Q (single r may_use true m)
  unfolding single
  single-IsGiven m = elim (Bool-cases (may_use m)) [
    | inr e ↦ elim (Bool-cases (is_byok_model_of r.cache.owners (some m))) [
      | inl f ↦ rw (e, f) tt
      | inr f ↦ rw (e, f) tt
    ]
    | inl e ↦ elim (Option-cases (outage_for r.outages (some m))) [
      | inl f ↦ rw (e, f) (of_one m e f)
      | inr (o, f) ↦ rw (e, f) tt
    ]
  ]

  evaluate_pool-IsGiven : (pool : List String) → IsGiven Q (evaluate_pool r may_use true pool)
  unfolding evaluate_pool
  evaluate_pool-IsGiven pool = elim (Bool-cases (is_empty pool)) [
    | inl e ↦ rw e tt
    | inr e ↦ elim (Bool-cases (is_empty (filter may_use pool))) [
      | inl f ↦ rw (e, f) tt
      | inr f ↦ elim (Bool-cases (is_empty (live_of r may_use pool))) [
        | inl g ↦ rw (e, f, g) tt
        | inr g ↦ rw (e, f, g) (of_pool pool g)
      ]
    ]
  ]

  pub evaluate-IsGiven :
      (api : Option String) (strip : Bool) (name : String)
      → IsGiven Q (evaluate r may_use api strip true name)
  unfolding evaluate
  evaluate-IsGiven api strip name = elim (Bool-cases (has_model_id r.model_ids name)) [
    | inl e ↦ rw e (single-IsGiven name)
    | inr e ↦
        elim (Bool-cases (not (str_eq (rest_of name) "") && has_provider_prefix r (head_of name))) [
          | inl f ↦ rw (e, f) (single-IsGiven (canonical_for_prefix r name))
          | inr f ↦ rw (e, f) (evaluate_pool-IsGiven (pool_for r may_use api strip name))
        ]
  ]

-- What holds of every judgement holds of every evaluation that a resolution comes to.
module _ (v : Resolver) (auth : Principal) (Q : List String → Type 0)
    (judged : (api : Option String) (name : String) → IsGiven Q (judge v auth api name)) where
  pub or_served-IsGiven : (a b : Evaluation) → IsGiven Q a → IsGiven Q b → IsGiven Q (or_served a b)
  or_served-IsGiven (ok cs) b h k = h
  or_served-IsGiven unavailable b h k = k
  or_served-IsGiven denied b h k = k
  or_served-IsGiven (outage os) b h k = k

  -- A regular target in outage gives way to a fallback.
  outage-IsGiven :
      (api : Option String) (source : String) (os : List (Option Outage)) (other : Option String)
      → IsGiven Q (elim other [
        | none ↦ outage os
        | some name ↦
            if str_eq name source then outage os else or_served (judge v auth api name) (outage os)
      ])
  outage-IsGiven api source os none = tt
  outage-IsGiven api source os (some name) = elim (Bool-cases (str_eq name source)) [
    | inl e ↦ rw e tt
    | inr e ↦ rw e (or_served-IsGiven (judge v auth api name) (outage os) (judged api name) tt)
  ]

  pub regular_evaluation-IsGiven :
      (api : Option String) (source : String) (other : Option String) (target : String)
      → IsGiven Q (regular_evaluation v auth api source other target)
  unfolding regular_evaluation
  regular_evaluation-IsGiven api source other target =
      by_judgement (judge v auth api target) (judged api target)
    where
      by_judgement :
          (ev : Evaluation)
          → IsGiven Q ev
          → IsGiven Q (elim ev [
            | outage os ↦ elim other [
              | none ↦ outage os
              | some name ↦
                  if str_eq name source
                  then outage os
                  else or_served (judge v auth api name) (outage os)
            ]
            | ok candidates ↦ ok candidates
            | unavailable ↦ unavailable
            | denied ↦ denied
          ])
      by_judgement (ok cs) h = h
      by_judgement unavailable h = tt
      by_judgement denied h = tt
      by_judgement (outage os) h = outage-IsGiven api source os other
