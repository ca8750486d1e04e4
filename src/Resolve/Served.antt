-- ===== src/Resolve/Served.antt =====
-- What a resolution gives can be served: its caller may use it, and it is not in outage.
use llm_proxy_server.Prelude.{
  ℕ, ◌≡◌, Bool, true, Option, none, some, List, [], ◌∷◌, All, String, str_eq, Bool-cases,
  Option-cases, inl, inr, subst, sym,
}
use llm_proxy_server.Byok.{Caller}
use llm_proxy_server.Outages.{outage_for}
use llm_proxy_server.Access.{caller_may_use}
use llm_proxy_server.Limits.Tracker.{World}
use llm_proxy_server.Enforce.{
  Service, cache_of, enforce_access_and_limits, enforce_group_rate_limit,
}
use llm_proxy_server.Enforce.Order.{
  passes_to_charge, enforce_model_access-allowed, enforce_not_in_outage-up,
}
use llm_proxy_server.Aliases.{AliasContext, alias, fallback, apply_alias, alias_source_name}
use llm_proxy_server.Resolve.Rotation.{Cursors, pick}
use llm_proxy_server.Resolve.Rotation.Picks.{pick-All}
use llm_proxy_server.Resolve.Evaluate.{
  Router, Principal, known, may_use_for, Evaluation, ok, unavailable, denied, outage, is_ok,
}
use llm_proxy_server.Resolve.Given.{
  IsGiven, live_of, evaluate-IsGiven, or_served-IsGiven, regular_evaluation-IsGiven,
}
use llm_proxy_server.Resolve.Names.{
  Resolver, judge, Resolved, chosen, conclude_resolution, resolve_regular, resolve_fallback,
  resolve_source_name, resolve_model_for_request,
}
use llm_proxy_server.Resolve.Names.Branches.{
  bound, resolve_source_name-regular, resolve_source_name-fallback, resolve_model-unnamed,
  resolve_model-none, resolve_model-some, conclude_resolution-none, conclude_resolution-some,
  resolve_regular-none, resolve_regular-some, resolve_fallback-none, resolve_fallback-some,
}

abbrev pub IsServable : Router → (String → Bool) → String → Type 0
IsServable r may_use m = (may_use m ≡ true) × (outage_for r.outages (some m) ≡ none)

live-All :
    (r : Router) (may_use : String → Bool) (pool : List String)
    → All (IsServable r may_use) (live_of r may_use pool)
live-All r may_use [] = tt
live-All r may_use (m ∷ pool) = elim (Bool-cases (may_use m)) [
  | inr e ↦ rw e (live-All r may_use pool)
  | inl e ↦ elim (Option-cases (outage_for r.outages (some m))) [
    | inl f ↦ rw (e, f) ((e, f), live-All r may_use pool)
    | inr (o, f) ↦ rw (e, f) (live-All r may_use pool)
  ]
]

-- Each candidate can be served to the caller.
abbrev pub IsFair : Resolver → Principal → Evaluation → Type 0
IsFair v auth = IsGiven (All (IsServable v.router (may_use_for v.router auth)))

judge-IsFair :
    (v : Resolver) (auth : Principal) (api : Option String) (name : String)
    → IsFair v auth (judge v auth api name)
unfolding judge
judge-IsFair v auth api name =
    let may_use = may_use_for v.router auth in
    evaluate-IsGiven v.router may_use (All (IsServable v.router may_use)) (λ m e f. ((e, f), tt))
      (λ pool h. live-All v.router may_use pool) api v.allow_prefix_strip name

-- A resolution that ends in a model ends in one that can be served.
abbrev pub IsChosenServable : Resolver → Principal → Resolved → Type 0
IsChosenServable v auth (chosen m) = IsServable v.router (may_use_for v.router auth) m
IsChosenServable v auth _ = Unit

module _ (v : Resolver) (auth : Principal) where
  -- By what a resolution is known to be.
  servable_by :
      {r s : Resolved × AliasContext × Cursors}
      → r ≡ s
      → IsChosenServable v auth s.0
      → IsChosenServable v auth r.0
  servable_by e h =
      subst (λ (r : Resolved × AliasContext × Cursors). IsChosenServable v auth r.0) (sym e) h

  conclude_resolution-servable :
      (source failed_name : String) (ev : Evaluation) (c : AliasContext) (cursors : Cursors)
      → IsFair v auth ev
      → IsChosenServable v auth (conclude_resolution source failed_name ev c cursors).0
  unfolding conclude_resolution
  conclude_resolution-servable source failed_name unavailable c cursors h = tt
  conclude_resolution-servable source failed_name denied c cursors h = tt
  conclude_resolution-servable source failed_name (outage os) c cursors h = tt
  conclude_resolution-servable source failed_name (ok cs) c cursors h =
      elim (Option-cases (pick cs cursors).0) [
        | inl e ↦ servable_by (conclude_resolution-none source failed_name cs c cursors e) tt
        | inr (m, e) ↦
            servable_by (conclude_resolution-some source failed_name m cs c cursors e)
              (pick-All (IsServable v.router (may_use_for v.router auth)) cs cursors m h e)
      ]

  resolve_regular-servable :
      (source : String) (ev : Evaluation) (c : AliasContext) (cursors : Cursors)
      → IsFair v auth ev
      → IsChosenServable v auth (resolve_regular v auth source ev c cursors).0
  resolve_regular-servable source ev c cursors h =
      let mapped = apply_alias v.texts v.rules (some source) none alias c in
      elim (Option-cases mapped.0) [
        | inl e ↦ servable_by (resolve_regular-none v auth source ev c cursors e) tt
        | inr (target, e) ↦
            servable_by (resolve_regular-some v auth source target ev c cursors e)
              (elim (Bool-cases (str_eq target source)) [
                | inl f ↦ rw f (conclude_resolution-servable source source ev mapped.1 cursors h)
                | inr f ↦ rw f (
                    conclude_resolution-servable source target _ mapped.1 cursors (
                      regular_evaluation-IsGiven v auth _ (judge-IsFair v auth)
                        c.current_api_surface source _ target))
              ])
      ]

  resolve_fallback-servable :
      (source : String) (ev : Evaluation) (c : AliasContext) (cursors : Cursors)
      → IsFair v auth ev
      → IsChosenServable v auth (resolve_fallback v auth source ev c cursors).0
  resolve_fallback-servable source ev c cursors h =
      let mapped = apply_alias v.texts v.rules (some source) none fallback c in
      let api = c.current_api_surface in
      elim (Option-cases mapped.0) [
        | inl e ↦ servable_by (resolve_fallback-none v auth source ev c cursors e) tt
        | inr (target, e) ↦
            servable_by (resolve_fallback-some v auth source target ev c cursors e)
              (elim (Bool-cases (str_eq target source)) [
                | inl f ↦ rw f (conclude_resolution-servable source source ev mapped.1 cursors h)
                | inr f ↦ rw f (
                    conclude_resolution-servable source source _ mapped.1 cursors (
                      or_served-IsGiven v auth _ (judge-IsFair v auth) (judge v auth api target) ev
                        (judge-IsFair v auth api target) h))
              ])
      ]

resolve_source_name-servable :
    (v : Resolver) (auth : Caller) (source : String) (c : AliasContext) (cursors : Cursors)
    → IsChosenServable v (known auth) (resolve_source_name v auth source c cursors).0
resolve_source_name-servable v auth source c cursors =
    let ev = judge v (known auth) c.current_api_surface source in
    let fair = judge-IsFair v (known auth) c.current_api_surface source in
    elim (Bool-cases (is_ok ev)) [
      | inl e ↦
          servable_by v (known auth) (resolve_source_name-regular v auth source c cursors e)
            (resolve_regular-servable v (known auth) source ev c cursors fair)
      | inr e ↦
          servable_by v (known auth) (resolve_source_name-fallback v auth source c cursors e)
            (resolve_fallback-servable v (known auth) source ev c cursors fair)
    ]

resolve_model-servable :
    (v : Resolver) (auth : Caller) (model : Option String) (c : AliasContext) (cursors : Cursors)
    → IsChosenServable v (known auth) (resolve_model_for_request v auth model c cursors).0
unfolding resolve_model_for_request
resolve_model-servable v auth none c cursors = tt
resolve_model-servable v auth (some model) c cursors = elim (Bool-cases (str_eq model "")) [
  | inl e ↦ servable_by v (known auth) (resolve_model-unnamed v auth model c cursors e) tt
  | inr e ↦ elim (Option-cases (alias_source_name (bound v auth c) (some model))) [
    | inl f ↦ servable_by v (known auth) (resolve_model-none v auth model c cursors e f) tt
    | inr (source, f) ↦
        servable_by v (known auth) (resolve_model-some v auth model source c cursors e f)
          (resolve_source_name-servable v auth source (bound v auth c) cursors)
  ]
]

-- Whatever name is resolved and whatever mappings, fallbacks and rotation it goes through, a model that
-- the resolution gives is one that the caller may use, and is not in outage.
pub resolve_model_for_request-IsServable :
    (v : Resolver) (auth : Caller) (model : Option String) (c : AliasContext) (cursors : Cursors)
    (m : String)
    → (resolve_model_for_request v auth model c cursors).0 ≡ chosen m
    → (caller_may_use v.router.cache auth m ≡ true) × (outage_for v.router.outages (some m) ≡ none)
unfolding may_use_for
resolve_model_for_request-IsServable v auth model c cursors m e =
    subst (IsChosenServable v (known auth)) e (resolve_model-servable v auth model c cursors)

-- Where the checks of the route read the same caches, owners and outages as the resolution, they refuse
-- no model that it gives: what becomes of the request is up to its charge.
pub resolve_model_for_request-enforce :
    (v : Resolver) (s : Service) (w : World) (call : ℕ) (auth : Caller) (name : String)
    (model : Option String) (c : AliasContext) (cursors : Cursors) (m : String)
    → v.router.cache ≡ cache_of s
    → v.router.outages ≡ s.outages
    → (resolve_model_for_request v auth model c cursors).0 ≡ chosen m
    → enforce_access_and_limits w call auth name m true s
      ≡ enforce_group_rate_limit w call auth name m s
resolve_model_for_request-enforce v s w call auth name model c cursors m same down e =
    let (may, up) = resolve_model_for_request-IsServable v auth model c cursors m e in
    let may_here = subst (λ cache. caller_may_use cache auth m ≡ true) same may in
    let up_here = subst (λ outages. outage_for outages (some m) ≡ none) down up in
    passes_to_charge w call auth name m s (enforce_model_access-allowed s auth m may_here)
      (enforce_not_in_outage-up s m up_here)
