-- ===== src/Resolve/Ends.antt =====
-- A resolution ends as the code means it to: with a model or with one of its errors.
use llm_proxy_server.Prelude.{
  ◌≡◌, refl, ap, ◌∙◌, Bool, true, false, Option, none, some, List, [], ◌∷◌, is_empty, String,
  str_eq, arith, Bool-cases, inl, inr,
}
use llm_proxy_server.Byok.{Caller}
use llm_proxy_server.Aliases.{
  Texts, ModelAliasResolver, Kind, AliasContext, alias, fallback, apply_alias, alias_source_name,
  produced,
}
use llm_proxy_server.Aliases.Sources.{IsSourced, resolve_source, bind-IsSourced, client_name}
use llm_proxy_server.Aliases.Once.{AliasEvent, run_aliases, run_aliases-IsSourced, target_of}
use llm_proxy_server.Resolve.Rotation.{Cursors}
use llm_proxy_server.Resolve.Rotation.Picks.{pick_found}
use llm_proxy_server.Resolve.Evaluate.{
  Principal, known, may_use_for, Evaluation, ok, unavailable, denied, outage, is_ok,
}
use llm_proxy_server.Resolve.Given.{
  IsGiven, evaluate-IsGiven, or_served-IsGiven, regular_evaluation-IsGiven,
}
use llm_proxy_server.Resolve.Names.{
  Resolver, judge, Resolved, broken, conclude_resolution, resolve_regular, resolve_fallback,
  resolve_source_name, resolve_model_for_request, profile_id_for_auth,
}
use llm_proxy_server.Resolve.Names.Branches.{
  conclude_resolution-some, bound, resolve_source_name-regular, resolve_source_name-fallback,
  resolve_model-unnamed, resolve_model-some, resolve_regular-some, resolve_fallback-some,
}

abbrev pub is_broken : Resolved → Bool
is_broken broken = true
is_broken _ = false

-- The evaluation has a candidate where it is one of success.
abbrev IsFilled : Evaluation → Type 0
IsFilled = IsGiven (λ cs. is_empty cs ≡ false)

judge-IsFilled :
    (v : Resolver) (auth : Principal) (api : Option String) (name : String)
    → IsFilled (judge v auth api name)
unfolding judge
judge-IsFilled v auth api name =
    evaluate-IsGiven v.router (may_use_for v.router auth) (λ cs. is_empty cs ≡ false)
      (λ m e f. refl) (λ pool h. h) api v.allow_prefix_strip name

by_equal :
    {r s : Resolved × AliasContext × Cursors}
    → r ≡ s
    → is_broken s.0 ≡ false
    → is_broken r.0 ≡ false
by_equal e h = ap (λ (r : Resolved × AliasContext × Cursors). is_broken r.0) e ∙ h

conclude_resolution-ends :
    (source failed_name : String) (ev : Evaluation) (c : AliasContext) (cursors : Cursors)
    → IsFilled ev
    → is_broken (conclude_resolution source failed_name ev c cursors).0 ≡ false
unfolding conclude_resolution
conclude_resolution-ends source failed_name unavailable c cursors h = refl
conclude_resolution-ends source failed_name denied c cursors h = refl
conclude_resolution-ends source failed_name (outage os) c cursors h = refl
conclude_resolution-ends source failed_name (ok []) c cursors h = absurd (ground (arith, h))
conclude_resolution-ends source failed_name (ok (x ∷ xs)) c cursors h =
    let (m, e) = pick_found x xs cursors in
    by_equal (conclude_resolution-some source failed_name m (x ∷ xs) c cursors e) refl

-- The aliases answer a text.
apply_alias_found :
    (x : Texts) (r : ModelAliasResolver) (name : String) (kind : Kind) (c : AliasContext)
    → IsSourced x r c
    → (target : String) × ((apply_alias x r (some name) none kind c).0 ≡ some target)
apply_alias_found x r name kind c h =
    let (target, e) = resolve_source x r name kind c h in (target, target_of x r name kind c h ∙ e)

module _ (v : Resolver) (auth : Principal) where
  resolve_regular-ends :
      (source : String) (ev : Evaluation) (c : AliasContext) (cursors : Cursors)
      → IsSourced v.texts v.rules c
      → IsFilled ev
      → is_broken (resolve_regular v auth source ev c cursors).0 ≡ false
  resolve_regular-ends source ev c cursors s h =
      let mapped = apply_alias v.texts v.rules (some source) none alias c in
      let (target, e) = apply_alias_found v.texts v.rules source alias c s in
      by_equal (resolve_regular-some v auth source target ev c cursors e)
        (elim (Bool-cases (str_eq target source)) [
          | inl f ↦ rw f (conclude_resolution-ends source source ev mapped.1 cursors h)
          | inr f ↦ rw f (
              conclude_resolution-ends source target _ mapped.1 cursors (
                regular_evaluation-IsGiven v auth _ (judge-IsFilled v auth) c.current_api_surface
                  source _ target))
        ])

  resolve_fallback-ends :
      (source : String) (ev : Evaluation) (c : AliasContext) (cursors : Cursors)
      → IsSourced v.texts v.rules c
      → IsFilled ev
      → is_broken (resolve_fallback v auth source ev c cursors).0 ≡ false
  resolve_fallback-ends source ev c cursors s h =
      let mapped = apply_alias v.texts v.rules (some source) none fallback c in
      let api = c.current_api_surface in
      let (target, e) = apply_alias_found v.texts v.rules source fallback c s in
      by_equal (resolve_fallback-some v auth source target ev c cursors e)
        (elim (Bool-cases (str_eq target source)) [
          | inl f ↦ rw f (conclude_resolution-ends source source ev mapped.1 cursors h)
          | inr f ↦ rw f (
              conclude_resolution-ends source source _ mapped.1 cursors (
                or_served-IsGiven v auth _ (judge-IsFilled v auth) (judge v auth api target) ev
                  (judge-IsFilled v auth api target) h))
        ])

resolve_source_name-ends :
    (v : Resolver) (auth : Caller) (source : String) (c : AliasContext) (cursors : Cursors)
    → IsSourced v.texts v.rules c
    → is_broken (resolve_source_name v auth source c cursors).0 ≡ false
resolve_source_name-ends v auth source c cursors s =
    let p = known auth in
    let ev = judge v p c.current_api_surface source in
    let filled = judge-IsFilled v p c.current_api_surface source in
    elim (Bool-cases (is_ok ev)) [
      | inl e ↦
          by_equal (resolve_source_name-regular v auth source c cursors e)
            (resolve_regular-ends v p source ev c cursors s filled)
      | inr e ↦
          by_equal (resolve_source_name-fallback v auth source c cursors e)
            (resolve_fallback-ends v p source ev c cursors s filled)
    ]

-- In every state that a request reaches, the resolution of any name ends in one of the ways that the code
-- means: the name given back if it is empty, a model, or an error about a name. It never takes `None` for
-- a name, and never picks from no candidates.
pub resolve_model_for_request-ends :
    (v : Resolver) (auth : Caller) (es : List AliasEvent) (start : AliasContext)
    (model : Option String) (cursors : Cursors)
    → let c = run_aliases v.texts v.rules es start in
      is_broken (resolve_model_for_request v auth model c cursors).0 ≡ false
unfolding resolve_model_for_request alias_source_name produced
resolve_model_for_request-ends v auth es start none cursors = refl
resolve_model_for_request-ends v auth es start (some model) cursors =
    let c = run_aliases v.texts v.rules es start in
    let pid = profile_id_for_auth v.router.cache.profiles auth in
    let h = run_aliases-IsSourced v.texts v.rules es start in
    let (source, s, again) = client_name v.texts v.rules model c h in
    elim (Bool-cases (str_eq model "")) [
      | inl e ↦ by_equal (resolve_model-unnamed v auth model c cursors e) refl
      | inr e ↦ by_equal (resolve_model-some v auth model source c cursors e s) (
          resolve_source_name-ends v auth source (bound v auth c) cursors
            (bind-IsSourced v.texts v.rules pid c h))
    ]
