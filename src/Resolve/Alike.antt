-- ===== src/Resolve/Alike.antt =====
-- States of a request that stand for the same name resolve it alike.
use llm_proxy_server.Prelude.{
  ℕ, ◌≡◌, refl, sym, ap, ◌∙◌, Option, none, some, String, str_eq, if◌then◌else◌, arith, Bool-cases,
  Option-cases, inl, inr,
}
use llm_proxy_server.Byok.{Caller}
use llm_proxy_server.Aliases.{
  Texts, ModelAliasResolver, Kind, AliasContext, alias, fallback, apply_alias, resolve_alias,
  alias_source_name, remap, map_fresh,
}
use llm_proxy_server.Aliases.Sources.{IsSourced}
use llm_proxy_server.Aliases.Once.{target_of}
use llm_proxy_server.Resolve.Rotation.{Cursors, pick}
use llm_proxy_server.Resolve.Evaluate.{
  Principal, known, Evaluation, ok, unavailable, denied, outage, is_ok,
}
use llm_proxy_server.Resolve.Names.{
  Resolver, judge, Resolved, conclude_resolution, regular_evaluation, or_served, resolve_regular,
  resolve_fallback, resolve_source_name,
}
use llm_proxy_server.Resolve.Names.Branches.{
  conclude_resolution-none, conclude_resolution-some, resolve_source_name-regular,
  resolve_source_name-fallback, resolve_regular-none, resolve_regular-some, resolve_fallback-none,
  resolve_fallback-some,
}

-- Two states of a request that stand for the same name, on the same surface and with the same profile.
pub record IsAlike (x : Texts) (r : ModelAliasResolver) (source : String) (c d : AliasContext)
    : Type 0 where
  pub left : IsSourced x r c
  pub right : IsSourced x r d
  pub from_left : alias_source_name c (some source) ≡ some source
  pub from_right : alias_source_name d (some source) ≡ some source
  pub surface : c.current_api_surface ≡ d.current_api_surface
  pub profile : c.current_profile_id ≡ d.current_profile_id

-- They give the same answer, and leave the profile.
apply_alias-IsAlike :
    (x : Texts) (r : ModelAliasResolver) (source : String) (kind : Kind) (c d : AliasContext)
    → IsAlike x r source c d
    → (apply_alias x r (some source) none kind c).0 ≡ (apply_alias x r (some source) none kind d).0
apply_alias-IsAlike x r source kind c d h =
    let l = target_of x r source kind c h.left in
    let k = target_of x r source kind d h.right in
    grind (arith, l, k, h.from_left, h.from_right, h.surface, h.profile)

-- The outcome of the end does not depend on the state.
conclude_resolution-state :
    (source failed_name : String) (ev : Evaluation) (c d : AliasContext) (cursors : Cursors)
    → (conclude_resolution source failed_name ev c cursors).0
      ≡ (conclude_resolution source failed_name ev d cursors).0
unfolding conclude_resolution
conclude_resolution-state source failed_name unavailable c d cursors = refl
conclude_resolution-state source failed_name denied c d cursors = refl
conclude_resolution-state source failed_name (outage os) c d cursors = refl
conclude_resolution-state source failed_name (ok cs) c d cursors =
    elim (Option-cases (pick cs cursors).0) [
      | inl e ↦
          ap (λ r. r.0) (conclude_resolution-none source failed_name cs c cursors e)
          ∙ sym (ap (λ r. r.0) (conclude_resolution-none source failed_name cs d cursors e))
      | inr (m, e) ↦
          ap (λ r. r.0) (conclude_resolution-some source failed_name m cs c cursors e)
          ∙ sym (ap (λ r. r.0) (conclude_resolution-some source failed_name m cs d cursors e))
    ]

apply_alias-profile :
    (x : Texts) (r : ModelAliasResolver) (name : String) (kind : Kind) (c : AliasContext)
    → (apply_alias x r (some name) none kind c).1.current_profile_id ≡ c.current_profile_id
unfolding apply_alias remap map_fresh
apply_alias-profile x r name kind c = ground arith

module _ (v : Resolver) (auth : Principal) where
  -- The end of both kinds of resolution, by the target.
  ended :
      String
      → String
      → String
      → Evaluation
      → Evaluation
      → AliasContext
      → Cursors
      → Resolved × AliasContext × Cursors
  ended source target failed_name ev other c cursors =
      if str_eq target source
      then conclude_resolution source source ev c cursors
      else conclude_resolution source failed_name other c cursors

  ended-state :
      (source target failed_name : String) (ev other : Evaluation) (c d : AliasContext)
      (cursors : Cursors)
      → (ended source target failed_name ev other c cursors).0
        ≡ (ended source target failed_name ev other d cursors).0
  unfolding ended
  ended-state source target failed_name ev other c d cursors =
      elim (Bool-cases (str_eq target source)) [
        | inl e ↦ rw e (conclude_resolution-state source source ev c d cursors)
        | inr e ↦ rw e (conclude_resolution-state source failed_name other c d cursors)
      ]

  regular-IsAlike :
      (source : String) (ev : Evaluation) (c d : AliasContext) (cursors : Cursors)
      → IsAlike v.texts v.rules source c d
      → (resolve_regular v auth source ev c cursors).0
        ≡ (resolve_regular v auth source ev d cursors).0
  unfolding ended
  regular-IsAlike source ev c d cursors h =
      let same = apply_alias-IsAlike v.texts v.rules source alias c d h in
      let at_c = apply_alias v.texts v.rules (some source) none alias c in
      let at_d = apply_alias v.texts v.rules (some source) none alias d in
      let profiles =
        apply_alias-profile v.texts v.rules source alias c
        ∙ h.profile
        ∙ sym (apply_alias-profile v.texts v.rules source alias d) in
      elim (Option-cases at_c.0) [
        | inl e ↦
            ap (λ r. r.0) (resolve_regular-none v auth source ev c cursors e)
            ∙ sym (ap (λ r. r.0) (resolve_regular-none v auth source ev d cursors (sym same ∙ e)))
        | inr (target, e) ↦
            let other : Option ℕ → Option String → Evaluation = λ pid api.
              regular_evaluation v auth api source
                (resolve_alias v.texts v.rules (some source) api pid fallback) target in
            ap (λ r. r.0) (resolve_regular-some v auth source target ev c cursors e)
            ∙ ended-state source target target ev
                (other at_c.1.current_profile_id c.current_api_surface) at_c.1 at_d.1 cursors
            ∙ ap
                (λ pid.
                  (ended source target target ev (other pid c.current_api_surface) at_d.1
                    cursors).0)
                profiles
            ∙ ap
                (λ api.
                  (ended source target target ev (other at_d.1.current_profile_id api) at_d.1
                    cursors).0)
                h.surface
            ∙ sym (
                ap (λ r. r.0)
                  (resolve_regular-some v auth source target ev d cursors (sym same ∙ e)))
      ]

  fallback-IsAlike :
      (source : String) (ev : Evaluation) (c d : AliasContext) (cursors : Cursors)
      → IsAlike v.texts v.rules source c d
      → (resolve_fallback v auth source ev c cursors).0
        ≡ (resolve_fallback v auth source ev d cursors).0
  unfolding ended
  fallback-IsAlike source ev c d cursors h =
      let same = apply_alias-IsAlike v.texts v.rules source fallback c d h in
      let at_c = apply_alias v.texts v.rules (some source) none fallback c in
      let at_d = apply_alias v.texts v.rules (some source) none fallback d in
      elim (Option-cases at_c.0) [
        | inl e ↦
            ap (λ r. r.0) (resolve_fallback-none v auth source ev c cursors e)
            ∙ sym (ap (λ r. r.0) (resolve_fallback-none v auth source ev d cursors (sym same ∙ e)))
        | inr (target, e) ↦
            let other : Option String → Evaluation =
              λ api. or_served (judge v auth api target) ev in
            ap (λ r. r.0) (resolve_fallback-some v auth source target ev c cursors e)
            ∙ ended-state source target source ev (other c.current_api_surface) at_c.1 at_d.1
                cursors
            ∙ ap (λ api. (ended source target source ev (other api) at_d.1 cursors).0) h.surface
            ∙ sym (
                ap (λ r. r.0)
                  (resolve_fallback-some v auth source target ev d cursors (sym same ∙ e)))
      ]

pub source_name-IsAlike :
    (v : Resolver) (auth : Caller) (source : String) (c d : AliasContext) (cursors : Cursors)
    → IsAlike v.texts v.rules source c d
    → (resolve_source_name v auth source c cursors).0
      ≡ (resolve_source_name v auth source d cursors).0
source_name-IsAlike v auth source c d cursors h =
    let ev : Option String → Evaluation = λ api. judge v (known auth) api source in
    let surface = h.surface in
    let p = known auth in
    elim (Bool-cases (is_ok (ev c.current_api_surface))) [
      | inl e ↦
          ap (λ r. r.0) (resolve_source_name-regular v auth source c cursors e)
          ∙ regular-IsAlike v p source (ev c.current_api_surface) c d cursors h
          ∙ ap (λ api. (resolve_regular v p source (ev api) d cursors).0) surface
          ∙ sym (
              ap (λ r. r.0)
                (resolve_source_name-regular v auth source d cursors
                  (ap (λ api. is_ok (ev api)) (sym surface) ∙ e)))
      | inr e ↦
          ap (λ r. r.0) (resolve_source_name-fallback v auth source c cursors e)
          ∙ fallback-IsAlike v p source (ev c.current_api_surface) c d cursors h
          ∙ ap (λ api. (resolve_fallback v p source (ev api) d cursors).0) surface
          ∙ sym (
              ap (λ r. r.0)
                (resolve_source_name-fallback v auth source d cursors
                  (ap (λ api. is_ok (ev api)) (sym surface) ∙ e)))
    ]
