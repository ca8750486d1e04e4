-- ===== src/Resolve/Names/Branches.antt =====
-- The branches of a resolution, by what the aliases answer.
use llm_proxy_server.Prelude.{
  ◌≡◌, refl, List, none, some, true, false, not, ◌&&◌, String, str_eq, if◌then◌else◌,
}
use llm_proxy_server.Byok.{Caller}
use llm_proxy_server.Aliases.{
  alias_source_name, AliasContext, alias, fallback, apply_alias, resolve_alias,
}
use llm_proxy_server.Resolve.Rotation.{Cursors, pick}
use llm_proxy_server.Resolve.Evaluate.{Principal, known, Evaluation, ok, is_ok}
use llm_proxy_server.Resolve.Names.{
  Resolver, judge, broken, chosen, echo, conclude_resolution, regular_evaluation, or_served,
  resolve_regular, resolve_fallback, resolve_source_name, resolve_model_for_request,
  profile_id_for_auth, unnamed, map_source, is_lost, is_pre_auth,
}

module _ (v : Resolver) (auth : Principal) where
  pub resolve_regular-none :
      (source : String) (ev : Evaluation) (c : AliasContext) (cursors : Cursors)
      → let mapped = apply_alias v.texts v.rules (some source) none alias c in
        mapped.0 ≡ none → resolve_regular v auth source ev c cursors ≡ (broken, mapped.1, cursors)
  unfolding resolve_regular
  resolve_regular-none source ev c cursors e = rw (e, resolve_regular) refl

  pub resolve_regular-some :
      (source target : String) (ev : Evaluation) (c : AliasContext) (cursors : Cursors)
      → let mapped = apply_alias v.texts v.rules (some source) none alias c in
        let other =
          resolve_alias v.texts v.rules
            (some source)
            c.current_api_surface
            mapped.1.current_profile_id
            fallback in
        mapped.0 ≡ some target
        → resolve_regular v auth source ev c cursors ≡ (
            if str_eq target source
            then conclude_resolution source source ev mapped.1 cursors
            else conclude_resolution source target
                (regular_evaluation v auth c.current_api_surface source other target)
                mapped.1
                cursors)
  unfolding resolve_regular
  resolve_regular-some source target ev c cursors e = rw (e, resolve_regular) refl

  pub resolve_fallback-none :
      (source : String) (ev : Evaluation) (c : AliasContext) (cursors : Cursors)
      → let mapped = apply_alias v.texts v.rules (some source) none fallback c in
        mapped.0 ≡ none → resolve_fallback v auth source ev c cursors ≡ (broken, mapped.1, cursors)
  unfolding resolve_fallback
  resolve_fallback-none source ev c cursors e = rw (e, resolve_fallback) refl

  pub resolve_fallback-some :
      (source target : String) (ev : Evaluation) (c : AliasContext) (cursors : Cursors)
      → let mapped = apply_alias v.texts v.rules (some source) none fallback c in
        mapped.0 ≡ some target
        → resolve_fallback v auth source ev c cursors ≡ (
            if str_eq target source
            then conclude_resolution source source ev mapped.1 cursors
            else conclude_resolution source source
                (or_served (judge v auth c.current_api_surface target) ev)
                mapped.1
                cursors)
  unfolding resolve_fallback
  resolve_fallback-some source target ev c cursors e = rw (e, resolve_fallback) refl

pub conclude_resolution-none :
    (source failed : String) (cs : List String) (c : AliasContext) (cursors : Cursors)
    → (pick cs cursors).0 ≡ none
    → conclude_resolution source failed (ok cs) c cursors ≡ (broken, c, cursors)
unfolding conclude_resolution
conclude_resolution-none source failed cs c cursors e = rw (e, conclude_resolution) refl

pub conclude_resolution-some :
    (source failed m : String) (cs : List String) (c : AliasContext) (cursors : Cursors)
    → (pick cs cursors).0 ≡ some m
    → conclude_resolution source failed (ok cs) c cursors
      ≡ (chosen m, echo source m c, (pick cs cursors).1)
unfolding conclude_resolution
conclude_resolution-some source failed m cs c cursors e = rw (e, conclude_resolution) refl

module _ (v : Resolver) (auth : Caller) where
  pub resolve_source_name-regular :
      (source : String) (c : AliasContext) (cursors : Cursors)
      → let ev = judge v (known auth) c.current_api_surface source in
        is_ok ev ≡ true
        → resolve_source_name v auth source c cursors
          ≡ resolve_regular v (known auth) source ev c cursors
  unfolding resolve_source_name
  resolve_source_name-regular source c cursors e = rw (e, resolve_source_name) refl

  pub resolve_source_name-fallback :
      (source : String) (c : AliasContext) (cursors : Cursors)
      → let ev = judge v (known auth) c.current_api_surface source in
        is_ok ev ≡ false
        → resolve_source_name v auth source c cursors
          ≡ resolve_fallback v (known auth) source ev c cursors
  unfolding resolve_source_name
  resolve_source_name-fallback source c cursors e = rw (e, resolve_source_name) refl

  -- The state in which a resolution judges names.
  abbrev pub bound : AliasContext → AliasContext
  bound c = record c { current_profile_id = profile_id_for_auth v.router.cache.profiles auth }

  pub resolve_model-unnamed :
      (model : String) (c : AliasContext) (cursors : Cursors)
      → str_eq model "" ≡ true
      → resolve_model_for_request v auth (some model) c cursors ≡ (unnamed (some model), c, cursors)
  unfolding resolve_model_for_request
  resolve_model-unnamed model c cursors e = rw (e, resolve_model_for_request) refl

  pub resolve_model-none :
      (model : String) (c : AliasContext) (cursors : Cursors)
      → str_eq model "" ≡ false
      → alias_source_name (bound c) (some model) ≡ none
      → resolve_model_for_request v auth (some model) c cursors ≡ (broken, bound c, cursors)
  unfolding resolve_model_for_request
  resolve_model-none model c cursors e f = rw (e, f, resolve_model_for_request) refl

  pub resolve_model-some :
      (model source : String) (c : AliasContext) (cursors : Cursors)
      → str_eq model "" ≡ false
      → alias_source_name (bound c) (some model) ≡ some source
      → resolve_model_for_request v auth (some model) c cursors
        ≡ resolve_source_name v auth source (bound c) cursors
  unfolding resolve_model_for_request
  resolve_model-some model source c cursors e f = rw (e, f, resolve_model_for_request) refl

module _ (v : Resolver) (auth : Principal) (source : String) (c : AliasContext) where
  pub map_source-regular :
      is_ok (judge v auth c.current_api_surface source) ≡ true
      → map_source v auth source c ≡ apply_alias v.texts v.rules (some source) none alias c
  unfolding map_source
  map_source-regular e = rw (e, map_source) refl

  pub map_source-lost :
      is_ok (judge v auth c.current_api_surface source) ≡ false
      → (not (is_pre_auth auth)
          && is_lost v auth c.current_api_surface source (
              resolve_alias v.texts v.rules
                (some source)
                c.current_api_surface
                c.current_profile_id
                fallback))
        ≡ true
      → map_source v auth source c ≡ (some source, c)
  unfolding map_source
  map_source-lost e f = rw (e, f, map_source) refl

  pub map_source-fallback :
      is_ok (judge v auth c.current_api_surface source) ≡ false
      → (not (is_pre_auth auth)
          && is_lost v auth c.current_api_surface source (
              resolve_alias v.texts v.rules
                (some source)
                c.current_api_surface
                c.current_profile_id
                fallback))
        ≡ false
      → map_source v auth source c ≡ apply_alias v.texts v.rules (some source) none fallback c
  unfolding map_source
  map_source-fallback e f = rw (e, f, map_source) refl
