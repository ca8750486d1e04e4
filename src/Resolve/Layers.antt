-- ===== src/Resolve/Layers.antt =====
-- The layers that map a name before the route do not change what it resolves to.
use llm_proxy_server.Prelude.{
  ◌≡◌, refl, sym, ap, ◌∙◌, subst, false, not, ◌&&◌, Option, none, some, List, String, str_eq,
  Bool-cases, inl, inr,
}
use llm_proxy_server.Byok.{Caller}
use llm_proxy_server.Aliases.{
  Texts, ModelAliasResolver, Kind, AliasContext, alias, fallback, apply_alias, resolve_alias,
  alias_source_name, produced,
}
use llm_proxy_server.Aliases.Sources.{IsSourced, resolve_source, bind-IsSourced, client_name}
use llm_proxy_server.Aliases.Applied.{Applied-cases, Applied-source, Applied-IsSourced}
use llm_proxy_server.Aliases.Once.{AliasEvent, run_aliases, run_aliases-IsSourced}
use llm_proxy_server.Resolve.Rotation.{Cursors}
use llm_proxy_server.Resolve.Evaluate.{Principal, is_ok}
use llm_proxy_server.Resolve.Names.{
  Resolver, judge, resolve_source_name, resolve_model_for_request, profile_id_for_auth, map_source,
  map_model_name, is_lost, is_pre_auth,
}
use llm_proxy_server.Resolve.Names.Branches.{
  bound, resolve_model-some, map_source-regular, map_source-lost, map_source-fallback,
}
use llm_proxy_server.Resolve.Alike.{IsAlike, source_name-IsAlike}

-- A state that a mapping of a client's name leaves, with its answer.
record IsMapped (x : Texts) (r : ModelAliasResolver) (source : String) (c : AliasContext)
    (answer : Option String × AliasContext) : Type 0 where
  sourced : IsSourced x r answer.1
  of_answer : alias_source_name answer.1 answer.0 ≡ some source
  of_source : alias_source_name answer.1 (some source) ≡ some source
  surface : answer.1.current_api_surface ≡ c.current_api_surface

apply_alias-IsMapped :
    (x : Texts) (r : ModelAliasResolver) (source : String) (kind : Kind) (c : AliasContext)
    → IsSourced x r c
    → alias_source_name c (some source) ≡ some source
    → IsMapped x r source c (apply_alias x r (some source) none kind c)
apply_alias-IsMapped x r source kind c h s =
    let (target, e) = resolve_source x r source kind c h in
    let answer = apply_alias x r (some source) none kind c in
    let made = Applied-cases x r source target kind c h e in
    let (same, of, again, surface, scope) = Applied-source x r source target kind c answer h made in
    record {
      sourced = Applied-IsSourced x r source target kind c answer h e made;
      of_answer = of ∙ s;
      of_source = again ∙ s;
      surface = surface;
    }

map_source-IsMapped :
    (v : Resolver) (p : Principal) (source : String) (c : AliasContext)
    → IsSourced v.texts v.rules c
    → alias_source_name c (some source) ≡ some source
    → IsMapped v.texts v.rules source c (map_source v p source c)
unfolding map_source
map_source-IsMapped v p source c h s =
    let api = c.current_api_surface in
    let target = resolve_alias v.texts v.rules (some source) api c.current_profile_id fallback in
    let by = IsMapped v.texts v.rules source c in
    elim (Bool-cases (is_ok (judge v p api source))) [
      | inl e ↦
          subst by (sym (map_source-regular v p source c e))
            (apply_alias-IsMapped v.texts v.rules source alias c h s)
      | inr e ↦ elim (Bool-cases (not (is_pre_auth p) && is_lost v p api source target)) [
        | inl f ↦
            subst by (sym (map_source-lost v p source c e f))
              (record { sourced = h; of_answer = s; of_source = s; surface = refl })
        | inr f ↦
            subst by (sym (map_source-fallback v p source c e f))
              (apply_alias-IsMapped v.texts v.rules source fallback c h s)
      ]
    ]

bound-IsAlike :
    (v : Resolver) (auth : Caller) (source : String) (c : AliasContext)
    (answer : Option String × AliasContext)
    → IsSourced v.texts v.rules c
    → alias_source_name c (some source) ≡ some source
    → IsMapped v.texts v.rules source c answer
    → IsAlike v.texts v.rules source (bound v auth answer.1) (bound v auth c)
unfolding alias_source_name produced
bound-IsAlike v auth source c answer h s m =
    let pid = profile_id_for_auth v.router.cache.profiles auth in
    record {
      left = bind-IsSourced v.texts v.rules pid answer.1 m.sourced;
      right = bind-IsSourced v.texts v.rules pid c h;
      from_left = m.of_source;
      from_right = s;
      surface = m.surface;
      profile = refl;
    }

-- A resolution is that of the client's name behind the name it is given.
resolve_model-source :
    (v : Resolver) (auth : Caller) (name source : String) (c : AliasContext) (cursors : Cursors)
    → str_eq name "" ≡ false
    → alias_source_name c (some name) ≡ some source
    → resolve_model_for_request v auth (some name) c cursors
      ≡ resolve_source_name v auth source (bound v auth c) cursors
unfolding alias_source_name produced
resolve_model-source v auth name source c cursors n s =
    resolve_model-some v auth name source c cursors n s

map_model_name-source :
    (v : Resolver) (p : Principal) (name source : String) (c : AliasContext)
    → str_eq name "" ≡ false
    → alias_source_name c (some name) ≡ some source
    → map_model_name v p (some name) c ≡ map_source v p source c
unfolding map_model_name
map_model_name-source v p name source c n s = rw (n, s, map_model_name) refl

-- In every state that a request reaches, and whoever an earlier layer took its caller for, a name that
-- this layer mapped resolves as the name that it mapped would have: to the same model, or to the same
-- error about the same name. The two names are not empty.
pub resolve_model_for_request-map_model_name :
    (v : Resolver) (layer : Principal) (auth : Caller) (es : List AliasEvent) (start : AliasContext)
    (name fed : String) (cursors : Cursors)
    → let c = run_aliases v.texts v.rules es start in
      let answer = map_model_name v layer (some name) c in
      str_eq name "" ≡ false
      → str_eq fed "" ≡ false
      → answer.0 ≡ some fed
      → (resolve_model_for_request v auth (some fed) answer.1 cursors).0
        ≡ (resolve_model_for_request v auth (some name) c cursors).0
resolve_model_for_request-map_model_name v layer auth es start name fed cursors n k e =
    let c = run_aliases v.texts v.rules es start in
    let answer = map_model_name v layer (some name) c in
    let h = run_aliases-IsSourced v.texts v.rules es start in
    let (source, s, again) = client_name v.texts v.rules name c h in
    let m : IsMapped v.texts v.rules source c answer =
      subst (IsMapped v.texts v.rules source c)
        (sym (map_model_name-source v layer name source c n s))
        (map_source-IsMapped v layer source c h again) in
    let of_fed : alias_source_name answer.1 (some fed) ≡ some source =
      ap (alias_source_name answer.1) (sym e) ∙ m.of_answer in
    ap (λ r. r.0) (resolve_model-source v auth fed source answer.1 cursors k of_fed)
    ∙ source_name-IsAlike v auth source (bound v auth answer.1) (bound v auth c) cursors
        (bound-IsAlike v auth source c answer h again m)
    ∙ sym (ap (λ r. r.0) (resolve_model-source v auth name source c cursors n s))
