-- ===== src/Resolve/Names.antt =====
-- app/model_resolution.py: `map_model_name` and `resolve_model_for_request`. What the second records on
-- the request and in the tracker is left out; so are the envelopes of its errors.
pub mod Branches
use llm_proxy_server.Prelude.{
  ℕ, Bool, true, false, not, ◌&&◌, Option, none, some, List, [], ◌∷◌, is_some, String, str_eq,
  if◌then◌else◌,
}
use llm_proxy_server.Byok.{Caller, caller_user_id}
use llm_proxy_server.Profiles.{ProfileRegistry, profile_id_for}
use llm_proxy_server.Outages.{Outage}
use llm_proxy_server.Aliases.{
  Texts, ModelAliasResolver, Kind, alias, fallback, AliasContext, resolve_alias, apply_alias,
  alias_source_name,
}
use llm_proxy_server.Resolve.Rotation.{Cursors, pick}
use llm_proxy_server.Resolve.Evaluate.{
  Router, Principal, pre_auth, known, may_use_for, canonical_for_prefix, Evaluation, ok,
  unavailable, denied, outage, evaluate, is_ok,
}

-- `profile_id_for_auth` of app/profiles.py
unfoldable pub profile_id_for_auth : ProfileRegistry → Caller → Option ℕ
unfolding caller_user_id profile_id_for
profile_id_for_auth profiles auth = elim (caller_user_id auth) [
  | none ↦ none
  | some user_id ↦ some (profile_id_for profiles (some user_id))
]

-- What both read: the rules, and what names are judged by.
pub record Resolver : Type 0 where
  pub texts : Texts
  pub rules : ModelAliasResolver
  pub router : Router
  pub allow_prefix_strip : Bool

-- `_evaluate`, as both call it.
unfoldable pub judge : Resolver → Principal → Option String → String → Evaluation
unfolding evaluate may_use_for
judge v auth api name =
    evaluate v.router (may_use_for v.router auth) api v.allow_prefix_strip true name

-- Whether the target of a fallback is another name, which cannot be served either.
abbrev pub is_lost : Resolver → Principal → Option String → String → Option String → Bool
is_lost v auth api source none = true
is_lost v auth api source (some target) =
    not (str_eq target source) && not (is_ok (judge v auth api target))

abbrev pub is_pre_auth : Principal → Bool
is_pre_auth pre_auth = true
is_pre_auth (known auth) = false

-- `map_model_name`, on the client's name.
unfoldable pub map_source :
    Resolver → Principal → String → AliasContext → Option String × AliasContext
unfolding judge apply_alias resolve_alias
map_source v auth source c =
    let api = c.current_api_surface in
    let regular = apply_alias v.texts v.rules (some source) none alias c in
    let instead = apply_alias v.texts v.rules (some source) none fallback c in
    let target = resolve_alias v.texts v.rules (some source) api c.current_profile_id fallback in
    if is_ok (judge v auth api source)
    then regular
    else if not (is_pre_auth auth) && is_lost v auth api source target
    then (some source, c)
    else instead

-- A client's name that is `None`, as no state that a request reaches has one, is given back.
unfoldable pub map_model_name :
    Resolver → Principal → Option String → AliasContext → Option String × AliasContext
unfolding map_source alias_source_name
map_model_name v auth none c = (none, c)
map_model_name v auth (some name) c =
    if str_eq name "" then (some name, c) else elim (alias_source_name c (some name)) [
      | none ↦ (none, c)
      | some source ↦ map_source v auth source c
    ]

-- How a resolution ends: with the falsy name it was given, with a model, or with an exception about a name.
-- `broken` is an exception that none of the code means to raise: a name that is `None` where the code
-- takes it for a text, or a pick from no candidates.
pub data Resolved : Type 0 where
  unnamed : Option String → Resolved
  chosen : String → Resolved
  model_unavailable access_denied : String → Resolved
  in_outage : String → List (Option Outage) → Resolved
  broken : Resolved

-- The echoed name, where it is set and where the model is another.
abbrev pub echo : String → String → AliasContext → AliasContext
echo source model_id c =
    if not (is_some c.original_model_name) && not (str_eq model_id source)
    then record c { original_model_name = some source }
    else c

-- The end of `resolve_model_for_request`: the exceptions, or the pick.
unfoldable pub conclude_resolution :
    String → String → Evaluation → AliasContext → Cursors → Resolved × AliasContext × Cursors
unfolding pick
conclude_resolution source failed unavailable c cursors = (model_unavailable failed, c, cursors)
conclude_resolution source failed denied c cursors = (access_denied failed, c, cursors)
conclude_resolution source failed (outage os) c cursors = (in_outage failed os, c, cursors)
conclude_resolution source failed (ok candidates) c cursors = elim (pick candidates cursors).0 [
  | none ↦ (broken, c, cursors)
  | some model_id ↦ (chosen model_id, echo source model_id c, (pick candidates cursors).1)
]

-- Another target's evaluation where it can be served, and the first one otherwise.
abbrev pub or_served : Evaluation → Evaluation → Evaluation
or_served other ev = if is_ok other then other else ev

-- The evaluation of a regular target: one in outage gives way to a fallback that can be served.
unfoldable pub regular_evaluation :
    Resolver → Principal → Option String → String → Option String → String → Evaluation
unfolding judge
regular_evaluation v auth api source other target = elim (judge v auth api target) [
  | outage os ↦ elim other [
    | none ↦ outage os
    | some name ↦
        if str_eq name source then outage os else or_served (judge v auth api name) (outage os)
  ]
  | ok candidates ↦ ok candidates
  | unavailable ↦ unavailable
  | denied ↦ denied
]

-- The client's name can be served: the regular list applies.
unfoldable pub resolve_regular :
    Resolver
    → Principal
    → String
    → Evaluation
    → AliasContext
    → Cursors
    → Resolved × AliasContext × Cursors
unfolding regular_evaluation conclude_resolution apply_alias resolve_alias
resolve_regular v auth source ev c cursors =
    let api = c.current_api_surface in
    let mapped = apply_alias v.texts v.rules (some source) none alias c in
    let other =
      resolve_alias v.texts v.rules (some source) api mapped.1.current_profile_id fallback in
    elim mapped.0 [
      | none ↦ (broken, mapped.1, cursors)
      | some target ↦
          if str_eq target source
          then conclude_resolution source source ev mapped.1 cursors
          else conclude_resolution source target (regular_evaluation v auth api source other target)
              mapped.1 cursors
    ]

-- It cannot: the fallback list applies.
unfoldable pub resolve_fallback :
    Resolver
    → Principal
    → String
    → Evaluation
    → AliasContext
    → Cursors
    → Resolved × AliasContext × Cursors
unfolding judge conclude_resolution apply_alias
resolve_fallback v auth source ev c cursors =
    let api = c.current_api_surface in
    let mapped = apply_alias v.texts v.rules (some source) none fallback c in
    elim mapped.0 [
      | none ↦ (broken, mapped.1, cursors)
      | some target ↦
          if str_eq target source
          then conclude_resolution source source ev mapped.1 cursors
          else conclude_resolution source source (or_served (judge v auth api target) ev) mapped.1
              cursors
    ]

unfoldable pub resolve_source_name :
    Resolver → Caller → String → AliasContext → Cursors → Resolved × AliasContext × Cursors
unfolding judge resolve_regular resolve_fallback
resolve_source_name v auth source c cursors =
    let ev = judge v (known auth) c.current_api_surface source in
    let regular = resolve_regular v (known auth) source ev c cursors in
    let instead = resolve_fallback v (known auth) source ev c cursors in
    if is_ok ev then regular else instead

unfoldable pub resolve_model_for_request :
    Resolver → Caller → Option String → AliasContext → Cursors → Resolved × AliasContext × Cursors
unfolding resolve_source_name alias_source_name profile_id_for_auth
resolve_model_for_request v auth none c cursors = (unnamed none, c, cursors)
resolve_model_for_request v auth (some model) c cursors =
    let pid = profile_id_for_auth v.router.cache.profiles auth in
    let bound = record c { current_profile_id = pid } in
    if str_eq model ""
    then (unnamed (some model), c, cursors)
    else elim (alias_source_name bound (some model)) [
      | none ↦ (broken, bound, cursors)
      | some source ↦ resolve_source_name v auth source bound cursors
    ]

unfoldable pub canonicalize_provider_prefix :
    Router → Option String → AliasContext → Option String × AliasContext
unfolding canonical_for_prefix
canonicalize_provider_prefix r none c = (none, c)
canonicalize_provider_prefix r (some model) c =
    let canonical = canonical_for_prefix r model in
    if str_eq model "" then (some model, c) else (some canonical, echo model canonical c)
