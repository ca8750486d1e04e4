-- ===== src/Resolve/Evaluate.antt =====
-- app/model_resolution.py: whether a caller can be served a name (`_evaluate` and what it calls), with the
-- provider keys of app/providers/provider_manager.py.
use Prim.Native.String.{◌++◌}
use llm_proxy_server.Prelude.{
  ℕ, Bool, true, false, not, ◌&&◌, ◌||◌, Option, none, some, List, [], ◌∷◌, map, filter, is_empty,
  String, Dict, keys, lookup, get_or, is_some, str_eq, has_char, before_char, after_char,
  starts_with, if◌then◌else◌, String-Keyed,
}
use llm_proxy_server.Byok.{is_owned, owner_of, is_byok_model_of, Caller}
use llm_proxy_server.Profiles.{get_profile}
use llm_proxy_server.Outages.{Outage, OutageRegistry, outage_for}
use llm_proxy_server.Access.{
  ModelCache, passes_global_gate, caller_may_use, is_model_allowed_for_profile,
}
use llm_proxy_server.Resolve.Index.{has_model_id, bare_model_candidates}

-- A registered provider, as its `supports_api_for_model`: `none` where it raises.
pub record Provider : Type 0 where
  pub supports_api_for_model : String → String → Option Bool

-- What the resolution reads: the cache with its models, the providers and the outages. The registry of
-- BYOK owners is the one that the cache reads.
pub record Router : Type 0 where
  pub cache : ModelCache
  pub model_ids : List String
  pub providers : Dict String Provider
  pub outages : OutageRegistry

-- `name.split('/', 1) if '/' in name else ('', '')`
abbrev pub head_of : String → String
head_of name = if has_char b'/' name then before_char b'/' name else ""

abbrev pub rest_of : String → String
rest_of name = if has_char b'/' name then after_char b'/' name else ""

unfoldable pub family_candidates : Router → String → List String
unfolding starts_with owner_of
family_candidates r provider_name =
    filter
      (λ key.
        starts_with (provider_name ++ ":") key
        && not (is_owned (owner_of r.cache.owners (some key))))
      (keys r.providers)

-- `candidates[0] if len(candidates) == 1 else None`
abbrev pub only : List String → Option String
only (key ∷ []) = some key
only _ = none

unfoldable pub find_provider_key : Router → String → Option String
unfolding family_candidates lookup
find_provider_key r provider_name =
    if str_eq provider_name ""
    then none
    else if is_some (lookup provider_name r.providers)
    then some provider_name
    else only (family_candidates r provider_name)

unfoldable pub has_provider_prefix : Router → String → Bool
unfolding family_candidates lookup
has_provider_prefix r provider_name =
    if str_eq provider_name ""
    then false
    else if is_some (lookup provider_name r.providers)
    then true
    else not (is_empty (family_candidates r provider_name))

abbrev pub provider_of : Router → String → Option Provider
provider_of r model_id = lookup (before_char b'/' model_id) r.providers

-- Whether the provider of a model serves it on a surface, as it says; one that raises is taken to.
abbrev pub serves : Router → String → String → Bool
serves r api model_id = elim (provider_of r model_id) [
  | none ↦ false
  | some provider ↦ get_or (provider.supports_api_for_model model_id api) true
]

-- The second step of `_filter_pool`, which never empties the pool.
abbrev pub on_surface : Router → Option String → List String → List String
on_surface r none live = live
on_surface r (some api) live =
    let supported = filter (serves r api) live in
    if str_eq api "" then live else if is_empty supported then live else supported

unfoldable pub filter_pool : Router → Option String → List String → List String
unfolding lookup before_char passes_global_gate
filter_pool r api pool =
    filter (λ m. passes_global_gate r.cache m)
      (on_surface r api (filter (λ m. is_some (provider_of r m)) pool))

unfoldable pub candidate_ids : Router → Option String → Bool → Option String → List String
unfolding has_model_id has_provider_prefix filter_pool bare_model_candidates outage_for has_char
    before_char after_char
candidate_ids r api allow_prefix_strip none = []
candidate_ids r api allow_prefix_strip (some name) =
    let rest = rest_of name in
    let whole = filter_pool r api (bare_model_candidates r.model_ids name) in
    let stripped = filter_pool r api (bare_model_candidates r.model_ids rest) in
    let pool =
      if is_empty whole && allow_prefix_strip && not (str_eq rest "") then stripped else whole in
    if str_eq name ""
    then []
    else if has_model_id r.model_ids name
    then []
    else if not (str_eq rest "") && has_provider_prefix r (head_of name)
    then []
    else filter (λ m. not (is_some (outage_for r.outages (some m)))) pool

-- `auth`, which may be `PRE_AUTH`.
pub data Principal : Type 0 where
  pre_auth : Principal
  known : Caller → Principal

unfoldable pub may_use_for : Router → Principal → String → Bool
unfolding is_byok_model_of passes_global_gate caller_may_use
may_use_for r pre_auth model_id =
    not (is_byok_model_of r.cache.owners (some model_id)) && passes_global_gate r.cache model_id
may_use_for r (known auth) model_id = caller_may_use r.cache auth model_id

unfoldable pub may_use_for_profile : Router → Option ℕ → String → Bool
unfolding get_profile is_model_allowed_for_profile
may_use_for_profile r profile_id model_id =
    is_model_allowed_for_profile r.cache (get_profile r.cache.profiles profile_id) model_id

unfoldable pub canonical_for_prefix : Router → String → String
unfolding find_provider_key has_char before_char after_char
canonical_for_prefix r model =
    let rest = rest_of model in
    if str_eq rest "" then model else elim (find_provider_key r (head_of model)) [
      | none ↦ model
      | some key ↦ if str_eq key (head_of model) then model else key ++ ("/" ++ rest)
    ]

-- `_Evaluation`. The outages are the answers of `outage_for`.
pub data Evaluation : Type 0 where
  ok : List String → Evaluation
  unavailable denied : Evaluation
  outage : List (Option Outage) → Evaluation

unfoldable pub single : Router → (String → Bool) → Bool → String → Evaluation
unfolding is_byok_model_of outage_for
single r may_use check_outage model_id =
    let up = ok (model_id ∷ []) in
    let down : Evaluation = elim (outage_for r.outages (some model_id)) [
      | none ↦ up
      | some o ↦ outage (some o ∷ [])
    ] in
    if may_use model_id
    then (if check_outage then down else up)
    else if is_byok_model_of r.cache.owners (some model_id)
    then unavailable
    else denied

unfoldable pub visible : Router → (String → Bool) → List String → List String
unfolding is_byok_model_of
visible r may_use pool =
    filter (λ m. not (is_byok_model_of r.cache.owners (some m)) || may_use m) pool

-- The end of `_evaluate`, on a pool of candidates.
unfoldable pub evaluate_pool : Router → (String → Bool) → Bool → List String → Evaluation
unfolding outage_for
evaluate_pool r may_use check_outage pool =
    let allowed = filter may_use pool in
    let live = filter (λ m. not (is_some (outage_for r.outages (some m)))) allowed in
    if is_empty pool
    then unavailable
    else if is_empty allowed
    then denied
    else if not check_outage
    then ok allowed
    else if is_empty live
    then outage (map (λ m. outage_for r.outages (some m)) allowed)
    else ok live

-- The candidates of a bare name, or of what follows its first `/`.
unfoldable pub pool_for : Router → (String → Bool) → Option String → Bool → String → List String
unfolding visible filter_pool bare_model_candidates has_char after_char
pool_for r may_use api allow_prefix_strip name =
    let rest = rest_of name in
    let whole = visible r may_use (filter_pool r api (bare_model_candidates r.model_ids name)) in
    let stripped = visible r may_use (filter_pool r api (bare_model_candidates r.model_ids rest)) in
    if is_empty whole && allow_prefix_strip && not (str_eq rest "") then stripped else whole

unfoldable pub evaluate :
    Router → (String → Bool) → Option String → Bool → Bool → String → Evaluation
unfolding has_model_id single has_provider_prefix canonical_for_prefix evaluate_pool pool_for
evaluate r may_use api allow_prefix_strip check_outage name =
    if has_model_id r.model_ids name
    then single r may_use check_outage name
    else if not (str_eq (rest_of name) "") && has_provider_prefix r (head_of name)
    then single r may_use check_outage (canonical_for_prefix r name)
    else evaluate_pool r may_use check_outage (pool_for r may_use api allow_prefix_strip name)

abbrev pub is_ok : Evaluation → Bool
is_ok (ok candidates) = true
is_ok _ = false

unfoldable pub is_model_available :
    Router → (String → Bool) → Option String → Bool → Option String → Bool
unfolding evaluate
is_model_available r may_use api ignore_outage none = false
is_model_available r may_use api ignore_outage (some name) =
    not (str_eq name "") && is_ok (evaluate r may_use api true (not ignore_outage) name)
