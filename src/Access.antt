-- ===== src/Access.antt =====
-- Who may use a model: the access section of `ModelCache` in app/cache.py, and `caller_may_use` of
-- app/model_access_dep.py.
pub mod Owned
mod Tests
use llm_proxy_server.Prelude.{
  ℕ, Bool, true, false, not, ◌&&◌, Option, none, some, String, Dict, lookup, get_or, is_some,
  has_char, before_char, nat_eq, if◌then◌else◌, String-Keyed,
}
use llm_proxy_server.Byok.{
  Owners, Owner, user, unknown, nobody, owner_of_model, is_byok_model_of, Caller, admin, member,
  anonymous, is_owner,
}
use llm_proxy_server.Profiles.{
  ProfileRegistry, ProfileSnapshot, AccessMode, default, allow, deny, custom, for_user,
}
use llm_proxy_server.Limits.Groups.{GroupState, blocking_group}

-- `_model_configs` and `_provider_configs` of the cache, with the registries that it reads.
pub record ModelCache : Type 0 where
  pub model_configs : Dict String Bool
  pub provider_configs : Dict String Bool
  pub owners : Owners
  pub groups : GroupState
  pub profiles : ProfileRegistry

unfoldable pub is_model_enabled : ModelCache → String → Bool
unfolding lookup
is_model_enabled c model_id = get_or (lookup model_id c.model_configs) true

unfoldable pub is_provider_enabled : ModelCache → String → Bool
unfolding lookup
is_provider_enabled c provider_key = get_or (lookup provider_key c.provider_configs) true

-- `_byok_enabled`
unfoldable pub byok_enabled : ModelCache → String → Bool
unfolding is_model_enabled is_provider_enabled has_char before_char
byok_enabled c model_id =
    let provider_key = if has_char b'/' model_id then before_char b'/' model_id else model_id in
    if is_model_enabled c model_id then is_provider_enabled c provider_key else false

-- The access to a model by its owner.
abbrev pub access_of_owner : Owner → Option ℕ → Bool → Option Bool
access_of_owner nobody user_id enabled = none
access_of_owner unknown user_id enabled = some false
access_of_owner (user owner) none enabled = some false
access_of_owner (user owner) (some user_id) enabled =
    if nat_eq owner user_id then some enabled else some false

unfoldable pub byok_access_for_user : ModelCache → Option ℕ → String → Option Bool
unfolding owner_of_model byok_enabled
byok_access_for_user c user_id model_id =
    access_of_owner (owner_of_model c.owners (some model_id)) user_id (byok_enabled c model_id)

unfoldable pub passes_global_gate : ModelCache → String → Bool
unfolding is_model_enabled is_provider_enabled has_char before_char blocking_group
passes_global_gate c model_id =
    let unblocked = not (is_some (blocking_group c.groups (some model_id))) in
    if is_model_enabled c model_id
    then (if has_char b'/' model_id
        then (if is_provider_enabled c (before_char b'/' model_id) then unblocked else false)
        else unblocked)
    else false

-- The decision by mode, for a model that is nobody's own.
unfoldable pub allowed_by_mode : AccessMode → Option Bool → Bool → Bool
allowed_by_mode default listed gate = gate
allowed_by_mode allow listed gate = true
allowed_by_mode deny listed gate = false
allowed_by_mode custom none gate = gate
allowed_by_mode custom (some exception) gate = exception

unfoldable pub is_model_allowed_for_profile : ModelCache → ProfileSnapshot → String → Bool
unfolding is_byok_model_of allowed_by_mode passes_global_gate lookup
is_model_allowed_for_profile c profile model_id =
    if is_byok_model_of c.owners (some model_id)
    then false
    else allowed_by_mode profile.access_mode (lookup model_id profile.access_exceptions)
        (passes_global_gate c model_id)

unfoldable pub is_model_allowed_for_user : ModelCache → ℕ → String → Bool
unfolding byok_access_for_user is_model_allowed_for_profile for_user
is_model_allowed_for_user c user_id model_id =
    let by_profile = is_model_allowed_for_profile c (for_user c.profiles (some user_id)) model_id in
    get_or (byok_access_for_user c (some user_id) model_id) by_profile

unfoldable pub caller_may_use : ModelCache → Caller → String → Bool
unfolding is_byok_model_of is_owner owner_of_model byok_enabled is_model_allowed_for_user
caller_may_use c auth model_id =
    let owned =
      is_owner auth (owner_of_model c.owners (some model_id)) && byok_enabled c model_id in
    if is_byok_model_of c.owners (some model_id) then owned else elim auth [
      | admin ↦ true
      | anonymous ↦ true
      | member user_id ↦ is_model_allowed_for_user c user_id model_id
    ]
