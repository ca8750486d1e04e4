-- ===== src/Access/Owned.antt =====
-- A user's own instances are out of everybody else's reach, and the two access decisions agree.
use llm_proxy_server.Prelude.{
  ℕ, ◌≡◌, ◌↔◌, refl, Bool, true, ◌&&◌, some, String, if◌then◌else◌, arith, get_or,
}
use llm_proxy_server.Byok.{
  Owner, user, unknown, nobody, owner_of_model, is_byok_model_of, is_owned, Caller, admin, member,
  anonymous, is_owner, caller_user_id,
}
use llm_proxy_server.Profiles.{for_user}
use llm_proxy_server.Access.{
  ModelCache, byok_enabled, access_of_owner, byok_access_for_user, is_model_allowed_for_profile,
  is_model_allowed_for_user, caller_may_use,
}

-- What is left of the decision once the owner is known.
abbrev may_use : Owner → Caller → Bool → Bool → Bool
may_use o auth enabled otherwise = if is_owned o then is_owner auth o && enabled else otherwise

may_use-owner :
    (o : Owner) (auth : Caller) (enabled otherwise : Bool)
    → is_owned o ≡ true
    → (may_use o auth enabled otherwise ≡ true)
      ↔ ((u : ℕ) × (auth ≡ member u) × (o ≡ user u) × (enabled ≡ true))
unfolding is_owner caller_user_id
may_use-owner nobody auth enabled otherwise h = absurd (ground (arith, h))
may_use-owner unknown auth enabled otherwise h =
    (λ e. absurd (ground (arith, e)), λ x. absurd (ground (arith, x.1, x.2)))
may_use-owner (user v) admin enabled otherwise h =
    (λ e. absurd (ground (arith, e)), λ x. absurd (ground (arith, x.1, x.2)))
may_use-owner (user v) anonymous enabled otherwise h =
    (λ e. absurd (ground (arith, e)), λ x. absurd (ground (arith, x.1, x.2)))
may_use-owner (user v) (member u) enabled otherwise h =
    (λ e. (u, refl, ground (arith, e), ground (arith, e)), λ x. ground (arith, x.1, x.2, x.3))

-- A model on a user's own instance can be used by that user alone, and only while the model and the
-- instance are enabled: the administrator and callers without an identity cannot use it, nor can
-- anybody while its owner is unknown.
pub caller_may_use-owned :
    (c : ModelCache) (auth : Caller) (model_id : String)
    → is_byok_model_of c.owners (some model_id) ≡ true
    → (caller_may_use c auth model_id ≡ true) ↔ (
        (u : ℕ) × (auth ≡ member u)
        × (owner_of_model c.owners (some model_id) ≡ user u)
        × (byok_enabled c model_id ≡ true))
unfolding caller_may_use is_byok_model_of
caller_may_use-owned c auth model_id h =
    may_use-owner (owner_of_model c.owners (some model_id)) auth (byok_enabled c model_id)
      (elim auth [
        | admin ↦ true
        | anonymous ↦ true
        | member user_id ↦ is_model_allowed_for_user c user_id model_id
      ])
      h

by_owner :
    (o : Owner) (u : ℕ) (enabled allowed : Bool)
    → may_use o (member u) enabled (get_or (access_of_owner o (some u) enabled) allowed)
      ≡ get_or (access_of_owner o (some u) enabled) allowed
unfolding is_owner caller_user_id
by_owner o u enabled allowed = ground arith

-- For a caller who is a user, the check of the routes decides every model as the cache does.
pub caller_may_use-member :
    (c : ModelCache) (u : ℕ) (model_id : String)
    → caller_may_use c (member u) model_id ≡ is_model_allowed_for_user c u model_id
unfolding caller_may_use is_byok_model_of is_model_allowed_for_user byok_access_for_user
caller_may_use-member c u model_id =
    by_owner (owner_of_model c.owners (some model_id)) u (byok_enabled c model_id)
      (is_model_allowed_for_profile c (for_user c.profiles (some u)) model_id)
