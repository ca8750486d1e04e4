-- ===== src/Profiles.antt =====
-- app/profiles.py: the snapshot of user profiles that rate limiting and model access read.
-- A limit is `none` when there is none; the forms refuse a negative one, so limits are natural.
use llm_proxy_server.Prelude.{
  ℕ, Bool, Option, none, some, List, [], ◌∷◌, ◌≡◌, String, Dict, lookup, insert, get_or, arith,
  nat_eq, if◌then◌else◌, contains, lookup-insert, ℕ-Keyed, String-Keyed,
}

abbrev pub default_profile_id : ℕ
default_profile_id = 1

abbrev pub default_group_id : ℕ
default_group_id = 0

-- The mode of model access; any other text is read as `default`.
pub data AccessMode : Type 0 where
  default allow deny custom : AccessMode

pub record ProfileSnapshot : Type 0 where
  pub id : ℕ
  pub name : String
  pub rpm : Option ℕ
  pub rpd : Option ℕ
  pub model_group_limits : Dict ℕ (Option ℕ × Option ℕ)
  pub access_mode : AccessMode
  pub access_exceptions : Dict String Bool
  pub max_concurrent : Option ℕ

unfoldable pub model_group_limit : ProfileSnapshot → ℕ → Option ℕ × Option ℕ
unfolding lookup
model_group_limit p group_id =
    if nat_eq group_id default_group_id
    then (p.rpm, p.rpd)
    else get_or (lookup group_id p.model_group_limits) (none, none)

-- `EMPTY_DEFAULT`
abbrev pub empty_default : ProfileSnapshot
empty_default = record {
  id = default_profile_id;
  name = "Default";
  rpm = none;
  rpd = none;
  model_group_limits = [];
  access_mode = default;
  access_exceptions = [];
  max_concurrent = none;
}

-- `ProfileRegistry._state`
pub record ProfileRegistry : Type 0 where
  pub users : Dict ℕ ℕ
  pub profiles : Dict ℕ ProfileSnapshot

unfoldable pub profile_id_for : ProfileRegistry → Option ℕ → ℕ
unfolding lookup
profile_id_for r none = default_profile_id
profile_id_for r (some uid) = get_or (lookup uid r.users) default_profile_id

unfoldable pub get_profile : ProfileRegistry → Option ℕ → ProfileSnapshot
unfolding lookup
get_profile r none = get_or (lookup default_profile_id r.profiles) empty_default
get_profile r (some profile_id) = elim (lookup profile_id r.profiles) [
  | some snap ↦ snap
  | none ↦ get_or (lookup default_profile_id r.profiles) empty_default
]

unfoldable pub for_user : ProfileRegistry → Option ℕ → ProfileSnapshot
unfolding profile_id_for get_profile
for_user r user_id = get_profile r (some (profile_id_for r user_id))

-- `{p.id: p for p in profiles}`
unfoldable pub profiles_by_id :
    List ProfileSnapshot → Dict ℕ ProfileSnapshot → Dict ℕ ProfileSnapshot
unfolding insert
profiles_by_id [] d = d
profiles_by_id (p ∷ ps) d = profiles_by_id ps (insert p.id p d)

unfoldable pub install_profiles : Dict ℕ ℕ → List ProfileSnapshot → ProfileRegistry
unfolding profiles_by_id
install_profiles users ps = record { users = users; profiles = profiles_by_id ps [] }

unfoldable pub move_users : List ℕ → ℕ → Dict ℕ ℕ → Dict ℕ ℕ
unfolding insert
move_users [] profile_id d = d
move_users (uid ∷ uids) profile_id d = move_users uids profile_id (insert uid profile_id d)

unfoldable pub set_users_profile : ProfileRegistry → List ℕ → ℕ → ProfileRegistry
unfolding move_users
set_users_profile r uids profile_id = record r { users = move_users uids profile_id r.users }

lookup-move_users :
    (uids : List ℕ) (profile_id uid : ℕ) (d : Dict ℕ ℕ)
    → lookup uid (move_users uids profile_id d)
      ≡ (if contains uids uid then some profile_id else lookup uid d)
unfolding move_users
lookup-move_users [] profile_id uid d = ground arith
lookup-move_users (u ∷ uids) profile_id uid d = ground (
  arith,
  lookup-move_users uids profile_id uid (insert u profile_id d),
  lookup-insert u uid profile_id d,
)

-- After a move exactly the listed users read the profile they were moved to, and every other user
-- reads the profile read before.
pub for_user-set_users_profile :
    (r : ProfileRegistry) (uids : List ℕ) (profile_id uid : ℕ)
    → for_user (set_users_profile r uids profile_id) (some uid)
      ≡ (if contains uids uid then get_profile r (some profile_id) else for_user r (some uid))
unfolding for_user set_users_profile
for_user-set_users_profile r uids profile_id uid =
    ground (arith, lookup-move_users uids profile_id uid r.users)
