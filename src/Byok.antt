-- ===== src/Byok.antt =====
-- app/byok.py: provider keys, BYOK names and the owner registry. A caller is reduced to what
-- `caller_user_id` and `is_owner` read of it.
use llm_proxy_server.Prelude.{
  ℕ, Bool, true, false, not, ◌&&◌, Option, none, some, String, Dict, lookup, insert, erase, is_some,
  has_char, before_char, after_char, starts_with, str_eq, nat_eq, if◌then◌else◌, String-Keyed,
}

-- `provider_key_of` of app/rate_limit.py and `provider_key_of_model`, which are one parse. The
-- empty text is falsy in Python.
unfoldable pub provider_key_of : Option String → Option String
unfolding before_char
provider_key_of none = none
provider_key_of (some model_id) =
    if str_eq model_id "" then none else some (before_char b'/' model_id)

unfoldable pub instance_part : Option String → String
unfolding has_char after_char
instance_part none = ""
instance_part (some provider_key) =
    if has_char b':' provider_key then after_char b':' provider_key else ""

abbrev pub byok_instance_prefix : String
byok_instance_prefix = "byok-"

unfoldable pub is_byok_instance_name : String → Bool
unfolding starts_with
is_byok_instance_name instance_name =
    not (str_eq instance_name "") && starts_with byok_instance_prefix instance_name

unfoldable pub is_byok_provider_key : Option String → Bool
unfolding is_byok_instance_name instance_part
is_byok_provider_key provider_key = is_byok_instance_name (instance_part provider_key)

unfoldable pub is_byok_model : Option String → Bool
unfolding is_byok_provider_key provider_key_of
is_byok_model model_id = is_byok_provider_key (provider_key_of model_id)

-- Who owns an instance: a user, nobody that is known (`UNKNOWN_OWNER`), or no user at all.
pub data Owner : Type 0 where
  user : ℕ → Owner
  unknown : Owner
  nobody : Owner

-- `ByokRegistry._owners`
abbrev pub Owners : Type 0
Owners = Dict String ℕ

unfoldable pub owner_of : Owners → Option String → Owner
unfolding lookup is_byok_provider_key
owner_of owners none = nobody
owner_of owners (some provider_key) =
    if str_eq provider_key "" then nobody else elim (lookup provider_key owners) [
      | some uid ↦ user uid
      | none ↦ if is_byok_provider_key (some provider_key) then unknown else nobody
    ]

unfoldable pub owner_of_model : Owners → Option String → Owner
unfolding owner_of provider_key_of
owner_of_model owners model_id = owner_of owners (provider_key_of model_id)

abbrev pub is_owned : Owner → Bool
is_owned nobody = false
is_owned _ = true

-- `ByokRegistry.is_byok_model`
unfoldable pub is_byok_model_of : Owners → Option String → Bool
unfolding owner_of_model
is_byok_model_of owners model_id = is_owned (owner_of_model owners model_id)

-- `ByokRegistry.set` and `discard`
unfoldable pub set_owner : Owners → String → ℕ → Owners
unfolding insert
set_owner owners provider_key uid = insert provider_key uid owners

unfoldable pub discard_owner : Owners → String → Owners
unfolding erase lookup
discard_owner owners provider_key =
    if is_some (lookup provider_key owners) then erase provider_key owners else owners

-- An auth result: the config admin, a user or an API key of a user, or one without an identity.
pub data Caller : Type 0 where
  admin : Caller
  member : ℕ → Caller
  anonymous : Caller

unfoldable pub caller_user_id : Caller → Option ℕ
caller_user_id admin = none
caller_user_id (member uid) = some uid
caller_user_id anonymous = none

unfoldable pub is_owner : Caller → Owner → Bool
unfolding caller_user_id
is_owner auth nobody = false
is_owner auth unknown = false
is_owner admin (user owner) = false
is_owner auth (user owner) = elim (caller_user_id auth) [
  | none ↦ false
  | some uid ↦ nat_eq uid owner
]
