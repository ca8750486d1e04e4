-- ===== src/Limits/Groups.antt =====
-- Model groups in `RateLimitTracker` of app/rate_limit.py: which group governs a model, and the
-- limits that a user's profile sets for it.
pub mod Claims
use llm_proxy_server.Prelude.{
  ℕ, Bool, true, false, Option, none, some, List, [], ◌∷◌, ◌≡◌, map, String, Dict, lookup, erase,
  get_or, arith, nat_eq, str_eq, if◌then◌else◌, ℕ-Keyed, String-Keyed, Keyed, ◌↔◌,
}
use llm_proxy_server.Byok.{provider_key_of}
use llm_proxy_server.Profiles.{ProfileRegistry, default_group_id, for_user, model_group_limit}

-- `_ModelGroupSnapshot`
pub record GroupSnapshot : Type 0 where
  pub group_id : ℕ
  pub name : String
  pub model_ids : List String
  pub provider_keys : List String
  pub enabled : Bool

-- `_groups`, `_model_to_group` and `_provider_to_group`
pub record GroupState : Type 0 where
  pub groups : Dict ℕ GroupSnapshot
  pub model_to_group : Dict String ℕ
  pub provider_to_group : Dict String ℕ

-- The group of a provider key; `None` is no key of the map.
abbrev instance_group : GroupState → Option String → Option ℕ
instance_group g none = none
instance_group g (some key) = lookup key g.provider_to_group

unfoldable pub group_for : GroupState → Option String → ℕ
unfolding lookup provider_key_of
group_for g none = default_group_id
group_for g (some model_id) =
    if str_eq model_id "" then default_group_id else elim (lookup model_id g.model_to_group) [
      | some gid ↦ gid
      | none ↦ get_or (instance_group g (provider_key_of (some model_id))) default_group_id
    ]

unfoldable pub blocking_group : GroupState → Option String → Option String
unfolding group_for
blocking_group g model_id = elim (lookup (group_for g model_id) g.groups) [
  | none ↦ none
  | some snap ↦ if snap.enabled then none else some snap.name
]

unfoldable pub group_name : GroupState → ℕ → Option String
unfolding lookup
group_name g group_id =
    if nat_eq group_id default_group_id
    then some "Default"
    else elim (lookup group_id g.groups) [ none ↦ none | some snap ↦ some snap.name ]

-- The scope kinds of settlement; `other` stands for any other text.
pub data ScopeKind : Type 0 where
  overall model_group other : ScopeKind

abbrev pub Scope : Type 0
Scope = ScopeKind × ℕ

abbrev kind_eq : ScopeKind → ScopeKind → Bool
kind_eq overall overall = true
kind_eq model_group model_group = true
kind_eq other other = true
kind_eq overall _ = false
kind_eq model_group _ = false
kind_eq other _ = false

pub kind_eq_iff : (k l : ScopeKind) → (kind_eq k l ≡ true) ↔ (k ≡ l)
kind_eq_iff k l = ground arith

instance abbrev pub ScopeKind-Keyed : Keyed ScopeKind
ScopeKind-Keyed = record { same = kind_eq; same_iff = kind_eq_iff }

unfoldable pub settlement_scopes : GroupState → List Scope
settlement_scopes g = (overall, 0) ∷ map (λ (e : ℕ × GroupSnapshot). (model_group, e.0)) g.groups

unfoldable pub scope_for_model : GroupState → Option String → Option Scope
unfolding group_for
scope_for_model g model_id =
    if nat_eq (group_for g model_id) default_group_id
    then none
    else some (model_group, group_for g model_id)

-- `group_limits_for`: (rpm, rpd) of a user on a group.
unfoldable pub group_limits_for : ProfileRegistry → ℕ → ℕ → Option ℕ × Option ℕ
unfolding for_user model_group_limit
group_limits_for p user_id group_id = model_group_limit (for_user p (some user_id)) group_id

unfoldable pub own_rpm_limit : ProfileRegistry → ℕ → Option ℕ
unfolding for_user
own_rpm_limit p user_id = (for_user p (some user_id)).rpm

unfoldable pub own_rpd_limit : ProfileRegistry → ℕ → Option ℕ
unfolding for_user
own_rpd_limit p user_id = (for_user p (some user_id)).rpd

unfoldable pub member_limit_for_scope : ProfileRegistry → GroupState → ℕ → Scope → Option ℕ
unfolding own_rpd_limit group_limits_for lookup
member_limit_for_scope p g user_id (overall, sid) = own_rpd_limit p user_id
member_limit_for_scope p g user_id (model_group, sid) = elim (lookup sid g.groups) [
  | none ↦ none
  | some group ↦ (group_limits_for p user_id group.group_id).1
]
member_limit_for_scope p g user_id (other, sid) = none

-- `d.pop(k, None)` for each key of a list.
unfoldable pub erase_all : List String → Dict String ℕ → Dict String ℕ
unfolding erase
erase_all [] d = d
erase_all (k ∷ ks) d = erase_all ks (erase k d)

-- The part of `invalidate_group` that drops the snapshot.
unfoldable pub drop_group : GroupState → ℕ → GroupState
unfolding erase_all lookup
drop_group g group_id = elim (lookup group_id g.groups) [
  | none ↦ g
  | some snap ↦ record {
    groups = erase group_id g.groups;
    model_to_group = erase_all snap.model_ids g.model_to_group;
    provider_to_group = erase_all snap.provider_keys g.provider_to_group;
  }
]
