-- ===== src/Limits/Load.antt =====
-- `_load_config_locked` of app/rate_limit.py: the snapshots that a reload installs, from the rows that
-- its queries read. A reload whose queries fail leaves the tracker as it was.
use llm_proxy_server.Prelude.{
  ℕ, Bool, Option, none, some, List, [], ◌∷◌, ◌++◌, String, Dict, lookup, insert, get_or, ℕ-Keyed,
  String-Keyed, Pair-Keyed, if◌then◌else◌, ℤ,
}
use llm_proxy_server.Profiles.{ProfileRegistry}
use llm_proxy_server.Limits.Groups.{GroupState, GroupSnapshot, Scope, ScopeKind-Keyed}
use llm_proxy_server.Limits.Tracker.{Tracker}

-- A `ModelGroup` with its members.
pub record GroupRow : Type 0 where
  pub id : ℕ
  pub name : String
  pub members : List String
  pub instance_members : List String
  pub enabled : Bool

pub record PoolMemberRow : Type 0 where
  pub pool_id : ℕ
  pub user_id : ℕ
  pub username : String
  pub is_active : Bool

pub record CarryRow : Type 0 where
  pub user_id : ℕ
  pub scope : Scope
  pub carry : ℤ

unfoldable pub snapshot_of : GroupRow → GroupSnapshot
snapshot_of g = record {
  group_id = g.id;
  name = g.name;
  model_ids = g.members;
  provider_keys = g.instance_members;
  enabled = g.enabled;
}

-- The three comprehensions over `group_rows`, each from the entries before.
unfoldable pub load_groups : List GroupRow → Dict ℕ GroupSnapshot → Dict ℕ GroupSnapshot
unfolding insert snapshot_of
load_groups [] d = d
load_groups (g ∷ gs) d = load_groups gs (insert g.id (snapshot_of g) d)

-- `{x: gid for x in xs}`
unfoldable pub claim_all : List String → ℕ → Dict String ℕ → Dict String ℕ
unfolding insert
claim_all [] gid d = d
claim_all (x ∷ xs) gid d = claim_all xs gid (insert x gid d)

unfoldable pub load_claims :
    (GroupRow → List String) → List GroupRow → Dict String ℕ → Dict String ℕ
unfolding claim_all
load_claims members [] d = d
load_claims members (g ∷ gs) d = load_claims members gs (claim_all (members g) g.id d)

unfoldable pub load_group_state : List GroupRow → GroupState
unfolding load_groups load_claims
load_group_state gs = record {
  groups = load_groups gs [];
  model_to_group = load_claims (λ g. g.members) gs [];
  provider_to_group = load_claims (λ g. g.instance_members) gs [];
}

-- The maps that the loop over `pool_member_rows` fills.
pub record PoolMaps : Type 0 where
  pub pool_members : Dict ℕ (List (ℕ × String))
  pub user_to_pool : Dict ℕ ℕ
  pub identity_to_pool : Dict String ℕ
  pub inactive_members : List ℕ

unfoldable pub load_pools : List PoolMemberRow → PoolMaps → PoolMaps
unfolding insert lookup
load_pools [] m = m
load_pools (r ∷ rs) m = load_pools rs (record {
  pool_members =
      insert r.pool_id (get_or (lookup r.pool_id m.pool_members) [] ++ (r.user_id, r.username) ∷ [])
        m.pool_members;
  user_to_pool = insert r.user_id r.pool_id m.user_to_pool;
  identity_to_pool = insert r.username r.pool_id m.identity_to_pool;
  inactive_members = if r.is_active then m.inactive_members else r.user_id ∷ m.inactive_members;
})

unfoldable pub load_carries : List CarryRow → Dict (ℕ × Scope) ℤ → Dict (ℕ × Scope) ℤ
unfolding insert
load_carries [] d = d
load_carries (r ∷ rs) d = load_carries rs (insert (r.user_id, r.scope) r.carry d)

-- What the queries of a reload read.
pub record ConfigRows : Type 0 where
  pub profiles : ProfileRegistry
  pub group_rows : List GroupRow
  pub pool_member_rows : List PoolMemberRow
  pub carry_day : ℕ
  pub carry_rows : List CarryRow
  pub share_default : Option ℕ
  pub share_override : Dict ℕ ℕ

unfoldable pub load_config : Option ConfigRows → Tracker → Tracker
unfolding load_group_state load_pools load_carries
load_config none t = t
load_config (some rows) t =
    let none_yet : PoolMaps = record {
      pool_members = [];
      user_to_pool = [];
      identity_to_pool = [];
      inactive_members = [];
    } in
    let pools = load_pools rows.pool_member_rows none_yet in
    record t {
      profiles = rows.profiles;
      groups = load_group_state rows.group_rows;
      pool_members = pools.pool_members;
      user_to_pool = pools.user_to_pool;
      identity_to_pool = pools.identity_to_pool;
      inactive_members = pools.inactive_members;
      carries = load_carries rows.carry_rows [];
      carries_date = some rows.carry_day;
      pool_share_default = rows.share_default;
      pool_share_override = rows.share_override;
    }
