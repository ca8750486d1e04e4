-- ===== src/Limits/Tracker.antt =====
-- `RateLimitTracker` of app/rate_limit.py: its snapshots of groups, pools and carries, and the day
-- limits that follow from them. `user:` and `pool:` keys of the caches are two constructors.
use llm_proxy_server.Prelude.{
  ℕ, ◌+◌, ◌*◌, ◌/◌, ◌≡◌, Bool, true, false, Option, none, some, List, [], ◌∷◌, map, String, Dict,
  lookup, leb, nat_eq, str_eq, str_eq_iff, max, if◌then◌else◌, ◌↔◌, Keyed, ℕ-Keyed, Pair-Keyed,
  String-Keyed, arith, ℤ, pos, sum_ℤ, ◌+ℤ◌, max_zero, contains, get_or,
}
use llm_proxy_server.Profiles.{ProfileRegistry}
use llm_proxy_server.Limits.Groups.{
  GroupState, GroupSnapshot, Scope, overall, model_group, ScopeKind-Keyed,
}
use llm_proxy_server.Limits.Cache.{RpdCacheEntry, read_rpd_cached}

-- `_user_scope_key` and `_pool_scope_key`
pub data ScopeKey : Type 0 where
  user_scope_key : String → ScopeKey
  pool_scope_key : ℕ → ScopeKey

abbrev pub scope_key_eq : ScopeKey → ScopeKey → Bool
scope_key_eq (user_scope_key a) (user_scope_key b) = str_eq a b
scope_key_eq (pool_scope_key a) (pool_scope_key b) = nat_eq a b
scope_key_eq _ _ = false

pub scope_key_eq_iff : (k l : ScopeKey) → (scope_key_eq k l ≡ true) ↔ (k ≡ l)
scope_key_eq_iff (user_scope_key a) (user_scope_key b) = ground (arith, str_eq_iff a b)
scope_key_eq_iff (user_scope_key a) (pool_scope_key b) = ground arith
scope_key_eq_iff (pool_scope_key a) (user_scope_key b) = ground arith
scope_key_eq_iff (pool_scope_key a) (pool_scope_key b) = ground arith

instance abbrev pub ScopeKey-Keyed : Keyed ScopeKey
ScopeKey-Keyed = record { same = scope_key_eq; same_iff = scope_key_eq_iff }

pub record MinuteBucket : Type 0 where
  pub window : ℕ
  pub count : ℕ

abbrev pub RpdCache : Type 0
RpdCache = Dict ScopeKey RpdCacheEntry

abbrev pub GroupRpdCache : Type 0
GroupRpdCache = Dict (ScopeKey × ℕ) RpdCacheEntry

-- The fields of the tracker that the checks read and write, with the profiles they read.
pub record Tracker : Type 0 where
  pub profiles : ProfileRegistry
  pub groups : GroupState
  pub user_to_pool : Dict ℕ ℕ
  pub pool_members : Dict ℕ (List (ℕ × String))
  pub identity_to_pool : Dict String ℕ
  pub inactive_members : List ℕ
  pub carries : Dict (ℕ × Scope) ℤ
  pub carries_date : Option ℕ
  pub pool_share_default : Option ℕ
  pub pool_share_override : Dict ℕ ℕ
  pub minute_buckets : Dict ℕ MinuteBucket
  pub group_minute_buckets : Dict (ℕ × ℕ) MinuteBucket
  pub rpd_cache : RpdCache
  pub group_rpd_cache : GroupRpdCache

-- The cache key, the ids whose rows are counted, and the pool.
pub record RpdScope : Type 0 where
  pub scope_key : ScopeKey
  pub member_ids : List ℕ
  pub pool_id : Option ℕ

-- `pool_id` and its members, if the user is in a pool that has some.
unfoldable pub pool_of : Tracker → ℕ → Option (ℕ × List (ℕ × String))
unfolding lookup
pool_of t user_id = elim (lookup user_id t.user_to_pool) [
  | none ↦ none
  | some pool_id ↦ elim (lookup pool_id t.pool_members) [
    | none ↦ none
    | some [] ↦ none
    | some (m ∷ ms) ↦ some (pool_id, m ∷ ms)
  ]
]

unfoldable pub rpd_scope : Tracker → ℕ → String → RpdScope
unfolding pool_of
rpd_scope t user_id username = elim (pool_of t user_id) [
  | none ↦ record { scope_key = user_scope_key username; member_ids = user_id ∷ []; pool_id = none }
  | some (pool_id, members) ↦ record {
    scope_key = pool_scope_key pool_id;
    member_ids = map (λ (m : ℕ × String). m.0) members;
    pool_id = some pool_id;
  }
]

-- The sum starts from `total`.
unfoldable pub pooled_from : Tracker → (ℕ → Option ℕ) → ℕ → List ℕ → Option ℕ
pooled_from t per_member total [] = some total
pooled_from t per_member total (uid ∷ uids) =
    let skipped = pooled_from t per_member total uids in
    let added = λ (value : ℕ). pooled_from t per_member (total + value) uids in
    if contains t.inactive_members uid
    then skipped
    else elim (per_member uid) [ none ↦ none | some value ↦ added value ]

unfoldable pub pooled_rpd_limit : Tracker → List ℕ → (ℕ → Option ℕ) → Option ℕ
unfolding pooled_from
pooled_rpd_limit t member_ids per_member = pooled_from t per_member 0 member_ids

-- `today` is the local day.
unfoldable pub carry_sum : ℕ → Tracker → List ℕ → Scope → ℤ
unfolding lookup ◌+ℤ◌
carry_sum today t member_ids scope = elim t.carries_date [
  | none ↦ pos 0
  | some date ↦
      if nat_eq date today
      then sum_ℤ (λ uid. get_or (lookup (uid, scope) t.carries) (pos 0)) member_ids
      else pos 0
]

unfoldable pub share_pct_for : Tracker → Option ℕ → Option ℕ
unfolding lookup
share_pct_for t none = none
share_pct_for t (some pool_id) = elim (lookup pool_id t.pool_share_override) [
  | none ↦ t.pool_share_default
  | some pct ↦ some pct
]

-- `max(own_limit, pool_limit * pct // 100)`, or none.
unfoldable pub share_cap_of : Option ℕ → Option ℕ → Option ℕ → Option ℕ
share_cap_of (some pct) (some own_limit) (some pool_limit) =
    if leb 100 pct then none else some (max own_limit (pool_limit * pct / 100))
share_cap_of _ _ _ = none

unfoldable pub member_share_cap : Tracker → Option ℕ → Option ℕ → Option ℕ → Option ℕ
unfolding share_pct_for share_cap_of
member_share_cap t pool_id own_limit pool_limit =
    share_cap_of (share_pct_for t pool_id) own_limit pool_limit

-- What a check learns from outside: the time in milliseconds, the local day, the seconds to its end,
-- and today's rows of a list of users, which `none` says could not be read.
pub record World : Type 0 where
  pub now : ℕ
  pub today : ℕ
  pub seconds_until_midnight : ℕ
  pub today_rows : List ℕ → Option ℕ
  pub today_group_rows : List ℕ → GroupSnapshot → Option ℕ

-- `max(0, rows + carries)`, when the rows can be read.
unfoldable pub effective_count : Option ℕ → ℤ → Option ℕ
unfolding ◌+ℤ◌
effective_count none carry = none
effective_count (some rows) carry = some (max_zero (pos rows +ℤ carry))

-- `_get_today_count`, with the tracker that has the entry it may have cached.
unfoldable pub get_today_count : World → ScopeKey → List ℕ → Tracker → ℕ × Tracker
unfolding read_rpd_cached effective_count carry_sum
get_today_count w key member_ids t =
    let load =
      effective_count (w.today_rows member_ids) (carry_sum w.today t member_ids (overall, 0)) in
    let r = read_rpd_cached w.now load key t.rpd_cache in (r.0, record t { rpd_cache = r.1 })

-- `_get_today_group_count`
unfoldable pub get_today_group_count :
    World → ScopeKey → List ℕ → GroupSnapshot → Tracker → ℕ × Tracker
unfolding read_rpd_cached effective_count carry_sum
get_today_group_count w key member_ids group t =
    let load =
      effective_count (w.today_group_rows member_ids group)
        (carry_sum w.today t member_ids (model_group, group.group_id)) in
    let r = read_rpd_cached w.now load (key, group.group_id) t.group_rpd_cache in
    (r.0, record t { group_rpd_cache = r.1 })
