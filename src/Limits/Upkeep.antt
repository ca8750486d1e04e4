-- ===== src/Limits/Upkeep.antt =====
-- The upkeep of `RateLimitTracker` in app/rate_limit.py: `_evict_stale_buckets`, which the refresh loop
-- runs, and the invalidations. The locks that it evicts too are those of Locks.
pub mod Kept
use llm_proxy_server.Prelude.{
  ℕ, ◌+◌, ◌-◌, Bool, true, false, Option, none, some, List, [], ◌∷◌, String, lookup, erase, sweep,
  ltb, nat_eq, if◌then◌else◌, ℕ-Keyed, Pair-Keyed, String-Keyed, Dict,
}
use llm_proxy_server.Limits.Groups.{GroupState, drop_group}
use llm_proxy_server.Limits.Cache.{RpdCacheEntry}
use llm_proxy_server.Limits.Tracker.{
  Tracker, MinuteBucket, ScopeKey, user_scope_key, pool_scope_key, ScopeKey-Keyed, scope_key_eq,
  RpdCache, GroupRpdCache,
}
use llm_proxy_server.Limits.Decision.{window_of}

-- `_RPD_CACHE_RETENTION`, five minutes.
abbrev pub rpd_cache_retention : ℕ
rpd_cache_retention = 300000

-- `b.window < current_window - 1`, as integers.
abbrev pub is_stale : ℕ → MinuteBucket → Bool
is_stale now b = ltb (b.window + 1) (window_of now)

-- `e.expires_at < now - _RPD_CACHE_RETENTION`, as integers.
abbrev pub is_aged : ℕ → RpdCacheEntry → Bool
is_aged now e = ltb (e.expires_at + rpd_cache_retention) now

unfoldable pub evict_stale_buckets : ℕ → Tracker → Tracker
unfolding sweep
evict_stale_buckets now t = record t {
  minute_buckets = sweep (λ _ b. is_stale now b) t.minute_buckets;
  group_minute_buckets = sweep (λ _ b. is_stale now b) t.group_minute_buckets;
  rpd_cache = sweep (λ _ e. is_aged now e) t.rpd_cache;
  group_rpd_cache = sweep (λ _ e. is_aged now e) t.group_rpd_cache;
}

-- Drops the counts of one scope key, of every tier.
unfoldable pub drop_scope : ScopeKey → Tracker → Tracker
unfolding erase sweep
drop_scope key t = record t {
  rpd_cache = erase key t.rpd_cache;
  group_rpd_cache =
      sweep (λ (k : ScopeKey × ℕ) (_ : RpdCacheEntry). scope_key_eq k.0 key) t.group_rpd_cache;
}

unfoldable pub invalidate_pool : ℕ → Tracker → Tracker
unfolding drop_scope
invalidate_pool pool_id t = drop_scope (pool_scope_key pool_id) t

unfoldable pub invalidate_identity : String → Tracker → Tracker
unfolding invalidate_pool drop_scope lookup
invalidate_identity identity t =
    let dropped = drop_scope (user_scope_key identity) t in
    elim (lookup identity t.identity_to_pool) [
      | none ↦ dropped
      | some pool_id ↦ invalidate_pool pool_id dropped
    ]

unfoldable pub invalidate_all_rpd : Tracker → Tracker
invalidate_all_rpd t = record t { rpd_cache = []; group_rpd_cache = [] }

unfoldable pub invalidate_group : ℕ → Tracker → Tracker
unfolding drop_group sweep
invalidate_group group_id t = record t {
  groups = drop_group t.groups group_id;
  group_minute_buckets =
      sweep (λ (k : ℕ × ℕ) (_ : MinuteBucket). nat_eq k.1 group_id) t.group_minute_buckets;
  group_rpd_cache =
      sweep (λ (k : ScopeKey × ℕ) (_ : RpdCacheEntry). nat_eq k.1 group_id) t.group_rpd_cache;
}
