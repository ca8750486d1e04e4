-- ===== src/Limits/Upkeep/Kept.antt =====
-- What the upkeep leaves alone: counts that a check may still read, and every other scope.
use llm_proxy_server.Prelude.{
  ℕ, ◌+◌, ◌≤◌, ◌≡◌, Bool, false, Option, none, some, String, lookup, sweep, lookup-sweep,
  lookup-erase, if◌then◌else◌, ℕ-Keyed, Pair-Keyed, String-Keyed, arith, Dict, Keyed, ◌==◌, ◌||◌,
  Option-cases, inl, inr,
}
use llm_proxy_server.Limits.Cache.{RpdCacheEntry, is_fresh}
use llm_proxy_server.Limits.Tracker.{
  Tracker, MinuteBucket, ScopeKey, ScopeKey-Keyed, scope_key_eq, scope_key_eq_iff, user_scope_key,
  pool_scope_key,
}
use llm_proxy_server.Limits.Decision.{window_of, bucket_at}
use llm_proxy_server.Limits.Checks.Rpm.{used}
use llm_proxy_server.Limits.Upkeep.{
  is_stale, is_aged, evict_stale_buckets, drop_scope, invalidate_pool, invalidate_identity,
}

-- The requests that a group's bucket counts in a window.
abbrev pub group_used : Tracker → ℕ → ℕ → ℕ → ℕ
group_used t u gid window = (bucket_at t.group_minute_buckets (u, gid) window).count

bucket_at-sweep {ℓ} :
    {K : Type ℓ} ⦃key : Keyed K⦄ (buckets : Dict K MinuteBucket) (k : K) (now window : ℕ)
    → window_of now ≤ window + 1
    → bucket_at (sweep (λ _ b. is_stale now b) buckets) k window ≡ bucket_at buckets k window
unfolding bucket_at
bucket_at-sweep buckets k now window h =
    ground (arith, lookup-sweep (λ _ b. is_stale now b) k buckets)

is_fresh-sweep {ℓ} :
    {K : Type ℓ} ⦃key : Keyed K⦄ (cache : Dict K RpdCacheEntry) (k : K) (now later : ℕ)
    → now ≤ later
    → is_fresh later (lookup k (sweep (λ _ e. is_aged now e) cache))
      ≡ is_fresh later (lookup k cache)
is_fresh-sweep cache k now later h = ground (arith, lookup-sweep (λ _ e. is_aged now e) k cache)

-- An eviction leaves the counts of this minute and of the one before as they were, of every user and
-- group, and no count that is fresh then or later loses its entry.
pub evict_stale_buckets-keeps :
    (now window later : ℕ) (t : Tracker) (u gid : ℕ) (key : ScopeKey)
    → window_of now ≤ window + 1
    → now ≤ later
    → (used (evict_stale_buckets now t) u window ≡ used t u window)
      × (group_used (evict_stale_buckets now t) u gid window ≡ group_used t u gid window)
      × (is_fresh later (lookup key (evict_stale_buckets now t).rpd_cache)
          ≡ is_fresh later (lookup key t.rpd_cache))
      × (is_fresh later (lookup (key, gid) (evict_stale_buckets now t).group_rpd_cache)
          ≡ is_fresh later (lookup (key, gid) t.group_rpd_cache))
unfolding evict_stale_buckets
evict_stale_buckets-keeps now window later t u gid key h le = (
  ground (arith, bucket_at-sweep t.minute_buckets u now window h),
  ground (arith, bucket_at-sweep t.group_minute_buckets (u, gid) now window h),
  is_fresh-sweep t.rpd_cache key now later le,
  is_fresh-sweep t.group_rpd_cache (key, gid) now later le,
)

-- What the caches hold for a scope.
abbrev pub cached : Tracker → ScopeKey → ℕ → Option RpdCacheEntry × Option RpdCacheEntry
cached t key gid = (lookup key t.rpd_cache, lookup (key, gid) t.group_rpd_cache)

pub cached-drop_scope :
    (k key : ScopeKey) (gid : ℕ) (t : Tracker)
    → cached (drop_scope k t) key gid ≡ (if k == key then (none, none) else cached t key gid)
unfolding drop_scope
cached-drop_scope k key gid t = ground (
  arith,
  scope_key_eq_iff k key,
  scope_key_eq_iff key k,
  lookup-erase k key t.rpd_cache,
  lookup-sweep (λ (j : ScopeKey × ℕ) (_ : RpdCacheEntry). scope_key_eq j.0 k) (key, gid)
      t.group_rpd_cache,
)

-- The pool that a name is known to be in.
abbrev pub pool_key_is : Tracker → String → ScopeKey → Bool
pool_key_is t name key = elim (lookup name t.identity_to_pool) [
  | none ↦ false
  | some pool_id ↦ pool_scope_key pool_id == key
]

-- An invalidation of a name drops what both caches hold for the user of that name and for the pool
-- that the name is known to be in, and for no other scope.
pub cached-invalidate_identity :
    (name : String) (key : ScopeKey) (gid : ℕ) (t : Tracker)
    → cached (invalidate_identity name t) key gid ≡ (
        if user_scope_key name == key || pool_key_is t name key
        then (none, none)
        else cached t key gid)
unfolding invalidate_identity invalidate_pool
cached-invalidate_identity name key gid t =
    let dropped = drop_scope (user_scope_key name) t in
    let by_name = cached-drop_scope (user_scope_key name) key gid t in
    elim (Option-cases (lookup name t.identity_to_pool)) [
      | inl e ↦ ground (arith, e, by_name)
      | inr (pool_id, e) ↦
          ground (arith, e, by_name, cached-drop_scope (pool_scope_key pool_id) key gid dropped)
    ]
