-- ===== src/Limits/Cache/Reads.antt =====
-- What the cached reads of the day counts promise: one load for a burst, the last-known count when the
-- load fails, and a count that is kept for the time to live.
use llm_proxy_server.Prelude.{
  ℕ, ◌+◌, ◌≡◌, ◌≤◌, ◌<◌, refl, true, false, Option, none, some, List, [], ◌∷◌, Dict, lookup, insert,
  Keyed, get_or, All, arith, lookup-insert, beq_self,
}
use llm_proxy_server.Limits.Cache.{
  RpdCacheEntry, rpd_ttl, is_fresh, last_known, has_failed_since, Served, read_locked,
  read_rpd_cached, Waiter, read_burst,
}

module _ {ℓ} {K : Type ℓ} ⦃key : Keyed K⦄ where
  -- A waiter that finds the entry fresh is served its count, and changes nothing.
  read_locked_fresh :
      (arrived now : ℕ) (failed_at load : Option ℕ) (key : K) (cache : Dict K RpdCacheEntry)
      → is_fresh now (lookup key cache) ≡ true
      → read_locked arrived now failed_at load key cache
        ≡ record { count = last_known (lookup key cache); cache = cache; failed_at = failed_at }
  unfolding read_locked
  read_locked_fresh arrived now failed_at load key cache h = ground (arith, h)

  read_locked_failed :
      (arrived now : ℕ) (failed_at load : Option ℕ) (key : K) (cache : Dict K RpdCacheEntry)
      → has_failed_since arrived failed_at ≡ true
      → read_locked arrived now failed_at load key cache
        ≡ record { count = last_known (lookup key cache); cache = cache; failed_at = failed_at }
  unfolding read_locked
  read_locked_failed arrived now failed_at load key cache h = ground (arith, h)

  burst_fresh :
      (arrived count : ℕ) (failed_at : Option ℕ) (key : K) (cache : Dict K RpdCacheEntry)
      (ws : List Waiter)
      → last_known (lookup key cache) ≡ count
      → All (λ w. is_fresh w.now (lookup key cache) ≡ true) ws
      → All (λ c. c ≡ count) (read_burst arrived failed_at key cache ws)
  unfolding read_burst
  burst_fresh arrived count failed_at key cache [] q h = tt
  burst_fresh arrived count failed_at key cache (w ∷ ws) q h =
      simp (read_locked_fresh arrived w.now failed_at w.load key cache h.0)
        (q, burst_fresh arrived count failed_at key cache ws q h.1)

  burst_failed :
      (arrived : ℕ) (failed_at : Option ℕ) (key : K) (cache : Dict K RpdCacheEntry)
      (ws : List Waiter)
      → has_failed_since arrived failed_at ≡ true
      → All (λ c. c ≡ last_known (lookup key cache)) (read_burst arrived failed_at key cache ws)
  unfolding read_burst
  burst_failed arrived failed_at key cache [] h = tt
  burst_failed arrived failed_at key cache (w ∷ ws) h =
      simp (read_locked_failed arrived w.now failed_at w.load key cache h)
        (refl, burst_failed arrived failed_at key cache ws h)

  fresh_after_load :
      (now later count : ℕ) (key : K) (cache : Dict K RpdCacheEntry)
      → later < now + rpd_ttl
      → is_fresh later
          (lookup key (insert key (record { count = count; expires_at = now + rpd_ttl }) cache))
        ≡ true
  fresh_after_load now later count key cache h = ground (
    arith,
    beq_self key,
    lookup-insert key key (record { count = count; expires_at = now + rpd_ttl }) cache,
  )

  All-fresh :
      (now count : ℕ) (key : K) (cache : Dict K RpdCacheEntry) (ws : List Waiter)
      → All (λ v. v.now < now + rpd_ttl) ws
      → All
          (λ v.
            is_fresh v.now
              (lookup key (insert key (record { count = count; expires_at = now + rpd_ttl }) cache))
            ≡ true)
          ws
  All-fresh now count key cache [] h = tt
  All-fresh now count key cache (w ∷ ws) h =
      (fresh_after_load now w.now count key cache h.0, All-fresh now count key cache ws h.1)

  -- The cache after a load.
  abbrev loaded : ℕ → ℕ → K → Dict K RpdCacheEntry → Dict K RpdCacheEntry
  loaded now count key cache =
      insert key (record { count = count; expires_at = now + rpd_ttl }) cache

  last_known-loaded :
      (now count : ℕ) (key : K) (cache : Dict K RpdCacheEntry)
      → last_known (lookup key (loaded now count key cache)) ≡ count
  last_known-loaded now count key cache = ground (
    arith,
    beq_self key,
    lookup-insert key key (record { count = count; expires_at = now + rpd_ttl }) cache,
  )

  -- What a waiter does that finds no fresh entry and no failure since it came.
  read_locked_loads :
      (arrived now : ℕ) (load : Option ℕ) (key : K) (cache : Dict K RpdCacheEntry)
      → is_fresh now (lookup key cache) ≡ false
      → read_locked arrived now none load key cache ≡ elim load as (λ _. Served K) [
        | none ↦ record {
          count = last_known (lookup key cache);
          cache = cache;
          failed_at = some now;
        }
        | some count ↦ record {
          count = count;
          cache = loaded now count key cache;
          failed_at = none;
        }
      ]
  unfolding read_locked
  read_locked_loads arrived now load key cache m = ground (arith, m)

  -- The requests that miss an entry together, and get the lock within the time to live of the first,
  -- are all served what the load of the first reads, or all the last-known count if that load fails:
  -- no other load of theirs has a say.
  pub read_burst_shared :
      (arrived : ℕ) (key : K) (cache : Dict K RpdCacheEntry) (now : ℕ) (load : Option ℕ)
      (ws : List Waiter)
      → arrived ≤ now
      → is_fresh now (lookup key cache) ≡ false
      → All (λ v. v.now < now + rpd_ttl) ws
      → All
          (λ c. c ≡ get_or load (last_known (lookup key cache)))
          (read_burst arrived none key cache (record { now = now; load = load } ∷ ws))
  unfolding read_burst
  read_burst_shared arrived key cache now none ws a m h =
      simp (read_locked_loads arrived now none key cache m)
        (refl, burst_failed arrived (some now) key cache ws (ground arith))
  read_burst_shared arrived key cache now (some count) ws a m h =
      simp (read_locked_loads arrived now (some count) key cache m) (
        refl,
        burst_fresh arrived count none key (loaded now count key cache) ws
            (last_known-loaded now count key cache) (All-fresh now count key cache ws h),
      )

  -- What a read leaves, by the answer of its load.
  abbrev pub IsKept :
      ℕ → Option ℕ → Option ℕ → K → Dict K RpdCacheEntry → ℕ × Dict K RpdCacheEntry → Type ℓ
  IsKept later none load' key cache r = r ≡ (last_known (lookup key cache), cache)
  IsKept later (some count) load' key cache r =
      (r.0 ≡ count) × (read_rpd_cached later load' key r.1 ≡ (count, r.1))

  -- A read that misses and whose load succeeds serves the loaded count, as does every read of the key
  -- until the time to live ends, whatever its own load would read; one whose load fails serves the
  -- last-known count and leaves the cache as it was.
  pub read_rpd_cached-IsKept :
      (now later : ℕ) (load load' : Option ℕ) (key : K) (cache : Dict K RpdCacheEntry)
      → is_fresh now (lookup key cache) ≡ false
      → later < now + rpd_ttl
      → IsKept later load load' key cache (read_rpd_cached now load key cache)
  unfolding read_rpd_cached read_locked
  read_rpd_cached-IsKept now later none load' key cache m h = ground (arith, m)
  read_rpd_cached-IsKept now later (some count) load' key cache m h = ground (
    arith,
    m,
    fresh_after_load now later count key cache h,
    beq_self key,
    last_known-loaded now count key cache,
  )
