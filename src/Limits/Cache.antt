-- ===== src/Limits/Cache.antt =====
-- The cached day counts of app/rate_limit.py: `_read_rpd_cached` and its entries. Time is counted in
-- milliseconds. `load` is the read of the usage rows, which `none` says has failed.
pub mod Reads
use llm_proxy_server.Prelude.{
  ℕ, ◌+◌, ◌≡◌, Bool, true, false, Option, none, some, List, [], ◌∷◌, Dict, lookup, insert, ltb, leb,
  if◌then◌else◌, Keyed,
}

pub record RpdCacheEntry : Type 0 where
  pub count : ℕ
  pub expires_at : ℕ

-- `_RPD_TTL`, five seconds.
abbrev pub rpd_ttl : ℕ
rpd_ttl = 5000

-- `entry and entry.expires_at > now`
abbrev pub is_fresh : ℕ → Option RpdCacheEntry → Bool
is_fresh now none = false
is_fresh now (some entry) = ltb now entry.expires_at

-- `entry.count if entry else 0`
abbrev pub last_known : Option RpdCacheEntry → ℕ
last_known none = 0
last_known (some entry) = entry.count

-- `flight[2] is not None and flight[2] >= arrived`
abbrev pub has_failed_since : ℕ → Option ℕ → Bool
has_failed_since arrived none = false
has_failed_since arrived (some failed_at) = leb arrived failed_at

-- The count served, the cache afterwards, and when the last load of the flight failed.
pub record Served {ℓ} (K : Type ℓ) : Type ℓ where
  pub count : ℕ
  pub cache : Dict K RpdCacheEntry
  pub failed_at : Option ℕ

module _ {ℓ} {K : Type ℓ} ⦃key : Keyed K⦄ where
  -- What a request does once it has the lock of the flight: `now` is the time it got it, `arrived` the
  -- time it came.
  unfoldable pub read_locked : ℕ → ℕ → Option ℕ → Option ℕ → K → Dict K RpdCacheEntry → Served K
  unfolding lookup insert
  read_locked arrived now failed_at load key cache =
      let entry = lookup key cache in
      if is_fresh now entry
      then record { count = last_known entry; cache = cache; failed_at = failed_at }
      else (if has_failed_since arrived failed_at
          then record { count = last_known entry; cache = cache; failed_at = failed_at }
          else elim load [
            | none ↦ record { count = last_known entry; cache = cache; failed_at = some now }
            | some count ↦ record {
              count = count;
              cache = insert key (record { count = count; expires_at = now + rpd_ttl }) cache;
              failed_at = failed_at;
            }
          ])

  -- A request that finds no other waiting: the count served and the cache afterwards.
  unfoldable pub read_rpd_cached :
      ℕ → Option ℕ → K → Dict K RpdCacheEntry → ℕ × Dict K RpdCacheEntry
  unfolding read_locked lookup
  read_rpd_cached now load key cache =
      let served = read_locked now now none load key cache in
      if is_fresh now (lookup key cache)
      then (last_known (lookup key cache), cache)
      else (served.count, served.cache)

-- A request that missed and waits: when it gets the lock, and what its load would read.
pub record Waiter : Type 0 where
  pub now : ℕ
  pub load : Option ℕ

module _ {ℓ} {K : Type ℓ} ⦃key : Keyed K⦄ where
  -- The requests that missed by `arrived`, as they get the lock one after the other: what each is
  -- served.
  unfoldable pub read_burst : ℕ → Option ℕ → K → Dict K RpdCacheEntry → List Waiter → List ℕ
  unfolding read_locked
  read_burst arrived failed_at key cache [] = []
  read_burst arrived failed_at key cache (w ∷ ws) =
      let served = read_locked arrived w.now failed_at w.load key cache in
      served.count ∷ read_burst arrived served.failed_at key served.cache ws
