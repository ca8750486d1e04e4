-- ===== src/Limits/Decision.antt =====
-- The decision of a rate check of app/rate_limit.py, and the buckets of the minute windows. Time is
-- counted in milliseconds.
use llm_proxy_server.Prelude.{
  ℕ, ◌-◌, ◌*◌, ◌/◌, Bool, false, Option, none, some, String, lookup, leb, nat_eq, max,
  if◌then◌else◌, Keyed, ℕ-Keyed, Pair-Keyed, Dict,
}
use llm_proxy_server.Limits.Tracker.{MinuteBucket}

pub data LimitedBy : Type 0 where
  rpm rpd group_rpm group_rpd : LimitedBy

-- `RateLimitDecision`, less `concurrency_limit`, which these checks leave out.
pub record RateLimitDecision : Type 0 where
  pub allowed : Bool
  pub rpm_limit : Option ℕ
  pub rpm_remaining : Option ℕ
  pub rpd_limit : Option ℕ
  pub rpd_remaining : Option ℕ
  pub retry_after_seconds : ℕ
  pub limited_by : Option LimitedBy
  pub group_id : Option ℕ
  pub group_name : Option String
  pub group_rpm_limit : Option ℕ
  pub group_rpm_remaining : Option ℕ
  pub group_rpd_limit : Option ℕ
  pub group_rpd_remaining : Option ℕ
  pub pooled : Bool
  pub pool_share_cap : Option ℕ
  pub pool_share_pct : Option ℕ

-- A denial with the fields that the dataclass defaults.
abbrev pub denial : LimitedBy → ℕ → RateLimitDecision
denial by retry = record {
  allowed = false;
  rpm_limit = none;
  rpm_remaining = none;
  rpd_limit = none;
  rpd_remaining = none;
  retry_after_seconds = retry;
  limited_by = some by;
  group_id = none;
  group_name = none;
  group_rpm_limit = none;
  group_rpm_remaining = none;
  group_rpd_limit = none;
  group_rpd_remaining = none;
  pooled = false;
  pool_share_cap = none;
  pool_share_pct = none;
}

-- `int(now // 60)`
abbrev pub window_of : ℕ → ℕ
window_of now = now / 60000

-- `max(1, 60 - int(now - current_window * 60))`
abbrev pub retry_after : ℕ → ℕ
retry_after now = max 1 (60 - (now - window_of now * 60000) / 1000)

-- The bucket of the key, or an empty one when there is none of this window.
unfoldable pub bucket_at {ℓ} :
    {K : Type ℓ} ⦃key : Keyed K⦄ → Dict K MinuteBucket → K → ℕ → MinuteBucket
unfolding lookup
bucket_at buckets key window = elim (lookup key buckets) [
  | none ↦ record { window = window; count = 0 }
  | some b ↦ if nat_eq b.window window then b else record { window = window; count = 0 }
]

-- `limit is not None and count >= limit`
abbrev pub is_used_up : Option ℕ → ℕ → Bool
is_used_up none count = false
is_used_up (some limit) count = leb limit count

-- `max(0, rpd - rpd_count)`, and `rpm - bucket.count`, which follows a check that the count is less.
abbrev pub remaining : Option ℕ → ℕ → Option ℕ
remaining none count = none
remaining (some limit) count = some (limit - count)
