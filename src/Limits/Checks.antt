-- ===== src/Limits/Checks.antt =====
-- `check_and_increment` of app/rate_limit.py, and the day checks that it has in common with the check of
-- a group. The clock stands still within one check, which holds the user's lock.
pub mod Rpm
pub mod Verdict
use llm_proxy_server.Prelude.{
  ℕ, ◌+◌, ◌-◌, ◌*◌, ◌/◌, ◌≡◌, Bool, true, false, Option, none, some, List, [], ◌∷◌, String, lookup,
  insert, leb, nat_eq, max, if◌then◌else◌, Keyed, ℕ-Keyed, Pair-Keyed, is_some, Dict,
}
use llm_proxy_server.Profiles.{default_group_id}
use llm_proxy_server.Limits.Groups.{
  GroupSnapshot, group_for, own_rpm_limit, own_rpd_limit, group_limits_for,
}
use llm_proxy_server.Limits.Tracker.{
  Tracker, MinuteBucket, World, RpdScope, ScopeKey, user_scope_key, rpd_scope, pooled_rpd_limit,
  member_share_cap, share_pct_for, get_today_count, get_today_group_count,
}
use llm_proxy_server.Limits.Decision.{
  LimitedBy, rpm, rpd, group_rpm, group_rpd, RateLimitDecision, denial, window_of, retry_after,
  bucket_at, is_used_up, remaining,
}

-- The limits in force: the requests per minute, those per day, and the share cap of a member.
pub record Limits : Type 0 where
  pub rpm : Option ℕ
  pub rpd : Option ℕ
  pub share_cap : Option ℕ

unfoldable pub limits_of : Tracker → ℕ → RpdScope → (ℕ → Option ℕ) → Option ℕ → Limits
unfolding pooled_rpd_limit member_share_cap
limits_of t user_id scope own_rpd rpm_limit =
    let pooled = pooled_rpd_limit t scope.member_ids own_rpd in
    if is_some scope.pool_id
    then record {
      rpm = rpm_limit;
      rpd = pooled;
      share_cap = member_share_cap t scope.pool_id (own_rpd user_id) pooled;
    }
    else record { rpm = rpm_limit; rpd = own_rpd user_id; share_cap = none }

-- What the day checks find.
pub data DayCheck : Type 0 where
  within pool_used_up : DayCheck
  share_used_up : ℕ → DayCheck

-- The count of the scope, then the user's own, each read only if its limit is there.
unfoldable pub day_check :
    (ScopeKey → List ℕ → Tracker → ℕ × Tracker)
    → Limits
    → ℕ
    → String
    → RpdScope
    → Tracker
    → DayCheck × Tracker
day_check read limits user_id username scope t = elim limits.rpd [
  | none ↦ (within, t)
  | some limit ↦
      let today = read scope.scope_key scope.member_ids t in
      let own = read (user_scope_key username) (user_id ∷ []) today.1 in
      if leb limit today.0 then (pool_used_up, today.1) else elim limits.share_cap [
        | none ↦ (within, today.1)
        | some share ↦ if leb share own.0 then (share_used_up share, own.1) else (within, own.1)
      ]
]

abbrev pub rpm_denial : World → Limits → RateLimitDecision
rpm_denial w limits = record (denial rpm (retry_after w.now)) {
  rpm_limit = limits.rpm;
  rpm_remaining = some 0;
  rpd_limit = limits.rpd;
}

abbrev pub rpd_denial : World → Limits → RateLimitDecision
rpd_denial w limits = record (denial rpd w.seconds_until_midnight) {
  rpm_limit = limits.rpm;
  rpd_limit = limits.rpd;
  rpd_remaining = some 0;
}

-- `bucket.count += 1`
abbrev pub spend : ℕ → MinuteBucket → Tracker → Tracker
spend user_id bucket t = record t {
  minute_buckets = insert user_id (record bucket { count = bucket.count + 1 }) t.minute_buckets;
}

abbrev pub allowance : Limits → ℕ → ℕ → RateLimitDecision
allowance limits count rpd_count = record (denial rpm 0) {
  allowed = true;
  limited_by = none;
  rpm_limit = limits.rpm;
  rpm_remaining = remaining limits.rpm count;
  rpd_limit = limits.rpd;
  rpd_remaining = remaining limits.rpd rpd_count;
}

-- The rest of the check after the day checks.
unfoldable pub conclude :
    World → ℕ → Limits → RpdScope → MinuteBucket → DayCheck → Tracker → RateLimitDecision × Tracker
unfolding get_today_count share_pct_for insert
conclude w user_id limits scope bucket pool_used_up t =
    (record (rpd_denial w limits) { pooled = is_some scope.pool_id }, t)
conclude w user_id limits scope bucket (share_used_up share) t = (
  record (rpd_denial w limits) {
    pooled = true;
    pool_share_cap = some share;
    pool_share_pct = share_pct_for t scope.pool_id;
  },
  t,
)
conclude w user_id limits scope bucket within t =
    let last = get_today_count w scope.scope_key scope.member_ids (spend user_id bucket t) in
    (allowance limits (bucket.count + 1) last.0, last.1)

-- The limits of a check, and the tracker once the user's bucket is there.
unfoldable pub check_limits : World → ℕ → String → Tracker → Limits
unfolding rpd_scope own_rpm_limit own_rpd_limit limits_of
check_limits w user_id username t =
    limits_of t user_id (rpd_scope t user_id username) (own_rpd_limit t.profiles)
      (own_rpm_limit t.profiles user_id)

abbrev pub with_bucket : ℕ → MinuteBucket → Tracker → Tracker
with_bucket user_id bucket t = record t { minute_buckets = insert user_id bucket t.minute_buckets }

unfoldable pub check_and_increment : World → ℕ → String → Tracker → RateLimitDecision × Tracker
unfolding check_limits rpd_scope bucket_at day_check get_today_count conclude
check_and_increment w user_id username t =
    let scope = rpd_scope t user_id username in
    let limits = check_limits w user_id username t in
    let bucket = bucket_at t.minute_buckets user_id (window_of w.now) in
    let t₁ = with_bucket user_id bucket t in
    let r = day_check (get_today_count w) limits user_id username scope t₁ in
    let rest = conclude w user_id limits scope bucket r.0 r.1 in
    if is_used_up limits.rpm bucket.count then (rpm_denial w limits, t₁) else rest
