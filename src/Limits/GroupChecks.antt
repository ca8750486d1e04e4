-- ===== src/Limits/GroupChecks.antt =====
-- `check_group_limit` of app/rate_limit.py: the check of a named model group.
pub mod Rate
pub mod Cases
pub mod Runs
use llm_proxy_server.Prelude.{
  ◌||◌, ℕ, ◌+◌, true, Option, none, some, List, String, lookup, insert, nat_eq, if◌then◌else◌,
  ℕ-Keyed, Pair-Keyed, is_some,
}
use llm_proxy_server.Profiles.{default_group_id}
use llm_proxy_server.Limits.Groups.{GroupSnapshot, group_for, group_limits_for}
use llm_proxy_server.Limits.Tracker.{
  Tracker, MinuteBucket, World, RpdScope, ScopeKey, rpd_scope, share_pct_for, get_today_group_count,
}
use llm_proxy_server.Limits.Decision.{
  LimitedBy, group_rpm, group_rpd, RateLimitDecision, denial, window_of, retry_after, bucket_at,
  is_used_up,
}
use llm_proxy_server.Limits.Checks.{
  Limits, limits_of, DayCheck, within, pool_used_up, share_used_up, day_check,
}

-- A denial of a group's check.
abbrev pub group_denial : GroupSnapshot → Limits → LimitedBy → ℕ → RateLimitDecision
group_denial group limits by retry = record (denial by retry) {
  group_id = some group.group_id;
  group_name = some group.name;
  group_rpm_limit = limits.rpm;
  group_rpd_limit = limits.rpd;
}

-- The rest of a group's check after the day checks.
unfoldable pub conclude_group :
    World
    → GroupSnapshot
    → Limits
    → RpdScope
    → ℕ × ℕ
    → MinuteBucket
    → DayCheck
    → Tracker
    → Option RateLimitDecision × Tracker
unfolding share_pct_for insert
conclude_group w group limits scope key bucket pool_used_up t = (
  some (record (group_denial group limits group_rpd w.seconds_until_midnight) {
    group_rpd_remaining = some 0;
    pooled = is_some scope.pool_id;
  }),
  t,
)
conclude_group w group limits scope key bucket (share_used_up share) t = (
  some (record (group_denial group limits group_rpd w.seconds_until_midnight) {
    group_rpd_remaining = some 0;
    pooled = true;
    pool_share_cap = some share;
    pool_share_pct = share_pct_for t scope.pool_id;
  }),
  t,
)
conclude_group w group limits scope key bucket within t =
    let spent = record bucket { count = bucket.count + 1 } in
    (none, record t { group_minute_buckets = insert key spent t.group_minute_buckets })

-- `_get_today_group_count` of one group.
abbrev pub group_read : World → GroupSnapshot → ScopeKey → List ℕ → Tracker → ℕ × Tracker
group_read w group key ids t = get_today_group_count w key ids group t

abbrev pub with_group_bucket : ℕ × ℕ → MinuteBucket → Tracker → Tracker
with_group_bucket key bucket t = record t {
  group_minute_buckets = insert key bucket t.group_minute_buckets;
}

-- A group's check, once its snapshot is found and one of its limits is there.
unfoldable pub check_group :
    World
    → ℕ
    → String
    → GroupSnapshot
    → RpdScope
    → Limits
    → Tracker
    → Option RateLimitDecision × Tracker
unfolding bucket_at day_check get_today_group_count conclude_group
check_group w user_id username group scope limits t =
    let key : ℕ × ℕ = (user_id, group.group_id) in
    let bucket = bucket_at t.group_minute_buckets key (window_of w.now) in
    let t₁ = with_group_bucket key bucket t in
    let r = day_check (group_read w group) limits user_id username scope t₁ in
    let rest = conclude_group w group limits scope key bucket r.0 r.1 in
    let denied = record (group_denial group limits group_rpm (retry_after w.now)) {
      group_rpm_remaining = some 0;
    } in
    if is_used_up limits.rpm bucket.count then (some denied, t₁) else rest

-- The limits in force for a user on a group; a pool's limit is the sum over its members.
unfoldable pub group_limits : Tracker → ℕ → GroupSnapshot → RpdScope → Limits
unfolding group_limits_for limits_of
group_limits t user_id group scope =
    let own = λ (uid : ℕ). (group_limits_for t.profiles uid group.group_id).1 in
    limits_of t user_id scope own (group_limits_for t.profiles user_id group.group_id).0

-- The check of the snapshot of a named group, if there is one.
unfoldable pub check_snapshot :
    World → ℕ → String → Tracker → Option GroupSnapshot → Option RateLimitDecision × Tracker
unfolding rpd_scope group_limits check_group
check_snapshot w user_id username t none = (none, t)
check_snapshot w user_id username t (some group) =
    let scope = rpd_scope t user_id username in
    let limits = group_limits t user_id group scope in
    let checked = check_group w user_id username group scope limits t in
    if is_some limits.rpm || is_some limits.rpd then checked else (none, t)

unfoldable pub check_group_limit :
    World → ℕ → String → String → Tracker → Option RateLimitDecision × Tracker
unfolding group_for check_snapshot lookup
check_group_limit w user_id username model_id t =
    let gid = group_for t.groups (some model_id) in
    if nat_eq gid default_group_id
    then (none, t)
    else check_snapshot w user_id username t (lookup gid t.groups.groups)
