-- ===== src/Limits/GroupChecks/Rate.antt =====
-- The requests per minute that `check_group_limit` lets through.
use llm_proxy_server.Prelude.{
  ℕ, ◌+◌, ◌≡◌, refl, ◌∙◌, false, Option, none, some, List, String, Dict, insert, if◌then◌else◌,
  ℕ-Keyed, Pair-Keyed, arith, Bool-cases, inl, inr, ◌==◌,
}
use llm_proxy_server.Limits.Groups.{GroupSnapshot}
use llm_proxy_server.Limits.Tracker.{
  Tracker, MinuteBucket, World, RpdScope, ScopeKey, get_today_group_count,
}
use llm_proxy_server.Limits.Decision.{RateLimitDecision, window_of, bucket_at, is_used_up}
use llm_proxy_server.Limits.Checks.{
  Limits, DayCheck, within, pool_used_up, share_used_up, day_check,
}
use llm_proxy_server.Limits.Checks.Rpm.{day_check-keeps, bucket_at_window, bucket_at-insert}
use llm_proxy_server.Limits.GroupChecks.{group_read, with_group_bucket, conclude_group, check_group}

group_read-keeps :
    (w : World) (group : GroupSnapshot) (k : ScopeKey) (ids : List ℕ) (s : Tracker)
    → ((group_read w group k ids s).1.group_minute_buckets ≡ s.group_minute_buckets)
      × ((group_read w group k ids s).1.profiles ≡ s.profiles)
      × ((group_read w group k ids s).1.groups ≡ s.groups)
unfolding get_today_group_count
group_read-keeps w group k ids s = (refl, refl, refl)

-- What a check keeps of the snapshots.
abbrev pub Same : Tracker → Tracker → Type 0
Same s t = (s.profiles ≡ t.profiles) × (s.groups ≡ t.groups)

-- 1 if the check lets the request through and charges it to the bucket asked about.
abbrev pub charged : ℕ × ℕ → ℕ × ℕ → Option RateLimitDecision → ℕ
charged key asked none = if key == asked then 1 else 0
charged key asked (some d) = 0

abbrev pub group_count : Dict (ℕ × ℕ) MinuteBucket → ℕ × ℕ → ℕ → ℕ
group_count buckets key window = (bucket_at buckets key window).count

conclude_group-charged :
    (w : World) (group : GroupSnapshot) (limits : Limits) (scope : RpdScope) (key asked : ℕ × ℕ)
    (window : ℕ) (b : MinuteBucket) (found : DayCheck) (t s : Tracker)
    → b.window ≡ window
    → b.count ≡ group_count s.group_minute_buckets key window
    → t.group_minute_buckets ≡ insert key b s.group_minute_buckets
    → group_count
        (conclude_group w group limits scope key b found t).1.group_minute_buckets
        asked
        window
      ≡ group_count s.group_minute_buckets asked window
        + charged key asked (conclude_group w group limits scope key b found t).0
unfolding conclude_group
conclude_group-charged w group limits scope key asked window b pool_used_up t s hw hc h =
    ground (arith, h, hc, bucket_at-insert s.group_minute_buckets key asked window b hw)
conclude_group-charged w group limits scope key asked window b (share_used_up share) t s hw hc h =
    ground (arith, h, hc, bucket_at-insert s.group_minute_buckets key asked window b hw)
conclude_group-charged w group limits scope key asked window b within t s hw hc h =
    let spent = record b { count = b.count + 1 } in
    ground (
      arith,
      h,
      hc,
      bucket_at-insert s.group_minute_buckets key asked window b hw,
      bucket_at-insert t.group_minute_buckets key asked window spent hw,
    )

conclude_group-Same :
    (w : World) (group : GroupSnapshot) (limits : Limits) (scope : RpdScope) (key : ℕ × ℕ)
    (b : MinuteBucket) (found : DayCheck) (t : Tracker)
    → Same (conclude_group w group limits scope key b found t).1 t
unfolding conclude_group
conclude_group-Same w group limits scope key b within t = (refl, refl)
conclude_group-Same w group limits scope key b pool_used_up t = (refl, refl)
conclude_group-Same w group limits scope key b (share_used_up share) t = (refl, refl)

-- What a check of a group leaves: it charges the bucket of the user and the group for a request that
-- it lets through, nothing for another, and it lets one through only below the limit.
abbrev pub IsCharged :
    World → ℕ × ℕ → ℕ × ℕ → Option ℕ → Tracker → Option RateLimitDecision × Tracker → Type 0
IsCharged w key asked rpm t r =
    (group_count r.1.group_minute_buckets asked (window_of w.now)
      ≡ group_count t.group_minute_buckets asked (window_of w.now) + charged key asked r.0)
    × (r.0 ≡ none
        → is_used_up rpm (group_count t.group_minute_buckets key (window_of w.now)) ≡ false)
    × Same r.1 t

pub check_group-IsCharged :
    (w : World) (u : ℕ) (name : String) (group : GroupSnapshot) (scope : RpdScope) (limits : Limits)
    (t : Tracker) (asked : ℕ × ℕ)
    → IsCharged w (u, group.group_id) asked limits.rpm t (check_group w u name group scope limits t)
unfolding check_group
check_group-IsCharged w u name group scope limits t asked =
    let win = window_of w.now in
    let key : ℕ × ℕ = (u, group.group_id) in
    let b = bucket_at t.group_minute_buckets key win in
    let t₁ = with_group_bucket key b t in
    let read = group_read w group in
    let r = day_check read limits u name scope t₁ in
    let hw = bucket_at_window t.group_minute_buckets key win in
    let kept =
      day_check-keeps (λ s. s.group_minute_buckets) read limits u name scope t₁
        (λ k ids s. (group_read-keeps w group k ids s).0) in
    let profiles =
      day_check-keeps (λ s. s.profiles) read limits u name scope t₁
        (λ k ids s. (group_read-keeps w group k ids s).1) in
    let groups =
      day_check-keeps (λ s. s.groups) read limits u name scope t₁
        (λ k ids s. (group_read-keeps w group k ids s).2) in
    let same = conclude_group-Same w group limits scope key b r.0 r.1 in
    elim (Bool-cases (is_used_up limits.rpm b.count)) [
      | inl e ↦ simp e (
        ground (arith, bucket_at-insert t.group_minute_buckets key asked win b hw),
        λ h. absurd (ground (arith, h)),
        (refl, refl),
      )
      | inr e ↦ simp e (
        conclude_group-charged w group limits scope key asked win b r.0 r.1 t hw refl kept,
        λ h. refl,
        (same.0 ∙ profiles, same.1 ∙ groups),
      )
    ]
