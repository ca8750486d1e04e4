-- ===== src/Limits/Checks/Verdict.antt =====
-- The verdict of `check_and_increment`, and the share cap of a pool's member.
use llm_proxy_server.Prelude.{
  ℕ, ◌+◌, ◌*◌, ◌/◌, ◌≡◌, ◌≤◌, ◌<◌, ◌↔◌, refl, true, false, Option, none, some, List, [], ◌∷◌,
  String, nat_eq, leb, ℕ-Keyed, arith, Option-cases, Bool-cases, inl, inr, is_some, contains,
}
use native.Mathlib.Nat.{mul-le-mul_left}
use llm_proxy_server.Limits.Groups.{own_rpm_limit, own_rpd_limit}
use llm_proxy_server.Limits.Tracker.{
  Tracker, World, RpdScope, MinuteBucket, user_scope_key, rpd_scope, get_today_count, pooled_from,
  pooled_rpd_limit, member_share_cap, share_cap_of, share_pct_for,
}
use llm_proxy_server.Limits.Decision.{window_of, bucket_at, is_used_up}
use llm_proxy_server.Limits.Checks.{
  Limits, limits_of, DayCheck, within, day_check, check_limits, conclude, with_bucket,
  check_and_increment,
}
use llm_proxy_server.Limits.Checks.Rpm.{used}

share_cap_of-none : (pct own : Option ℕ) → share_cap_of pct own none ≡ none
unfolding share_cap_of
share_cap_of-none pct own = ground arith

limits_of-share_cap :
    (t : Tracker) (u : ℕ) (scope : RpdScope) (own : ℕ → Option ℕ) (limit : Option ℕ)
    → (limits_of t u scope own limit).rpd ≡ none
    → (limits_of t u scope own limit).share_cap ≡ none
unfolding limits_of member_share_cap
limits_of-share_cap t u scope own limit h = elim (Bool-cases (is_some scope.pool_id)) [
  | inl e ↦ ground (arith, e, h, share_cap_of-none (share_pct_for t scope.pool_id) (own u))
  | inr e ↦ ground (arith, e)
]

-- The counts that the day checks read: of the scope, and then of the user.
abbrev pub today_read : World → RpdScope → Tracker → ℕ × Tracker
today_read w scope t = get_today_count w scope.scope_key scope.member_ids t

abbrev pub own_read : World → ℕ → String → RpdScope → Tracker → ℕ × Tracker
own_read w u name scope t =
    get_today_count w (user_scope_key name) (u ∷ []) (today_read w scope t).1

-- None of the limits is used up.
abbrev pub IsOpen : World → ℕ → String → Limits → RpdScope → Tracker → Type 0
IsOpen w u name limits scope t =
    (is_used_up limits.rpd (today_read w scope t).0 ≡ false)
    × (is_used_up limits.share_cap (own_read w u name scope t).0 ≡ false)

day_check-within :
    (w : World) (u : ℕ) (name : String) (limits : Limits) (scope : RpdScope) (t : Tracker)
    → (limits.rpd ≡ none → limits.share_cap ≡ none)
    → ((day_check (get_today_count w) limits u name scope t).0 ≡ within)
      ↔ IsOpen w u name limits scope t
unfolding day_check
day_check-within w u name limits scope t h = elim (Option-cases limits.rpd) [
  | inl e ↦ ground (arith, e, h e)
  | inr (limit, e) ↦ elim (Option-cases limits.share_cap) [
    | inl f ↦ ground (arith, e, f)
    | inr (share, f) ↦ ground (arith, e, f)
  ]
]

conclude-allowed :
    (w : World) (u : ℕ) (limits : Limits) (scope : RpdScope) (b : MinuteBucket) (found : DayCheck)
    (t : Tracker)
    → ((conclude w u limits scope b found t).0.allowed ≡ true) ↔ (found ≡ within)
unfolding conclude
conclude-allowed w u limits scope b found t = ground arith

-- The day counts do not depend on the buckets.
IsOpen-with_bucket :
    (w : World) (u : ℕ) (name : String) (limits : Limits) (scope : RpdScope) (b : MinuteBucket)
    (t : Tracker)
    → IsOpen w u name limits scope (with_bucket u b t) ↔ IsOpen w u name limits scope t
unfolding get_today_count
IsOpen-with_bucket w u name limits scope b t = (λ h. h, λ h. h)

check_limits-share_cap :
    (w : World) (u : ℕ) (name : String) (t : Tracker)
    → (check_limits w u name t).rpd ≡ none
    → (check_limits w u name t).share_cap ≡ none
unfolding check_limits
check_limits-share_cap w u name t h =
    limits_of-share_cap t u (rpd_scope t u name) (own_rpd_limit t.profiles)
      (own_rpm_limit t.profiles u) h

-- A request is let through exactly when its minute's bucket is below the limit per minute, the day
-- count read for its scope is below the limit per day, and the user's own day count is below the
-- share cap, each where there is such a limit.
pub check_and_increment-allowed :
    (w : World) (u : ℕ) (name : String) (t : Tracker)
    → ((check_and_increment w u name t).0.allowed ≡ true) ↔ (
        (is_used_up (check_limits w u name t).rpm (used t u (window_of w.now)) ≡ false)
        × IsOpen w u name (check_limits w u name t) (rpd_scope t u name) t)
unfolding check_and_increment
check_and_increment-allowed w u name t =
    let b = bucket_at t.minute_buckets u (window_of w.now) in
    let limits = check_limits w u name t in
    let scope = rpd_scope t u name in
    let t₁ = with_bucket u b t in
    let r = day_check (get_today_count w) limits u name scope t₁ in
    let found = day_check-within w u name limits scope t₁ (check_limits-share_cap w u name t) in
    let opens = IsOpen-with_bucket w u name limits scope b t in
    let ends = conclude-allowed w u limits scope b r.0 r.1 in
    elim (Bool-cases (is_used_up limits.rpm b.count)) [
      | inl e ↦ simp e (ground arith)
      | inr e ↦
          simp e (λ h. (refl, opens.0 (found.0 (ends.0 h))), λ h. ends.1 (found.1 (opens.1 h.1)))
    ]

pooled_from-le :
    (t : Tracker) (own : ℕ → Option ℕ) (total pool : ℕ) (ids : List ℕ)
    → pooled_from t own total ids ≡ some pool
    → total ≤ pool
unfolding pooled_from
pooled_from-le t own total pool [] h = ground (arith, h)
pooled_from-le t own total pool (x ∷ ids) h = elim (Bool-cases (contains t.inactive_members x)) [
  | inl e ↦ pooled_from-le t own total pool ids (ground (arith, e, h))
  | inr e ↦ elim (Option-cases (own x)) [
    | inl f ↦ absurd (ground (arith, e, f, h))
    | inr (l, f) ↦
        let le = pooled_from-le t own (total + l) pool ids (ground (arith, e, f, h)) in
        omega (arith, le)
  ]
]

pooled_from-member :
    (t : Tracker) (own : ℕ → Option ℕ) (total pool limit u : ℕ) (ids : List ℕ)
    → contains ids u ≡ true
    → contains t.inactive_members u ≡ false
    → own u ≡ some limit
    → pooled_from t own total ids ≡ some pool
    → total + limit ≤ pool
unfolding pooled_from
pooled_from-member t own total pool limit u [] m a o h = absurd (ground (arith, m))
pooled_from-member t own total pool limit u (x ∷ ids) m a o h = elim (Bool-cases (nat_eq x u)) [
  | inl q ↦ pooled_from-le t own (total + limit) pool ids (ground (arith, q, a, o, h))
  | inr q ↦ elim (Bool-cases (contains t.inactive_members x)) [
    | inl e ↦
        pooled_from-member t own total pool limit u ids (ground (arith, q, m)) a o
          (ground (arith, e, h))
    | inr e ↦ elim (Option-cases (own x)) [
      | inl f ↦ absurd (ground (arith, e, f, h))
      | inr (l, f) ↦
          let le =
            pooled_from-member t own (total + l) pool limit u ids (ground (arith, q, m)) a o
              (ground (arith, e, f, h)) in
          omega (arith, le)
    ]
  ]
]

percent_le_hundred : (pct : ℕ) → pct < 100 → pct ≤ 100
percent_le_hundred pct h = omega arith

percent-le : (pool pct : ℕ) → pct < 100 → pool * pct / 100 ≤ pool
percent-le pool pct h = omega (arith, mul-le-mul_left pool (percent_le_hundred pct h))

-- A cap on a member's share is never below the member's own limit, and never above the pool's when
-- the pool's limit is the sum of the limits of its active members and the member is one of them.
pub member_share_cap-bounds :
    (t : Tracker) (pool_id : Option ℕ) (ids : List ℕ) (own : ℕ → Option ℕ) (u pool limit share : ℕ)
    → contains ids u ≡ true
    → contains t.inactive_members u ≡ false
    → pooled_rpd_limit t ids own ≡ some pool
    → own u ≡ some limit
    → member_share_cap t pool_id (own u) (pooled_rpd_limit t ids own) ≡ some share
    → (limit ≤ share) × (share ≤ pool)
unfolding member_share_cap share_cap_of pooled_rpd_limit
member_share_cap-bounds t pool_id ids own u pool limit share m a p o c =
    let le = pooled_from-member t own 0 pool limit u ids m a o p in
    elim (Option-cases (share_pct_for t pool_id)) [
      | inl e ↦ absurd (ground (arith, e, c, o, p))
      | inr (pct, e) ↦ elim (Bool-cases (leb 100 pct)) [
        | inl f ↦ absurd (ground (arith, e, f, c, o, p))
        | inr f ↦ ground (arith, e, f, c, o, p, le, percent-le pool pct (ground arith))
      ]
    ]
