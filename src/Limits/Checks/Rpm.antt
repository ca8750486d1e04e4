-- ===== src/Limits/Checks/Rpm.antt =====
-- The requests per minute that `check_and_increment` lets through.
use llm_proxy_server.Prelude.{
  ℕ, ◌+◌, ◌≡◌, ◌≤◌, refl, ◌∙◌, ap, sym, subst, true, false, some, List, [], ◌∷◌, String, Dict,
  insert, lookup-insert, Keyed, ◌==◌, nat_eq, if◌then◌else◌, ℕ-Keyed, arith, Bool-cases, inl, inr,
  All, is_some, ap,
}
use llm_proxy_server.Limits.Groups.{own_rpm_limit}
use llm_proxy_server.Limits.Tracker.{
  Tracker, MinuteBucket, World, RpdScope, ScopeKey, user_scope_key, rpd_scope, get_today_count,
}
use llm_proxy_server.Limits.Decision.{RateLimitDecision, window_of, bucket_at, is_used_up}
use llm_proxy_server.Limits.Checks.{
  Limits, limits_of, check_limits, conclude, with_bucket, check_and_increment, DayCheck, within,
  pool_used_up, share_used_up, day_check, check_and_increment,
}

-- What a read leaves alone, the day checks leave alone.
pub day_check-keeps {ℓ} :
    {A : Type ℓ} (f : Tracker → A) (read : ScopeKey → List ℕ → Tracker → ℕ × Tracker)
    (limits : Limits) (u : ℕ) (name : String) (scope : RpdScope) (t : Tracker)
    → ((k : ScopeKey) (ids : List ℕ) (s : Tracker) → f (read k ids s).1 ≡ f s)
    → f (day_check read limits u name scope t).1 ≡ f t
unfolding day_check
day_check-keeps f read limits u name scope t keeps = ground (
  arith,
  keeps scope.scope_key scope.member_ids t,
  keeps (user_scope_key name) (u ∷ []) (read scope.scope_key scope.member_ids t).1,
)

-- The requests that the bucket of the user counts in a window.
abbrev pub used : Tracker → ℕ → ℕ → ℕ
used t u window = (bucket_at t.minute_buckets u window).count

get_today_count-keeps :
    (w : World) (k : ScopeKey) (ids : List ℕ) (s : Tracker)
    → ((get_today_count w k ids s).1.minute_buckets ≡ s.minute_buckets)
      × ((get_today_count w k ids s).1.profiles ≡ s.profiles)
unfolding get_today_count
get_today_count-keeps w k ids s = (refl, refl)

pub bucket_at-insert {ℓ} :
    {K : Type ℓ} ⦃key : Keyed K⦄ (buckets : Dict K MinuteBucket) (u v : K) (window : ℕ)
    (b : MinuteBucket)
    → b.window ≡ window
    → (bucket_at (insert u b buckets) v window).count
      ≡ (if u == v then b.count else (bucket_at buckets v window).count)
unfolding bucket_at
bucket_at-insert buckets u v window b h = ground (arith, h, lookup-insert u v b buckets)

pub bucket_at_window {ℓ} :
    {K : Type ℓ} ⦃key : Keyed K⦄ (buckets : Dict K MinuteBucket) (u : K) (window : ℕ)
    → (bucket_at buckets u window).window ≡ window
unfolding bucket_at
bucket_at_window buckets u window = ground arith

pub check_limits-rpm :
    (w : World) (u : ℕ) (name : String) (t : Tracker)
    → (check_limits w u name t).rpm ≡ own_rpm_limit t.profiles u
unfolding check_limits limits_of
check_limits-rpm w u name t = elim (Bool-cases (is_some (rpd_scope t u name).pool_id)) [
  | inl e ↦ simp e refl
  | inr e ↦ simp e refl
]

-- 1 if the decision lets the request of `u` through and `v` is that user.
abbrev pub spent_by : ℕ → ℕ → RateLimitDecision → ℕ
spent_by u v d = if nat_eq u v then (if d.allowed then 1 else 0) else 0

conclude-buckets :
    (w : World) (u v win : ℕ) (limits : Limits) (scope : RpdScope) (b : MinuteBucket)
    (found : DayCheck) (t s : Tracker)
    → b.window ≡ win
    → b.count ≡ used s u win
    → t.minute_buckets ≡ insert u b s.minute_buckets
    → used (conclude w u limits scope b found t).1 v win
      ≡ used s v win + spent_by u v (conclude w u limits scope b found t).0
unfolding conclude get_today_count
conclude-buckets w u v win limits scope b pool_used_up t s hw hc h =
    ground (arith, h, hc, bucket_at-insert s.minute_buckets u v win b hw)
conclude-buckets w u v win limits scope b (share_used_up share) t s hw hc h =
    ground (arith, h, hc, bucket_at-insert s.minute_buckets u v win b hw)
conclude-buckets w u v win limits scope b within t s hw hc h =
    let c = record b { count = b.count + 1 } in
    ground (
      arith,
      h,
      hc,
      bucket_at-insert s.minute_buckets u v win b hw,
      bucket_at-insert t.minute_buckets u v win c hw,
    )

conclude-profiles :
    (w : World) (u : ℕ) (limits : Limits) (scope : RpdScope) (b : MinuteBucket) (found : DayCheck)
    (t : Tracker)
    → (conclude w u limits scope b found t).1.profiles ≡ t.profiles
unfolding conclude get_today_count
conclude-profiles w u limits scope b within t = refl
conclude-profiles w u limits scope b pool_used_up t = refl
conclude-profiles w u limits scope b (share_used_up share) t = refl

-- What one check does to the counts of its window: an allowed request is counted for its user, a
-- denied one for nobody, and a request is allowed only below the limit.
abbrev pub IsSpent : World → ℕ → ℕ → Tracker → RateLimitDecision × Tracker → Type 0
IsSpent w u v t r =
    (used r.1 v (window_of w.now) ≡ used t v (window_of w.now) + spent_by u v r.0)
    × (r.0.allowed ≡ true
        → is_used_up (own_rpm_limit t.profiles u) (used t u (window_of w.now)) ≡ false)
    × (r.1.profiles ≡ t.profiles)

pub check_and_increment-IsSpent :
    (w : World) (u v : ℕ) (name : String) (t : Tracker)
    → IsSpent w u v t (check_and_increment w u name t)
unfolding check_and_increment
check_and_increment-IsSpent w u v name t =
    let win = window_of w.now in
    let b = bucket_at t.minute_buckets u win in
    let limits = check_limits w u name t in
    let scope = rpd_scope t u name in
    let t₁ = with_bucket u b t in
    let r = day_check (get_today_count w) limits u name scope t₁ in
    let hw = bucket_at_window t.minute_buckets u win in
    let kept =
      day_check-keeps (λ s. s.minute_buckets) (get_today_count w) limits u name scope t₁
        (λ k ids s. (get_today_count-keeps w k ids s).0) in
    let profiles =
      day_check-keeps (λ s. s.profiles) (get_today_count w) limits u name scope t₁
        (λ k ids s. (get_today_count-keeps w k ids s).1) in
    elim (Bool-cases (is_used_up limits.rpm b.count)) [
      | inl e ↦ simp e (
        ground (arith, bucket_at-insert t.minute_buckets u v win b hw),
        λ h. absurd (ground (arith, h)),
        refl,
      )
      | inr e ↦ simp e (
        conclude-buckets w u v win limits scope b r.0 r.1 t hw refl kept,
        λ h. subst (λ l. is_used_up l b.count ≡ false) (check_limits-rpm w u name t) e,
        conclude-profiles w u limits scope b r.0 r.1 ∙ profiles,
      )
    ]

IsSpent-le :
    (w : World) (u v limit : ℕ) (t : Tracker) (r : RateLimitDecision × Tracker)
    → IsSpent w u v t r
    → own_rpm_limit t.profiles v ≡ some limit
    → used t v (window_of w.now) ≤ limit
    → used r.1 v (window_of w.now) ≤ limit
IsSpent-le w u v limit t r s e le = elim (Bool-cases (nat_eq u v)) [
  | inl q ↦ elim (Bool-cases r.0.allowed) [
    | inl a ↦ ground (arith, q, a, e, s.0, s.1 a)
    | inr a ↦ ground (arith, q, a, s.0)
  ]
  | inr q ↦ ground (arith, q, s.0)
]

-- A request that names its user, in the world it finds.
pub record Request : Type 0 where
  pub world : World
  pub user_id : ℕ
  pub username : String

-- How many requests of `v` a run of checks lets through.
unfoldable pub allowed_of : ℕ → List Request → Tracker → ℕ
unfolding check_and_increment
allowed_of v [] t = 0
allowed_of v (q ∷ qs) t =
    let r = check_and_increment q.world q.user_id q.username t in
    spent_by q.user_id v r.0 + allowed_of v qs r.1

-- Of the requests of any users that come within one minute window, in any order, whatever the worlds
-- answer, no more of a user with a limit per minute are let through than the limit leaves open.
pub allowed_of-rpm :
    (v limit window : ℕ) (qs : List Request) (t : Tracker)
    → own_rpm_limit t.profiles v ≡ some limit
    → All (λ q. window_of q.world.now ≡ window) qs
    → used t v window ≤ limit
    → allowed_of v qs t + used t v window ≤ limit
unfolding allowed_of
allowed_of-rpm v limit window [] t e h le = omega arith
allowed_of-rpm v limit window (q ∷ qs) t e h le =
    let r = check_and_increment q.world q.user_id q.username t in
    let s = check_and_increment-IsSpent q.world q.user_id v q.username t in
    let rest = allowed_of-rpm v limit window qs r.1 (ap (λ p. own_rpm_limit p v) s.2 ∙ e) h.1 (
      subst (λ n. used r.1 v n ≤ limit) h.0
        (IsSpent-le q.world q.user_id v limit t r s e
          (subst (λ n. used t v n ≤ limit) (sym h.0) le))) in
    let counted = subst (λ n. used r.1 v n ≡ used t v n + spent_by q.user_id v r.0) h.0 s.0 in
    omega (arith, rest, counted)
