-- ===== src/Enforce/Charges.antt =====
-- Which counts a charge leaves alone.
use llm_proxy_server.Prelude.{
  ℕ, ◌≡◌, refl, ◌∙◌, Bool, true, false, Option, none, some, List, String, Bool-cases, inl, inr,
  ℕ-Keyed, Pair-Keyed,
}
use llm_proxy_server.Byok.{Caller}
use llm_proxy_server.Limits.Groups.{GroupSnapshot}
use llm_proxy_server.Limits.Slots.{Taken, denied, took, passed, take_slot}
use llm_proxy_server.Limits.Tracker.{
  Tracker, World, RpdScope, ScopeKey, MinuteBucket, rpd_scope, get_today_count,
  get_today_group_count,
}
use llm_proxy_server.Limits.Decision.{RateLimitDecision, window_of, bucket_at, is_used_up}
use llm_proxy_server.Limits.Checks.{
  Limits, DayCheck, within, pool_used_up, share_used_up, day_check, conclude, check_limits,
  with_bucket, check_and_increment,
}
use llm_proxy_server.Limits.Checks.Rpm.{day_check-keeps}
use llm_proxy_server.Limits.GroupChecks.{
  group_read, with_group_bucket, conclude_group, check_group, check_group_limit,
}
use llm_proxy_server.Limits.GroupChecks.Cases.{
  ungrouped, unknown, unlimited, grouped, Checked-cases,
}
use llm_proxy_server.Enforce.{
  Service, Charge, no_charge, default_charge, group_charge, charge_for, run_charge, settle_slot,
  charge_holding, charge_with_slot, enforce_access_and_limits,
}
use llm_proxy_server.Enforce.Order.{unchanged, charged, Enforced-cases}

-- What the check of the Default group leaves alone.
abbrev pub SameGroupCounts : Tracker → Tracker → Type 0
SameGroupCounts s t =
    (s.group_minute_buckets ≡ t.group_minute_buckets) × (s.group_rpd_cache ≡ t.group_rpd_cache)

-- What the check of a named group leaves alone.
abbrev pub SameDefaultCounts : Tracker → Tracker → Type 0
SameDefaultCounts s t = (s.minute_buckets ≡ t.minute_buckets) × (s.rpd_cache ≡ t.rpd_cache)

get_today_count-SameGroupCounts :
    (w : World) (k : ScopeKey) (ids : List ℕ) (s : Tracker)
    → SameGroupCounts (get_today_count w k ids s).1 s
unfolding get_today_count
get_today_count-SameGroupCounts w k ids s = (refl, refl)

group_read-SameDefaultCounts :
    (w : World) (group : GroupSnapshot) (k : ScopeKey) (ids : List ℕ) (s : Tracker)
    → SameDefaultCounts (group_read w group k ids s).1 s
unfolding get_today_group_count
group_read-SameDefaultCounts w group k ids s = (refl, refl)

conclude-SameGroupCounts :
    (w : World) (u : ℕ) (limits : Limits) (scope : RpdScope) (b : MinuteBucket) (found : DayCheck)
    (t : Tracker)
    → SameGroupCounts (conclude w u limits scope b found t).1 t
unfolding conclude get_today_count
conclude-SameGroupCounts w u limits scope b within t = (refl, refl)
conclude-SameGroupCounts w u limits scope b pool_used_up t = (refl, refl)
conclude-SameGroupCounts w u limits scope b (share_used_up share) t = (refl, refl)

conclude_group-SameDefaultCounts :
    (w : World) (group : GroupSnapshot) (limits : Limits) (scope : RpdScope) (key : ℕ × ℕ)
    (b : MinuteBucket) (found : DayCheck) (t : Tracker)
    → SameDefaultCounts (conclude_group w group limits scope key b found t).1 t
unfolding conclude_group
conclude_group-SameDefaultCounts w group limits scope key b within t = (refl, refl)
conclude_group-SameDefaultCounts w group limits scope key b pool_used_up t = (refl, refl)
conclude_group-SameDefaultCounts w group limits scope key b (share_used_up share) t = (refl, refl)

check_and_increment-SameGroupCounts :
    (w : World) (u : ℕ) (name : String) (t : Tracker)
    → SameGroupCounts (check_and_increment w u name t).1 t
unfolding check_and_increment
check_and_increment-SameGroupCounts w u name t =
    let b = bucket_at t.minute_buckets u (window_of w.now) in
    let limits = check_limits w u name t in
    let scope = rpd_scope t u name in
    let t₁ = with_bucket u b t in
    let r = day_check (get_today_count w) limits u name scope t₁ in
    let buckets =
      day_check-keeps (λ s. s.group_minute_buckets) (get_today_count w) limits u name scope t₁
        (λ k ids s. (get_today_count-SameGroupCounts w k ids s).0) in
    let cached =
      day_check-keeps (λ s. s.group_rpd_cache) (get_today_count w) limits u name scope t₁
        (λ k ids s. (get_today_count-SameGroupCounts w k ids s).1) in
    let ends = conclude-SameGroupCounts w u limits scope b r.0 r.1 in
    elim (Bool-cases (is_used_up limits.rpm b.count)) [
      | inl e ↦ simp e (refl, refl)
      | inr e ↦ simp e (ends.0 ∙ buckets, ends.1 ∙ cached)
    ]

check_group-SameDefaultCounts :
    (w : World) (u : ℕ) (name : String) (group : GroupSnapshot) (scope : RpdScope) (limits : Limits)
    (t : Tracker)
    → SameDefaultCounts (check_group w u name group scope limits t).1 t
unfolding check_group
check_group-SameDefaultCounts w u name group scope limits t =
    let key : ℕ × ℕ = (u, group.group_id) in
    let b = bucket_at t.group_minute_buckets key (window_of w.now) in
    let t₁ = with_group_bucket key b t in
    let r = day_check (group_read w group) limits u name scope t₁ in
    let buckets =
      day_check-keeps (λ s. s.minute_buckets) (group_read w group) limits u name scope t₁
        (λ k ids s. (group_read-SameDefaultCounts w group k ids s).0) in
    let cached =
      day_check-keeps (λ s. s.rpd_cache) (group_read w group) limits u name scope t₁
        (λ k ids s. (group_read-SameDefaultCounts w group k ids s).1) in
    let ends = conclude_group-SameDefaultCounts w group limits scope key b r.0 r.1 in
    elim (Bool-cases (is_used_up limits.rpm b.count)) [
      | inl e ↦ simp e (refl, refl)
      | inr e ↦ simp e (ends.0 ∙ buckets, ends.1 ∙ cached)
    ]

check_group_limit-SameDefaultCounts :
    (w : World) (u : ℕ) (name m : String) (t : Tracker)
    → SameDefaultCounts (check_group_limit w u name m t).1 t
check_group_limit-SameDefaultCounts w u name m t = elim (Checked-cases w u name m t) [
  | ungrouped e z ↦ rw e (refl, refl)
  | unknown e z ↦ rw e (refl, refl)
  | unlimited group e f z ↦ rw e (refl, refl)
  | grouped group limits f rpm e ↦
      rw e (check_group-SameDefaultCounts w u name group (rpd_scope t u name) limits t)
]

-- What a charge leaves alone in the tracker.
abbrev pub IsConfined : Charge → Tracker → Tracker → Type 0
IsConfined no_charge s t = s ≡ t
IsConfined default_charge s t = SameGroupCounts s t
IsConfined (group_charge m) s t = SameDefaultCounts s t

IsConfined-refl : (c : Charge) (t : Tracker) → IsConfined c t t
IsConfined-refl no_charge t = refl
IsConfined-refl default_charge t = (refl, refl)
IsConfined-refl (group_charge m) t = (refl, refl)

run_charge-IsConfined :
    (w : World) (u : ℕ) (name : String) (c : Charge) (t : Tracker)
    → IsConfined c (run_charge w u name c t).1 t
unfolding run_charge
run_charge-IsConfined w u name no_charge t = refl
run_charge-IsConfined w u name default_charge t = check_and_increment-SameGroupCounts w u name t
run_charge-IsConfined w u name (group_charge m) t = check_group_limit-SameDefaultCounts w u name m t

settle_slot_tracker :
    (taken : Bool) (call : ℕ) (r : Option RateLimitDecision × Tracker) (s : Service)
    → (settle_slot taken call r s).1.tracker ≡ r.1
unfolding settle_slot
settle_slot_tracker taken call (none, t) s = refl
settle_slot_tracker true call (some d, t) s = refl
settle_slot_tracker false call (some d, t) s = refl

charge_holding-IsConfined :
    (w : World) (call u : ℕ) (name : String) (c : Charge) (taken : Taken) (s : Service)
    → IsConfined c (charge_holding w call u name c taken s).1.tracker s.tracker
unfolding charge_holding
charge_holding-IsConfined w call u name c denied s = IsConfined-refl c s.tracker
charge_holding-IsConfined w call u name c passed s =
    let r = run_charge w u name c s.tracker in
    rw (settle_slot_tracker false call r s) (run_charge-IsConfined w u name c s.tracker)
charge_holding-IsConfined w call u name c (took server) s =
    let r = run_charge w u name c s.tracker in
    rw (settle_slot_tracker true call r (record s { server = server }))
      (run_charge-IsConfined w u name c s.tracker)

charge_with_slot-IsConfined :
    (w : World) (call u : ℕ) (name : String) (c : Charge) (s : Service)
    → IsConfined c (charge_with_slot w call u name c s).1.tracker s.tracker
unfolding charge_with_slot
charge_with_slot-IsConfined w call u name c s =
    charge_holding-IsConfined w call u name c (take_slot s.tracker.profiles call u s.server) s

-- Whatever becomes of a request, it changes nothing of the tracker if the model is the caller's own; no
-- bucket and no cached day count of a named group if the Default group governs the model; and none of
-- the Default group otherwise.
pub enforce_access_and_limits-IsConfined :
    (w : World) (call : ℕ) (auth : Caller) (name model_id : String) (consume : Bool) (s : Service)
    → IsConfined
        (charge_for s auth model_id)
        (enforce_access_and_limits w call auth name model_id consume s).1.tracker
        s.tracker
enforce_access_and_limits-IsConfined w call auth name model_id consume s =
    elim (Enforced-cases w call auth name model_id consume s) [
      | unchanged o e ↦ rw e (IsConfined-refl (charge_for s auth model_id) s.tracker)
      | charged u z e ↦
          rw e (charge_with_slot-IsConfined w call u name (charge_for s auth model_id) s)
    ]
