-- ===== src/Limits/GroupChecks/Cases.antt =====
-- How `check_group_limit` comes to check a group, and what one check does to the bucket that is asked
-- about.
use llm_proxy_server.Prelude.{
  ℕ, ◌+◌, ◌≡◌, ◌≢◌, ◌≤◌, refl, ◌∙◌, ap, sym, subst, Bool, true, false, Option, none, some, String,
  lookup, nat_eq, nat_eq_iff, ℕ-Keyed, Pair-Keyed, arith, Option-cases, Bool-cases, inl, inr,
  is_some, ◌==◌, ◌||◌,
}
use llm_proxy_server.Profiles.{default_group_id}
use llm_proxy_server.Limits.Groups.{GroupState, GroupSnapshot, group_for, group_limits_for}
use llm_proxy_server.Limits.Tracker.{Tracker, World, RpdScope, rpd_scope}
use llm_proxy_server.Limits.Decision.{RateLimitDecision, window_of}
use llm_proxy_server.Limits.Checks.{Limits, limits_of}
use llm_proxy_server.Limits.GroupChecks.{
  check_group, group_limits, check_snapshot, check_group_limit,
}
use llm_proxy_server.Limits.GroupChecks.Rate.{
  Same, charged, group_count, IsCharged, check_group-IsCharged,
}

-- Each snapshot has the id that it is kept under.
abbrev pub IsKeyed : GroupState → Type 0
IsKeyed g = (gid : ℕ) (snap : GroupSnapshot) → lookup gid g.groups ≡ some snap → snap.group_id ≡ gid

abbrev pub group_rpm_limit : Tracker → ℕ → ℕ → Option ℕ
group_rpm_limit t u gid = (group_limits_for t.profiles u gid).0

-- How a request is checked: not at all, for one of three reasons, or against its group.
pub data Checked (w : World) (u : ℕ) (name m : String) (t : Tracker) : Type 0 where
  ungrouped :
      check_group_limit w u name m t ≡ (none, t)
      → group_for t.groups (some m) ≡ default_group_id
      → Checked w u name m t
  unknown :
      check_group_limit w u name m t ≡ (none, t)
      → lookup (group_for t.groups (some m)) t.groups.groups ≡ none
      → Checked w u name m t
  unlimited :
      (group : GroupSnapshot)
      → check_group_limit w u name m t ≡ (none, t)
      → lookup (group_for t.groups (some m)) t.groups.groups ≡ some group
      → group_rpm_limit t u group.group_id ≡ none
      → Checked w u name m t
  grouped :
      (group : GroupSnapshot) (limits : Limits)
      → lookup (group_for t.groups (some m)) t.groups.groups ≡ some group
      → limits.rpm ≡ group_rpm_limit t u group.group_id
      → check_group_limit w u name m t ≡ check_group w u name group (rpd_scope t u name) limits t
      → Checked w u name m t

group_limits-rpm :
    (t : Tracker) (u : ℕ) (group : GroupSnapshot) (scope : RpdScope)
    → (group_limits t u group scope).rpm ≡ group_rpm_limit t u group.group_id
unfolding group_limits limits_of
group_limits-rpm t u group scope = elim (Bool-cases (is_some scope.pool_id)) [
  | inl e ↦ simp e refl
  | inr e ↦ simp e refl
]

check_snapshot_grouped :
    (w : World) (u : ℕ) (name : String) (t : Tracker) (group : GroupSnapshot)
    → (is_some (group_limits t u group (rpd_scope t u name)).rpm
        || is_some (group_limits t u group (rpd_scope t u name)).rpd)
      ≡ true
    → check_snapshot w u name t (some group)
      ≡ check_group w u name group
          (rpd_scope t u name)
          (group_limits t u group (rpd_scope t u name))
          t
unfolding check_snapshot
check_snapshot_grouped w u name t group h = simp h refl

check_snapshot_unlimited :
    (w : World) (u : ℕ) (name : String) (t : Tracker) (group : GroupSnapshot)
    → (is_some (group_limits t u group (rpd_scope t u name)).rpm
        || is_some (group_limits t u group (rpd_scope t u name)).rpd)
      ≡ false
    → check_snapshot w u name t (some group) ≡ (none, t)
unfolding check_snapshot
check_snapshot_unlimited w u name t group h = simp h refl

check_group_limit_named :
    (w : World) (u : ℕ) (name m : String) (t : Tracker)
    → nat_eq (group_for t.groups (some m)) default_group_id ≡ false
    → check_group_limit w u name m t
      ≡ check_snapshot w u name t (lookup (group_for t.groups (some m)) t.groups.groups)
unfolding check_group_limit
check_group_limit_named w u name m t h = simp h refl

check_group_limit_default :
    (w : World) (u : ℕ) (name m : String) (t : Tracker)
    → nat_eq (group_for t.groups (some m)) default_group_id ≡ true
    → check_group_limit w u name m t ≡ (none, t)
unfolding check_group_limit
check_group_limit_default w u name m t h = simp h refl

check_snapshot-none :
    (w : World) (u : ℕ) (name : String) (t : Tracker) → check_snapshot w u name t none ≡ (none, t)
unfolding check_snapshot
check_snapshot-none w u name t = refl

none_of_or : (a b : Option ℕ) → (is_some a || is_some b) ≡ false → a ≡ none
none_of_or a b h = ground arith

pub Checked-cases : (w : World) (u : ℕ) (name m : String) (t : Tracker) → Checked w u name m t
Checked-cases w u name m t =
    let gid = group_for t.groups (some m) in
    elim (Bool-cases (nat_eq gid default_group_id)) [
      | inl e ↦ ungrouped (check_group_limit_default w u name m t e) ((nat_eq_iff _ _).0 e)
      | inr e ↦
          let named = check_group_limit_named w u name m t e in
          elim (Option-cases (lookup gid t.groups.groups)) [
            | inl f ↦
                unknown (named ∙ ap (check_snapshot w u name t) f ∙ check_snapshot-none w u name t)
                  f
            | inr (group, f) ↦
                let limits = group_limits t u group (rpd_scope t u name) in
                let found = named ∙ ap (check_snapshot w u name t) f in
                let rpm = group_limits-rpm t u group (rpd_scope t u name) in
                elim (Bool-cases (is_some limits.rpm || is_some limits.rpd)) [
                  | inl k ↦
                      grouped group limits f rpm (found ∙ check_snapshot_grouped w u name t group k)
                  | inr k ↦
                      unlimited group (found ∙ check_snapshot_unlimited w u name t group k) f
                        (sym rpm ∙ none_of_or limits.rpm limits.rpd k)
                ]
          ]
    ]

-- What is asked of: a group with a snapshot, on which the user has a limit per minute.
pub record IsLimited (v gid limit : ℕ) (t : Tracker) : Type 0 where
  pub named : gid ≢ default_group_id
  pub keyed : IsKeyed t.groups
  pub known : is_some (lookup gid t.groups.groups) ≡ true
  pub limited : group_rpm_limit t v gid ≡ some limit

-- A step of a run: the counts after it, and the limit.
abbrev pub IsStepped :
    World → ℕ → ℕ → ℕ → Tracker → ℕ × ℕ → Option RateLimitDecision × Tracker → Type 0
IsStepped w v gid limit t key r =
    (group_count r.1.group_minute_buckets (v, gid) (window_of w.now)
      ≡ group_count t.group_minute_buckets (v, gid) (window_of w.now) + charged key (v, gid) r.0)
    × (group_count t.group_minute_buckets (v, gid) (window_of w.now) ≤ limit
        → group_count r.1.group_minute_buckets (v, gid) (window_of w.now) ≤ limit)
    × Same r.1 t

abbrev pub same_key : ℕ × ℕ → ℕ × ℕ → Bool
same_key a b = a == b

same_key_sound : (u v g gid : ℕ) → same_key (u, g) (v, gid) ≡ true → (u ≡ v) × (g ≡ gid)
same_key_sound u v g gid h = ground arith

differs : (u v g gid : ℕ) → (u ≡ v → g ≡ gid → ⊥) → same_key (u, g) (v, gid) ≡ false
differs u v g gid n = elim (Bool-cases (same_key (u, g) (v, gid))) [
  | inl e ↦ let s = same_key_sound u v g gid e in absurd (n s.0 s.1)
  | inr e ↦ e
]

uncharged :
    (w : World) (u v g gid limit : ℕ) (t : Tracker)
    → same_key (u, g) (v, gid) ≡ false
    → IsStepped w v gid limit t (u, g) (none, t)
uncharged w u v g gid limit t h = (ground (arith, h), λ le. le, (refl, refl))

stepped :
    (w : World) (u v g gid limit : ℕ) (rpm : Option ℕ) (t : Tracker)
    (r : Option RateLimitDecision × Tracker)
    → IsCharged w (u, g) (v, gid) rpm t r
    → (same_key (u, g) (v, gid) ≡ true → rpm ≡ some limit)
    → IsStepped w v gid limit t (u, g) r
stepped w u v g gid limit rpm t r s e = (
  s.0,
  λ le. elim (Bool-cases (same_key (u, g) (v, gid))) [
    | inr q ↦ ground (arith, q, s.0)
    | inl q ↦ elim (Option-cases r.0) [
      | inl n ↦ ground (arith, q, n, s.0, s.1 n, e q, same_key_sound u v g gid q)
      | inr (d, n) ↦ ground (arith, q, n, s.0)
    ]
  ],
  s.2,
)

pub check_group_limit-IsStepped :
    (w : World) (u v gid limit : ℕ) (name m : String) (t : Tracker)
    → IsLimited v gid limit t
    → IsStepped w v gid limit t (u, group_for t.groups (some m)) (check_group_limit w u name m t)
check_group_limit-IsStepped w u v gid limit name m t h =
    let g = group_for t.groups (some m) in
    elim (Checked-cases w u name m t) [
      | ungrouped e z ↦
          rw e (uncharged w u v g gid limit t (differs u v g gid (λ p q. h.named (sym q ∙ z))))
      | unknown e z ↦
          rw e (uncharged w u v g gid limit t (differs u v g gid (λ p q. cc (h.known, z, q))))
      | unlimited group e f z ↦
          let id = h.keyed g group f in
          rw e
            (uncharged w u v g gid limit t (differs u v g gid (λ p q. cc (h.limited, z, id, p, q))))
      | grouped group limits f rpm e ↦
          let id = h.keyed g group f in
          let s = check_group-IsCharged w u name group (rpd_scope t u name) limits t (v, gid) in
          rw e (
            stepped w u v g gid limit limits.rpm t
              (check_group w u name group (rpd_scope t u name) limits t)
              (subst
                (λ j.
                  IsCharged w (u, j) (v, gid) limits.rpm t
                    (check_group w u name group (rpd_scope t u name) limits t))
                id s)
              (λ q. let k = same_key_sound u v g gid q in cc (rpm, id, h.limited, k.0, k.1)))
    ]
