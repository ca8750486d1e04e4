-- ===== src/Limits/Status.antt =====
-- The reads of app/rate_limit.py that count nothing: `get_user_status`, `get_group_rpd_count`,
-- `pooled_rpd_limits` and `pooled_group_rpd_limit`.
pub mod Agrees
use llm_proxy_server.Prelude.{
  get_or, ℤ, [], ◌∷◌, ℕ, ◌≡◌, ◌↔◌, Bool, true, false, Option, none, some, List, String, lookup, map,
  nat_eq, is_some, if◌then◌else◌, arith, ℕ-Keyed, Bool-cases, inl, inr, length,
}
use llm_proxy_server.Profiles.{default_group_id}
use llm_proxy_server.Limits.Groups.{
  Scope, ScopeKind, overall, model_group, other, member_limit_for_scope, own_rpm_limit,
  own_rpd_limit, group_limits_for,
}
use llm_proxy_server.Limits.Tracker.{
  carry_sum, member_share_cap, user_scope_key, Tracker, World, RpdScope, rpd_scope, pool_of,
  pooled_rpd_limit, get_today_count, get_today_group_count,
}
use llm_proxy_server.Limits.Decision.{window_of, bucket_at, remaining, is_used_up}

pub record UserStatus : Type 0 where
  pub rpm_limit : Option ℕ
  pub rpm_count : ℕ
  pub rpm_remaining : Option ℕ
  pub rpd_limit : Option ℕ
  pub rpd_count : ℕ
  pub rpd_remaining : Option ℕ

-- The status, with the tracker that has the day count it may have cached.
unfoldable pub get_user_status : World → ℕ → String → Tracker → UserStatus × Tracker
unfolding own_rpm_limit own_rpd_limit rpd_scope pooled_rpd_limit bucket_at get_today_count
get_user_status w user_id username t =
    let scope = rpd_scope t user_id username in
    let rpm = own_rpm_limit t.profiles user_id in
    let rpd =
      if is_some scope.pool_id
      then pooled_rpd_limit t scope.member_ids (own_rpd_limit t.profiles)
      else own_rpd_limit t.profiles user_id in
    let rpm_count = (bucket_at t.minute_buckets user_id (window_of w.now)).count in
    let today = get_today_count w scope.scope_key scope.member_ids t in
    (
      record {
        rpm_limit = rpm;
        rpm_count = rpm_count;
        rpm_remaining = remaining rpm rpm_count;
        rpd_limit = rpd;
        rpd_count = today.0;
        rpd_remaining = remaining rpd today.0;
      },
      today.1,
    )

unfoldable pub get_group_rpd_count : World → ℕ → String → ℕ → Tracker → ℕ × Tracker
unfolding rpd_scope get_today_count get_today_group_count lookup
get_group_rpd_count w user_id username group_id t =
    let scope = rpd_scope t user_id username in
    let overall = get_today_count w scope.scope_key scope.member_ids t in
    if nat_eq group_id default_group_id then overall else elim (lookup group_id t.groups.groups) [
      | none ↦ (0, t)
      | some group ↦ get_today_group_count w scope.scope_key scope.member_ids group t
    ]

-- The pool, how many members it has, and its limit.
unfoldable pub pooled_rpd_limits : Tracker → ℕ → Option ℕ × ℕ × Option ℕ
unfolding pool_of pooled_rpd_limit own_rpd_limit
pooled_rpd_limits t user_id = elim (pool_of t user_id) [
  | none ↦ (none, 1, none)
  | some (pool_id, members) ↦ (
    some pool_id,
    length members,
    pooled_rpd_limit t (map (λ (m : ℕ × String). m.0) members) (own_rpd_limit t.profiles),
  )
]

unfoldable pub pooled_group_rpd_limit : Tracker → ℕ → ℕ → Option ℕ
unfolding pool_of pooled_rpd_limit group_limits_for lookup
pooled_group_rpd_limit t user_id group_id = elim (pool_of t user_id) [
  | none ↦ none
  | some (pool_id, members) ↦ elim (lookup group_id t.groups.groups) [
    | none ↦ none
    | some group ↦
        let own = λ (uid : ℕ). (group_limits_for t.profiles uid group.group_id).1 in
        pooled_rpd_limit t (map (λ (m : ℕ × String). m.0) members) own
  ]
]

-- The pool that usage rows are stamped with; 0 for none.
unfoldable pub pool_id_for_user : Tracker → ℕ → ℕ
unfolding lookup
pool_id_for_user t user_id = get_or (lookup user_id t.user_to_pool) 0

unfoldable pub carry_for : ℕ → Tracker → ℕ → Scope → ℤ
unfolding carry_sum
carry_for today t user_id scope = carry_sum today t (user_id ∷ []) scope

-- A member's own day count on a scope; a group that is not known has none.
unfoldable pub own_count : World → ℕ → String → Scope → Tracker → Option ℕ × Tracker
unfolding get_today_count get_today_group_count lookup
own_count w user_id username (model_group, scope_id) t = elim (lookup scope_id t.groups.groups) [
  | none ↦ (none, t)
  | some group ↦
      let r = get_today_group_count w (user_scope_key username) (user_id ∷ []) group t in
      (some r.0, r.1)
]
own_count w user_id username (_, scope_id) t =
    let r = get_today_count w (user_scope_key username) (user_id ∷ []) t in (some r.0, r.1)

-- The cap of a member's share and what the member used of it.
unfoldable pub member_share_status :
    World → ℕ → String → Scope → Option ℕ → Tracker → (Option ℕ × Option ℕ) × Tracker
unfolding member_share_cap member_limit_for_scope own_count lookup
member_share_status w user_id username scope pool_limit t = elim (lookup user_id t.user_to_pool) [
  | none ↦ ((none, none), t)
  | some pool_id ↦
      let own = member_limit_for_scope t.profiles t.groups user_id scope in
      let r = own_count w user_id username scope t in
      elim (member_share_cap t (some pool_id) own pool_limit) [
        | none ↦ ((none, none), t)
        | some share ↦ elim r.0 [
          | none ↦ ((none, none), t)
          | some count ↦ ((some share, some count), r.1)
        ]
      ]
]
