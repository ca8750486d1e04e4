-- ===== src/Tracking/Buffer/Relabel.antt =====
-- `rename_identity`, `drop_buffered_usage` and `forget_user` of app/request_tracker.py: what they leave in the buffer and in
-- the requests in flight.
use llm_proxy_server.Prelude.{
  ℕ, ◌≡◌, refl, Bool, true, false, not, ◌&&◌, none, List, [], ◌∷◌, String, Dict, lookup, erase,
  str_eq, str_eq_iff, if◌then◌else◌, arith, bump, count_at, tally, tally-bump, IsDict,
  count_at-erase, erase-IsDict, bump-IsDict, lookup-bump, lookup-erase, contains, is_some,
  stale_keys, contains-keys, contains-filter, keys, All-const, popped-tally, tally-popped,
  tally-unpopped,
}
use llm_proxy_server.Tracking.Keys.{UsageKey, HourKey, hour_key, UsageKey-Keyed}
use llm_proxy_server.Tracking.Buffer.Active.{EachActive, IsLabelled, change_user-EachActive}
use llm_proxy_server.Tracking.Buffer.{
  RequestTracker, relabel, relabel_all, is_stale_label, rename_identity, Axis, on_axis,
  drop_buffered_usage,
}

pub relabel_all-IsDict :
    (new : String) (ks : List UsageKey) (d : Dict UsageKey ℕ)
    → IsDict d
    → IsDict (relabel_all new ks d)
unfolding relabel_all
relabel_all-IsDict new [] d h = h
relabel_all-IsDict new (k ∷ ks) d h =
    relabel_all-IsDict new ks (bump (relabel new k) (count_at k d) (erase k d))
      (bump-IsDict (relabel new k) (count_at k d) (erase k d) (erase-IsDict k d h))

-- A label is outside the key of a row, so no row's count changes.
pub tally-relabel_all :
    (p : HourKey → Bool) (new : String) (ks : List UsageKey) (d : Dict UsageKey ℕ)
    → IsDict d
    → tally (λ k. p (hour_key k)) (relabel_all new ks d) ≡ tally (λ k. p (hour_key k)) d
unfolding relabel_all
tally-relabel_all p new [] d h = refl
tally-relabel_all p new (k ∷ ks) d h =
    let left = erase k d in
    let left_h = erase-IsDict k d h in
    let n = count_at k d in
    let moved = bump (relabel new k) n left in
    omega (
      arith,
      count_at-erase (λ j. p (hour_key j)) k d h,
      tally-bump (λ j. p (hour_key j)) (relabel new k) n left,
      tally-relabel_all p new ks moved (bump-IsDict (relabel new k) n left left_h),
    )

lookup-relabel_all :
    (new : String) (ks : List UsageKey) (j : UsageKey) (d : Dict UsageKey ℕ)
    → str_eq j.user_identity new ≡ false
    → lookup j (relabel_all new ks d) ≡ (if contains ks j then none else lookup j d)
unfolding relabel_all
lookup-relabel_all new [] j d e = refl
lookup-relabel_all new (k ∷ ks) j d e = ground (
  arith,
  e,
  str_eq_iff new j.user_identity,
  str_eq_iff j.user_identity new,
  lookup-relabel_all new ks j (bump (relabel new k) (count_at k d) (erase k d)) e,
  lookup-bump (relabel new k) j (count_at k d) (erase k d),
  lookup-erase k j d,
)

pub stale_label_gone :
    (user_id : ℕ) (new : String) (t : RequestTracker) (k : UsageKey)
    → is_stale_label user_id new k ≡ true
    → is_some (lookup k (rename_identity user_id new t).usage_buffer) ≡ false
unfolding rename_identity
stale_label_gone user_id new t k e = ground (
  arith,
  e,
  lookup-relabel_all new (stale_keys (is_stale_label user_id new) t.usage_buffer) k t.usage_buffer,
  contains-filter (is_stale_label user_id new) k (keys t.usage_buffer),
  contains-keys k t.usage_buffer,
)

-- After a rename, no count of the user is buffered under another label, every request of the user in
-- flight has the new one, and no row's count has changed, for a buffer with distinct keys.
pub rename_identity-relabels :
    (user_id : ℕ) (new : String) (p : HourKey → Bool) (t : RequestTracker)
    → IsDict t.usage_buffer
    → let after = rename_identity user_id new t in
      ((k : UsageKey)
        → is_stale_label user_id new k ≡ true
        → is_some (lookup k after.usage_buffer) ≡ false)
      × EachActive (IsLabelled user_id new) after.active
      × (tally (λ k. p (hour_key k)) after.usage_buffer
          ≡ tally (λ k. p (hour_key k)) t.usage_buffer)
unfolding rename_identity
rename_identity-relabels user_id new p t h = (
  stale_label_gone user_id new t,
  change_user-EachActive (λ e. Unit) (IsLabelled user_id new)
      (λ e. record e { user_identity = new }) user_id (λ e u own _. refl)
      (λ e u other own. absurd (ground (arith, other, own))) t.active
      (All-const t.active (λ e. tt)),
  tally-relabel_all p new (stale_keys (is_stale_label user_id new) t.usage_buffer) t.usage_buffer h,
)

-- A purge returns the number of the buffered requests on its axis, leaves none of them and keeps the
-- counts of all others, for a buffer with distinct keys.
pub drop_buffered_usage-purges :
    (axis : Axis) (p : UsageKey → Bool) (t : RequestTracker)
    → IsDict t.usage_buffer
    → let r = drop_buffered_usage axis t in
      (r.1 ≡ tally (on_axis axis) t.usage_buffer)
      × (tally (on_axis axis) r.0.usage_buffer ≡ 0)
      × (tally (λ k. p k && not (on_axis axis k)) r.0.usage_buffer
          ≡ tally (λ k. p k && not (on_axis axis k)) t.usage_buffer)
unfolding drop_buffered_usage
drop_buffered_usage-purges axis p t h = (
  popped-tally (on_axis axis) t.usage_buffer h,
  tally-popped (on_axis axis) t.usage_buffer h,
  tally-unpopped p (on_axis axis) t.usage_buffer h,
)
