-- ===== src/Tracking/Runs/Forgotten.antt =====
-- An account that is deleted leaves no usage behind: what a run counts later is under other ids.
use llm_proxy_server.Prelude.{
  ℕ, ◌+◌, ◌≤◌, ◌≡◌, refl, subst, ◌∙◌, pop_all, Bool, none, Dict, nat_eq, arith, tally, IsDict,
  tally-pop_all, tally-popped, stale_keys, All-const, String-Keyed,
}
use llm_proxy_server.Tracking.Keys.{UsageKey, UsageKey-Keyed, HourKey-Keyed, DayKey-Keyed}
use llm_proxy_server.Tracking.Buffer.{
  user_axis, on_axis, rename_identity, drop_buffered_usage, forget_user, is_stale_label,
}
use llm_proxy_server.Tracking.Buffer.Active.{change_user-EachActive}
use llm_proxy_server.Tracking.Buffer.Relabel.{tally-relabel_all}
use llm_proxy_server.Tracking.Flush.{
  sum_rows, sum_rows-upsert_rows, hourly_rows, daily_rows, flush_usage_rows,
}
use llm_proxy_server.Tracking.Flush.Sums.{
  sum_rows-hourly_rows, sum_rows-daily_rows, IsWithin, tally-subtract,
}
use llm_proxy_server.Tracking.Retention.{MonthKey, MonthKey-Keyed, Calendar}
use llm_proxy_server.Tracking.Retention.Sums.{prune_hourly_usage-le, sum_rows-roll_up}
use llm_proxy_server.Tracking.Runs.{
  idle, UsageState, no_usage, UsageStep, changes, ends, renames, drops, forgets, snapshots, fails,
  writes, subtracts, prunes, fails_to_prune, rolls_up, rests, UsageReach, at_once, after,
}
use llm_proxy_server.Tracking.Runs.Steady.{
  Change-buffer, snapshot_of_phase, IsSteady, UsageStep-IsSteady,
}
use llm_proxy_server.Tracking.Runs.Conserved.{UsageReach-IsSteady}
use llm_proxy_server.Tracking.Runs.Detached.{
  IsStepApart, IsApart, IsForeign, IsDetached, Change-flying, end_request-detached,
}

-- What is not in the buffer is not popped, and a pop takes nothing else.
tally-still_zero :
    (p q : UsageKey → Bool) (d : Dict UsageKey ℕ)
    → IsDict d
    → tally p d ≡ 0
    → tally p (pop_all (stale_keys q d) d).0 ≡ 0
tally-still_zero p q d h zero_here = omega (arith, zero_here, tally-pop_all p q d h)

idle-flushing :
    (user_id : ℕ) (s : UsageState)
    → s.phase ≡ idle
    → tally (on_axis (user_axis user_id)) (snapshot_of_phase s.phase) ≡ 0
idle-flushing user_id s e = rw e refl

-- Forgetting a user detaches them.
forget_user-IsDetached :
    (user_id : ℕ) (s : UsageState)
    → IsSteady s
    → s.phase ≡ idle
    → IsDetached user_id (record s { tracker = (forget_user user_id s.tracker).0 })
unfolding forget_user
forget_user-IsDetached user_id s st e = record {
  flying =
      change_user-EachActive (λ e. Unit) (IsForeign user_id) (λ e. record e { user_id = none })
        user_id (λ e u own. refl) (λ e u other. other) s.tracker.active
        (All-const s.tracker.active (λ e. tt));
  buffered = tally-popped (on_axis (user_axis user_id)) s.tracker.usage_buffer st.buffer;
  flushing = idle-flushing user_id s e;
}

UsageStep-IsDetached :
    (user_id : ℕ) {c : Calendar} {s t : UsageState} (q : UsageStep c s t)
    → IsStepApart user_id q
    → IsSteady s
    → IsDetached user_id s
    → IsDetached user_id t
unfolding rename_identity drop_buffered_usage forget_user
UsageStep-IsDetached user_id (changes s t ch) a st h = record {
  flying = Change-flying user_id ch a h.flying;
  buffered = rw (Change-buffer ch) h.buffered;
  flushing = h.flushing;
}
UsageStep-IsDetached user_id (ends s limits date hour id status) a st h =
    let r = end_request-detached user_id limits date hour id status s.tracker h.flying in
    record { flying = r.0; buffered = r.1 ∙ h.buffered; flushing = h.flushing }
UsageStep-IsDetached user_id (renames s uid new e) a st h = record {
  flying =
      change_user-EachActive (IsForeign user_id) (IsForeign user_id)
        (λ e. record e { user_identity = new }) uid (λ e m own. m) (λ e m other. m) s.tracker.active
        h.flying;
  buffered =
      tally-relabel_all (λ k. nat_eq k.day.user_id user_id) new
        (stale_keys (is_stale_label uid new) s.tracker.usage_buffer) s.tracker.usage_buffer
        st.buffer
      ∙ h.buffered;
  flushing = h.flushing;
}
UsageStep-IsDetached user_id (drops s axis e) a st h = record {
  flying = h.flying;
  buffered =
      tally-still_zero (on_axis (user_axis user_id)) (on_axis axis) s.tracker.usage_buffer st.buffer
        h.buffered;
  flushing = h.flushing;
}
UsageStep-IsDetached user_id (forgets s uid e) a st h = record {
  flying =
      change_user-EachActive (IsForeign user_id) (IsForeign user_id)
        (λ e. record e { user_id = none }) uid (λ e m own. refl) (λ e m other. m) s.tracker.active
        h.flying;
  buffered =
      tally-still_zero (on_axis (user_axis user_id)) (on_axis (user_axis uid))
        s.tracker.usage_buffer st.buffer h.buffered;
  flushing = h.flushing;
}
UsageStep-IsDetached user_id (snapshots s e full) a st h = record {
  flying = h.flying;
  buffered = h.buffered;
  flushing = h.buffered;
}
UsageStep-IsDetached user_id (fails s snapshot e) a st h = record {
  flying = h.flying;
  buffered = h.buffered;
  flushing = refl;
}
UsageStep-IsDetached user_id (writes s snapshot e) a st h = record {
  flying = h.flying;
  buffered = h.buffered;
  flushing =
      subst (λ f. tally (on_axis (user_axis user_id)) (snapshot_of_phase f) ≡ 0) e h.flushing;
}
UsageStep-IsDetached user_id (subtracts s snapshot e) a st h = record {
  flying = h.flying;
  buffered = omega (
    arith,
    h.buffered,
    tally-subtract (on_axis (user_axis user_id)) snapshot s.tracker.usage_buffer
        (subst (λ f. IsDict (snapshot_of_phase f)) e st.snapshot) st.buffer
        (subst (λ f. IsWithin (snapshot_of_phase f) s.tracker.usage_buffer) e st.within),
  );
  flushing = refl;
}
UsageStep-IsDetached user_id (prunes s today e) a st h = record {
  flying = h.flying;
  buffered = h.buffered;
  flushing = refl;
}
UsageStep-IsDetached user_id (fails_to_prune s e) a st h = record {
  flying = h.flying;
  buffered = h.buffered;
  flushing = refl;
}
UsageStep-IsDetached user_id (rolls_up s today date e) a st h = record {
  flying = h.flying;
  buffered = h.buffered;
  flushing = h.flushing;
}
UsageStep-IsDetached user_id (rests s e) a st h = record {
  flying = h.flying;
  buffered = h.buffered;
  flushing = refl;
}

-- The requests of a user in the hourly table, and in the daily and the monthly one.
abbrev pub hourly_of_user : ℕ → UsageState → ℕ
hourly_of_user user_id s = sum_rows (λ k. nat_eq k.day.user_id user_id) s.tables.0

abbrev pub archived_of_user : ℕ → UsageState → ℕ
archived_of_user user_id s =
    sum_rows (λ k. nat_eq k.user_id user_id) s.tables.1
    + sum_rows (λ (k : MonthKey). nat_eq k.user_id user_id) s.monthly

-- The user gains no request in the tables, and loses none but to a prune.
abbrev pub HasNoGain : ℕ → UsageState → UsageState → Type 0
HasNoGain user_id s t =
    (hourly_of_user user_id t ≤ hourly_of_user user_id s)
    × (archived_of_user user_id t ≡ archived_of_user user_id s)

UsageStep-counted :
    (user_id : ℕ) {c : Calendar} {s t : UsageState}
    → UsageStep c s t
    → IsDetached user_id s
    → HasNoGain user_id s t
unfolding flush_usage_rows
UsageStep-counted user_id (writes s snapshot e) h =
    let gone =
      subst (λ f. tally (on_axis (user_axis user_id)) (snapshot_of_phase f) ≡ 0) e h.flushing in
    ground (
      arith,
      gone,
      sum_rows-upsert_rows (λ k. nat_eq k.day.user_id user_id) (hourly_rows snapshot) s.tables.0,
      sum_rows-upsert_rows (λ k. nat_eq k.user_id user_id) (daily_rows snapshot) s.tables.1,
      sum_rows-hourly_rows (λ k. nat_eq k.day.user_id user_id) snapshot,
      sum_rows-daily_rows (λ k. nat_eq k.user_id user_id) snapshot,
    )
UsageStep-counted user_id (changes s t c) h = (omega arith, refl)
UsageStep-counted user_id (ends s limits date hour id status) h = (omega arith, refl)
UsageStep-counted user_id (renames s uid new e) h = (omega arith, refl)
UsageStep-counted user_id (drops s axis e) h = (omega arith, refl)
UsageStep-counted user_id (forgets s uid e) h = (omega arith, refl)
UsageStep-counted user_id (snapshots s e full) h = (omega arith, refl)
UsageStep-counted user_id (fails s snapshot e) h = (omega arith, refl)
UsageStep-counted user_id (subtracts s snapshot e) h = (omega arith, refl)
UsageStep-counted user_id (prunes s today e) h =
    (prune_hourly_usage-le (λ k. nat_eq k.day.user_id user_id) today s.tables.0, refl)
UsageStep-counted user_id (fails_to_prune s e) h = (omega arith, refl)
UsageStep-counted user_id {c} (rolls_up s today date e) h = (
  omega arith,
  sum_rows-roll_up (λ k. nat_eq k.user_id user_id) (λ k. nat_eq k.user_id user_id) c today date
      s.tables.1 s.monthly (λ k m. refl),
)
UsageStep-counted user_id (rests s e) h = (omega arith, refl)

UsageReach-IsDetached :
    (user_id : ℕ) {c : Calendar} {s t : UsageState} (r : UsageReach c s t)
    → IsApart user_id r
    → IsSteady s
    → IsDetached user_id s
    → IsSteady t × IsDetached user_id t × HasNoGain user_id s t
UsageReach-IsDetached user_id at_once a st h = (st, h, (omega arith, refl))
UsageReach-IsDetached user_id (after r q) a st h =
    let (mid_st, mid_h, same) = UsageReach-IsDetached user_id r a.0 st h in
    (
      UsageStep-IsSteady q mid_st,
      UsageStep-IsDetached user_id q a.1 mid_st mid_h,
      (
        omega (arith, (UsageStep-counted user_id q mid_h).0, same.0),
        (UsageStep-counted user_id q mid_h).1 ∙ same.1,
      ),
    )

-- The state in which a user of a state has been forgotten.
unfoldable pub forgotten : ℕ → UsageState → UsageState
unfolding forget_user
forgotten user_id s = record s { tracker = (forget_user user_id s.tracker).0 }

-- After `forget_user` at a state that is reached from no usage and in which no flush runs, whatever
-- runs next, requests of the user in flight, flushes and roll-ups included, the requests under that user
-- id do not grow in the hourly table, where a prune may take some, and stay the same in the daily and
-- the monthly table together, as long as no request is authenticated as that user's again.
pub forget_user-counted :
    (user_id : ℕ) {c : Calendar} (s : UsageState) {t : UsageState}
    → UsageReach c no_usage s
    → s.phase ≡ idle
    → (r : UsageReach c (forgotten user_id s) t) → IsApart user_id r
    → HasNoGain user_id s t
unfolding forgotten
forget_user-counted user_id {c} s reached e r a =
    let st = UsageStep-IsSteady {c = c} (forgets s user_id e) (UsageReach-IsSteady reached) in
    let steady : IsSteady (forgotten user_id s) = record {
      buffer = st.buffer;
      snapshot = st.snapshot;
      within = st.within;
    } in
    let (_, _, same) =
      UsageReach-IsDetached user_id r a steady
        (forget_user-IsDetached user_id s (UsageReach-IsSteady reached) e) in
    same
