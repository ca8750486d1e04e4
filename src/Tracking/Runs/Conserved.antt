-- ===== src/Tracking/Runs/Conserved.antt =====
-- No request is lost or counted twice: the tables, the buffer and what was dropped add up to the
-- requests that were served, whatever happens between the steps of a flush.
use llm_proxy_server.Prelude.{
  ℕ, ◌+◌, ◌-◌, ◌≤◌, true, ◌≡◌, refl, subst, Bool, Option, none, some, List, ◌++◌, Dict,
  if◌then◌else◌, arith, tally, tally-bump, IsDict, picked, same_count, total-picked, total-append,
  pop_all, tally-pop_all, stale_keys, String-Keyed, Pair-Keyed, sum_by,
}
use llm_proxy_server.Tracking.Keys.{UsageKey, HourKey, hour_key, UsageKey-Keyed}
use llm_proxy_server.Tracking.Buffer.{
  user_axis, on_axis, buffer_one, rename_identity, drop_buffered_usage, forget_user, is_stale_label,
}
use llm_proxy_server.Tracking.Buffer.Relabel.{tally-relabel_all}
use llm_proxy_server.Tracking.Flush.{sum_rows, sum_rows-upsert_rows, hourly_rows, flush_usage_rows}
use llm_proxy_server.Tracking.Flush.Sums.{sum_rows-hourly_rows, IsWithin, tally-subtract}
use llm_proxy_server.Tracking.Retention.{Calendar}
use llm_proxy_server.Tracking.Retention.Sums.{prune_hourly_usage-sum_rows}
use llm_proxy_server.Tracking.Runs.{
  UsageState, later, no_usage, unsubtracted, ending_key, serve, UsageStep, changes, ends, renames,
  drops, forgets, snapshots, fails, writes, subtracts, prunes, fails_to_prune, rolls_up, rests,
  UsageReach, at_once, after,
}
use llm_proxy_server.Tracking.Runs.Steady.{
  Change-buffer, end_request-buffer, snapshot_of_phase, IsSteady, UsageStep-IsSteady,
}

-- How many of the requests that were served pass a test.
abbrev pub served_count : (HourKey → Bool) → List HourKey → ℕ
served_count p served = sum_by (λ k. if p k then 1 else 0) served

-- What is stored, the counts of the buffer and what was dropped are what was served, but that a snapshot
-- which is written and not yet subtracted stands in both places.
abbrev pub IsBalanced : (HourKey → Bool) → ℕ → UsageState → Type 0
IsBalanced p stored s =
    let at_hour : UsageKey → Bool = λ k. p (hour_key k) in
    stored + tally at_hour s.tracker.usage_buffer + tally at_hour s.dropped
    ≡ served_count p s.served + tally at_hour (unsubtracted s.phase)

abbrev pub IsConserved : (HourKey → Bool) → UsageState → Type 0
IsConserved p s = IsBalanced p (sum_rows p s.tables.0) s

-- What a step stores of the rows that a test picks.
abbrev pub stored_by : (HourKey → Bool) → {c : Calendar} {s t : UsageState} → UsageStep c s t → ℕ
stored_by p (writes s snapshot e) = tally (λ k. p (hour_key k)) snapshot
stored_by p _ = 0

pub tally-buffer_one :
    (p : HourKey → Bool) (o : Option UsageKey) (d : Dict UsageKey ℕ) (served : List HourKey)
    → tally (λ k. p (hour_key k)) (buffer_one o d) + served_count p served
      ≡ tally (λ k. p (hour_key k)) d + served_count p (serve o served)
unfolding buffer_one
tally-buffer_one p none d served = refl
tally-buffer_one p (some k) d served = omega (arith, tally-bump (λ j. p (hour_key j)) k 1 d)

-- What a purge takes from the buffer is what it adds to the history.
tally-dropped :
    (p q : UsageKey → Bool) (d dropped : Dict UsageKey ℕ)
    → IsDict d
    → tally p (pop_all (stale_keys q d) d).0 + tally p (picked q d ++ dropped)
      ≡ tally p d + tally p dropped
tally-dropped p q d dropped h = omega (
  arith,
  tally-pop_all p q d h,
  total-append same_count p (picked q d) dropped,
  total-picked same_count p q d,
)

-- The test picks no row that the upkeep may have taken.
abbrev pub IsRecent : (HourKey → Bool) → UsageState → Type 0
IsRecent p s = (k : HourKey) → p k ≡ true → s.horizon ≤ k.day.date

later_left : (a b d : ℕ) → later a b ≤ d → a ≤ d
later_left a b d h = ground (arith, h)

pub later_right : (a b d : ℕ) → later a b ≤ d → b ≤ d
later_right a b d h = ground (arith, h)

pub UsageStep-horizon : {c : Calendar} {s t : UsageState} → UsageStep c s t → s.horizon ≤ t.horizon
UsageStep-horizon (prunes s today e) = later_left s.horizon (today - 1) _ (omega arith)
UsageStep-horizon (rolls_up s today date e) = later_left s.horizon (today - 30) _ (omega arith)
UsageStep-horizon (changes s t ch) = omega arith
UsageStep-horizon (ends s limits date hour id status) = omega arith
UsageStep-horizon (renames s user_id new e) = omega arith
UsageStep-horizon (drops s axis e) = omega arith
UsageStep-horizon (forgets s user_id e) = omega arith
UsageStep-horizon (snapshots s e full) = omega arith
UsageStep-horizon (fails s snapshot e) = omega arith
UsageStep-horizon (writes s snapshot e) = omega arith
UsageStep-horizon (subtracts s snapshot e) = omega arith
UsageStep-horizon (fails_to_prune s e) = omega arith
UsageStep-horizon (rests s e) = omega arith

pub UsageStep-IsBalanced :
    (p : HourKey → Bool) (n : ℕ) {c : Calendar} {s t : UsageState} (q : UsageStep c s t)
    → IsSteady s
    → IsBalanced p n s
    → IsBalanced p (n + stored_by p q) t
unfolding rename_identity drop_buffered_usage forget_user flush_usage_rows
UsageStep-IsBalanced p n (changes s t ch) st h = rw (Change-buffer ch) (omega (arith, h))
UsageStep-IsBalanced p n (ends s limits date hour id status) st h =
    rw (end_request-buffer limits date hour id status s.tracker) (
      omega (
        arith,
        h,
        tally-buffer_one p (ending_key limits date hour id status s.tracker) s.tracker.usage_buffer
            s.served,
      ))
UsageStep-IsBalanced p n (renames s user_id new e) st h = omega (
  arith,
  h,
  tally-relabel_all p new (stale_keys (is_stale_label user_id new) s.tracker.usage_buffer)
      s.tracker.usage_buffer st.buffer,
)
UsageStep-IsBalanced p n (drops s axis e) st h = omega (
  arith,
  h,
  tally-dropped (λ k. p (hour_key k)) (on_axis axis) s.tracker.usage_buffer s.dropped st.buffer,
)
UsageStep-IsBalanced p n (forgets s user_id e) st h = omega (
  arith,
  h,
  tally-dropped (λ k. p (hour_key k)) (on_axis (user_axis user_id)) s.tracker.usage_buffer s.dropped
      st.buffer,
)
UsageStep-IsBalanced p n (snapshots s e full) st h =
    let before = subst (λ f. IsBalanced p n (record s { phase = f })) e h in omega (arith, before)
UsageStep-IsBalanced p n (fails s snapshot e) st h =
    let before = subst (λ f. IsBalanced p n (record s { phase = f })) e h in omega (arith, before)
UsageStep-IsBalanced p n (writes s snapshot e) st h =
    let before = subst (λ f. IsBalanced p n (record s { phase = f })) e h in omega (arith, before)
UsageStep-IsBalanced p n (subtracts s snapshot e) st h =
    let before = subst (λ f. IsBalanced p n (record s { phase = f })) e h in
    let snapshot_h = subst (λ f. IsDict (snapshot_of_phase f)) e st.snapshot in
    let within = subst (λ f. IsWithin (snapshot_of_phase f) s.tracker.usage_buffer) e st.within in
    omega (
      arith,
      before,
      tally-subtract (λ k. p (hour_key k)) snapshot s.tracker.usage_buffer snapshot_h st.buffer
          within,
    )
UsageStep-IsBalanced p n (prunes s today e) st h =
    let before = subst (λ f. IsBalanced p n (record s { phase = f })) e h in omega (arith, before)
UsageStep-IsBalanced p n (fails_to_prune s e) st h =
    let before = subst (λ f. IsBalanced p n (record s { phase = f })) e h in omega (arith, before)
UsageStep-IsBalanced p n (rolls_up s today date e) st h = omega (arith, h)
UsageStep-IsBalanced p n (rests s e) st h =
    let before = subst (λ f. IsBalanced p n (record s { phase = f })) e h in omega (arith, before)

pub UsageReach-IsSteady : {c : Calendar} {s : UsageState} → UsageReach c no_usage s → IsSteady s
UsageReach-IsSteady at_once = record { buffer = tt; snapshot = tt; within = λ k. omega arith }
UsageReach-IsSteady (after r q) = UsageStep-IsSteady q (UsageReach-IsSteady r)

pub IsRecent-earlier :
    (p : HourKey → Bool) {c : Calendar} {s t : UsageState}
    → UsageStep c s t
    → IsRecent p t
    → IsRecent p s
IsRecent-earlier p q recent k h = omega (arith, UsageStep-horizon q, recent k h)

UsageStep-hourly :
    (p : HourKey → Bool) {c : Calendar} {s t : UsageState} (q : UsageStep c s t)
    → IsRecent p t
    → sum_rows p t.tables.0 ≡ sum_rows p s.tables.0 + stored_by p q
unfolding flush_usage_rows
UsageStep-hourly p (writes s snapshot e) recent = omega (
  arith,
  sum_rows-upsert_rows p (hourly_rows snapshot) s.tables.0,
  sum_rows-hourly_rows p snapshot,
)
UsageStep-hourly p (prunes s today e) recent = omega (
  arith,
  prune_hourly_usage-sum_rows p today s.tables.0
      (λ k q. later_right s.horizon (today - 1) k.day.date (recent k q)),
)
UsageStep-hourly p (changes s t ch) recent = omega arith
UsageStep-hourly p (ends s limits date hour id status) recent = omega arith
UsageStep-hourly p (renames s user_id new e) recent = omega arith
UsageStep-hourly p (drops s axis e) recent = omega arith
UsageStep-hourly p (forgets s user_id e) recent = omega arith
UsageStep-hourly p (snapshots s e full) recent = omega arith
UsageStep-hourly p (fails s snapshot e) recent = omega arith
UsageStep-hourly p (subtracts s snapshot e) recent = omega arith
UsageStep-hourly p (fails_to_prune s e) recent = omega arith
UsageStep-hourly p (rests s e) recent = omega arith
UsageStep-hourly p (rolls_up s today date e) recent = omega arith

-- At every state that is reached from no usage, the counts of the hourly table, of the buffer and of
-- what was dropped add up to the number of requests that were served, and to the snapshot once more
-- while it is written and not yet subtracted, for every test of a row's key that picks only dates from
-- the horizon on: however requests start, change and end between the steps of a flush, and however often
-- its write, its prune or its roll-up fails. The horizon is the latest cutoff of a prune or a roll-up.
pub UsageReach-IsConserved :
    (p : HourKey → Bool) {c : Calendar} {s : UsageState}
    → UsageReach c no_usage s
    → IsRecent p s
    → IsConserved p s
UsageReach-IsConserved p at_once recent = refl
UsageReach-IsConserved p (after r q) recent =
    let before = UsageReach-IsConserved p r (IsRecent-earlier p q recent) in
    rw (UsageStep-hourly p q recent)
      (UsageStep-IsBalanced p (sum_rows p _) q (UsageReach-IsSteady r) before)
