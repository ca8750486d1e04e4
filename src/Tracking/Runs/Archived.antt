-- ===== src/Tracking/Runs/Archived.antt =====
-- The daily and the monthly table together: a request stays counted when its rows are rolled up.
use llm_proxy_server.Prelude.{ℕ, ◌+◌, ◌-◌, ◌≡◌, refl, ap, Bool, true, arith}
use llm_proxy_server.Tracking.Keys.{DayKey, UsageKey-Keyed, HourKey-Keyed, DayKey-Keyed}
use llm_proxy_server.Tracking.Flush.{sum_rows, sum_rows-upsert_rows, daily_rows, flush_usage_rows}
use llm_proxy_server.Tracking.Flush.Sums.{sum_rows-daily_rows}
use llm_proxy_server.Tracking.Retention.{MonthKey, MonthKey-Keyed, Calendar, in_month, month_key}
use llm_proxy_server.Tracking.Retention.Sums.{in_month-bounds, sum_rows-roll_up, roll_up-sum_rows}
use llm_proxy_server.Tracking.Runs.{
  UsageState, no_usage, UsageStep, changes, ends, renames, drops, forgets, snapshots, fails, writes,
  subtracts, prunes, fails_to_prune, rolls_up, rests, UsageReach, at_once, after,
}
use llm_proxy_server.Tracking.Runs.Conserved.{
  IsBalanced, stored_by, IsRecent, IsRecent-earlier, later_right, UsageStep-IsBalanced,
  UsageReach-IsSteady,
}

pub UsageStep-daily :
    (p : DayKey → Bool) {c : Calendar} {s t : UsageState} (q : UsageStep c s t)
    → IsRecent (λ k. p k.day) t
    → sum_rows p t.tables.1 ≡ sum_rows p s.tables.1 + stored_by (λ k. p k.day) q
unfolding flush_usage_rows
UsageStep-daily p (writes s snapshot e) recent =
    omega (
      arith,
      sum_rows-upsert_rows p (daily_rows snapshot) s.tables.1,
      sum_rows-daily_rows p snapshot,
    )
UsageStep-daily p {c} (rolls_up s today date e) recent = omega (
  arith,
  roll_up-sum_rows p c today date s.tables.1 s.monthly
      (λ k q. later_right s.horizon (today - 30) k.date (recent (record { hour = 0; day = k }) q)),
)
UsageStep-daily p (changes s t ch) recent = omega arith
UsageStep-daily p (ends s limits date hour id status) recent = omega arith
UsageStep-daily p (renames s user_id new e) recent = omega arith
UsageStep-daily p (drops s axis e) recent = omega arith
UsageStep-daily p (forgets s user_id e) recent = omega arith
UsageStep-daily p (snapshots s e full) recent = omega arith
UsageStep-daily p (fails s snapshot e) recent = omega arith
UsageStep-daily p (subtracts s snapshot e) recent = omega arith
UsageStep-daily p (fails_to_prune s e) recent = omega arith
UsageStep-daily p (rests s e) recent = omega arith
UsageStep-daily p (prunes s today e) recent = omega arith

-- At every state that is reached from no usage, the daily table balances too, from the horizon on.
pub UsageReach-daily :
    (p : DayKey → Bool) {c : Calendar} {s : UsageState}
    → UsageReach c no_usage s
    → IsRecent (λ k. p k.day) s
    → IsBalanced (λ k. p k.day) (sum_rows p s.tables.1) s
UsageReach-daily p at_once recent = refl
UsageReach-daily p (after r q) recent =
    let before = UsageReach-daily p r (IsRecent-earlier (λ k. p k.day) q recent) in
    rw (UsageStep-daily p q recent)
      (UsageStep-IsBalanced (λ k. p k.day) (sum_rows p _) q (UsageReach-IsSteady r) before)

-- The key that the rows of a day have in the monthly table.
abbrev pub month_of : Calendar → DayKey → MonthKey
month_of c k = month_key (c.year_month k.date) k

-- The counts of the daily and of the monthly table.
abbrev pub archived : Calendar → (MonthKey → Bool) → UsageState → ℕ
archived c p s = sum_rows (λ k. p (month_of c k)) s.tables.1 + sum_rows p s.monthly

month_of-in_month :
    (c : Calendar) (date : ℕ) (k : DayKey)
    → in_month c (c.year_month date) k ≡ true
    → month_of c k ≡ month_key (c.year_month date) k
month_of-in_month c date k h =
    let days = in_month-bounds c date k h in
    ap (λ ym. month_key ym k) (c.month_days k.date date days.0 days.1)

pub UsageStep-archived :
    (p : MonthKey → Bool) {c : Calendar} {s t : UsageState} (q : UsageStep c s t)
    → archived c p t ≡ archived c p s + stored_by (λ k. p (month_of c k.day)) q
unfolding flush_usage_rows
UsageStep-archived p {c} (writes s snapshot e) = omega (
  arith,
  sum_rows-upsert_rows (λ k. p (month_of c k)) (daily_rows snapshot) s.tables.1,
  sum_rows-daily_rows (λ k. p (month_of c k)) snapshot,
)
UsageStep-archived p {c} (rolls_up s today date e) = omega (
  arith,
  sum_rows-roll_up p (λ k. p (month_of c k)) c today date s.tables.1 s.monthly
      (λ k h. ap p (month_of-in_month c date k h)),
)
UsageStep-archived p (changes s t ch) = omega arith
UsageStep-archived p (ends s limits date hour id status) = omega arith
UsageStep-archived p (renames s user_id new e) = omega arith
UsageStep-archived p (drops s axis e) = omega arith
UsageStep-archived p (forgets s user_id e) = omega arith
UsageStep-archived p (snapshots s e full) = omega arith
UsageStep-archived p (fails s snapshot e) = omega arith
UsageStep-archived p (subtracts s snapshot e) = omega arith
UsageStep-archived p (fails_to_prune s e) = omega arith
UsageStep-archived p (rests s e) = omega arith
UsageStep-archived p (prunes s today e) = omega arith

-- At every state that is reached from no usage, for every test of a month, user, model, server and pool,
-- the counts of the daily and of the monthly table, of the buffer and of what was dropped add up to the
-- number of requests that were served, and to the snapshot once more while it is written and not yet
-- subtracted: neither a prune nor a roll-up loses a request or counts one twice, wherever it fails. The
-- calendar is any in which the days of a month are together.
pub UsageReach-archived :
    (p : MonthKey → Bool) {c : Calendar} {s : UsageState}
    → UsageReach c no_usage s
    → IsBalanced (λ k. p (month_of c k.day)) (archived c p s) s
UsageReach-archived p at_once = refl
UsageReach-archived p {c} (after {t} r q) = rw (UsageStep-archived p q) (
    UsageStep-IsBalanced (λ k. p (month_of c k.day)) (archived c p t) q (UsageReach-IsSteady r)
      (UsageReach-archived p r))
