-- ===== src/Tracking/Retention/Sums.antt =====
-- What the prune and the roll-up of app/auth/database.py leave of the counts.
use llm_proxy_server.Prelude.{
  ℕ, ◌+◌, ◌-◌, ◌≤◌, ◌≡◌, refl, ap, ◌∙◌, Bool, true, not, ◌&&◌, [], ◌∷◌, lookup, is_empty, ltb, leb,
  arith, total-picked, total-split, total-insert, fun_ext, Bool-cases, inl, inr,
}
use llm_proxy_server.Tracking.Keys.{HourKey, DayKey}
use llm_proxy_server.Tracking.Flush.{
  HourlyTable, DailyTable, rows_count, sum_rows, sum_rows-upsert_rows,
}
use llm_proxy_server.Tracking.Retention.{
  MonthKey, MonthKey-Keyed, MonthlyTable, Calendar, month_bounds, last_day_of_month, in_month,
  month_key, group_row, monthly_rows, roll_up, prune_hourly_usage,
}

-- A prune takes nothing of the rows from its cutoff on.
pub prune_hourly_usage-sum_rows :
    (p : HourKey → Bool) (today : ℕ) (hourly : HourlyTable)
    → ((k : HourKey) → p k ≡ true → today - 1 ≤ k.day.date)
    → sum_rows p (prune_hourly_usage today hourly) ≡ sum_rows p hourly
unfolding prune_hourly_usage
prune_hourly_usage-sum_rows p today hourly h =
    total-picked rows_count p (λ k. not (ltb k.day.date (today - 1))) hourly
    ∙ ap (λ q. sum_rows q hourly) (fun_ext (λ k. ground (arith, h k)))

pub prune_hourly_usage-le :
    (p : HourKey → Bool) (today : ℕ) (hourly : HourlyTable)
    → sum_rows p (prune_hourly_usage today hourly) ≤ sum_rows p hourly
unfolding prune_hourly_usage
prune_hourly_usage-le p today hourly =
    let test : HourKey → Bool = λ k. not (ltb k.day.date (today - 1)) in
    omega (arith, total-picked rows_count p test hourly, total-split rows_count p test hourly)

sum_rows-monthly_rows :
    (p : MonthKey → Bool) (c : Calendar) (ym : ℕ × ℕ) (daily : DailyTable)
    → sum_rows p (monthly_rows c ym daily)
      ≡ sum_rows (λ k. p (month_key ym k) && in_month c ym k) daily
unfolding monthly_rows
sum_rows-monthly_rows p c ym [] = refl
sum_rows-monthly_rows p c ym ((k, row) ∷ daily) =
    let groups = monthly_rows c ym daily in
    let key = month_key ym k in
    ground (
      arith,
      total-insert rows_count p key (group_row (lookup key groups) row) groups,
      sum_rows-monthly_rows p c ym daily,
    )

sum_rows_empty :
    (p : MonthKey → Bool) (rows : MonthlyTable) → is_empty rows ≡ true → sum_rows p rows ≡ 0
sum_rows_empty p [] h = refl
sum_rows_empty p (r ∷ rows) h = absurd (ground (arith, h))

sum_rows-same :
    (p q : DayKey → Bool) (daily : DailyTable)
    → ((k : DayKey) → p k ≡ q k)
    → sum_rows p daily ≡ sum_rows q daily
sum_rows-same p q [] h = refl
sum_rows-same p q ((k, row) ∷ daily) h = ground (arith, h k, sum_rows-same p q daily h)

-- A roll-up moves the counts of a month from the daily table to the monthly one.
pub sum_rows-roll_up :
    (p : MonthKey → Bool) (q : DayKey → Bool) (c : Calendar) (today date : ℕ) (daily : DailyTable)
    (monthly : MonthlyTable)
    → ((k : DayKey)
        → in_month c (c.year_month date) k ≡ true
        → q k ≡ p (month_key (c.year_month date) k))
    → sum_rows q (roll_up c today date (daily, monthly)).0
        + sum_rows p (roll_up c today date (daily, monthly)).1
      ≡ sum_rows q daily + sum_rows p monthly
unfolding roll_up
sum_rows-roll_up p q c today date daily monthly h =
    let ym = c.year_month date in
    let rows = monthly_rows c ym daily in
    ground (
      arith,
      sum_rows-upsert_rows p rows monthly,
      sum_rows-monthly_rows p c ym daily,
      sum_rows_empty p rows,
      sum_rows-same (λ k. p (month_key ym k) && in_month c ym k) (λ k. q k && in_month c ym k) daily
          (λ k. ground (arith, h k)),
      total-picked rows_count q (λ k. not (in_month c ym k)) daily,
      total-split rows_count q (in_month c ym) daily,
    )

-- The rows of the month of a date are of its days.
pub in_month-bounds :
    (c : Calendar) (date : ℕ) (k : DayKey)
    → in_month c (c.year_month date) k ≡ true
    → (c.date (c.year_month date).0 (c.year_month date).1 1 ≤ k.date)
      × (k.date ≤ last_day_of_month c (c.year_month date))
unfolding in_month month_bounds
in_month-bounds c date k h = ground (arith, h, c.month_end date)

-- A roll-up takes nothing of the rows of the last thirty days.
pub roll_up-sum_rows :
    (q : DayKey → Bool) (c : Calendar) (today date : ℕ) (daily : DailyTable)
    (monthly : MonthlyTable)
    → ((k : DayKey) → q k ≡ true → today - 30 ≤ k.date)
    → sum_rows q (roll_up c today date (daily, monthly)).0 ≡ sum_rows q daily
unfolding roll_up
roll_up-sum_rows q c today date daily monthly h =
    let ym = c.year_month date in
    elim (Bool-cases (leb (today - 30) (last_day_of_month c ym))) [
      | inl e ↦ rw (e, roll_up) refl
      | inr e ↦ ground (
        arith,
        e,
        total-picked rows_count q (λ k. not (in_month c ym k)) daily,
        sum_rows-same (λ k. q k && not (in_month c ym k)) q daily
            (λ k. ground (arith, e, h k, in_month-bounds c date k)),
      )
    ]
