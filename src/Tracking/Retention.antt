-- ===== src/Tracking/Retention.antt =====
-- What a flush ends with: `prune_hourly_usage` and `rollup_to_monthly` of app/auth/database.py. Dates
-- are day numbers; the calendar is Python's and SQLite's.
pub mod Sums
use llm_proxy_server.Prelude.{
  ℕ, ◌+◌, ◌-◌, ◌≤◌, ◌≡◌, Bool, true, not, ◌&&◌, Option, none, some, [], ◌∷◌, String, Dict, lookup,
  insert, keys, if◌then◌else◌, is_empty, nat_eq, ltb, leb, str_eq, str_eq_iff, text_le, Keyed, ◌↔◌,
  arith, picked,
}
use llm_proxy_server.Tracking.Keys.{HourKey, DayKey}
use llm_proxy_server.Tracking.Flush.{HourlyTable, DailyTable, UsageRow, upsert_rows}

-- `USAGE_MONTHLY_KEY`
pub record MonthKey : Type 0 where
  pub year : ℕ
  pub month : ℕ
  pub user_id : ℕ
  pub model : String
  pub server : String
  pub pool_id : ℕ

abbrev month_key_eq : MonthKey → MonthKey → Bool
month_key_eq a b =
    nat_eq a.year b.year
    && nat_eq a.month b.month
    && nat_eq a.user_id b.user_id
    && str_eq a.model b.model
    && str_eq a.server b.server
    && nat_eq a.pool_id b.pool_id

pub month_key_eq_iff : (a b : MonthKey) → (month_key_eq a b ≡ true) ↔ (a ≡ b)
month_key_eq_iff a b = ground (arith, str_eq_iff a.model b.model, str_eq_iff a.server b.server)

instance abbrev pub MonthKey-Keyed : Keyed MonthKey
MonthKey-Keyed = record { same = month_key_eq; same_iff = month_key_eq_iff }

abbrev pub MonthlyTable : Type 0
MonthlyTable = Dict MonthKey UsageRow

-- `date(year, month, day)`, `calendar.monthrange(year, month)[1]` and SQLite's year and month of a
-- date: a date from the first day of the month of a date to its last is of that month, and the next
-- month begins on the day after.
pub record Calendar : Type 0 where
  pub date : ℕ → ℕ → ℕ → ℕ
  pub monthrange : ℕ → ℕ → ℕ
  pub year_month : ℕ → ℕ × ℕ
  pub month_days :
      (d e : ℕ)
      → date (year_month e).0 (year_month e).1 1 ≤ d
      → d ≤ date (year_month e).0 (year_month e).1 (monthrange (year_month e).0 (year_month e).1)
      → year_month d ≡ year_month e
  pub month_end :
      (e : ℕ)
      → (if nat_eq (year_month e).1 12
          then date ((year_month e).0 + 1) 1 1
          else date (year_month e).0 ((year_month e).1 + 1) 1)
        ≡ date (year_month e).0 (year_month e).1 (monthrange (year_month e).0 (year_month e).1) + 1

-- `last_day_of_month`
abbrev pub last_day_of_month : Calendar → ℕ × ℕ → ℕ
last_day_of_month c ym = c.date ym.0 ym.1 (c.monthrange ym.0 ym.1)

-- `_month_bounds`
unfoldable pub month_bounds : Calendar → ℕ × ℕ → ℕ × ℕ
month_bounds c ym =
    let following = if nat_eq ym.1 12 then c.date (ym.0 + 1) 1 1 else c.date ym.0 (ym.1 + 1) 1 in
    (c.date ym.0 ym.1 1, following - 1)

-- The rows that are not older than yesterday.
unfoldable pub prune_hourly_usage : ℕ → HourlyTable → HourlyTable
prune_hourly_usage today hourly = picked (λ k. not (ltb k.day.date (today - 1))) hourly

-- `in_month`
unfoldable pub in_month : Calendar → ℕ × ℕ → DayKey → Bool
unfolding month_bounds
in_month c ym k = leb (month_bounds c ym).0 k.date && leb k.date (month_bounds c ym).1

abbrev pub month_key : ℕ × ℕ → DayKey → MonthKey
month_key ym k = record {
  year = ym.0;
  month = ym.1;
  user_id = k.user_id;
  model = k.model;
  server = k.server;
  pool_id = k.pool_id;
}

-- `max` of two texts.
abbrev pub max_text : String → String → String
max_text a b = if text_le a b then b else a

-- A row of a group: the sum of the counts, and the greatest labels.
abbrev pub group_row : Option UsageRow → UsageRow → UsageRow
unfolding text_le
group_row none row = row
group_row (some group) row = record {
  user_identity = max_text row.user_identity group.user_identity;
  user_type = max_text row.user_type group.user_type;
  request_count = row.request_count + group.request_count;
}

-- `agg_rows`, as the rows of the month.
unfoldable pub monthly_rows : Calendar → ℕ × ℕ → DailyTable → MonthlyTable
unfolding insert lookup group_row in_month
monthly_rows c ym [] = []
monthly_rows c ym ((k, row) ∷ daily) =
    let groups = monthly_rows c ym daily in
    let key = month_key ym k in
    if in_month c ym k then insert key (group_row (lookup key groups) row) groups else groups

-- One turn of the loop of `rollup_to_monthly`, for the month of a date, and its commit.
unfoldable pub roll_up : Calendar → ℕ → ℕ → DailyTable × MonthlyTable → DailyTable × MonthlyTable
unfolding monthly_rows upsert_rows in_month
roll_up c today date (daily, monthly) =
    let ym = c.year_month date in
    let rows = monthly_rows c ym daily in
    if leb (today - 30) (last_day_of_month c ym)
    then (daily, monthly)
    else if is_empty rows
    then (daily, monthly)
    else (picked (λ k. not (in_month c ym k)) daily, upsert_rows rows monthly)
