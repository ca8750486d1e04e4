-- ===== src/Tracking/Flush.antt =====
-- The flush of the buffer: the rows that `_flush_locked` of app/request_tracker.py makes of a
-- snapshot, the upserts of `flush_usage_rows` of app/auth/database.py, and the subtraction of the
-- snapshot. A table is a dictionary over its unique key.
mod Upsert
pub mod Sums
pub use Upsert.{UsageRow, rows_count, sum_rows, sum_rows-upsert_rows}
unfoldable pub use Upsert.{upsert_rows}
use llm_proxy_server.Prelude.{
  ℕ, ◌+◌, ◌-◌, Bool, Option, none, some, List, [], ◌∷◌, String, Dict, lookup, insert, erase, nat_eq,
  if◌then◌else◌, get_or, bump, count_at,
}
use llm_proxy_server.Tracking.Keys.{
  UsageKey, HourKey, DayKey, hour_key, day_key, UsageKey-Keyed, HourKey-Keyed, DayKey-Keyed,
}

abbrev pub HourlyTable : Type 0
HourlyTable = Dict HourKey UsageRow

abbrev pub DailyTable : Type 0
DailyTable = Dict DayKey UsageRow

unfoldable pub hourly_rows : Dict UsageKey ℕ → HourlyTable
hourly_rows [] = []
hourly_rows ((k, n) ∷ snapshot) =
    (
      hour_key k,
      record { user_identity = k.user_identity; user_type = k.user_type; request_count = n },
    )
    ∷ hourly_rows snapshot

-- `daily_map`
unfoldable pub daily_map : Dict UsageKey ℕ → Dict DayKey ℕ → Dict DayKey ℕ
unfolding bump
daily_map [] days = days
daily_map ((k, n) ∷ snapshot) days = daily_map snapshot (bump (day_key k) n days)

-- `daily_labels`: (user_identity, user_type)
unfoldable pub daily_labels :
    Dict UsageKey ℕ → Dict DayKey (String × String) → Dict DayKey (String × String)
unfolding insert
daily_labels [] labels = labels
daily_labels ((k, n) ∷ snapshot) labels =
    daily_labels snapshot (insert (day_key k) (k.user_identity, k.user_type) labels)

-- Each day has a label, so the default is never read.
abbrev pub daily_row : Dict DayKey (String × String) → DayKey → ℕ → UsageRow
unfolding lookup
daily_row labels day n =
    let label = get_or (lookup day labels) ("", "") in
    record { user_identity = label.0; user_type = label.1; request_count = n }

unfoldable pub label_rows : Dict DayKey (String × String) → Dict DayKey ℕ → DailyTable
unfolding daily_row
label_rows labels [] = []
label_rows labels ((day, n) ∷ days) = (day, daily_row labels day n) ∷ label_rows labels days

unfoldable pub daily_rows : Dict UsageKey ℕ → DailyTable
unfolding daily_map daily_labels label_rows
daily_rows snapshot = label_rows (daily_labels snapshot []) (daily_map snapshot [])

-- `flush_usage_rows`: both tables, in one transaction that commits.
unfoldable pub flush_usage_rows :
    HourlyTable → DailyTable → HourlyTable × DailyTable → HourlyTable × DailyTable
unfolding upsert_rows
flush_usage_rows hourly daily tables = (upsert_rows hourly tables.0, upsert_rows daily tables.1)

-- `subtract exactly the flushed snapshot`: an entry that is used up is deleted.
unfoldable pub subtract_entry : UsageKey → ℕ → Dict UsageKey ℕ → Dict UsageKey ℕ
unfolding insert lookup erase
subtract_entry k n buffer =
    let left = count_at k buffer - n in
    if nat_eq left 0 then erase k buffer else insert k left buffer

unfoldable pub subtract : Dict UsageKey ℕ → Dict UsageKey ℕ → Dict UsageKey ℕ
unfolding subtract_entry
subtract [] buffer = buffer
subtract ((k, n) ∷ snapshot) buffer = subtract snapshot (subtract_entry k n buffer)
