-- ===== src/Tracking/Tests.antt =====
-- Runs of the request tracker and of its reads, and their theorems at concrete inputs.
use llm_proxy_server.Prelude.{
  Bool, has_char, str_eq_iff, is_empty, ap₂, ◌%◌, ◌≤◌, ℕ, ◌+◌, ◌-◌, ◌*◌, ◌/◌, ◌&&◌, ◌≡◌, refl, true,
  false, none, some, [], ◌∷◌, lookup, is_some, arith, tally, nat_eq, insert, erase, bump,
  String-Keyed,
}
use llm_proxy_server.Byok.{is_byok_model}
use llm_proxy_server.Profiles.{empty_default}
use llm_proxy_server.Limits.Groups.{GroupState, GroupSnapshot}
use llm_proxy_server.Limits.Tracker.{Tracker}
use llm_proxy_server.Tracking.Keys.{UsageKey, HourKey, hour_key, day_key, usage_key, UsageKey-Keyed}
use llm_proxy_server.Tracking.Buffer.{
  RequestTracker, start_request, end_request, update_identity, rename_identity, is_stale_label,
}
use llm_proxy_server.Tracking.Buffer.Active.{EachActive, IsLabelled}
use llm_proxy_server.Tracking.Buffer.Relabel.{rename_identity-relabels}
use llm_proxy_server.Tracking.Flush.{
  UsageRow, DailyTable, sum_rows, hourly_rows, daily_rows, flush_usage_rows, subtract,
}
use llm_proxy_server.Tracking.Runs.{
  UsageState, no_usage, changes, ends, snapshots, writes, UsageReach, at_once, after, starts,
  identifies, writing, written, subtracted, pruned, subtracts, prunes, rolls_up, later, ending_key,
  serve, unsubtracted,
}
use llm_proxy_server.Tracking.Runs.Conserved.{IsConserved, IsBalanced, UsageReach-IsConserved}
use llm_proxy_server.Tracking.Runs.Archived.{month_of, archived, UsageReach-archived}
use llm_proxy_server.Tracking.Retention.{
  MonthKey, MonthKey-Keyed, Calendar, prune_hourly_usage, month_bounds, in_month, roll_up,
}
use llm_proxy_server.Tracking.Runs.Forgotten.{forgotten, HasNoGain, forget_user-counted}
use llm_proxy_server.Tracking.Sql.{byok_match}
use llm_proxy_server.Tracking.Sql.Agrees.{byok_match-is_byok_model}
use llm_proxy_server.Tracking.Today.{get_today_count, get_today_group_count}
use llm_proxy_server.Tracking.Today.Groups.{IsNamed, IsExact}
use llm_proxy_server.Tracking.Today.Charged.{
  counted, is_charged_to, get_today_group_count-group_for,
}
use llm_proxy_server.Tracking.Today.Counts.{
  served_today, dropped_today, get_today_count-misses_none, get_today_count-served, counts_today,
}

abbrev coders : GroupSnapshot
coders = record {
  group_id = 3;
  name = "coders";
  model_ids = "openai/gpt-5" ∷ [];
  provider_keys = "azure" ∷ [];
  enabled = true;
}

abbrev groups : GroupState
groups = record {
  groups = (3, coders) ∷ [];
  model_to_group = ("openai/gpt-5", 3) ∷ [];
  provider_to_group = ("azure", 3) ∷ [];
}

abbrev limits : Tracker
limits = record {
  profiles = record { users = []; profiles = (1, empty_default) ∷ [] };
  groups = groups;
  user_to_pool = (7, 4) ∷ [];
  pool_members = (4, (7, "ann") ∷ []) ∷ [];
  identity_to_pool = [];
  inactive_members = [];
  carries = [];
  carries_date = none;
  pool_share_default = none;
  pool_share_override = [];
  minute_buckets = [];
  group_minute_buckets = [];
  rpd_cache = [];
  group_rpd_cache = [];
}

-- Years of twelve months of thirty days.
abbrev thirties : ℕ → ℕ × ℕ
thirties d = (d / 360, d % 360 / 30 + 1)

abbrev thirties_date : ℕ → ℕ → ℕ → ℕ
thirties_date year month day = year * 360 + (month - 1) * 30 + day - 1

same_month :
    (d e : ℕ)
    → thirties_date (thirties e).0 (thirties e).1 1 ≤ d
    → d ≤ thirties_date (thirties e).0 (thirties e).1 30
    → thirties d ≡ thirties e
same_month d e low high =
    let year : d / 360 ≡ e / 360 = omega (arith, low, high) in
    let month : d % 360 / 30 + 1 ≡ e % 360 / 30 + 1 = omega (arith, low, high) in
    ap₂ (λ y m. (y, m)) year month

abbrev calendar : Calendar
calendar = record {
  date = thirties_date;
  monthrange = λ year month. 30;
  year_month = thirties;
  month_days = same_month;
  month_end = λ e. ground arith;
}

-- A request of user 7 starts, is authenticated and ends; a flush takes it while another one starts.
abbrev after_start : UsageState
after_start = record no_usage {
  tracker =
      start_request no_usage.tracker "r1" "openai" "/v1/chat/completions" "POST" (some "openai/o3")
        "unknown" "unknown" false 100;
}

abbrev after_identity : UsageState
after_identity = record after_start {
  tracker = update_identity "r1" "ann" "user" (some 7) after_start.tracker;
}

abbrev after_end : UsageState
after_end = record after_identity {
  tracker = (end_request limits 20 9 "r1" "completed" after_identity.tracker).0;
  served =
      serve (ending_key limits 20 9 "r1" "completed" after_identity.tracker) after_identity.served;
}

run_to_end : UsageReach calendar no_usage after_end
run_to_end =
    after
      (after
        (after at_once (
          changes no_usage after_start.tracker (
            starts no_usage.tracker "r1" "openai" "/v1/chat/completions" "POST" (some "openai/o3")
              "unknown" "unknown" false 100)))
        (changes after_start after_identity.tracker
          (identifies after_start.tracker "r1" "ann" "user" (some 7))))
      (ends after_identity limits 20 9 "r1" "completed")

abbrev after_snapshot : UsageState
after_snapshot = record after_end { phase = writing after_end.tracker.usage_buffer }

abbrev after_write : UsageState
after_write = record after_snapshot {
  tables =
      flush_usage_rows (hourly_rows after_end.tracker.usage_buffer)
        (daily_rows after_end.tracker.usage_buffer) after_snapshot.tables;
  phase = written after_end.tracker.usage_buffer;
}

-- One request is buffered and in both tables.
after_write_counts :
    (tally (λ k. true) after_write.tracker.usage_buffer ≡ 1)
    × (sum_rows (λ k. true) after_write.tables.0 ≡ 1)
    × (sum_rows (λ k. true) after_write.tables.1 ≡ 1)
unfolding start_request update_identity end_request hourly_rows daily_rows flush_usage_rows insert
    erase lookup bump usage_key
after_write_counts = (refl, refl, refl)

end_buffers : is_empty after_end.tracker.usage_buffer ≡ false
unfolding start_request update_identity end_request insert lookup bump usage_key
end_buffers = refl

run_to_write : UsageReach calendar no_usage after_write
run_to_write =
    after (after run_to_end (snapshots after_end refl end_buffers))
      (writes after_snapshot after_end.tracker.usage_buffer refl)

-- The flush subtracts and prunes, and rolls the month up when it is old.
abbrev after_subtract : UsageState
after_subtract = record after_write {
  tracker = record {
    active = after_write.tracker.active;
    usage_buffer = subtract after_end.tracker.usage_buffer after_write.tracker.usage_buffer;
  };
  phase = subtracted;
}

abbrev after_prune : UsageState
after_prune = record after_subtract {
  tables = (prune_hourly_usage 90 after_subtract.tables.0, after_subtract.tables.1);
  phase = pruned;
  horizon = later after_subtract.horizon (90 - 1);
}

abbrev after_roll : UsageState
after_roll =
    let r = roll_up calendar 90 20 (after_prune.tables.1, after_prune.monthly) in
    record after_prune {
      tables = (after_prune.tables.0, r.0);
      monthly = r.1;
      horizon = later after_prune.horizon (90 - 30);
    }

run_to_roll : UsageReach calendar no_usage after_roll
run_to_roll =
    after
      (after (after run_to_write (subtracts after_write after_end.tracker.usage_buffer refl))
        (prunes after_subtract 90 refl))
      (rolls_up after_prune 90 20 refl)

-- The request is in the monthly table alone.
after_roll_counts :
    (tally (λ k. true) after_roll.tracker.usage_buffer ≡ 0)
    × (sum_rows (λ k. true) after_roll.tables.0 ≡ 0)
    × (sum_rows (λ k. true) after_roll.tables.1 ≡ 0)
    × (sum_rows (λ k. true) after_roll.monthly ≡ 1)
unfolding start_request update_identity end_request hourly_rows daily_rows flush_usage_rows insert
    erase lookup bump usage_key subtract prune_hourly_usage in_month month_bounds roll_up
after_roll_counts = (refl, refl, refl, refl)

abbrev of_pool : HourKey → Bool
of_pool k = nat_eq k.day.pool_id 4

UsageReach-IsConserved_example : IsConserved of_pool after_write
UsageReach-IsConserved_example = UsageReach-IsConserved of_pool run_to_write (λ k _. omega arith)

abbrev of_month : MonthKey → Bool
of_month k = nat_eq k.month 1 && nat_eq k.pool_id 4

UsageReach-archived_example :
    IsBalanced
      (λ k. of_month (month_of calendar k.day))
      (archived calendar of_month after_roll)
      after_roll
UsageReach-archived_example = UsageReach-archived of_month run_to_roll

forget_user-counted_example : HasNoGain 7 after_end (forgotten 7 after_end)
forget_user-counted_example =
    forget_user-counted 7 {c = calendar} after_end run_to_end refl at_once tt

abbrev one_key : UsageKey
one_key = record {
  date = 20;
  hour = 9;
  user_id = 7;
  user_identity = "ann";
  user_type = "user";
  model = "openai/o3";
  server = "openai";
  pool_id = 4;
}

abbrev holding : RequestTracker
holding = record { active = []; usage_buffer = (one_key, 2) ∷ [] }

rename_identity-relabels_example :
    let after = rename_identity 7 "anna" holding in
    ((k : UsageKey)
      → is_stale_label 7 "anna" k ≡ true
      → is_some (lookup k after.usage_buffer) ≡ false)
    × EachActive (IsLabelled 7 "anna") after.active
    × (tally (λ k. of_pool (hour_key k)) after.usage_buffer
        ≡ tally (λ k. of_pool (hour_key k)) holding.usage_buffer)
unfolding lookup
rename_identity-relabels_example = rename_identity-relabels 7 "anna" of_pool holding (refl, tt)

byok_match-is_byok_model_example :
    byok_match "openai:byok-7-mine/gpt-5" ≡ is_byok_model (some "openai:byok-7-mine/gpt-5")
byok_match-is_byok_model_example = byok_match-is_byok_model "openai:byok-7-mine/gpt-5"

coders-IsExact : IsExact groups 3 coders
unfolding lookup
coders-IsExact = record {
  models = λ x. ground (arith, str_eq_iff "openai/gpt-5" x);
  instances = λ x. ground (arith, str_eq_iff "azure" x);
}

abbrev ann_row : UsageRow
ann_row = record { user_identity = "ann"; user_type = "user"; request_count = 3 }

abbrev group_table : DailyTable
group_table =
    (
      record { date = 20; user_id = 7; model = "azure/gpt-4o"; server = "azure"; pool_id = 4 },
      ann_row,
    )
    ∷ []

get_today_group_count-group_for_example :
    get_today_group_count groups 20
      (7 ∷ [])
      coders.model_ids
      coders.provider_keys
      holding
      (some group_table)
    ≡ counted 20 (7 ∷ []) (is_charged_to groups 3) holding group_table
unfolding has_char
get_today_group_count-group_for_example =
    get_today_group_count-group_for groups 3 20 (7 ∷ []) coders holding group_table
      (λ e. absurd (omega (arith, e))) coders-IsExact ((refl, refl), tt) refl

groups-IsNamed : IsNamed groups
unfolding has_char
groups-IsNamed = record { models = refl; instances = ((refl, refl), tt) }

get_today_count-served_example :
    get_today_count groups 20 (7 ∷ []) after_write.tracker (some after_write.tables.1)
      + dropped_today groups 20 (7 ∷ []) after_write
    ≡ served_today groups 20 (7 ∷ []) after_write
      + tally (λ k. counts_today groups 20 (7 ∷ []) (day_key k)) (unsubtracted after_write.phase)
get_today_count-served_example =
    get_today_count-served groups 20 (7 ∷ []) after_write run_to_write groups-IsNamed refl
      (omega arith)

get_today_count-misses_none_example :
    served_today groups 20 (7 ∷ []) after_end
    ≤ get_today_count groups 20 (7 ∷ []) after_end.tracker (some after_write.tables.1)
      + dropped_today groups 20 (7 ∷ []) after_end
get_today_count-misses_none_example =
    get_today_count-misses_none groups 20 (7 ∷ []) after_end after_write run_to_end
      (after (after at_once (snapshots after_end refl end_buffers))
        (writes after_snapshot after_end.tracker.usage_buffer refl))
      groups-IsNamed refl (omega arith)
