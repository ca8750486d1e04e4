-- ===== src/Tracking/Today/Counts.antt =====
-- Today's counts against the requests that were served: exact at rest, and never too low when a flush
-- runs between the read of the buffer and the read of the table.
use llm_proxy_server.Prelude.{
  ℕ, ◌+◌, ◌≤◌, ◌≡◌, refl, Bool, false, not, some, List, is_empty, arith, tally, fun_ext,
}
use llm_proxy_server.Limits.Groups.{GroupState}
use llm_proxy_server.Tracking.Keys.{
  HourKey, DayKey, day_key, UsageKey-Keyed, HourKey-Keyed, DayKey-Keyed,
}
use llm_proxy_server.Tracking.Flush.{sum_rows}
use llm_proxy_server.Tracking.Retention.{Calendar}
use llm_proxy_server.Tracking.Runs.{UsageState, no_usage, unsubtracted, UsageReach, at_once, after}
use llm_proxy_server.Tracking.Runs.Conserved.{served_count, IsRecent, IsRecent-earlier}
use llm_proxy_server.Tracking.Runs.Archived.{UsageStep-daily, UsageReach-daily}
use llm_proxy_server.Tracking.Today.{
  is_grouped, sql_grouped, in_day, get_today_count, buffered_count,
}
use llm_proxy_server.Tracking.Today.Groups.{IsNamed, sql_grouped-is_grouped}

-- A row that today's Default count of the users takes.
abbrev pub counts_today : GroupState → ℕ → List ℕ → DayKey → Bool
counts_today g today ids = in_day today ids (λ m. not (is_grouped g m))

sql_counts_today :
    (g : GroupState) (today : ℕ) (ids : List ℕ)
    → IsNamed g
    → in_day today ids (λ m. not (sql_grouped g m)) ≡ counts_today g today ids
sql_counts_today g today ids h = fun_ext (λ k. rw (sql_grouped-is_grouped g k.model h) refl)

get_today_count_of_some :
    (g : GroupState) (today : ℕ) (ids : List ℕ) (s t : UsageState)
    → IsNamed g
    → is_empty ids ≡ false
    → get_today_count g today ids s.tracker (some t.tables.1)
      ≡ buffered_count (counts_today g today ids) s.tracker
        + sum_rows (counts_today g today ids) t.tables.1
unfolding get_today_count
get_today_count_of_some g today ids s t h full =
    rw (full, get_today_count, sql_counts_today g today ids h) refl

-- What the users were served today outside the named groups, and what of it was dropped.
abbrev pub served_today : GroupState → ℕ → List ℕ → UsageState → ℕ
served_today g today ids s = served_count (λ k. counts_today g today ids k.day) s.served

abbrev pub dropped_today : GroupState → ℕ → List ℕ → UsageState → ℕ
dropped_today g today ids s = tally (λ k. counts_today g today ids (day_key k)) s.dropped

counts_today-IsRecent :
    (g : GroupState) (today : ℕ) (ids : List ℕ) (s : UsageState)
    → s.horizon ≤ today
    → IsRecent (λ k. counts_today g today ids k.day) s
counts_today-IsRecent g today ids s h k counted = ground (arith, h, counted)

-- At every state that is reached from no usage, `get_today_count` of some users counts each request of
-- theirs today that no named group and no BYOK instance takes just once, less what was dropped, and the
-- snapshot once more that is written and not yet subtracted. The claims of groups name no empty model
-- id, and the provider keys are not empty and have no slash. No prune or roll-up was run with a cutoff
-- after today.
pub get_today_count-served :
    (g : GroupState) (today : ℕ) (ids : List ℕ) {c : Calendar} (s : UsageState)
    → UsageReach c no_usage s
    → IsNamed g
    → is_empty ids ≡ false
    → s.horizon ≤ today
    → get_today_count g today ids s.tracker (some s.tables.1) + dropped_today g today ids s
      ≡ served_today g today ids s
        + tally (λ k. counts_today g today ids (day_key k)) (unsubtracted s.phase)
get_today_count-served g today ids s r h full recent = omega (
  arith,
  get_today_count_of_some g today ids s s h full,
  UsageReach-daily (counts_today g today ids) r (counts_today-IsRecent g today ids s recent),
)

UsageReach-IsRecent :
    (p : HourKey → Bool) {c : Calendar} {s t : UsageState}
    → UsageReach c s t
    → IsRecent p t
    → IsRecent p s
UsageReach-IsRecent p at_once recent = recent
UsageReach-IsRecent p (after r q) recent = UsageReach-IsRecent p r (IsRecent-earlier p q recent)

UsageReach-sum_rows :
    (p : DayKey → Bool) {c : Calendar} {s t : UsageState}
    → UsageReach c s t
    → IsRecent (λ k. p k.day) t
    → sum_rows p s.tables.1 ≤ sum_rows p t.tables.1
UsageReach-sum_rows p at_once recent = omega arith
UsageReach-sum_rows p (after r q) recent = omega (
  arith,
  UsageStep-daily p q recent,
  UsageReach-sum_rows p r (IsRecent-earlier (λ k. p k.day) q recent),
)

-- A `get_today_count` that reads the buffer at one reached state and the table at any later one never
-- comes out below the requests that were served when it read the buffer, less what was dropped by then:
-- a flush between the two reads cannot hide a request from the day's limit. The claims of groups name no
-- empty model id, the provider keys are not empty and have no slash, and no prune or roll-up was run
-- with a cutoff after today.
pub get_today_count-misses_none :
    (g : GroupState) (today : ℕ) (ids : List ℕ) {c : Calendar} (s t : UsageState)
    → UsageReach c no_usage s
    → UsageReach c s t
    → IsNamed g
    → is_empty ids ≡ false
    → t.horizon ≤ today
    → served_today g today ids s
      ≤ get_today_count g today ids s.tracker (some t.tables.1) + dropped_today g today ids s
get_today_count-misses_none g today ids s t r later h full recent =
    let test : DayKey → Bool = counts_today g today ids in
    let at_end = counts_today-IsRecent g today ids t recent in
    omega (
      arith,
      get_today_count_of_some g today ids s t h full,
      UsageReach-daily test r (UsageReach-IsRecent (λ k. test k.day) later at_end),
      UsageReach-sum_rows test later at_end,
    )
