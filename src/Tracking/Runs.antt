-- ===== src/Tracking/Runs.antt =====
-- Runs of `RequestTracker` of app/request_tracker.py. A flush is three steps, the snapshot, the write
-- and the subtraction, and requests start, change and end between them; what takes `_flush_mutex`
-- waits for the flush to be over. Behind the subtraction come a prune of the hourly table and, month by
-- month, a roll-up of the daily one, each of which may fail or be not due.
pub mod Steady
pub mod Conserved
pub mod Archived
pub mod Detached
pub mod Forgotten
use llm_proxy_server.Prelude.{
  ℕ, ◌≡◌, Bool, false, Option, none, some, List, [], ◌∷◌, ◌++◌, String, Dict, lookup, is_empty,
  picked, String-Keyed, if◌then◌else◌, ltb, ◌-◌,
}
use llm_proxy_server.Limits.Tracker.{Tracker}
use llm_proxy_server.Tracking.Keys.{UsageKey, HourKey, hour_key, ActiveRequest, usage_key}
use llm_proxy_server.Tracking.Buffer.{
  RequestTracker, Axis, user_axis, on_axis, start_request, end_request, update_identity,
  update_streaming, update_model, rename_identity, drop_buffered_usage, forget_user,
}
use llm_proxy_server.Tracking.Flush.{
  HourlyTable, DailyTable, hourly_rows, daily_rows, flush_usage_rows, subtract,
}
use llm_proxy_server.Tracking.Retention.{Calendar, MonthlyTable, prune_hourly_usage, roll_up}

-- The flush that holds the mutex: none, one whose snapshot is not written yet, one whose write
-- committed, one that has subtracted its snapshot, or one that has pruned the hourly table.
pub data FlushPhase : Type 0 where
  idle : FlushPhase
  writing : Dict UsageKey ℕ → FlushPhase
  written : Dict UsageKey ℕ → FlushPhase
  subtracted pruned : FlushPhase

-- The tracker, the hourly and the daily table, the monthly one, and the history: the requests that were
-- counted, the counts that were dropped, and the latest date before which the upkeep may have taken rows.
pub record UsageState : Type 0 where
  pub tracker : RequestTracker
  pub tables : HourlyTable × DailyTable
  pub phase : FlushPhase
  pub served : List HourKey
  pub dropped : Dict UsageKey ℕ
  pub monthly : MonthlyTable
  pub horizon : ℕ

abbrev pub no_usage : UsageState
no_usage = record {
  tracker = record { active = []; usage_buffer = [] };
  tables = ([], []);
  phase = idle;
  served = [];
  dropped = [];
  monthly = [];
  horizon = 0;
}

abbrev pub later : ℕ → ℕ → ℕ
later a b = if ltb a b then b else a

-- The snapshot that the tables hold and the buffer still holds.
abbrev pub unsubtracted : FlushPhase → Dict UsageKey ℕ
unsubtracted idle = []
unsubtracted (writing snapshot) = []
unsubtracted (written snapshot) = snapshot
unsubtracted subtracted = []
unsubtracted pruned = []

-- The key of a request that ends now.
unfoldable pub ending_key : Tracker → ℕ → ℕ → String → String → RequestTracker → Option UsageKey
unfolding lookup usage_key
ending_key limits date hour request_id status t = elim (lookup request_id t.active) [
  | none ↦ none
  | some entry ↦ usage_key limits date hour entry status
]

abbrev pub serve : Option UsageKey → List HourKey → List HourKey
serve none served = served
serve (some k) served = hour_key k ∷ served

-- A change of one request in flight.
pub data Change : RequestTracker → RequestTracker → Type 0 where
  starts :
      (t : RequestTracker) (request_id server endpoint method : String) (model : Option String)
      (user_identity user_type : String) (is_streaming : Bool) (now : ℕ)
      → Change t (
          start_request t request_id server endpoint method model user_identity user_type
            is_streaming now)
  identifies :
      (t : RequestTracker) (request_id user_identity user_type : String) (user_id : Option ℕ)
      → Change t (update_identity request_id user_identity user_type user_id t)
  streams :
      (t : RequestTracker) (request_id : String) (is_streaming : Bool)
      → Change t (update_streaming request_id is_streaming t)
  resolves :
      (t : RequestTracker) (request_id model : String) → Change t (update_model request_id model t)

pub data UsageStep (c : Calendar) : UsageState → UsageState → Type 0 where
  changes :
      (s : UsageState) (t : RequestTracker)
      → Change s.tracker t
      → UsageStep c s (record s { tracker = t })
  ends :
      (s : UsageState) (limits : Tracker) (date hour : ℕ) (request_id status : String)
      → UsageStep c s (record s {
        tracker = (end_request limits date hour request_id status s.tracker).0;
        served = serve (ending_key limits date hour request_id status s.tracker) s.served;
      })
  renames :
      (s : UsageState) (user_id : ℕ) (new : String)
      → s.phase ≡ idle
      → UsageStep c s (record s { tracker = rename_identity user_id new s.tracker })
  drops :
      (s : UsageState) (axis : Axis)
      → s.phase ≡ idle
      → UsageStep c s (record s {
        tracker = (drop_buffered_usage axis s.tracker).0;
        dropped = picked (on_axis axis) s.tracker.usage_buffer ++ s.dropped;
      })
  forgets :
      (s : UsageState) (user_id : ℕ)
      → s.phase ≡ idle
      → UsageStep c s (record s {
        tracker = (forget_user user_id s.tracker).0;
        dropped = picked (on_axis (user_axis user_id)) s.tracker.usage_buffer ++ s.dropped;
      })
  snapshots :
      (s : UsageState)
      → s.phase ≡ idle
      → is_empty s.tracker.usage_buffer ≡ false
      → UsageStep c s (record s { phase = writing s.tracker.usage_buffer })
  fails :
      (s : UsageState) (snapshot : Dict UsageKey ℕ)
      → s.phase ≡ writing snapshot
      → UsageStep c s (record s { phase = idle })
  writes :
      (s : UsageState) (snapshot : Dict UsageKey ℕ)
      → s.phase ≡ writing snapshot
      → UsageStep c s (record s {
        tables = flush_usage_rows (hourly_rows snapshot) (daily_rows snapshot) s.tables;
        phase = written snapshot;
      })
  subtracts :
      (s : UsageState) (snapshot : Dict UsageKey ℕ)
      → s.phase ≡ written snapshot
      → UsageStep c s (record s {
        tracker = record {
          active = s.tracker.active;
          usage_buffer = subtract snapshot s.tracker.usage_buffer;
        };
        phase = subtracted;
      })
  prunes :
      (s : UsageState) (today : ℕ)
      → s.phase ≡ subtracted
      → UsageStep c s (record s {
        tables = (prune_hourly_usage today s.tables.0, s.tables.1);
        phase = pruned;
        horizon = later s.horizon (today - 1);
      })
  fails_to_prune :
      (s : UsageState) → s.phase ≡ subtracted → UsageStep c s (record s { phase = idle })
  rolls_up :
      (s : UsageState) (today date : ℕ)
      → s.phase ≡ pruned
      → UsageStep c s (record s {
        tables = (s.tables.0, (roll_up c today date (s.tables.1, s.monthly)).0);
        monthly = (roll_up c today date (s.tables.1, s.monthly)).1;
        horizon = later s.horizon (today - 30);
      })
  rests : (s : UsageState) → s.phase ≡ pruned → UsageStep c s (record s { phase = idle })

-- The states that steps reach.
pub data UsageReach (c : Calendar) : UsageState → UsageState → Type 0 where
  at_once : {s : UsageState} → UsageReach c s s
  after : {s t u : UsageState} → UsageReach c s t → UsageStep c t u → UsageReach c s u
