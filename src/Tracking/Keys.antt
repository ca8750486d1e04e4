-- ===== src/Tracking/Keys.antt =====
-- The key that a request is counted under in `RequestTracker` of app/request_tracker.py, and the keys
-- of the usage tables.
use llm_proxy_server.Prelude.{
  ℕ, Bool, true, not, ◌&&◌, ◌||◌, Option, none, some, String, str_eq, str_eq_iff, nat_eq, Keyed,
  ◌≡◌, ◌↔◌, arith, if◌then◌else◌,
}
use llm_proxy_server.Byok.{is_byok_model}
use llm_proxy_server.Limits.Tracker.{Tracker}
use llm_proxy_server.Limits.Status.{pool_id_for_user}

-- (date, hour, user_id, user_identity, user_type, model, server, pool_id)
pub record UsageKey : Type 0 where
  pub date : ℕ
  pub hour : ℕ
  pub user_id : ℕ
  pub user_identity : String
  pub user_type : String
  pub model : String
  pub server : String
  pub pool_id : ℕ

-- `USAGE_DAILY_KEY`
pub record DayKey : Type 0 where
  pub date : ℕ
  pub user_id : ℕ
  pub model : String
  pub server : String
  pub pool_id : ℕ

-- `USAGE_HOURLY_KEY`; its day's key is the rest of it.
pub record HourKey : Type 0 where
  pub hour : ℕ
  pub day : DayKey

abbrev day_key_eq : DayKey → DayKey → Bool
day_key_eq a b =
    nat_eq a.date b.date
    && nat_eq a.user_id b.user_id
    && str_eq a.model b.model
    && str_eq a.server b.server
    && nat_eq a.pool_id b.pool_id

abbrev hour_key_eq : HourKey → HourKey → Bool
hour_key_eq a b = nat_eq a.hour b.hour && day_key_eq a.day b.day

abbrev pub hour_key : UsageKey → HourKey
hour_key k = record {
  hour = k.hour;
  day = record {
    date = k.date;
    user_id = k.user_id;
    model = k.model;
    server = k.server;
    pool_id = k.pool_id;
  };
}

abbrev pub day_key : UsageKey → DayKey
day_key k = (hour_key k).day

abbrev usage_key_eq : UsageKey → UsageKey → Bool
usage_key_eq a b =
    hour_key_eq (hour_key a) (hour_key b)
    && str_eq a.user_identity b.user_identity
    && str_eq a.user_type b.user_type

pub day_key_eq_iff : (a b : DayKey) → (day_key_eq a b ≡ true) ↔ (a ≡ b)
day_key_eq_iff a b = ground (arith, str_eq_iff a.model b.model, str_eq_iff a.server b.server)

instance abbrev pub DayKey-Keyed : Keyed DayKey
DayKey-Keyed = record { same = day_key_eq; same_iff = day_key_eq_iff }

pub hour_key_eq_iff : (a b : HourKey) → (hour_key_eq a b ≡ true) ↔ (a ≡ b)
hour_key_eq_iff a b = ground (arith, day_key_eq_iff a.day b.day)

instance abbrev pub HourKey-Keyed : Keyed HourKey
HourKey-Keyed = record { same = hour_key_eq; same_iff = hour_key_eq_iff }

pub usage_key_eq_iff : (a b : UsageKey) → (usage_key_eq a b ≡ true) ↔ (a ≡ b)
usage_key_eq_iff a b = ground (
  arith,
  str_eq_iff a.model b.model,
  str_eq_iff a.server b.server,
  str_eq_iff a.user_identity b.user_identity,
  str_eq_iff a.user_type b.user_type,
)

instance abbrev pub UsageKey-Keyed : Keyed UsageKey
UsageKey-Keyed = record { same = usage_key_eq; same_iff = usage_key_eq_iff }

-- `ActiveRequest`; a time is in seconds.
pub record ActiveRequest : Type 0 where
  pub request_id : String
  pub server : String
  pub endpoint : String
  pub method : String
  pub model : Option String
  pub user_identity : String
  pub user_type : String
  pub is_streaming : Bool
  pub start_time : ℕ
  pub status : String
  pub user_id : Option ℕ

-- `status in _COUNTED_STATUSES`
unfoldable pub is_counted_status : String → Bool
is_counted_status status = str_eq status "completed" || str_eq status "cancelled"

-- The pool a request is stamped with: none for one that the sender's own BYOK instance served.
unfoldable pub stamped_pool : Tracker → String → ℕ → ℕ
unfolding is_byok_model pool_id_for_user
stamped_pool limits model user_id =
    if is_byok_model (some model) then 0 else pool_id_for_user limits user_id

-- The key that `end_request` counts a request under, if it counts it.
unfoldable pub usage_key : Tracker → ℕ → ℕ → ActiveRequest → String → Option UsageKey
unfolding is_counted_status stamped_pool
usage_key limits date hour entry status = elim entry.model [
  | none ↦ none
  | some model ↦ elim entry.user_id [
    | none ↦ none
    | some user_id ↦
        if not (str_eq model "")
          && not (str_eq entry.user_type "unknown")
          && is_counted_status status
        then some (record {
          date = date;
          hour = hour;
          user_id = user_id;
          user_identity = entry.user_identity;
          user_type = entry.user_type;
          model = model;
          server = entry.server;
          pool_id = stamped_pool limits model user_id;
        })
        else none
  ]
]
