-- ===== src/Tracking/Buffer.antt =====
-- `RequestTracker` of app/request_tracker.py: the requests in flight and the buffer of counts. What a
-- method broadcasts to the subscribers is left out, but for the name of the last event.
pub mod Active
pub mod Relabel
use llm_proxy_server.Prelude.{
  ℕ, Bool, true, false, not, ◌&&◌, ◌||◌, Option, none, some, List, [], ◌∷◌, String, Dict, lookup,
  insert, erase, map, nat_eq, str_eq, if◌then◌else◌, ℕ-Keyed, String-Keyed, bump, pop_all,
  stale_keys, count_at,
}
use llm_proxy_server.Limits.Tracker.{Tracker}
use llm_proxy_server.Tracking.Keys.{UsageKey, ActiveRequest, usage_key, UsageKey-Keyed}

-- `_active` and `_usage_buffer`
pub record RequestTracker : Type 0 where
  pub active : Dict String ActiveRequest
  pub usage_buffer : Dict UsageKey ℕ

unfoldable pub start_request :
    RequestTracker
    → (request_id server endpoint method : String) (model : Option String)
      (user_identity user_type : String) (is_streaming : Bool) (now : ℕ)
    → RequestTracker
unfolding insert
start_request t request_id server endpoint method model user_identity user_type is_streaming now =
    let entry : ActiveRequest = record {
      request_id = request_id;
      server = server;
      endpoint = endpoint;
      method = method;
      model = model;
      user_identity = user_identity;
      user_type = user_type;
      is_streaming = is_streaming;
      start_time = now;
      status = "in_progress";
      user_id = none;
    } in
    record { active = insert request_id entry t.active; usage_buffer = t.usage_buffer }

-- `self._usage_buffer[key] += 1`, for a request that counts.
unfoldable pub buffer_one : Option UsageKey → Dict UsageKey ℕ → Dict UsageKey ℕ
unfolding bump
buffer_one none buffer = buffer
buffer_one (some key) buffer = bump key 1 buffer

abbrev pub event_type_of : String → String
event_type_of status =
    if str_eq status "completed"
    then "request_completed"
    else if str_eq status "cancelled"
    then "request_cancelled"
    else "request_errored"

-- The tracker, and the type of the event that is broadcast.
unfoldable pub end_request :
    Tracker
    → (date hour : ℕ) (request_id status : String) → RequestTracker
    → RequestTracker × Option String
unfolding erase lookup usage_key buffer_one
end_request limits date hour request_id status t = elim (lookup request_id t.active) [
  | none ↦ (t, none)
  | some entry ↦ (
    record {
      active = erase request_id t.active;
      usage_buffer = buffer_one (usage_key limits date hour entry status) t.usage_buffer;
    },
    some (event_type_of status),
  )
]

-- An entry of `_active` that is found is changed in place.
unfoldable pub change_entry :
    (ActiveRequest → ActiveRequest) → String → RequestTracker → RequestTracker
unfolding insert lookup
change_entry f request_id t = elim (lookup request_id t.active) [
  | none ↦ t
  | some entry ↦ record {
    active = insert request_id (f entry) t.active;
    usage_buffer = t.usage_buffer;
  }
]

unfoldable pub update_identity :
    (request_id user_identity user_type : String) → Option ℕ → RequestTracker → RequestTracker
unfolding change_entry
update_identity request_id user_identity user_type user_id t =
    change_entry
      (λ entry. record entry {
        user_identity = user_identity;
        user_type = user_type;
        user_id = user_id;
      })
      request_id t

unfoldable pub update_streaming : String → Bool → RequestTracker → RequestTracker
unfolding change_entry
update_streaming request_id is_streaming t =
    change_entry (λ entry. record entry { is_streaming = is_streaming }) request_id t

unfoldable pub update_model : String → String → RequestTracker → RequestTracker
unfolding change_entry
update_model request_id model t =
    if str_eq model ""
    then t
    else change_entry (λ entry. record entry { model = some model }) request_id t

-- `entry.user_id == user_id`
abbrev pub is_of_user : ℕ → ActiveRequest → Bool
is_of_user user_id entry = elim entry.user_id [ none ↦ false | some uid ↦ nat_eq uid user_id ]

-- `for entry in self._active.values(): if entry.user_id == user_id: ...`
unfoldable pub change_user :
    (ActiveRequest → ActiveRequest) → ℕ → Dict String ActiveRequest → Dict String ActiveRequest
change_user f user_id [] = []
change_user f user_id ((id, entry) ∷ active) =
    (id, if is_of_user user_id entry then f entry else entry) ∷ change_user f user_id active

-- `key[:_K_IDENTITY] + (new,) + key[_K_IDENTITY + 1:]`
abbrev pub relabel : String → UsageKey → UsageKey
relabel new k = record k { user_identity = new }

unfoldable pub relabel_all : String → List UsageKey → Dict UsageKey ℕ → Dict UsageKey ℕ
unfolding bump erase
relabel_all new [] buffer = buffer
relabel_all new (k ∷ ks) buffer =
    relabel_all new ks (bump (relabel new k) (count_at k buffer) (erase k buffer))

abbrev pub is_stale_label : ℕ → String → UsageKey → Bool
is_stale_label user_id new k = nat_eq k.user_id user_id && not (str_eq k.user_identity new)

unfoldable pub rename_identity : ℕ → String → RequestTracker → RequestTracker
unfolding change_user relabel_all
rename_identity user_id new t = record {
  active = change_user (λ entry. record entry { user_identity = new }) user_id t.active;
  usage_buffer =
      relabel_all new (stale_keys (is_stale_label user_id new) t.usage_buffer) t.usage_buffer;
}

-- The axis of a purge with its value.
pub data Axis : Type 0 where
  user_axis : ℕ → Axis
  model_axis : String → Axis
  pool_axis : ℕ → Axis

abbrev pub on_axis : Axis → UsageKey → Bool
on_axis (user_axis user_id) k = nat_eq k.user_id user_id
on_axis (model_axis model) k = str_eq k.model model
on_axis (pool_axis pool_id) k = nat_eq k.pool_id pool_id

-- The tracker, and the number of requests that were dropped.
unfoldable pub drop_buffered_usage : Axis → RequestTracker → RequestTracker × ℕ
unfolding pop_all
drop_buffered_usage axis t =
    let r = pop_all (stale_keys (on_axis axis) t.usage_buffer) t.usage_buffer in
    (record { active = t.active; usage_buffer = r.0 }, r.1)

unfoldable pub forget_user : ℕ → RequestTracker → RequestTracker × ℕ
unfolding change_user pop_all
forget_user user_id t =
    let r = pop_all (stale_keys (on_axis (user_axis user_id)) t.usage_buffer) t.usage_buffer in
    (
      record {
        active = change_user (λ entry. record entry { user_id = none }) user_id t.active;
        usage_buffer = r.0;
      },
      r.1,
    )
