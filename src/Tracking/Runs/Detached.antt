-- ===== src/Tracking/Runs/Detached.antt =====
-- Requests in flight that are not of a user, in app/request_tracker.py: what starts, changes and ends
-- them.
use llm_proxy_server.Prelude.{
  ℕ, ◌≡◌, refl, Bool, false, Option, none, some, String, Dict, lookup, nat_eq, arith, tally,
  tally-bump, Option-cases, Bool-cases, str_eq, inl, inr, String-Keyed,
}
use llm_proxy_server.Limits.Tracker.{Tracker}
use llm_proxy_server.Tracking.Keys.{
  UsageKey, ActiveRequest, usage_key, UsageKey-Keyed, HourKey-Keyed, DayKey-Keyed,
}
use llm_proxy_server.Tracking.Buffer.{
  RequestTracker, user_axis, on_axis, buffer_one, start_request, end_request, change_entry,
  update_identity, update_streaming, update_model, is_of_user,
}
use llm_proxy_server.Tracking.Buffer.Active.{
  EachActive, insert-EachActive, erase-EachActive, lookup-EachActive,
}
use llm_proxy_server.Tracking.Retention.{Calendar}
use llm_proxy_server.Tracking.Runs.{
  UsageState, Change, starts, identifies, streams, resolves, UsageStep, changes, UsageReach,
  at_once, after,
}
use llm_proxy_server.Tracking.Runs.Steady.{snapshot_of_phase}

abbrev pub is_user : Option ℕ → ℕ → Bool
is_user none user_id = false
is_user (some uid) user_id = nat_eq uid user_id

-- The change gives no request to the user.
abbrev pub IsChangeApart : ℕ → {t u : RequestTracker} → Change t u → Type 0
IsChangeApart user_id (identifies t id identity type given) = is_user given user_id ≡ false
IsChangeApart user_id _ = Unit

abbrev pub IsStepApart : ℕ → {c : Calendar} {s t : UsageState} → UsageStep c s t → Type 0
IsStepApart user_id (changes s t c) = IsChangeApart user_id c
IsStepApart user_id _ = Unit

-- No step of the run authenticates a request as the user's.
abbrev pub IsApart : ℕ → {c : Calendar} {s t : UsageState} → UsageReach c s t → Type 0
IsApart user_id at_once = Unit
IsApart user_id (after r q) = IsApart user_id r × IsStepApart user_id q

abbrev pub IsForeign : ℕ → ActiveRequest → Type 0
IsForeign user_id e = is_of_user user_id e ≡ false

pub record IsDetached (user_id : ℕ) (s : UsageState) : Type 0 where
  pub flying : EachActive (IsForeign user_id) s.tracker.active
  pub buffered : tally (on_axis (user_axis user_id)) s.tracker.usage_buffer ≡ 0
  pub flushing : tally (on_axis (user_axis user_id)) (snapshot_of_phase s.phase) ≡ 0

pub change_entry-flying :
    (user_id : ℕ) (f : ActiveRequest → ActiveRequest) (id : String) (t : RequestTracker)
    → ((e : ActiveRequest) → IsForeign user_id e → IsForeign user_id (f e))
    → EachActive (IsForeign user_id) t.active
    → EachActive (IsForeign user_id) (change_entry f id t).active
unfolding change_entry
change_entry-flying user_id f id t keeps h = elim (Option-cases (lookup id t.active)) [
  | inl e ↦ rw (e, change_entry) h
  | inr (entry, e) ↦
      rw (e, change_entry)
        (insert-EachActive (IsForeign user_id) id (f entry) t.active
          (keeps entry (lookup-EachActive (IsForeign user_id) id entry t.active e h)) h)
]

pub Change-flying :
    (user_id : ℕ) {t u : RequestTracker} (c : Change t u)
    → IsChangeApart user_id c
    → EachActive (IsForeign user_id) t.active
    → EachActive (IsForeign user_id) u.active
unfolding start_request update_identity update_streaming update_model
Change-flying user_id (starts t id server endpoint method model identity type streaming now) a h =
    insert-EachActive (IsForeign user_id) id _ t.active refl h
Change-flying user_id (identifies t id identity type given) a h =
    change_entry-flying user_id _ id t (λ e _. ground (arith, a)) h
Change-flying user_id (streams t id streaming) a h = change_entry-flying user_id _ id t (λ e m. m) h
Change-flying user_id (resolves t id model) a h = elim (Bool-cases (str_eq model "")) [
  | inl e ↦ rw (e, update_model) h
  | inr e ↦ rw (e, update_model) (change_entry-flying user_id _ id t (λ e m. m) h)
]

pub usage_key-user :
    (user_id : ℕ) (limits : Tracker) (date hour : ℕ) (e : ActiveRequest) (status : String)
    (k : UsageKey)
    → IsForeign user_id e
    → usage_key limits date hour e status ≡ some k
    → nat_eq k.user_id user_id ≡ false
unfolding usage_key
usage_key-user user_id limits date hour e status k h found = ground (arith, h, found)

pub tally-foreign :
    (user_id : ℕ) (limits : Tracker) (date hour : ℕ) (e : ActiveRequest) (status : String)
    (d : Dict UsageKey ℕ)
    → IsForeign user_id e
    → tally (on_axis (user_axis user_id)) (buffer_one (usage_key limits date hour e status) d)
      ≡ tally (on_axis (user_axis user_id)) d
unfolding buffer_one
tally-foreign user_id limits date hour e status d h =
    elim (Option-cases (usage_key limits date hour e status)) [
      | inl none_here ↦ rw (none_here, buffer_one) refl
      | inr (k, found) ↦
          rw (found, buffer_one)
            (ground (
              arith,
              tally-bump (on_axis (user_axis user_id)) k 1 d,
              usage_key-user user_id limits date hour e status k h found,
            ))
    ]

pub end_request-detached :
    (user_id : ℕ) (limits : Tracker) (date hour : ℕ) (id status : String) (t : RequestTracker)
    → EachActive (IsForeign user_id) t.active
    → let u = (end_request limits date hour id status t).0 in
      EachActive (IsForeign user_id) u.active
      × (tally (on_axis (user_axis user_id)) u.usage_buffer
          ≡ tally (on_axis (user_axis user_id)) t.usage_buffer)
unfolding end_request
end_request-detached user_id limits date hour id status t h =
    elim (Option-cases (lookup id t.active)) [
      | inl e ↦ rw (e, end_request) (h, refl)
      | inr (entry, e) ↦
          rw (e, end_request)
            (
              erase-EachActive (IsForeign user_id) id t.active h,
              tally-foreign user_id limits date hour entry status t.usage_buffer
                  (lookup-EachActive (IsForeign user_id) id entry t.active e h),
            )
    ]
