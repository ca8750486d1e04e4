-- ===== src/Tracking/Runs/Steady.antt =====
-- Between the steps of a flush the buffer holds at least what the snapshot holds.
use llm_proxy_server.Prelude.{
  ℕ, ◌≤◌, ◌≡◌, refl, subst, Option, none, some, [], String, Dict, lookup, arith, count_at, IsDict,
  lookup-bump, bump-IsDict, pop_all-IsDict, stale_keys, Option-cases, inl, inr, String-Keyed,
  Pair-Keyed,
}
use llm_proxy_server.Limits.Tracker.{Tracker}
use llm_proxy_server.Tracking.Keys.{UsageKey, ActiveRequest, UsageKey-Keyed}
use llm_proxy_server.Tracking.Buffer.{
  RequestTracker, user_axis, on_axis, buffer_one, change_entry, start_request, end_request,
  update_identity, update_streaming, update_model, rename_identity, drop_buffered_usage,
  forget_user, is_stale_label,
}
use llm_proxy_server.Tracking.Buffer.Relabel.{relabel_all-IsDict}
use llm_proxy_server.Tracking.Flush.Sums.{IsWithin, subtract-IsDict}
use llm_proxy_server.Tracking.Retention.{Calendar}
use llm_proxy_server.Tracking.Runs.{
  FlushPhase, idle, writing, written, UsageState, ending_key, Change, starts, identifies, streams,
  resolves, UsageStep, changes, ends, renames, drops, forgets, snapshots, fails, writes, subtracts,
  prunes, fails_to_prune, rolls_up, rests, subtracted, pruned,
}

change_entry-buffer :
    (f : ActiveRequest → ActiveRequest) (id : String) (t : RequestTracker)
    → (change_entry f id t).usage_buffer ≡ t.usage_buffer
unfolding change_entry
change_entry-buffer f id t = elim (Option-cases (lookup id t.active)) [
  | inl e ↦ rw (e, change_entry) refl
  | inr (entry, e) ↦ rw (e, change_entry) refl
]

pub Change-buffer : {t u : RequestTracker} → Change t u → u.usage_buffer ≡ t.usage_buffer
unfolding start_request update_identity update_streaming update_model
Change-buffer (starts t id server endpoint method model identity type streaming now) = refl
Change-buffer (identifies t id identity type user_id) = change_entry-buffer _ id t
Change-buffer (streams t id streaming) = change_entry-buffer _ id t
Change-buffer (resolves t id model) =
    ground (arith, change_entry-buffer (λ entry. record entry { model = some model }) id t)

pub end_request-buffer :
    (limits : Tracker) (date hour : ℕ) (id status : String) (t : RequestTracker)
    → (end_request limits date hour id status t).0.usage_buffer
      ≡ buffer_one (ending_key limits date hour id status t) t.usage_buffer
unfolding end_request ending_key
end_request-buffer limits date hour id status t = elim (Option-cases (lookup id t.active)) [
  | inl e ↦ rw (e, end_request, ending_key) refl
  | inr (entry, e) ↦ rw (e, end_request, ending_key) refl
]

-- The snapshot of the flush that runs.
abbrev pub snapshot_of_phase : FlushPhase → Dict UsageKey ℕ
snapshot_of_phase idle = []
snapshot_of_phase (writing snapshot) = snapshot
snapshot_of_phase (written snapshot) = snapshot
snapshot_of_phase subtracted = []
snapshot_of_phase pruned = []

pub record IsSteady (s : UsageState) : Type 0 where
  pub buffer : IsDict s.tracker.usage_buffer
  pub snapshot : IsDict (snapshot_of_phase s.phase)
  pub within : IsWithin (snapshot_of_phase s.phase) s.tracker.usage_buffer

buffer_one-IsDict : (o : Option UsageKey) (d : Dict UsageKey ℕ) → IsDict d → IsDict (buffer_one o d)
unfolding buffer_one
buffer_one-IsDict none d h = h
buffer_one-IsDict (some k) d h = bump-IsDict k 1 d h

buffer_one-le :
    (o : Option UsageKey) (k : UsageKey) (d : Dict UsageKey ℕ)
    → count_at k d ≤ count_at k (buffer_one o d)
unfolding buffer_one
buffer_one-le none k d = omega arith
buffer_one-le (some j) k d = ground (arith, lookup-bump j k 1 d, UsageKey-Keyed.same_iff j k)

idle-IsSteady :
    (s : UsageState) (d : Dict UsageKey ℕ)
    → s.phase ≡ idle
    → IsDict d
    → (IsDict (snapshot_of_phase s.phase) × IsWithin (snapshot_of_phase s.phase) d)
unfolding lookup
idle-IsSteady s d e h = rw e (tt, λ k. omega arith)

pub UsageStep-IsSteady :
    {c : Calendar} {s t : UsageState} → UsageStep c s t → IsSteady s → IsSteady t
unfolding rename_identity drop_buffered_usage forget_user lookup
UsageStep-IsSteady (changes s t c) h = record {
  buffer = rw (Change-buffer c) h.buffer;
  snapshot = h.snapshot;
  within = rw (Change-buffer c) h.within;
}
UsageStep-IsSteady (ends s limits date hour id status) h =
    let key = ending_key limits date hour id status s.tracker in
    record {
      buffer =
          rw (end_request-buffer limits date hour id status s.tracker)
            (buffer_one-IsDict key s.tracker.usage_buffer h.buffer);
      snapshot = h.snapshot;
      within = λ k.
          rw (end_request-buffer limits date hour id status s.tracker)
            (omega (arith, h.within k, buffer_one-le key k s.tracker.usage_buffer));
    }
UsageStep-IsSteady (renames s user_id new e) h =
    let b =
      relabel_all-IsDict new (stale_keys (is_stale_label user_id new) s.tracker.usage_buffer)
        s.tracker.usage_buffer h.buffer in
    let r = idle-IsSteady s (rename_identity user_id new s.tracker).usage_buffer e b in
    record { buffer = b; snapshot = r.0; within = r.1 }
UsageStep-IsSteady (drops s axis e) h =
    let b =
      pop_all-IsDict (stale_keys (on_axis axis) s.tracker.usage_buffer) s.tracker.usage_buffer
        h.buffer in
    let r = idle-IsSteady s (drop_buffered_usage axis s.tracker).0.usage_buffer e b in
    record { buffer = b; snapshot = r.0; within = r.1 }
UsageStep-IsSteady (forgets s user_id e) h =
    let b =
      pop_all-IsDict (stale_keys (on_axis (user_axis user_id)) s.tracker.usage_buffer)
        s.tracker.usage_buffer h.buffer in
    let r = idle-IsSteady s (forget_user user_id s.tracker).0.usage_buffer e b in
    record { buffer = b; snapshot = r.0; within = r.1 }
UsageStep-IsSteady (snapshots s e full) h = record {
  buffer = h.buffer;
  snapshot = h.buffer;
  within = λ k. omega arith;
}
UsageStep-IsSteady (fails s snapshot e) h = record {
  buffer = h.buffer;
  snapshot = tt;
  within = λ k. omega arith;
}
UsageStep-IsSteady (writes s snapshot e) h = record {
  buffer = h.buffer;
  snapshot = subst (λ f. IsDict (snapshot_of_phase f)) e h.snapshot;
  within = subst (λ f. IsWithin (snapshot_of_phase f) s.tracker.usage_buffer) e h.within;
}
UsageStep-IsSteady (subtracts s snapshot e) h = record {
  buffer = subtract-IsDict snapshot s.tracker.usage_buffer h.buffer;
  snapshot = tt;
  within = λ k. omega arith;
}
UsageStep-IsSteady (prunes s today e) h = record {
  buffer = h.buffer;
  snapshot = tt;
  within = λ k. omega arith;
}
UsageStep-IsSteady (fails_to_prune s e) h = record {
  buffer = h.buffer;
  snapshot = tt;
  within = λ k. omega arith;
}
UsageStep-IsSteady (rolls_up s today date e) h = record {
  buffer = h.buffer;
  snapshot = h.snapshot;
  within = h.within;
}
UsageStep-IsSteady (rests s e) h = record {
  buffer = h.buffer;
  snapshot = tt;
  within = λ k. omega arith;
}
