-- ===== src/Limits/GroupChecks/Runs.antt =====
-- Runs of group checks and of the upkeep, in any order.
use llm_proxy_server.Prelude.{
  ℕ, ◌+◌, ◌≡◌, ◌≤◌, refl, ◌∙◌, ap, sym, subst, some, List, [], ◌∷◌, String, lookup, ℕ-Keyed,
  Pair-Keyed, arith, All, is_some,
}
use llm_proxy_server.Limits.Groups.{group_for, group_limits_for}
use llm_proxy_server.Limits.Tracker.{Tracker, World, pool_scope_key}
use llm_proxy_server.Limits.Decision.{window_of}
use llm_proxy_server.Limits.GroupChecks.{check_group_limit}
use llm_proxy_server.Limits.Upkeep.{evict_stale_buckets}
use llm_proxy_server.Limits.Upkeep.Kept.{group_used, evict_stale_buckets-keeps}
use llm_proxy_server.Limits.GroupChecks.Rate.{Same, charged}
use llm_proxy_server.Limits.GroupChecks.Cases.{IsLimited, check_group_limit-IsStepped}

-- A request for a model, in the world it finds, or a run of the eviction.
pub data Event : Type 0 where
  request : World → ℕ → String → String → Event
  evict : ℕ → Event

abbrev pub run_event : Event → Tracker → Tracker
run_event (request w u name m) t = (check_group_limit w u name m t).1
run_event (evict now) t = evict_stale_buckets now t

-- 1 if the event is a request of the user, on the group, that is let through.
abbrev pub allowed_by : ℕ → ℕ → Event → Tracker → ℕ
allowed_by v gid (request w u name m) t =
    charged (u, group_for t.groups (some m)) (v, gid) (check_group_limit w u name m t).0
allowed_by v gid (evict now) t = 0

-- How many requests of a user on a group a run lets through.
unfoldable pub group_allowed_of : ℕ → ℕ → List Event → Tracker → ℕ
unfolding check_group_limit
group_allowed_of v gid [] t = 0
group_allowed_of v gid (e ∷ es) t = allowed_by v gid e t + group_allowed_of v gid es (run_event e t)

-- The event is in the window, or is an eviction in the window or the one after.
abbrev pub IsWithin : ℕ → Event → Type 0
IsWithin window (request w u name m) = window_of w.now ≡ window
IsWithin window (evict now) = window_of now ≤ window + 1

run_event-IsLimited :
    (v gid limit : ℕ) (s t : Tracker) → Same s t → IsLimited v gid limit t → IsLimited v gid limit s
run_event-IsLimited v gid limit s t same h = record {
  named = h.named;
  keyed = rw same.1 h.keyed;
  known = ap (λ g. is_some (lookup gid g.groups)) same.1 ∙ h.known;
  limited = ap (λ p. (group_limits_for p v gid).0) same.0 ∙ h.limited;
}

evict-Same : (now : ℕ) (t : Tracker) → Same (evict_stale_buckets now t) t
unfolding evict_stale_buckets
evict-Same now t = (refl, refl)

-- Of the requests that come within one minute window, in any order and with evictions in between, no
-- more of a user on a named group are let through than the group's limit per minute for the user
-- leaves open, where the group has a snapshot and each snapshot has the id it is kept under.
pub group_allowed_of-rpm :
    (v gid limit window : ℕ) (es : List Event) (t : Tracker)
    → IsLimited v gid limit t
    → All (IsWithin window) es
    → group_used t v gid window ≤ limit
    → group_allowed_of v gid es t + group_used t v gid window ≤ limit
unfolding group_allowed_of
group_allowed_of-rpm v gid limit window [] t h inside le = omega arith
group_allowed_of-rpm v gid limit window (evict now ∷ es) t h inside le =
    let s = evict_stale_buckets now t in
    let same =
      (evict_stale_buckets-keeps now window now t v gid (pool_scope_key 0) inside.0
        (omega arith)).1 in
    let rest =
      group_allowed_of-rpm v gid limit window es s
        (run_event-IsLimited v gid limit s t (evict-Same now t) h) inside.1 (omega (arith, same)) in
    omega (arith, rest, same)
group_allowed_of-rpm v gid limit window (request w u name m ∷ es) t h inside le =
    let r = check_group_limit w u name m t in
    let s = check_group_limit-IsStepped w u v gid limit name m t h in
    let below =
      subst (λ n. group_used r.1 v gid n ≤ limit) inside.0
        (s.1 (subst (λ n. group_used t v gid n ≤ limit) (sym inside.0) le)) in
    let counted =
      subst
        (λ n.
          group_used r.1 v gid n
          ≡ group_used t v gid n + charged (u, group_for t.groups (some m)) (v, gid) r.0)
        inside.0 s.0 in
    let rest =
      group_allowed_of-rpm v gid limit window es r.1 (run_event-IsLimited v gid limit r.1 t s.2 h)
        inside.1 below in
    omega (arith, rest, counted)
