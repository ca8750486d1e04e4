-- ===== src/Limits/Slots/Caps.antt =====
-- No user ever has more calls in progress than the profile allows, and a slot that is given back can
-- be taken again.
use llm_proxy_server.Prelude.{
  ℕ, ◌+◌, ◌≤◌, ◌≡◌, ◌↔◌, refl, none, some, [], lookup, lookup-insert, arith, Option-cases, inl, inr,
  ℕ-Keyed,
}
use llm_proxy_server.Profiles.{ProfileRegistry}
use llm_proxy_server.Limits.Slots.{
  concurrency_limit_for, inflight_for, try_acquire_slot, Server, open_call, took, denied, take_slot,
  release_holder, Step, opens, takes, releases, Reach, here, next,
}
use llm_proxy_server.Limits.Slots.Counts.{
  holding, Reach-IsCounted, inflight_for-insert, inflight_for-release_slot, take_slot-took,
}

-- The user's count is within a cap of `limit`, if that is the user's cap.
abbrev IsWithin : ProfileRegistry → ℕ → ℕ → Server → Type 0
IsWithin p u limit s = concurrency_limit_for p u ≡ some limit → inflight_for s.inflight u ≤ limit

take_slot-IsWithin :
    (p : ProfileRegistry) (u limit call v : ℕ) (s t : Server)
    → take_slot p call v s ≡ took t
    → IsWithin p u limit s
    → IsWithin p u limit t
take_slot-IsWithin p u limit call v s t h c =
    let r = take_slot-took p call v s t h in
    ground (arith, r, c, inflight_for-insert v u (inflight_for s.inflight v + 1) s.inflight)

release_holder-IsWithin :
    (p : ProfileRegistry) (u limit call : ℕ) (s : Server)
    → IsWithin p u limit s
    → IsWithin p u limit (release_holder call s)
unfolding release_holder
release_holder-IsWithin p u limit call s c = elim (Option-cases (lookup call s.holders)) [
  | inl e ↦ ground (arith, e)
  | inr (none, e) ↦ ground (arith, e)
  | inr (some v, e) ↦ ground (arith, e, c, inflight_for-release_slot v u s.inflight)
]

Step-IsWithin :
    (p : ProfileRegistry) (u limit : ℕ) (s t : Server)
    → Step p s t
    → IsWithin p u limit s
    → IsWithin p u limit t
unfolding open_call
Step-IsWithin p u limit s t (opens call _ fresh) c = c
Step-IsWithin p u limit s t (takes call v _ _ h) c = take_slot-IsWithin p u limit call v s t h c
Step-IsWithin p u limit s t (releases call _) c = release_holder-IsWithin p u limit call s c

Reach-IsWithin :
    (p : ProfileRegistry) (u limit : ℕ) (s t : Server)
    → Reach p s t
    → IsWithin p u limit s
    → IsWithin p u limit t
Reach-IsWithin p u limit s _ here c = c
Reach-IsWithin p u limit s t (next {t = m} r q) c =
    Step-IsWithin p u limit m t q (Reach-IsWithin p u limit s m r c)

-- A server that has just started.
abbrev pub started : Server
started = record { inflight = []; holders = [] }

-- From the start, while the profiles stay as they are, and whatever the order in which calls are
-- opened, take a slot and release it, the calls that hold a slot of a user whose profile has a cap
-- are never more than the cap.
pub Reach-cap :
    (p : ProfileRegistry) (u limit : ℕ) (s : Server)
    → Reach p started s
    → concurrency_limit_for p u ≡ some limit
    → holding u s.holders ≤ limit
unfolding inflight_for lookup
Reach-cap p u limit s r e = ground (
  arith,
  Reach-IsCounted p u started s r refl,
  Reach-IsWithin p u limit started s r (λ f. omega arith) e,
)

-- In a state reached from the start, a call that holds no slot yet and asks for one of a user whose
-- profile has a cap is denied exactly when as many calls as the cap hold a slot of the user.
pub take_slot-denied :
    (p : ProfileRegistry) (call u limit : ℕ) (s : Server)
    → Reach p started s
    → concurrency_limit_for p u ≡ some limit
    → lookup call s.holders ≡ some none
    → (take_slot p call u s ≡ denied) ↔ (holding u s.holders ≡ limit)
unfolding take_slot try_acquire_slot inflight_for
take_slot-denied p call u limit s r e h =
    ground (arith, Reach-cap p u limit s r e, Reach-IsCounted p u started s r refl, e, h)

-- A call that took a slot and gives it back leaves the count of every user, and what the holder of
-- every call has, as they were before.
pub release_holder-take_slot :
    (p : ProfileRegistry) (call v : ℕ) (s t : Server)
    → take_slot p call v s ≡ took t
    → (u other : ℕ)
    → (inflight_for (release_holder call t).inflight u ≡ inflight_for s.inflight u)
      × (lookup other (release_holder call t).holders ≡ lookup other s.holders)
unfolding release_holder
release_holder-take_slot p call v s t h u other =
    let r = take_slot-took p call v s t h in
    ground (
      arith,
      r,
      lookup-insert call call (some v) s.holders,
      lookup-insert call other (some v) s.holders,
      lookup-insert call other none t.holders,
      inflight_for-insert v u (inflight_for s.inflight v + 1) s.inflight,
      inflight_for-release_slot v u t.inflight,
    )
