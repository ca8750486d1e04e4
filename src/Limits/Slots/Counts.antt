-- ===== src/Limits/Slots/Counts.antt =====
-- The count of a user is the number of calls that hold a slot of the user, whatever the order of the
-- steps, and never more than the user's cap.
use llm_proxy_server.Prelude.{
  ℕ, ◌+◌, ◌-◌, ◌≤◌, ◌≡◌, false, Option, none, some, [], ◌∷◌, Dict, lookup, insert, erase, nat_eq,
  lookup-insert, lookup-erase, if◌then◌else◌, arith, Option-cases, Bool-cases, inl, inr, ℕ-Keyed,
}
use llm_proxy_server.Profiles.{ProfileRegistry}
use llm_proxy_server.Limits.Slots.{
  Inflight, concurrency_limit_for, inflight_for, at_cap, try_acquire_slot, release_slot, Server,
  open_call, took, take_slot, release_holder, Step, opens, takes, releases, Reach, here, next,
}

-- 1 if the holder holds a slot of the user.
abbrev pub holds : ℕ → Option (Option ℕ) → ℕ
holds u none = 0
holds u (some none) = 0
holds u (some (some v)) = if nat_eq v u then 1 else 0

abbrev pub holding : ℕ → Dict ℕ (Option ℕ) → ℕ
holding u [] = 0
holding u ((call, h) ∷ hs) = holds u (some h) + holding u hs

pub holding-insert :
    (u call : ℕ) (h : Option ℕ) (hs : Dict ℕ (Option ℕ))
    → holding u (insert call h hs) + holds u (lookup call hs) ≡ holding u hs + holds u (some h)
unfolding insert lookup
holding-insert u call h [] = omega arith
holding-insert u call h ((c, k) ∷ hs) = ground (arith, holding-insert u call h hs)

holds-le_holding : (u call : ℕ) (hs : Dict ℕ (Option ℕ)) → holds u (lookup call hs) ≤ holding u hs
unfolding lookup
holds-le_holding u call [] = omega arith
holds-le_holding u call ((c, k) ∷ hs) = ground (arith, holds-le_holding u call hs)

pub inflight_for-insert :
    (u v n : ℕ) (inflight : Inflight)
    → inflight_for (insert u n inflight) v ≡ (if nat_eq u v then n else inflight_for inflight v)
unfolding inflight_for
inflight_for-insert u v n inflight = ground (arith, lookup-insert u v n inflight)

inflight_for-erase :
    (u v : ℕ) (inflight : Inflight)
    → inflight_for (erase u inflight) v ≡ (if nat_eq u v then 0 else inflight_for inflight v)
unfolding inflight_for
inflight_for-erase u v inflight = ground (arith, lookup-erase u v inflight)

pub inflight_for-release_slot :
    (u v : ℕ) (inflight : Inflight)
    → inflight_for (release_slot inflight u) v
      ≡ (if nat_eq u v then inflight_for inflight v - 1 else inflight_for inflight v)
unfolding release_slot
inflight_for-release_slot u v inflight = ground (
  arith,
  inflight_for-erase u v inflight,
  inflight_for-insert u v (inflight_for inflight u - 1) inflight,
)

-- The user's count is the number of calls that hold one of the user's slots.
abbrev pub IsCounted : ℕ → Server → Type 0
IsCounted u s = inflight_for s.inflight u ≡ holding u s.holders

abbrev pub IsCapped : ProfileRegistry → ℕ → Server → Type 0
IsCapped p u s =
    (limit : ℕ) → concurrency_limit_for p u ≡ some limit → inflight_for s.inflight u ≤ limit

open_call-IsCounted :
    (u call : ℕ) (s : Server)
    → lookup call s.holders ≡ none
    → IsCounted u s
    → IsCounted u (open_call call s)
unfolding open_call
open_call-IsCounted u call s fresh h =
    ground (arith, fresh, h, holding-insert u call none s.holders)

release_holder-IsCounted :
    (u call : ℕ) (s : Server) → IsCounted u s → IsCounted u (release_holder call s)
unfolding release_holder
release_holder-IsCounted u call s h = elim (Option-cases (lookup call s.holders)) [
  | inl e ↦ ground (arith, e)
  | inr (none, e) ↦ ground (arith, e)
  | inr (some v, e) ↦ ground (
    arith,
    e,
    holding-insert u call none s.holders,
    holds-le_holding u call s.holders,
    inflight_for-release_slot v u s.inflight,
  )
]

try_acquire_slot-some :
    (p : ProfileRegistry) (inflight new : Inflight) (v : ℕ)
    → try_acquire_slot p inflight v ≡ some new
    → (at_cap (concurrency_limit_for p v) (inflight_for inflight v) ≡ false)
      × (insert v (inflight_for inflight v + 1) inflight ≡ new)
unfolding try_acquire_slot
try_acquire_slot-some p inflight new v h =
    elim (Bool-cases (at_cap (concurrency_limit_for p v) (inflight_for inflight v))) [
      | inl e ↦ absurd (ground (arith, e, h))
      | inr e ↦ (e, ground (arith, e, h))
    ]

-- What a call that took a slot changed.
abbrev pub TookSlot : ProfileRegistry → ℕ → ℕ → Server → Server → Type 0
TookSlot p call v s t =
    (lookup call s.holders ≡ some none)
    × (at_cap (concurrency_limit_for p v) (inflight_for s.inflight v) ≡ false)
    × (t ≡ record {
      inflight = insert v (inflight_for s.inflight v + 1) s.inflight;
      holders = insert call (some v) s.holders;
    })

pub take_slot-took :
    (p : ProfileRegistry) (call v : ℕ) (s t : Server)
    → take_slot p call v s ≡ took t
    → TookSlot p call v s t
unfolding take_slot
take_slot-took p call v s t h = elim (Option-cases (lookup call s.holders)) [
  | inl e ↦ absurd (ground (arith, e, h))
  | inr (some w, e) ↦ absurd (ground (arith, e, h))
  | inr (none, e) ↦ elim (Option-cases (try_acquire_slot p s.inflight v)) [
    | inl f ↦ absurd (ground (arith, e, f, h))
    | inr (new, f) ↦
        let r = try_acquire_slot-some p s.inflight new v f in (e, r.0, ground (arith, e, f, h, r.1))
  ]
]

take_slot-IsCounted :
    (p : ProfileRegistry) (u call v : ℕ) (s t : Server)
    → take_slot p call v s ≡ took t
    → IsCounted u s
    → IsCounted u t
take_slot-IsCounted p u call v s t h c =
    let r = take_slot-took p call v s t h in
    ground (
      arith,
      r,
      c,
      holding-insert u call (some v) s.holders,
      inflight_for-insert v u (inflight_for s.inflight v + 1) s.inflight,
    )

Step-IsCounted :
    (p : ProfileRegistry) (u : ℕ) (s t : Server) → Step p s t → IsCounted u s → IsCounted u t
Step-IsCounted p u s t (opens call _ fresh) c = open_call-IsCounted u call s fresh c
Step-IsCounted p u s t (takes call v _ _ h) c = take_slot-IsCounted p u call v s t h c
Step-IsCounted p u s t (releases call _) c = release_holder-IsCounted u call s c

-- Whatever the order in which calls are opened, take a slot and release it, the count of a user stays
-- the number of calls that hold one of the user's slots, once it is that number.
pub Reach-IsCounted :
    (p : ProfileRegistry) (u : ℕ) (s t : Server) → Reach p s t → IsCounted u s → IsCounted u t
Reach-IsCounted p u s _ here c = c
Reach-IsCounted p u s t (next {t = m} r q) c =
    Step-IsCounted p u m t q (Reach-IsCounted p u s m r c)
