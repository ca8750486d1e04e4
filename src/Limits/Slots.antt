-- ===== src/Limits/Slots.antt =====
-- Requests in progress: `try_acquire_slot` and `release_slot` of app/rate_limit.py, and the slots of
-- app/concurrency_slots.py, each held for one ASGI call. The calls of the server are steps of one
-- state; `charge` is awaited between taking a slot and the verdict, so that other calls may take
-- their steps in between.
pub mod Counts
pub mod Caps
use llm_proxy_server.Prelude.{
  ℕ, ◌+◌, ◌-◌, ◌≡◌, Bool, true, false, Option, none, some, Dict, lookup, insert, erase, get_or, leb,
  if◌then◌else◌, ℕ-Keyed,
}
use llm_proxy_server.Profiles.{ProfileRegistry, for_user}

-- `_inflight`
abbrev pub Inflight : Type 0
Inflight = Dict ℕ ℕ

unfoldable pub concurrency_limit_for : ProfileRegistry → ℕ → Option ℕ
unfolding for_user
concurrency_limit_for p user_id = (for_user p (some user_id)).max_concurrent

unfoldable pub inflight_for : Inflight → ℕ → ℕ
unfolding lookup
inflight_for inflight user_id = get_or (lookup user_id inflight) 0

-- `limit is not None and current >= limit`
abbrev pub at_cap : Option ℕ → ℕ → Bool
at_cap none current = false
at_cap (some limit) current = leb limit current

-- The new counts, or `none` for the denial.
unfoldable pub try_acquire_slot : ProfileRegistry → Inflight → ℕ → Option Inflight
try_acquire_slot p inflight user_id =
    if at_cap (concurrency_limit_for p user_id) (inflight_for inflight user_id)
    then none
    else some (insert user_id (inflight_for inflight user_id + 1) inflight)

unfoldable pub release_slot : Inflight → ℕ → Inflight
release_slot inflight user_id =
    if leb (inflight_for inflight user_id) 1
    then erase user_id inflight
    else insert user_id (inflight_for inflight user_id - 1) inflight

-- The counts, and the `_SlotHolder` of each ASGI call: the user whose slot it holds, if any.
pub record Server : Type 0 where
  pub inflight : Inflight
  pub holders : Dict ℕ (Option ℕ)

-- `ConcurrencySlotMiddleware` makes a holder for an HTTP call.
unfoldable pub open_call : ℕ → Server → Server
open_call call s = record s { holders = insert call none s.holders }

-- What `charge_with_slot` does before it awaits the charge.
pub data Taken : Type 0 where
  denied : Taken
  took : Server → Taken
  passed : Taken

unfoldable pub take_slot : ProfileRegistry → ℕ → ℕ → Server → Taken
take_slot p call user_id s = elim (lookup call s.holders) [
  | none ↦ passed
  | some (some holder) ↦ passed
  | some none ↦ elim (try_acquire_slot p s.inflight user_id) [
    | none ↦ denied
    | some inflight ↦
        took (record { inflight = inflight; holders = insert call (some user_id) s.holders })
  ]
]

-- `_SlotHolder.release`: at the end of the call, and when the charge of a call that took a slot
-- denies the request.
unfoldable pub release_holder : ℕ → Server → Server
release_holder call s = elim (lookup call s.holders) [
  | none ↦ s
  | some none ↦ s
  | some (some user_id) ↦ record {
    inflight = release_slot s.inflight user_id;
    holders = insert call none s.holders;
  }
]

-- The steps of the calls, in any order. A call is opened once.
pub data Step (p : ProfileRegistry) : Server → Server → Type 0 where
  opens : (call : ℕ) (s : Server) → lookup call s.holders ≡ none → Step p s (open_call call s)
  takes : (call user_id : ℕ) (s t : Server) → take_slot p call user_id s ≡ took t → Step p s t
  releases : (call : ℕ) (s : Server) → Step p s (release_holder call s)

pub data Reach (p : ProfileRegistry) (s : Server) : Server → Type 0 where
  here : Reach p s s
  next : {t u : Server} → Reach p s t → Step p t u → Reach p s u
