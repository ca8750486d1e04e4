-- ===== src/Enforce/Order.antt =====
-- The order of the refusals, and that a refused request spends nothing.
use llm_proxy_server.Prelude.{
  ℕ, ◌≡◌, refl, ◌∙◌, Bool, true, false, Option, none, some, String, str_eq, if◌then◌else◌, arith,
  Option-cases, inl, inr, lookup, ℕ-Keyed,
}
use llm_proxy_server.Byok.{Caller, caller_user_id, is_byok_model_of}
use llm_proxy_server.Outages.{Outage, outage_for}
use llm_proxy_server.Access.{caller_may_use}
use llm_proxy_server.Limits.Slots.{
  Server, Taken, denied, took, passed, take_slot, release_holder, inflight_for,
}
use llm_proxy_server.Limits.Slots.Caps.{release_holder-take_slot}
use llm_proxy_server.Limits.Tracker.{Tracker, World}
use llm_proxy_server.Limits.Decision.{RateLimitDecision}
use llm_proxy_server.Enforce.{
  Service, cache_of, Outcome, served, not_found, forbidden, out_of_service, enforce_model_access,
  enforce_not_in_outage, Charge, charge_for, run_charge, settle_slot, charge_holding,
  charge_with_slot, enforce_group_rate_limit, enforce_access_and_limits,
}

-- A request that may not use its model.
abbrev pub IsRefused : Service → Caller → String → Type 0
IsRefused s auth model_id =
    (str_eq model_id "" ≡ false) × (caller_may_use (cache_of s) auth model_id ≡ false)

-- A request for a model that the caller may not use is told so, whether or not the model is in outage
-- and whatever its limits, and changes nothing: it takes no slot and is charged to no group. If the
-- model is another user's own, it is told that there is no such model.
pub enforce_access_and_limits-IsRefused :
    (w : World) (call : ℕ) (auth : Caller) (name model_id : String) (consume : Bool) (s : Service)
    → IsRefused s auth model_id
    → enforce_access_and_limits w call auth name model_id consume s
      ≡ ((if is_byok_model_of s.owners (some model_id) then not_found else forbidden), s)
unfolding enforce_access_and_limits enforce_model_access
enforce_access_and_limits-IsRefused w call auth name model_id consume s h = ground (arith, h)

-- A request that may use its model, which is in outage, is told of the outage and changes nothing.
pub enforce_access_and_limits-outage :
    (w : World) (call : ℕ) (auth : Caller) (name model_id : String) (consume : Bool) (s : Service)
    (outage : Outage)
    → caller_may_use (cache_of s) auth model_id ≡ true
    → outage_for s.outages (some model_id) ≡ some outage
    → enforce_access_and_limits w call auth name model_id consume s ≡ (out_of_service outage, s)
unfolding enforce_access_and_limits enforce_model_access enforce_not_in_outage
enforce_access_and_limits-outage w call auth name model_id consume s outage h e =
    ground (arith, h, e)

-- The slots and their counts are those of before.
abbrev pub SameSlots : Server → Server → Type 0
SameSlots s t =
    (u call : ℕ)
    → (inflight_for s.inflight u ≡ inflight_for t.inflight u)
      × (lookup call s.holders ≡ lookup call t.holders)

-- A request goes on.
abbrev pub is_served : Outcome → Bool
is_served served = true
is_served _ = false

-- What becomes of a request: it changes nothing, or it is charged with a slot.
pub data Enforced (w : World) (call : ℕ) (auth : Caller) (name model_id : String) (consume : Bool)
    (s : Service) : Type 0 where
  unchanged :
      (o : Outcome)
      → enforce_access_and_limits w call auth name model_id consume s ≡ (o, s)
      → Enforced w call auth name model_id consume s
  charged :
      (u : ℕ)
      → caller_user_id auth ≡ some u
      → enforce_access_and_limits w call auth name model_id consume s
        ≡ charge_with_slot w call u name (charge_for s auth model_id) s
      → Enforced w call auth name model_id consume s

group_rate_limit_none :
    (w : World) (call : ℕ) (auth : Caller) (name model_id : String) (s : Service)
    → caller_user_id auth ≡ none
    → enforce_group_rate_limit w call auth name model_id s ≡ (served, s)
unfolding enforce_group_rate_limit
group_rate_limit_none w call auth name model_id s e = ground (arith, e)

group_rate_limit_some :
    (w : World) (call u : ℕ) (auth : Caller) (name model_id : String) (s : Service)
    → caller_user_id auth ≡ some u
    → enforce_group_rate_limit w call auth name model_id s
      ≡ charge_with_slot w call u name (charge_for s auth model_id) s
unfolding enforce_group_rate_limit
group_rate_limit_some w call u auth name model_id s e = ground (arith, e)

pub enforce_model_access-allowed :
    (s : Service) (auth : Caller) (model_id : String)
    → caller_may_use (cache_of s) auth model_id ≡ true
    → enforce_model_access s auth model_id ≡ none
unfolding enforce_model_access
enforce_model_access-allowed s auth model_id h = ground (arith, h)

pub enforce_not_in_outage-up :
    (s : Service) (model_id : String)
    → outage_for s.outages (some model_id) ≡ none
    → enforce_not_in_outage s model_id ≡ none
unfolding enforce_not_in_outage
enforce_not_in_outage-up s model_id h = ground (arith, h)

pub passes_to_charge :
    (w : World) (call : ℕ) (auth : Caller) (name model_id : String) (s : Service)
    → enforce_model_access s auth model_id ≡ none
    → enforce_not_in_outage s model_id ≡ none
    → enforce_access_and_limits w call auth name model_id true s
      ≡ enforce_group_rate_limit w call auth name model_id s
unfolding enforce_access_and_limits
passes_to_charge w call auth name model_id s e f = ground (arith, e, f)

passes_unmetered :
    (w : World) (call : ℕ) (auth : Caller) (name model_id : String) (s : Service)
    → enforce_model_access s auth model_id ≡ none
    → enforce_not_in_outage s model_id ≡ none
    → enforce_access_and_limits w call auth name model_id false s ≡ (served, s)
unfolding enforce_access_and_limits
passes_unmetered w call auth name model_id s e f = ground (arith, e, f)

refused_access :
    (w : World) (call : ℕ) (auth : Caller) (name model_id : String) (consume : Bool) (s : Service)
    (o : Outcome)
    → enforce_model_access s auth model_id ≡ some o
    → enforce_access_and_limits w call auth name model_id consume s ≡ (o, s)
unfolding enforce_access_and_limits
refused_access w call auth name model_id consume s o e = ground (arith, e)

refused_outage :
    (w : World) (call : ℕ) (auth : Caller) (name model_id : String) (consume : Bool) (s : Service)
    (o : Outcome)
    → enforce_model_access s auth model_id ≡ none
    → enforce_not_in_outage s model_id ≡ some o
    → enforce_access_and_limits w call auth name model_id consume s ≡ (o, s)
unfolding enforce_access_and_limits
refused_outage w call auth name model_id consume s o e f = ground (arith, e, f)

metered :
    (w : World) (call : ℕ) (auth : Caller) (name model_id : String) (consume : Bool) (s : Service)
    → enforce_model_access s auth model_id ≡ none
    → enforce_not_in_outage s model_id ≡ none
    → Enforced w call auth name model_id consume s
metered w call auth name model_id false s e f =
    unchanged served (passes_unmetered w call auth name model_id s e f)
metered w call auth name model_id true s e f =
    let through = passes_to_charge w call auth name model_id s e f in
    elim (Option-cases (caller_user_id auth)) [
      | inl z ↦ unchanged served (through ∙ group_rate_limit_none w call auth name model_id s z)
      | inr (u, z) ↦ charged u z (through ∙ group_rate_limit_some w call u auth name model_id s z)
    ]

pub Enforced-cases :
    (w : World) (call : ℕ) (auth : Caller) (name model_id : String) (consume : Bool) (s : Service)
    → Enforced w call auth name model_id consume s
Enforced-cases w call auth name model_id consume s =
    elim (Option-cases (enforce_model_access s auth model_id)) [
      | inr (o, e) ↦ unchanged o (refused_access w call auth name model_id consume s o e)
      | inl e ↦ elim (Option-cases (enforce_not_in_outage s model_id)) [
        | inr (o, f) ↦ unchanged o (refused_outage w call auth name model_id consume s o e f)
        | inl f ↦ metered w call auth name model_id consume s e f
      ]
    ]

-- The end of a charge, by whether the call took its slot.
settle_slot-SameSlots :
    (taken : Bool) (call : ℕ) (r : Option RateLimitDecision × Tracker) (s : Service)
    (before : Server)
    → SameSlots (if taken then release_holder call s.server else s.server) before
    → is_served (settle_slot taken call r s).0 ≡ false
    → SameSlots (settle_slot taken call r s).1.server before
unfolding settle_slot
settle_slot-SameSlots taken call (none, t) s before same h = absurd (ground (arith, h))
settle_slot-SameSlots true call (some d, t) s before same h = same
settle_slot-SameSlots false call (some d, t) s before same h = same

charge_holding-SameSlots :
    (w : World) (call u : ℕ) (name : String) (c : Charge) (taken : Taken) (s : Service)
    → take_slot s.tracker.profiles call u s.server ≡ taken
    → is_served (charge_holding w call u name c taken s).0 ≡ false
    → SameSlots (charge_holding w call u name c taken s).1.server s.server
unfolding charge_holding
charge_holding-SameSlots w call u name c denied s e h = λ v other. (refl, refl)
charge_holding-SameSlots w call u name c passed s e h =
    settle_slot-SameSlots false call (run_charge w u name c s.tracker) s s.server
      (λ v other. (refl, refl)) h
charge_holding-SameSlots w call u name c (took server) s e h =
    settle_slot-SameSlots true call (run_charge w u name c s.tracker) (record s { server = server })
      s.server (release_holder-take_slot s.tracker.profiles call u s.server server e) h

charge_with_slot-SameSlots :
    (w : World) (call u : ℕ) (name : String) (c : Charge) (s : Service)
    → is_served (charge_with_slot w call u name c s).0 ≡ false
    → SameSlots (charge_with_slot w call u name c s).1.server s.server
unfolding charge_with_slot
charge_with_slot-SameSlots w call u name c s h =
    charge_holding-SameSlots w call u name c (take_slot s.tracker.profiles call u s.server) s refl h

-- A request that is not let through, by whatever part of the check, leaves the slots of all calls and
-- the counts of all users as they were.
pub enforce_access_and_limits-SameSlots :
    (w : World) (call : ℕ) (auth : Caller) (name model_id : String) (consume : Bool) (s : Service)
    → is_served (enforce_access_and_limits w call auth name model_id consume s).0 ≡ false
    → SameSlots (enforce_access_and_limits w call auth name model_id consume s).1.server s.server
enforce_access_and_limits-SameSlots w call auth name model_id consume s h =
    elim (Enforced-cases w call auth name model_id consume s) [
      | unchanged o e ↦ rw e (λ v other. (refl, refl))
      | charged u z e ↦
          rw e (charge_with_slot-SameSlots w call u name (charge_for s auth model_id) s (rw e at h))
    ]
