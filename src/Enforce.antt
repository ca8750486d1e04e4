-- ===== src/Enforce.antt =====
-- app/rate_limit_dep.py: what a route does once its model is resolved, over the parts that it calls:
-- access (app/model_access_dep.py), outages, the concurrency slot and the rate checks. The charge is
-- run at once: other calls that come between it and the slot are steps of Limits/Slots.
pub mod Order
pub mod Charges
mod Tests
use llm_proxy_server.Prelude.{
  ℕ, Bool, true, false, Option, none, some, String, Dict, lookup, insert, str_eq, nat_eq,
  if◌then◌else◌, ℕ-Keyed,
}
use llm_proxy_server.Byok.{
  Owners, Caller, caller_user_id, is_owner, owner_of_model, is_byok_model_of,
}
use llm_proxy_server.Profiles.{default_group_id}
use llm_proxy_server.Outages.{Outage, OutageRegistry, outage_for}
use llm_proxy_server.Access.{ModelCache, caller_may_use}
use llm_proxy_server.Limits.Groups.{group_for}
use llm_proxy_server.Limits.Slots.{Server, Taken, denied, took, passed, take_slot, release_holder}
use llm_proxy_server.Limits.Tracker.{Tracker, World}
use llm_proxy_server.Limits.Decision.{RateLimitDecision}
use llm_proxy_server.Limits.Checks.{check_and_increment}
use llm_proxy_server.Limits.GroupChecks.{check_group_limit}

-- The state that a request meets. The cache reads the groups and profiles that the tracker reads.
pub record Service : Type 0 where
  pub model_configs : Dict String Bool
  pub provider_configs : Dict String Bool
  pub owners : Owners
  pub outages : OutageRegistry
  pub server : Server
  pub tracker : Tracker

abbrev pub cache_of : Service → ModelCache
cache_of s = record {
  model_configs = s.model_configs;
  provider_configs = s.provider_configs;
  owners = s.owners;
  groups = s.tracker.groups;
  profiles = s.tracker.profiles;
}

-- How a request ends here: it goes on, or one of the exceptions is raised. `not_found` is the answer
-- for another user's own model.
pub data Outcome : Type 0 where
  served not_found forbidden busy : Outcome
  out_of_service : Outage → Outcome
  limited : RateLimitDecision → Outcome

-- `enforce_model_access`: `none` lets the request go on.
unfoldable pub enforce_model_access : Service → Caller → String → Option Outcome
unfolding caller_may_use is_byok_model_of
enforce_model_access s auth model_id =
    if str_eq model_id ""
    then none
    else if caller_may_use (cache_of s) auth model_id
    then none
    else if is_byok_model_of s.owners (some model_id)
    then some not_found
    else some forbidden

unfoldable pub enforce_not_in_outage : Service → String → Option Outcome
unfolding outage_for
enforce_not_in_outage s model_id = elim (outage_for s.outages (some model_id)) [
  | none ↦ none
  | some outage ↦ some (out_of_service outage)
]

-- What `charge_with_slot` is given to run.
pub data Charge : Type 0 where
  no_charge default_charge : Charge
  group_charge : String → Charge

unfoldable pub charge_for : Service → Caller → String → Charge
unfolding is_owner owner_of_model group_for
charge_for s auth model_id =
    if is_owner auth (owner_of_model s.owners (some model_id))
    then no_charge
    else if nat_eq (group_for s.tracker.groups (some model_id)) default_group_id
    then default_charge
    else group_charge model_id

-- An allowed decision of `check_and_increment` is no denial.
abbrev pub denial_of : RateLimitDecision → Option RateLimitDecision
denial_of d = if d.allowed then none else some d

unfoldable pub run_charge :
    World → ℕ → String → Charge → Tracker → Option RateLimitDecision × Tracker
unfolding check_and_increment check_group_limit
run_charge w user_id username no_charge t = (none, t)
run_charge w user_id username default_charge t =
    let r = check_and_increment w user_id username t in (denial_of r.0, r.1)
run_charge w user_id username (group_charge model_id) t =
    check_group_limit w user_id username model_id t

-- The end of `charge_with_slot`, after the charge: a slot that this call took is given back on denial.
unfoldable pub settle_slot :
    Bool → ℕ → Option RateLimitDecision × Tracker → Service → Outcome × Service
unfolding release_holder
settle_slot taken call (none, t) s = (served, record s { tracker = t })
settle_slot true call (some d, t) s =
    (limited d, record s { tracker = t; server = release_holder call s.server })
settle_slot false call (some d, t) s = (limited d, record s { tracker = t })

-- After the attempt to take a slot.
unfoldable pub charge_holding :
    World → ℕ → ℕ → String → Charge → Taken → Service → Outcome × Service
unfolding run_charge settle_slot
charge_holding w call user_id username c denied s = (busy, s)
charge_holding w call user_id username c passed s =
    settle_slot false call (run_charge w user_id username c s.tracker) s
charge_holding w call user_id username c (took server) s =
    let held = record s { server = server } in
    settle_slot true call (run_charge w user_id username c s.tracker) held

unfoldable pub charge_with_slot : World → ℕ → ℕ → String → Charge → Service → Outcome × Service
unfolding take_slot charge_holding
charge_with_slot w call user_id username c s =
    charge_holding w call user_id username c (take_slot s.tracker.profiles call user_id s.server) s

unfoldable pub enforce_group_rate_limit :
    World → ℕ → Caller → String → String → Service → Outcome × Service
unfolding caller_user_id charge_with_slot charge_for
enforce_group_rate_limit w call auth username model_id s = elim (caller_user_id auth) [
  | none ↦ (served, s)
  | some user_id ↦ charge_with_slot w call user_id username (charge_for s auth model_id) s
]

unfoldable pub enforce_access_and_limits :
    World → ℕ → Caller → String → String → Bool → Service → Outcome × Service
unfolding enforce_model_access enforce_not_in_outage enforce_group_rate_limit
enforce_access_and_limits w call auth username model_id consume_quota s =
    let charged = enforce_group_rate_limit w call auth username model_id s in
    elim (enforce_model_access s auth model_id) [
      | some refused ↦ (refused, s)
      | none ↦ elim (enforce_not_in_outage s model_id) [
        | some refused ↦ (refused, s)
        | none ↦ if consume_quota then charged else (served, s)
      ]
    ]
