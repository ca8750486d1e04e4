-- ===== src/Limits/Tests.antt =====
-- Runs of the checks and of the slots, and their theorems at concrete inputs.
use llm_proxy_server.Prelude.{
  inl, ℕ, ◌+◌, ◌≡◌, ◌≤◌, ◌↔◌, refl, true, false, none, some, List, [], ◌∷◌, Dict, lookup, insert,
  arith, ℕ-Keyed, pos,
}
use llm_proxy_server.Profiles.{ProfileRegistry, ProfileSnapshot, empty_default}
use llm_proxy_server.Limits.Groups.{own_rpd_limit, own_rpm_limit, overall}
use llm_proxy_server.Limits.Slots.{
  Server, take_slot, took, open_call, Reach, here, next, opens, takes, inflight_for,
  try_acquire_slot, concurrency_limit_for,
}
use llm_proxy_server.Limits.Slots.Counts.{holding, IsCounted, Reach-IsCounted}
use llm_proxy_server.Limits.Slots.Caps.{started, Reach-cap}
use llm_proxy_server.Limits.Cache.{RpdCacheEntry, Waiter, read_rpd_cached}
use llm_proxy_server.Limits.Cache.Reads.{read_rpd_cached-IsKept, IsKept}
use llm_proxy_server.Limits.Tracker.{Tracker, World, rpd_scope, pooled_rpd_limit, member_share_cap}
use llm_proxy_server.Limits.Decision.{is_used_up, window_of, bucket_at}
use llm_proxy_server.Limits.Checks.{check_and_increment, check_limits}
use llm_proxy_server.Limits.Status.{get_user_status}
use llm_proxy_server.Limits.Status.Agrees.{check_and_increment-get_user_status}
use llm_proxy_server.Limits.Checks.Rpm.{used, Request, allowed_of, allowed_of-rpm}
use llm_proxy_server.Limits.Checks.Verdict.{
  IsOpen, check_and_increment-allowed, member_share_cap-bounds,
}

abbrev basic : ProfileSnapshot
basic = record empty_default { rpm = some 2; rpd = some 100; max_concurrent = some 1 }

abbrev profiles : ProfileRegistry
profiles = record { users = (7, 2) ∷ []; profiles = (1, basic) ∷ (2, empty_default) ∷ [] }

abbrev opened : Server
opened = record { inflight = []; holders = (20, none) ∷ (21, none) ∷ [] }

abbrev taken : Server
taken = record { inflight = (8, 1) ∷ []; holders = (20, some 8) ∷ (21, none) ∷ [] }

opened-taken : take_slot profiles 20 8 opened ≡ took taken
unfolding take_slot inflight_for try_acquire_slot concurrency_limit_for insert
opened-taken = refl

run : Reach profiles started taken
unfolding open_call lookup insert
run =
    next (next (next here (opens 20 started refl)) (opens 21 (open_call 20 started) refl))
      (takes 20 8 opened taken opened-taken)

Reach-IsCounted_example : IsCounted 8 taken
unfolding inflight_for
Reach-IsCounted_example = Reach-IsCounted profiles 8 started taken run refl

Reach-cap_example : holding 8 taken.holders ≤ 1
unfolding inflight_for concurrency_limit_for
Reach-cap_example = Reach-cap profiles 8 1 taken run refl

abbrev stale : Dict ℕ RpdCacheEntry
stale = (3, record { count = 12; expires_at = 1000 }) ∷ []

abbrev waiters : List Waiter
waiters = record { now = 2100; load = some 99 } ∷ record { now = 2200; load = none } ∷ []

read_rpd_cached-IsKept_example :
    IsKept 2100 (some 14) none 3 stale (read_rpd_cached 2050 (some 14) 3 stale)
unfolding lookup
read_rpd_cached-IsKept_example =
    read_rpd_cached-IsKept 2050 2100 (some 14) none 3 stale refl (omega arith)

abbrev tracker : Tracker
tracker = record {
  profiles = profiles;
  groups = record { groups = []; model_to_group = []; provider_to_group = [] };
  user_to_pool = (8, 3) ∷ (9, 3) ∷ [];
  pool_members = (3, (8, "ada") ∷ (9, "bob") ∷ []) ∷ [];
  identity_to_pool = ("ada", 3) ∷ ("bob", 3) ∷ [];
  inactive_members = [];
  carries = ((8, (overall, 0)), pos 5) ∷ [];
  carries_date = some 40;
  pool_share_default = some 60;
  pool_share_override = [];
  minute_buckets = [];
  group_minute_buckets = [];
  rpd_cache = [];
  group_rpd_cache = [];
}

abbrev world : ℕ → World
world now = record {
  now = now;
  today = 40;
  seconds_until_midnight = 3600;
  today_rows = λ ids. some 10;
  today_group_rows = λ ids group. some 0;
}

abbrev requests : List Request
requests =
    record { world = world 60500; user_id = 8; username = "ada" }
    ∷ record { world = world 61000; user_id = 9; username = "bob" }
    ∷ record { world = world 61500; user_id = 8; username = "ada" }
    ∷ record { world = world 62000; user_id = 8; username = "ada" }
    ∷ []

allowed_of-rpm_example : allowed_of 8 requests tracker + used tracker 8 1 ≤ 2
unfolding own_rpm_limit bucket_at
allowed_of-rpm_example =
    allowed_of-rpm 8 2 1 requests tracker refl (refl, (refl, (refl, (refl, tt)))) (omega arith)

-- The limit is reached: two of the three requests of the user are let through.
requests_allowed : allowed_of 8 requests tracker ≡ 2
unfolding allowed_of
requests_allowed = refl

check_and_increment-allowed_example :
    ((check_and_increment (world 60500) 8 "ada" tracker).0.allowed ≡ true) ↔ (
      (is_used_up
          (check_limits (world 60500) 8 "ada" tracker).rpm
          (used tracker 8 (window_of 60500))
        ≡ false)
      × IsOpen
          (world 60500)
          8
          "ada"
          (check_limits (world 60500) 8 "ada" tracker)
          (rpd_scope tracker 8 "ada")
          tracker)
check_and_increment-allowed_example = check_and_increment-allowed (world 60500) 8 "ada" tracker

member_share_cap-bounds_example : (100 ≤ 120) × (120 ≤ 200)
unfolding own_rpd_limit pooled_rpd_limit member_share_cap
member_share_cap-bounds_example =
    member_share_cap-bounds tracker (some 3) (8 ∷ 9 ∷ []) (own_rpd_limit profiles) 8 200 100 120
      refl refl refl refl refl

abbrev spent_tracker : Tracker
spent_tracker = record tracker { minute_buckets = (8, record { window = 1; count = 2 }) ∷ [] }

check_and_increment-get_user_status_example :
    (check_and_increment (world 60500) 8 "ada" spent_tracker).0.allowed ≡ false
unfolding get_user_status own_rpm_limit bucket_at
check_and_increment-get_user_status_example =
    check_and_increment-get_user_status (world 60500) 8 "ada" spent_tracker (inl refl)
