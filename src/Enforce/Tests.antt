-- ===== src/Enforce/Tests.antt =====
-- Requests that are refused, limited and let through, and the theorems on them at concrete inputs.
use llm_proxy_server.Prelude.{refl, true, none, some, [], ◌∷◌, ℕ-Keyed, String-Keyed}
use llm_proxy_server.Byok.{member}
use llm_proxy_server.Profiles.{ProfileSnapshot, empty_default, deny}
use llm_proxy_server.Outages.{Outage}
use llm_proxy_server.Limits.Slots.{try_acquire_slot, concurrency_limit_for, inflight_for}
use llm_proxy_server.Limits.Tracker.{Tracker, World}
use llm_proxy_server.Enforce.{Service, enforce_access_and_limits}
use llm_proxy_server.Enforce.Order.{enforce_access_and_limits-SameSlots, SameSlots}

abbrev basic : ProfileSnapshot
basic = record empty_default { rpm = some 1; max_concurrent = some 2 }

abbrev strict : ProfileSnapshot
strict = record empty_default { id = 2; access_mode = deny }

abbrev tracker : Tracker
tracker = record {
  profiles = record { users = (9, 2) ∷ []; profiles = (1, basic) ∷ (2, strict) ∷ [] };
  groups = record { groups = []; model_to_group = []; provider_to_group = [] };
  user_to_pool = [];
  pool_members = [];
  identity_to_pool = [];
  inactive_members = [];
  carries = [];
  carries_date = none;
  pool_share_default = none;
  pool_share_override = [];
  minute_buckets = (8, record { window = 1; count = 1 }) ∷ [];
  group_minute_buckets = [];
  rpd_cache = [];
  group_rpd_cache = [];
}

abbrev declared : Outage
declared = record { id = 1; scope = "provider"; target = "azure:b"; description = "down" }

abbrev service : Service
service = record {
  model_configs = [];
  provider_configs = [];
  owners = ("openai:byok-8-mine", 8) ∷ [];
  outages = record { by_model = []; by_provider = ("azure:b", declared) ∷ [] };
  server = record { inflight = []; holders = (20, none) ∷ [] };
  tracker = tracker;
}

abbrev world : World
world = record {
  now = 60500;
  today = 40;
  seconds_until_midnight = 3600;
  today_rows = λ ids. some 10;
  today_group_rows = λ ids group. some 0;
}

-- The user has spent the minute: the slot that the call takes is given back.
enforce_access_and_limits-SameSlots_example :
    SameSlots
      (enforce_access_and_limits world 20 (member 8) "ada" "openai:a/gpt" true service).1.server
      service.server
unfolding enforce_access_and_limits try_acquire_slot concurrency_limit_for inflight_for
enforce_access_and_limits-SameSlots_example =
    enforce_access_and_limits-SameSlots world 20 (member 8) "ada" "openai:a/gpt" true service refl
