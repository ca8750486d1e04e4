-- ===== src/Limits/GroupTests.antt =====
-- Runs of the group checks, of a reload and of the upkeep, and their theorems at concrete inputs.
use llm_proxy_server.Prelude.{
  ℕ, ◌+◌, ◌≡◌, ◌≤◌, refl, true, none, some, List, [], ◌∷◌, lookup, arith, ℕ-Keyed, String-Keyed,
  Pair-Keyed, IsDistinct,
}
use llm_proxy_server.Profiles.{ProfileSnapshot, empty_default, model_group_limit}
use llm_proxy_server.Limits.Groups.{group_for, drop_group, group_limits_for}
use llm_proxy_server.Limits.Groups.Claims.{row_ids}
use llm_proxy_server.Limits.Load.{GroupRow, load_group_state}
use llm_proxy_server.Limits.Tracker.{Tracker, World, user_scope_key, pool_scope_key, ScopeKey-Keyed}
use llm_proxy_server.Limits.Decision.{bucket_at}
use llm_proxy_server.Limits.GroupChecks.Cases.{IsLimited, IsKeyed}
use llm_proxy_server.Limits.GroupChecks.Runs.{
  Event, request, evict, group_allowed_of, group_allowed_of-rpm,
}
use llm_proxy_server.Limits.Upkeep.{evict_stale_buckets}
use llm_proxy_server.Limits.Upkeep.Kept.{group_used}

abbrev rows : List GroupRow
rows =
    record {
      id = 4;
      name = "large";
      members = "openai:a/big" ∷ [];
      instance_members = "azure:b" ∷ [];
      enabled = true;
    }
    ∷ record {
      id = 5;
      name = "small";
      members = "azure:b/tiny" ∷ [];
      instance_members = [];
      enabled = true;
    }
    ∷ []

rows-IsDistinct : IsDistinct (row_ids rows)
rows-IsDistinct u = ground arith

-- It falls to the group of the instance.
dropped_falls : group_for (drop_group (load_group_state rows) 5) (some "azure:b/tiny") ≡ 4
unfolding group_for drop_group load_group_state
dropped_falls = refl

abbrev limited : ProfileSnapshot
limited = record empty_default { model_group_limits = (4, (some 2, none)) ∷ [] }

abbrev tracker : Tracker
tracker = record {
  profiles = record { users = []; profiles = (1, limited) ∷ [] };
  groups = record {
    groups =
        (
          4,
          record {
            group_id = 4;
            name = "large";
            model_ids = "openai:a/big" ∷ [];
            provider_keys = [];
            enabled = true;
          },
        )
        ∷ [];
    model_to_group = ("openai:a/big", 4) ∷ [];
    provider_to_group = [];
  };
  user_to_pool = (8, 3) ∷ [];
  pool_members = (3, (8, "ada") ∷ []) ∷ [];
  identity_to_pool = ("ada", 3) ∷ [];
  inactive_members = [];
  carries = [];
  carries_date = some 40;
  pool_share_default = none;
  pool_share_override = [];
  minute_buckets =
      (8, record { window = 1; count = 2 }) ∷ (9, record { window = 0; count = 7 }) ∷ [];
  group_minute_buckets = ((9, 4), record { window = 0; count = 7 }) ∷ [];
  rpd_cache =
      (pool_scope_key 3, record { count = 12; expires_at = 100000 })
      ∷ (user_scope_key "bob", record { count = 5; expires_at = 900000 })
      ∷ [];
  group_rpd_cache = ((pool_scope_key 3, 4), record { count = 2; expires_at = 100000 }) ∷ [];
}

abbrev world : ℕ → World
world now = record {
  now = now;
  today = 40;
  seconds_until_midnight = 3600;
  today_rows = λ ids. some 10;
  today_group_rows = λ ids group. some 0;
}

abbrev run : List Event
run =
    request (world 60500) 8 "ada" "openai:a/big"
    ∷ evict 120500
    ∷ request (world 61000) 8 "ada" "openai:a/big"
    ∷ request (world 62000) 8 "ada" "openai:a/big"
    ∷ []

tracker-IsKeyed : IsKeyed tracker.groups
unfolding lookup
tracker-IsKeyed gid snap e = ground (arith, e)

tracker-IsLimited : IsLimited 8 4 2 tracker
unfolding lookup group_limits_for model_group_limit
tracker-IsLimited = record {
  named = λ e. ground (arith, e);
  keyed = tracker-IsKeyed;
  known = refl;
  limited = refl;
}

group_allowed_of-rpm_example : group_allowed_of 8 4 run tracker + group_used tracker 8 4 1 ≤ 2
unfolding bucket_at
group_allowed_of-rpm_example =
    group_allowed_of-rpm 8 4 2 1 run tracker tracker-IsLimited
      (refl, (omega arith, (refl, (refl, tt)))) (omega arith)

-- The limit is reached: the third request is refused.
run_allowed : group_allowed_of 8 4 run tracker ≡ 2
unfolding group_allowed_of evict_stale_buckets
run_allowed = refl

-- The bucket of an older minute goes, and so do counts that expired long before.
evicted :
    (evict_stale_buckets 500000 tracker).rpd_cache
    ≡ (user_scope_key "bob", record { count = 5; expires_at = 900000 }) ∷ []
unfolding evict_stale_buckets
evicted = refl
