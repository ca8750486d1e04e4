-- ===== src/Resolve/Tests.antt =====
-- Resolutions of bare names, mapped names and names in outage, and the theorems on them at concrete inputs.
use llm_proxy_server.Prelude.{
  ◌+◌, ◌%◌, ◌≡◌, refl, true, false, none, some, String, List, [], ◌∷◌, pos, arith, starts_with,
}
use llm_proxy_server.Byok.{member}
use llm_proxy_server.Profiles.{empty_default}
use llm_proxy_server.Outages.{Outage, outage_for}
use llm_proxy_server.Access.{caller_may_use}
use llm_proxy_server.Limits.Tracker.{Tracker, World}
use llm_proxy_server.Enforce.{
  Service, cache_of, enforce_access_and_limits, enforce_group_rate_limit,
}
use llm_proxy_server.Aliases.{AliasRule, exact, AliasContext, reset_alias_context, alias}
use llm_proxy_server.Aliases.Once.{maps, run_aliases}
use llm_proxy_server.Resolve.Index.{bare_model_candidates}
use llm_proxy_server.Resolve.Rotation.{get_elem?, pick, same_pool}
use llm_proxy_server.Resolve.Rotation.Fair.{run_picks, turns, cursor, pick-run_picks}
use llm_proxy_server.Resolve.Evaluate.{Provider, Router, pre_auth}
use llm_proxy_server.Resolve.Names.{Resolver, chosen, map_model_name, resolve_model_for_request}
use llm_proxy_server.Resolve.Served.{
  resolve_model_for_request-IsServable, resolve_model_for_request-enforce,
}
use llm_proxy_server.Resolve.Layers.{resolve_model_for_request-map_model_name}
use llm_proxy_server.Resolve.Ends.{is_broken, resolve_model_for_request-ends}

abbrev ids : List String
ids = "openai:b/gpt" ∷ "openai:a/gpt" ∷ "openai:a/mini" ∷ "stray" ∷ []

candidates_sorted : bare_model_candidates ids "gpt" ≡ "openai:a/gpt" ∷ "openai:b/gpt" ∷ []
unfolding bare_model_candidates
candidates_sorted = refl

abbrev pools : List (List String)
pools = ("a" ∷ "b" ∷ []) ∷ ("c" ∷ "d" ∷ "e" ∷ []) ∷ ("a" ∷ "b" ∷ []) ∷ ("a" ∷ "b" ∷ []) ∷ []

pick-run_picks_example :
    (pick ("a" ∷ "b" ∷ []) (run_picks pools [])).0
    ≡ get_elem? ((cursor ("a" ∷ "b" ∷ []) [] + turns ("a" ∷ "b" ∷ []) pools) % 2) ("a" ∷ "b" ∷ [])
pick-run_picks_example = pick-run_picks "a" ("b" ∷ []) pools [] (omega arith)

-- The pool had three turns, so it takes its second candidate.
picked : (pick ("a" ∷ "b" ∷ []) (run_picks pools [])).0 ≡ some "b"
unfolding pick same_pool
picked = refl

abbrev rule : AliasRule
rule = record {
  id = some 1;
  pattern = "best";
  target = "gpt";
  apis = "openai" ∷ [];
  match_type = exact;
  priority = pos 1;
}

abbrev declared : Outage
declared = record { id = 1; scope = "provider"; target = "openai:a"; description = "down" }

abbrev tracker : Tracker
tracker = record {
  profiles = record { users = []; profiles = (1, empty_default) ∷ [] };
  groups = record { groups = []; model_to_group = []; provider_to_group = [] };
  user_to_pool = [];
  pool_members = [];
  identity_to_pool = [];
  inactive_members = [];
  carries = [];
  carries_date = none;
  pool_share_default = none;
  pool_share_override = [];
  minute_buckets = [];
  group_minute_buckets = [];
  rpd_cache = [];
  group_rpd_cache = [];
}

abbrev service : Service
service = record {
  model_configs = [];
  provider_configs = [];
  owners = [];
  outages = record { by_model = []; by_provider = ("openai:a", declared) ∷ [] };
  server = record { inflight = []; holders = (20, none) ∷ [] };
  tracker = tracker;
}

abbrev provider : Provider
provider = record { supports_api_for_model = λ model api. some true }

abbrev router : Router
router = record {
  cache = cache_of service;
  model_ids = ids;
  providers = ("openai:a", provider) ∷ ("openai:b", provider) ∷ [];
  outages = service.outages;
}

abbrev resolver : Resolver
resolver = record {
  texts = record { casefold = λ s. s; includes = starts_with; search = starts_with };
  rules = record {
    snapshot = rule ∷ [];
    profile_snapshots = [];
    fallback_snapshot = rule ∷ [];
    fallback_profile_snapshots = [];
  };
  router = router;
  allow_prefix_strip = true;
}

abbrev start : AliasContext
start = record {
  original_model_name = none;
  current_api_surface = some "openai";
  alias_resolved_name = none;
  current_profile_id = none;
  alias_input_name = none;
  alias_resolved_scope = none;
  alias_seen_names = [];
}

-- The fallback maps the name to one with two models, and the instance of the first is in outage.
resolved :
    (resolve_model_for_request resolver (member 8) (some "best") start []).0 ≡ chosen "openai:b/gpt"
unfolding resolve_model_for_request
resolved = refl

resolve_model_for_request-IsServable_example :
    (caller_may_use router.cache (member 8) "openai:b/gpt" ≡ true)
    × (outage_for router.outages (some "openai:b/gpt") ≡ none)
resolve_model_for_request-IsServable_example =
    resolve_model_for_request-IsServable resolver (member 8) (some "best") start [] "openai:b/gpt"
      resolved

abbrev world : World
world = record {
  now = 60500;
  today = 40;
  seconds_until_midnight = 3600;
  today_rows = λ ids. some 10;
  today_group_rows = λ ids group. some 0;
}

resolve_model_for_request-enforce_example :
    enforce_access_and_limits world 20 (member 8) "ada" "openai:b/gpt" true service
    ≡ enforce_group_rate_limit world 20 (member 8) "ada" "openai:b/gpt" service
resolve_model_for_request-enforce_example =
    resolve_model_for_request-enforce resolver service world 20 (member 8) "ada" (some "best") start
      [] "openai:b/gpt" refl refl resolved

-- The tracking middleware mapped the name before the caller was known.
abbrev before : AliasContext
before = run_aliases resolver.texts resolver.rules [] start

mapped_before : (map_model_name resolver pre_auth (some "best") before).0 ≡ some "gpt"
unfolding map_model_name reset_alias_context
mapped_before = refl

resolve_model_for_request-map_model_name_example :
    (resolve_model_for_request resolver
      (member 8)
      (some "gpt")
      (map_model_name resolver pre_auth (some "best") before).1
      []).0
    ≡ (resolve_model_for_request resolver (member 8) (some "best") before []).0
resolve_model_for_request-map_model_name_example =
    resolve_model_for_request-map_model_name resolver pre_auth (member 8) [] start "best" "gpt" []
      refl refl mapped_before

resolve_model_for_request-ends_example :
    is_broken
      (resolve_model_for_request resolver
        (member 8)
        (some "gpt")
        (run_aliases resolver.texts resolver.rules (maps (some "best") alias ∷ []) start)
        []).0
    ≡ false
resolve_model_for_request-ends_example =
    resolve_model_for_request-ends resolver (member 8) (maps (some "best") alias ∷ []) start
      (some "gpt") []
