-- ===== src/Aliases/Tests.antt =====
-- Rules that could chain, and the theorems on them at concrete inputs.
use llm_proxy_server.Prelude.{true, ◌≡◌, refl, none, some, List, [], ◌∷◌, ◌++◌, pos, starts_with}
use llm_proxy_server.Aliases.{
  Texts, fallback, snapshot_for, AliasRule, including, exact, match_rules, ModelAliasResolver,
  AliasContext, alias, apply_alias, resolve_alias, alias_source_name, alias_scope, sort_rules,
  reset_alias_context,
}
use llm_proxy_server.Aliases.First.{IsFirst, match_rules-IsFirst}
use llm_proxy_server.Aliases.Load.{Formats, array, AliasRow, all_surfaces, load_from_database}
use llm_proxy_server.Aliases.Load.Lists.{rules_of, load_from_database-rules_of}
use llm_proxy_server.Aliases.Once.{AliasEvent, maps, binds, run_aliases, apply_alias-resolve_alias}

-- Names in lower case, tested by their beginning.
abbrev texts : Texts
texts = record { casefold = λ s. s; includes = starts_with; search = starts_with }

abbrev rules : List AliasRule
rules =
    record {
      id = some 2;
      pattern = "gpt";
      target = "claude-small";
      apis = "openai" ∷ [];
      match_type = including;
      priority = pos 5;
    }
    ∷ record {
      id = some 1;
      pattern = "gpt-5";
      target = "gpt-6";
      apis = "openai" ∷ [];
      match_type = exact;
      priority = pos 1;
    }
    ∷ []

match_rules-IsFirst_example :
    IsFirst texts "gpt-5"
      (some "openai")
      rules
      (match_rules texts (sort_rules rules) "gpt-5" (some "openai"))
match_rules-IsFirst_example = match_rules-IsFirst texts rules "gpt-5" (some "openai")

-- The list as the resolver holds it.
abbrev sorted_rules : List AliasRule
sorted_rules = elim rules as (λ _. List AliasRule) [ [] ↦ [] | r ∷ others ↦ others ++ r ∷ [] ]

abbrev resolver : ModelAliasResolver
resolver = record {
  snapshot = sorted_rules;
  profile_snapshots = (2, []) ∷ [];
  fallback_snapshot = [];
  fallback_profile_snapshots = [];
}

abbrev start : AliasContext
start = record {
  original_model_name = none;
  current_api_surface = some "openai";
  alias_resolved_name = none;
  current_profile_id = none;
  alias_input_name = none;
  alias_resolved_scope = none;
  alias_seen_names = [];
}

-- The name is mapped before the profile is known, and profile 2 has no rules.
abbrev events : List AliasEvent
events = binds (some 2) ∷ maps (some "gpt-5") alias ∷ []

abbrev reached : AliasContext
reached = run_aliases texts resolver events start

apply_alias-resolve_alias_example :
    (apply_alias texts resolver (some "gpt-6") none alias reached).0
    ≡ resolve_alias texts resolver
        (alias_source_name reached (some "gpt-6"))
        reached.current_api_surface
        (some (alias_scope reached))
        alias
apply_alias-resolve_alias_example =
    apply_alias-resolve_alias texts resolver events start "gpt-6" alias

-- The answer is the client's name.
remapped : (apply_alias texts resolver (some "gpt-6") none alias reached).0 ≡ some "gpt-5"
unfolding apply_alias reset_alias_context
remapped = refl

abbrev formats : Formats
formats = record { decode = λ raw. array ("openai" ∷ []); is_safe_regex = λ pattern. true }

-- A row of Default's, one that maps a name to itself, and one of another profile's fallback list.
abbrev rows : List AliasRow
rows =
    record {
      id = 1;
      alias_name = "best";
      target_model_id = "gpt";
      apis = none;
      match_type = none;
      priority = none;
      profile_id = none;
      kind = none;
      enabled = true;
    }
    ∷ record {
      id = 2;
      alias_name = "gpt";
      target_model_id = "gpt";
      apis = none;
      match_type = none;
      priority = none;
      profile_id = none;
      kind = none;
      enabled = true;
    }
    ∷ record {
      id = 3;
      alias_name = "old";
      target_model_id = "mini";
      apis = some "x";
      match_type = some "contains";
      priority = some (pos 4);
      profile_id = some 2;
      kind = some "fallback";
      enabled = true;
    }
    ∷ []

abbrev loaded : ModelAliasResolver
loaded = record {
  snapshot =
      record {
        id = some 1;
        pattern = "best";
        target = "gpt";
        apis = all_surfaces;
        match_type = exact;
        priority = pos 0;
      }
      ∷ [];
  profile_snapshots = [];
  fallback_snapshot = [];
  fallback_profile_snapshots =
      (
        2,
        record {
          id = some 3;
          pattern = "old";
          target = "mini";
          apis = "openai" ∷ [];
          match_type = including;
          priority = pos 4;
        }
            ∷ [],
      )
      ∷ [];
}

rows-loaded : load_from_database formats rows ≡ some loaded
unfolding load_from_database
rows-loaded = refl

load_from_database-rules_of_example :
    snapshot_for loaded (some 2) fallback ≡ sort_rules (rules_of formats 2 fallback rows)
load_from_database-rules_of_example =
    load_from_database-rules_of formats rows 2 fallback loaded rows-loaded
