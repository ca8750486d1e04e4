-- ===== src/Access/Tests.antt =====
-- Runs of the access decisions, and their theorems at concrete inputs.
use llm_proxy_server.Prelude.{ℕ, ◌≡◌, ◌↔◌, refl, true, some, [], ◌∷◌}
use llm_proxy_server.Byok.{member, user, owner_of_model, is_byok_model_of}
use llm_proxy_server.Profiles.{empty_default}
use llm_proxy_server.Access.{ModelCache, byok_enabled, caller_may_use}
use llm_proxy_server.Access.Owned.{caller_may_use-owned}

abbrev cache : ModelCache
cache = record {
  model_configs = [];
  provider_configs = [];
  owners = ("openai:byok-8-mine", 8) ∷ [];
  groups = record { groups = []; model_to_group = []; provider_to_group = [] };
  profiles = record { users = []; profiles = (1, empty_default) ∷ [] };
}

caller_may_use-owned_example :
    (caller_may_use cache (member 8) "openai:byok-8-mine/gpt-4" ≡ true) ↔ (
      (u : ℕ) × (member 8 ≡ member u)
      × (owner_of_model cache.owners (some "openai:byok-8-mine/gpt-4") ≡ user u)
      × (byok_enabled cache "openai:byok-8-mine/gpt-4" ≡ true))
unfolding is_byok_model_of
caller_may_use-owned_example = caller_may_use-owned cache (member 8) "openai:byok-8-mine/gpt-4" refl
