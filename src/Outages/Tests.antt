-- ===== src/Outages/Tests.antt =====
-- A run of the outage registry, and its theorem at a concrete input.
use llm_proxy_server.Prelude.{List, [], ◌∷◌}
use llm_proxy_server.Outages.{Outage}

abbrev outages : List Outage
outages =
    record { id = 1; scope = "provider"; target = "openai:main"; description = "down" }
    ∷ record { id = 2; scope = "model"; target = "openai:main/gpt-4"; description = "slow" }
    ∷ []
