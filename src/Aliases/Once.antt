-- ===== src/Aliases/Once.antt =====
-- One request maps a name once: a name that it made is never matched again, whatever its layers feed
-- back.
use llm_proxy_server.Prelude.{
  ℕ, ◌≡◌, refl, sym, ◌∙◌, Option, none, some, List, [], ◌∷◌, String, arith, inl, String-Keyed,
}
use llm_proxy_server.Aliases.{
  Texts, ModelAliasResolver, Kind, AliasContext, apply_alias, alias_scope, resolve_alias,
  alias_source_name, reset_alias_context,
}
use llm_proxy_server.Aliases.Sources.{IsSourced, resolve_source, bind-IsSourced}
use llm_proxy_server.Aliases.Applied.{Applied-cases, Applied-IsSourced, Applied-source}

-- What a request does with its names: it maps one, or it learns the profile of its caller.
pub data AliasEvent : Type 0 where
  maps : Option String → Kind → AliasEvent
  binds : Option ℕ → AliasEvent

abbrev pub run_alias : Texts → ModelAliasResolver → AliasEvent → AliasContext → AliasContext
run_alias x r (maps name kind) c = (apply_alias x r name none kind c).1
run_alias x r (binds pid) c = record c { current_profile_id = pid }

-- The state after the events of a list, the last first.
abbrev pub run_aliases : Texts → ModelAliasResolver → List AliasEvent → AliasContext → AliasContext
run_aliases x r [] c = reset_alias_context c
run_aliases x r (e ∷ es) c = run_alias x r e (run_aliases x r es c)

pub run_alias-IsSourced :
    (x : Texts) (r : ModelAliasResolver) (e : AliasEvent) (c : AliasContext)
    → IsSourced x r c
    → IsSourced x r (run_alias x r e c)
unfolding IsSourced apply_alias
run_alias-IsSourced x r (maps none kind) c h = h
run_alias-IsSourced x r (maps (some name) kind) c h =
    let (target, e) = resolve_source x r name kind c h in
    Applied-IsSourced x r name target kind c (apply_alias x r (some name) none kind c) h e
      (Applied-cases x r name target kind c h e)
run_alias-IsSourced x r (binds pid) c h = bind-IsSourced x r pid c h

pub run_aliases-IsSourced :
    (x : Texts) (r : ModelAliasResolver) (es : List AliasEvent) (c : AliasContext)
    → IsSourced x r (run_aliases x r es c)
unfolding IsSourced reset_alias_context
run_aliases-IsSourced x r [] c = inl refl
run_aliases-IsSourced x r (e ∷ es) c =
    run_alias-IsSourced x r e (run_aliases x r es c) (run_aliases-IsSourced x r es c)

pub target_of :
    (x : Texts) (r : ModelAliasResolver) (name : String) (kind : Kind) (c : AliasContext)
    → IsSourced x r c
    → (apply_alias x r (some name) none kind c).0
      ≡ resolve_alias x r
          (alias_source_name c (some name))
          c.current_api_surface
          (some (alias_scope c))
          kind
target_of x r name kind c h =
    let (target, e) = resolve_source x r name kind c h in
    let answer = apply_alias x r (some name) none kind c in
    (Applied-source x r name target kind c answer h (Applied-cases x r name target kind c h e)).0
    ∙ sym e

-- In every state that a request reaches, by mapping names with either list and learning the profile of
-- its caller in any order, the answer to a name is the client's name behind it, resolved once in the
-- current profile and list.
pub apply_alias-resolve_alias :
    (x : Texts) (r : ModelAliasResolver) (es : List AliasEvent) (start : AliasContext)
    (name : String) (kind : Kind)
    → let c = run_aliases x r es start in
      (apply_alias x r (some name) none kind c).0
      ≡ resolve_alias x r
          (alias_source_name c (some name))
          c.current_api_surface
          (some (alias_scope c))
          kind
apply_alias-resolve_alias x r es start name kind =
    target_of x r name kind (run_aliases x r es start) (run_aliases-IsSourced x r es start)

-- In every state that a request reaches, mapping the answer to a name, with either list, answers what
-- mapping the name itself would have: a target never meets the rules again, even where it is a pattern
-- of one.
pub apply_alias-chain :
    (x : Texts) (r : ModelAliasResolver) (es : List AliasEvent) (start : AliasContext)
    (name first : String) (before after : Kind)
    → let c = run_aliases x r es start in
      let answer = apply_alias x r (some name) none before c in
      answer.0 ≡ some first
      → (apply_alias x r (some first) none after answer.1).0
        ≡ (apply_alias x r (some name) none after c).0
apply_alias-chain x r es start name first before after q =
    let c = run_aliases x r es start in
    let h = run_aliases-IsSourced x r es start in
    let answer = apply_alias x r (some name) none before c in
    let (target, e) = resolve_source x r name before c h in
    let made = Applied-cases x r name target before c h e in
    let (same, source, again, surface, scope) =
      Applied-source x r name target before c answer h made in
    let next =
      target_of x r first after answer.1
        (Applied-IsSourced x r name target before c answer h e made) in
    let direct = target_of x r name after c h in
    grind (arith, next, direct, source, surface, scope, q)
