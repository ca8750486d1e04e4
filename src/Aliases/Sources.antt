-- ===== src/Aliases/Sources.antt =====
-- The invariant of a request's state: it says how the name in force was made, and which name of the
-- client a name stands for.
use llm_proxy_server.Prelude.{
  ℕ, ◌⊎◌, ◌≡◌, true, Option, none, some, String, arith, Bool-cases, Option-cases, inl, inr,
  str_eq_iff, contains, String-Keyed,
}
use llm_proxy_server.Aliases.{
  Texts, ModelAliasResolver, Kind, AliasContext, produced, alias_scope, resolve_alias,
  alias_source_name, match_rules, snapshot_for,
}

-- Where a mapping is in force: the client's name, the scope it was resolved in, and what it gave, which
-- is among the names that were seen.
pub record Mapping (x : Texts) (r : ModelAliasResolver) (c : AliasContext) : Type 0 where
  pub input : String
  pub pid : ℕ
  pub kind : Kind
  pub name : String
  pub from : c.alias_input_name ≡ some input
  pub scoped : c.alias_resolved_scope ≡ some (pid, kind)
  pub resolved : c.alias_resolved_name ≡ some name
  pub is_resolved : resolve_alias x r (some input) c.current_api_surface (some pid) kind ≡ some name
  pub seen : contains c.alias_seen_names name ≡ true

unfoldable pub IsSourced : Texts → ModelAliasResolver → AliasContext → Type 0
IsSourced x r c = (c.alias_resolved_name ≡ none) ⊎ Mapping x r c

pub resolve_alias-some :
    (x : Texts) (r : ModelAliasResolver) (name : String) (api : Option String) (pid : Option ℕ)
    (kind : Kind)
    → (target : String) × (resolve_alias x r (some name) api pid kind ≡ some target)
unfolding resolve_alias
resolve_alias-some x r name api pid kind =
    elim (Option-cases (match_rules x (snapshot_for r pid kind) name api)) [
      | inl e ↦ (name, ground (arith, e))
      | inr (rule, e) ↦ (rule.target, ground (arith, e))
    ]

pub produced-Mapping :
    {x : Texts} {r : ModelAliasResolver} {c : AliasContext} (name : String)
    → IsSourced x r c
    → produced c name ≡ true
    → Mapping x r c
unfolding produced IsSourced
produced-Mapping name (inl e) p = absurd (ground (arith, e, p))
produced-Mapping name (inr m) p = m

-- Learning the profile leaves the mapping in force, with the scope it was made in.
pub bind-IsSourced :
    (x : Texts) (r : ModelAliasResolver) (pid : Option ℕ) (c : AliasContext)
    → IsSourced x r c
    → IsSourced x r (record c { current_profile_id = pid })
unfolding IsSourced
bind-IsSourced x r pid c (inl h) = inl h
bind-IsSourced x r pid c (inr m) = inr (record {
  input = m.input;
  pid = m.pid;
  kind = m.kind;
  name = m.name;
  from = m.from;
  scoped = m.scoped;
  resolved = m.resolved;
  is_resolved = m.is_resolved;
  seen = m.seen;
})

-- Every name resolves to something.
pub resolve_source :
    (x : Texts) (r : ModelAliasResolver) (name : String) (kind : Kind) (c : AliasContext)
    → IsSourced x r c
    → (target : String) × (resolve_alias x r
          (alias_source_name c (some name))
          c.current_api_surface
          (some (alias_scope c))
          kind
        ≡ some target)
unfolding alias_source_name
resolve_source x r name kind c h = elim (Bool-cases (produced c name)) [
  | inl p ↦
      let m = produced-Mapping name h p in
      let (target, e) =
        resolve_alias-some x r m.input c.current_api_surface (some (alias_scope c)) kind in
      (target, ground (arith, p, e, m.from))
  | inr p ↦
      let (target, e) =
        resolve_alias-some x r name c.current_api_surface (some (alias_scope c)) kind in
      (target, ground (arith, p, e))
]

-- The client's name behind a name, which stands for itself.
pub client_name :
    (x : Texts) (r : ModelAliasResolver) (name : String) (c : AliasContext)
    → IsSourced x r c
    → (source : String) × (alias_source_name c (some name) ≡ some source)
      × (alias_source_name c (some source) ≡ some source)
unfolding alias_source_name produced
client_name x r name c h = elim (Bool-cases (produced c name)) [
  | inl p ↦
      let m = produced-Mapping name h p in
      (
        m.input,
        ground (arith, p, m.from),
        ground (arith, p, m.from, m.resolved, str_eq_iff m.input m.input),
      )
  | inr p ↦ (name, ground (arith, p), ground (arith, p))
]
