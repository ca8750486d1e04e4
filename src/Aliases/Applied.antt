-- ===== src/Aliases/Applied.antt =====
-- What one call of `apply_alias` makes of the state of a request.
use llm_proxy_server.Prelude.{
  ℕ, ◌≡◌, ◌≢◌, refl, sym, ap, ◌∙◌, true, false, Option, none, some, [], ◌∷◌, String, arith,
  Bool-cases, inl, inr, str_eq, str_eq_iff, String-Keyed, subst,
}
use llm_proxy_server.Aliases.{
  Texts, ModelAliasResolver, Kind, AliasContext, apply_alias, remap, map_fresh, produced,
  alias_scope, is_scope, resolve_alias, alias_source_name,
}
use llm_proxy_server.Aliases.Sources.{Mapping, IsSourced, produced-Mapping}

-- The state after a new name was mapped to another.
unfoldable pub mapped_fresh : String → String → Kind → AliasContext → AliasContext
mapped_fresh name target kind c = record c {
  original_model_name = some name;
  alias_input_name = some name;
  alias_resolved_name = some target;
  alias_resolved_scope = some (alias_scope c, kind);
  alias_seen_names = target ∷ [];
}

-- The state after the client's name was mapped again, in another scope.
unfoldable pub mapped_again : String → Kind → AliasContext → AliasContext
mapped_again target kind c = record c {
  alias_resolved_name = some target;
  alias_resolved_scope = some (alias_scope c, kind);
  alias_seen_names = target ∷ c.alias_seen_names;
}

-- What one call makes of a name and of the state: `target` is what the source of the name resolves to.
pub data Applied (name : String) (target : String) (kind : Kind) (c : AliasContext)
    : Option String × AliasContext → Type 0 where
  unmapped : produced c name ≡ false → target ≡ name → Applied name target kind c (some name, c)
  fresh :
      produced c name ≡ false
      → target ≢ name
      → Applied name target kind c (some target, mapped_fresh name target kind c)
  kept :
      produced c name ≡ true
      → c.alias_resolved_name ≡ some target
      → Applied name target kind c (some target, c)
  again :
      produced c name ≡ true → Applied name target kind c (some target, mapped_again target kind c)

apply_alias-unmapped :
    (x : Texts) (r : ModelAliasResolver) (name : String) (kind : Kind) (c : AliasContext)
    → produced c name ≡ false
    → resolve_alias x r (some name) c.current_api_surface (some (alias_scope c)) kind ≡ some name
    → apply_alias x r (some name) none kind c ≡ (some name, c)
unfolding apply_alias map_fresh
apply_alias-unmapped x r name kind c p e = ground (arith, p, e, str_eq_iff name name)

apply_alias-fresh :
    (x : Texts) (r : ModelAliasResolver) (name target : String) (kind : Kind) (c : AliasContext)
    → produced c name ≡ false
    → target ≢ name
    → resolve_alias x r (some name) c.current_api_surface (some (alias_scope c)) kind ≡ some target
    → apply_alias x r (some name) none kind c ≡ (some target, mapped_fresh name target kind c)
unfolding apply_alias map_fresh mapped_fresh
apply_alias-fresh x r name target kind c p n e = ground (arith, p, n, e, str_eq_iff name target)

apply_alias-kept :
    (x : Texts) (r : ModelAliasResolver) (name : String) (kind : Kind) (c : AliasContext)
    → produced c name ≡ true
    → c.alias_resolved_scope ≡ some (alias_scope c, kind)
    → apply_alias x r (some name) none kind c ≡ (c.alias_resolved_name, c)
unfolding apply_alias remap
apply_alias-kept x r name kind c p e = ground (arith, p, e)

apply_alias-again :
    (x : Texts) (r : ModelAliasResolver) (name target : String) (kind : Kind) (c : AliasContext)
    → produced c name ≡ true
    → is_scope (alias_scope c) kind c.alias_resolved_scope ≡ false
    → resolve_alias x r c.alias_input_name c.current_api_surface (some (alias_scope c)) kind
      ≡ some target
    → apply_alias x r (some name) none kind c ≡ (some target, mapped_again target kind c)
unfolding apply_alias remap mapped_again
apply_alias-again x r name target kind c p n e = ground (arith, p, n, e)

is_scope_eq :
    (pid : ℕ) (kind : Kind) (scope : Option (ℕ × Kind))
    → is_scope pid kind scope ≡ true
    → scope ≡ some (pid, kind)
is_scope_eq pid kind none h = ground (arith, h)
is_scope_eq pid kind (some (q, k)) h = ground (arith, h)

kept_target :
    (x : Texts) (r : ModelAliasResolver) (target : String) (kind : Kind) (c : AliasContext)
    → Mapping x r c
    → c.alias_resolved_scope ≡ some (alias_scope c, kind)
    → resolve_alias x r c.alias_input_name c.current_api_surface (some (alias_scope c)) kind
      ≡ some target
    → c.alias_resolved_name ≡ some target
kept_target x r target kind c m s e =
    grind (arith, m.from, m.scoped, m.resolved, m.is_resolved, s, e)

pub Applied-cases :
    (x : Texts) (r : ModelAliasResolver) (name target : String) (kind : Kind) (c : AliasContext)
    → IsSourced x r c
    → resolve_alias x r
        (alias_source_name c (some name))
        c.current_api_surface
        (some (alias_scope c))
        kind
      ≡ some target
    → Applied name target kind c (apply_alias x r (some name) none kind c)
unfolding alias_source_name
Applied-cases x r name target kind c h e = elim (Bool-cases (produced c name)) [
  | inl p ↦
      let m = produced-Mapping name h p in
      let source : resolve_alias x r c.alias_input_name c.current_api_surface (some (alias_scope c))
            kind
          ≡ some target =
        ground (arith, p, e) in
      elim (Bool-cases (is_scope (alias_scope c) kind c.alias_resolved_scope)) [
        | inl s ↦
            let scoped = is_scope_eq (alias_scope c) kind c.alias_resolved_scope s in
            let answer = kept_target x r target kind c m scoped source in
            subst (Applied name target kind c)
              (sym (apply_alias-kept x r name kind c p scoped ∙ ap (λ n. (n, c)) answer))
              (kept p answer)
        | inr s ↦
            subst (Applied name target kind c)
              (sym (apply_alias-again x r name target kind c p s source)) (again p)
      ]
  | inr p ↦
      let source : resolve_alias x r (some name) c.current_api_surface (some (alias_scope c)) kind
          ≡ some target =
        ground (arith, p, e) in
      elim (Bool-cases (str_eq name target)) [
        | inl q ↦
            let same : name ≡ target = (str_eq_iff name target).0 q in
            subst (Applied name target kind c)
              (sym (apply_alias-unmapped x r name kind c p (source ∙ ap some (sym same))))
              (unmapped p (sym same))
        | inr q ↦
            let other : target ≢ name = λ s. ground (arith, s, q, str_eq_iff name target) in
            subst (Applied name target kind c)
              (sym (apply_alias-fresh x r name target kind c p other source)) (fresh p other)
      ]
]

pub Applied-IsSourced :
    (x : Texts) (r : ModelAliasResolver) (name target : String) (kind : Kind) (c : AliasContext)
    (answer : Option String × AliasContext)
    → IsSourced x r c
    → resolve_alias x r
        (alias_source_name c (some name))
        c.current_api_surface
        (some (alias_scope c))
        kind
      ≡ some target
    → Applied name target kind c answer
    → IsSourced x r answer.1
unfolding IsSourced alias_source_name mapped_fresh mapped_again
Applied-IsSourced x r name target kind c answer h e (unmapped p s) = h
Applied-IsSourced x r name target kind c answer h e (kept p s) = h
Applied-IsSourced x r name target kind c answer h e (fresh p n) = inr (record {
  input = name;
  pid = alias_scope c;
  kind = kind;
  name = target;
  from = refl;
  scoped = refl;
  resolved = refl;
  is_resolved = ground (arith, p, e);
  seen = ground (arith, str_eq_iff target target);
})
Applied-IsSourced x r name target kind c answer h e (again p) =
    let m = produced-Mapping name h p in
    inr (record {
      input = m.input;
      pid = alias_scope c;
      kind = kind;
      name = target;
      from = m.from;
      scoped = refl;
      resolved = refl;
      is_resolved = ground (arith, p, e, m.from);
      seen = ground (arith, str_eq_iff target target);
    })

-- What the answer and the name itself stand for afterwards.
pub Applied-source :
    (x : Texts) (r : ModelAliasResolver) (name target : String) (kind : Kind) (c : AliasContext)
    (answer : Option String × AliasContext)
    → IsSourced x r c
    → Applied name target kind c answer
    → (answer.0 ≡ some target)
      × (alias_source_name answer.1 answer.0 ≡ alias_source_name c (some name))
      × (alias_source_name answer.1 (some name) ≡ alias_source_name c (some name))
      × (answer.1.current_api_surface ≡ c.current_api_surface)
      × (alias_scope answer.1 ≡ alias_scope c)
unfolding IsSourced alias_source_name mapped_fresh mapped_again produced
Applied-source x r name target kind c answer h (unmapped p s) =
    (ap some (sym s), refl, refl, refl, refl)
Applied-source x r name target kind c answer h (kept p s) =
    (refl, ground (arith, p, s, str_eq_iff target target), refl, refl, refl)
Applied-source x r name target kind c answer h (fresh p n) = (
  refl,
  ground (arith, p, str_eq_iff target target),
  ground (arith, p, str_eq_iff target target, str_eq_iff name name),
  refl,
  refl,
)
Applied-source x r name target kind c answer h (again p) =
    let m = produced-Mapping name h p in
    (
      refl,
      ground (arith, p, str_eq_iff target target),
      ground (arith, p, m.resolved, m.seen, str_eq_iff name m.name),
      refl,
      refl,
    )
