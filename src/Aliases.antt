-- ===== src/Aliases.antt =====
-- app/model_alias.py: the rules by which administrators map model names, and the state of one request
-- that keeps a name from being mapped twice.
mod Rules
pub mod Sorted
pub mod First
pub mod Sources
pub mod Applied
pub mod Once
pub mod Load
mod Tests
pub use Rules.{Texts, MatchType, exact, including, regex, AliasRule, is_exact, max_pattern_name_len}
unfoldable pub use Rules.{
  rule_matches, precedes, insert_rule, sort_rules, rule_applies, first_rule, match_rules,
}
use llm_proxy_server.Prelude.{
  ℕ, ◌+◌, Bool, true, false, not, ◌&&◌, ◌||◌, Option, none, some, List, [], ◌∷◌, String, Dict,
  lookup, insert, get_or, is_some, contains, text_length, str_eq, nat_eq, ltb, leb, ltb_ℤ, ℤ,
  if◌then◌else◌, ℕ-Keyed, String-Keyed, ◌==◌, is_empty,
}
use llm_proxy_server.Profiles.{default_profile_id}

-- The two lists of a profile.
pub data Kind : Type 0 where
  alias fallback : Kind

-- The sorted lists of each profile but Default's, and Default's.
pub record ModelAliasResolver : Type 0 where
  pub snapshot : List AliasRule
  pub profile_snapshots : Dict ℕ (List AliasRule)
  pub fallback_snapshot : List AliasRule
  pub fallback_profile_snapshots : Dict ℕ (List AliasRule)

abbrev pub pick_snapshot : List AliasRule → Dict ℕ (List AliasRule) → Option ℕ → List AliasRule
pick_snapshot default others none = default
pick_snapshot default others (some pid) =
    if nat_eq pid default_profile_id then default else get_or (lookup pid others) []

unfoldable pub snapshot_for : ModelAliasResolver → Option ℕ → Kind → List AliasRule
unfolding lookup
snapshot_for r profile_id alias = pick_snapshot r.snapshot r.profile_snapshots profile_id
snapshot_for r profile_id fallback =
    pick_snapshot r.fallback_snapshot r.fallback_profile_snapshots profile_id

unfoldable pub set_rules : ModelAliasResolver → List AliasRule → ℕ → Kind → ModelAliasResolver
unfolding insert sort_rules
set_rules r rules profile_id fallback =
    if nat_eq profile_id default_profile_id
    then record r { fallback_snapshot = sort_rules rules }
    else record r {
      fallback_profile_snapshots =
          insert profile_id (sort_rules rules) r.fallback_profile_snapshots;
    }
set_rules r rules profile_id alias =
    if nat_eq profile_id default_profile_id
    then record r { snapshot = sort_rules rules }
    else record r { profile_snapshots = insert profile_id (sort_rules rules) r.profile_snapshots }

-- `ModelAliasResolver.resolve`
unfoldable pub resolve_alias :
    Texts → ModelAliasResolver → Option String → Option String → Option ℕ → Kind → Option String
unfolding match_rules snapshot_for
resolve_alias x r none api profile_id kind = none
resolve_alias x r (some name) api profile_id kind =
    elim (match_rules x (snapshot_for r profile_id kind) name api) [
      | none ↦ some name
      | some rule ↦ some rule.target
    ]

-- The context variables of one request.
pub record AliasContext : Type 0 where
  pub original_model_name : Option String
  pub current_api_surface : Option String
  pub alias_resolved_name : Option String
  pub current_profile_id : Option ℕ
  pub alias_input_name : Option String
  pub alias_resolved_scope : Option (ℕ × Kind)
  pub alias_seen_names : List String

unfoldable pub reset_alias_context : AliasContext → AliasContext
reset_alias_context c = record c {
  alias_resolved_name = none;
  alias_input_name = none;
  alias_resolved_scope = none;
  alias_seen_names = [];
  current_profile_id = none;
}

abbrev pub alias_scope : AliasContext → ℕ
alias_scope c = get_or c.current_profile_id default_profile_id

abbrev pub is_name : String → Option String → Bool
is_name name none = false
is_name name (some other) = str_eq name other

-- `_produced_by_this_request`
unfoldable pub produced : AliasContext → String → Bool
produced c name =
    is_some c.alias_resolved_name
    && (is_name name c.alias_resolved_name
        || (contains c.alias_seen_names name || is_name name c.alias_input_name))

unfoldable pub alias_source_name : AliasContext → Option String → Option String
unfolding produced
alias_source_name c none = none
alias_source_name c (some name) = if produced c name then c.alias_input_name else some name

abbrev pub kind_same : Kind → Kind → Bool
kind_same alias alias = true
kind_same fallback fallback = true
kind_same alias fallback = false
kind_same fallback alias = false

abbrev pub is_scope : ℕ → Kind → Option (ℕ × Kind) → Bool
is_scope pid kind none = false
is_scope pid kind (some (q, k)) = nat_eq q pid && kind_same k kind

abbrev pub add_seen : Option String → List String → List String
add_seen none seen = seen
add_seen (some name) seen = name ∷ seen

-- `api` where it is given, and the surface of the request otherwise.
abbrev pub surface_for : Option String → AliasContext → Option String
surface_for none c = c.current_api_surface
surface_for (some api) c = some api

-- A name that this request made before: kept in its scope, and made again from the client's name in
-- another.
unfoldable pub remap :
    Texts → ModelAliasResolver → Option String → Kind → AliasContext → Option String × AliasContext
unfolding resolve_alias
remap x r api kind c =
    let pid = alias_scope c in
    let mapped = resolve_alias x r c.alias_input_name api (some pid) kind in
    if is_scope pid kind c.alias_resolved_scope then (c.alias_resolved_name, c) else (
      mapped,
      record c {
        alias_resolved_name = mapped;
        alias_resolved_scope = some (pid, kind);
        alias_seen_names = add_seen mapped c.alias_seen_names;
      },
    )

-- A name that is new to this request.
unfoldable pub map_fresh :
    Texts
    → ModelAliasResolver
    → String
    → Option String
    → Kind
    → AliasContext
    → Option String × AliasContext
unfolding resolve_alias
map_fresh x r name api kind c =
    let pid = alias_scope c in
    let mapped = resolve_alias x r (some name) api (some pid) kind in
    if is_name name mapped then (mapped, c) else (
      mapped,
      record c {
        original_model_name = some name;
        alias_input_name = some name;
        alias_resolved_name = mapped;
        alias_resolved_scope = some (pid, kind);
        alias_seen_names = add_seen mapped [];
      },
    )

unfoldable pub apply_alias :
    Texts
    → ModelAliasResolver
    → Option String
    → Option String
    → Kind
    → AliasContext
    → Option String × AliasContext
unfolding produced remap map_fresh
apply_alias x r none api kind c = (none, c)
apply_alias x r (some name) api kind c =
    let again = remap x r (surface_for api c) kind c in
    let fresh = map_fresh x r name (surface_for api c) kind c in
    if produced c name then again else fresh
