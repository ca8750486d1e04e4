-- ===== src/Aliases/Load.antt =====
-- `load_from_database` of app/model_alias.py: the lists of the resolver from the rows of the mappings.
pub mod Lists
use llm_proxy_server.Prelude.{
  ℕ, Bool, true, false, not, Option, none, some, List, [], ◌∷◌, ◌++◌, filter, contains, is_empty,
  String, str_eq, nat_eq, if◌then◌else◌, Dict, lookup, insert, erase, get_or, ℤ, pos, ℕ-Keyed,
  String-Keyed,
}
use llm_proxy_server.Profiles.{default_profile_id}
use llm_proxy_server.Aliases.{
  AliasRule, MatchType, exact, including, regex, ModelAliasResolver, Kind, alias, fallback,
  sort_rules,
}

-- What `json.loads` makes of a text: an error, no array, an array that cannot be a set, or an array,
-- less what it has besides texts.
pub data Decoded : Type 0 where
  malformed no_array unhashable : Decoded
  array : List String → Decoded

-- `json.loads`, and whether a regular expression compiles and passes the test of its cost, which reads
-- Python's own parse of it.
pub record Formats : Type 0 where
  pub decode : String → Decoded
  pub is_safe_regex : String → Bool

-- `validate_alias_pattern` of app/auth/models.py: whether it raises no error.
unfoldable pub is_valid_pattern : Formats → String → String → String → Bool
is_valid_pattern f alias_name target match_type =
    if str_eq match_type "exact"
    then not (str_eq alias_name target)
    else if str_eq match_type "contains"
    then true
    else if str_eq match_type "regex"
    then f.is_safe_regex alias_name
    else false

-- `ModelAlias`
pub record AliasRow : Type 0 where
  pub id : ℕ
  pub alias_name : String
  pub target_model_id : String
  pub apis : Option String
  pub match_type : Option String
  pub priority : Option ℤ
  pub profile_id : Option ℕ
  pub kind : Option String
  pub enabled : Bool

-- `_ALL_SURFACES`
abbrev pub all_surfaces : List String
all_surfaces = "openai" ∷ "anthropic" ∷ "azure_openai" ∷ []

-- `_parse_apis`; `none` where it raises.
unfoldable pub parse_apis : Formats → Option String → Option (List String)
parse_apis f none = some all_surfaces
parse_apis f (some raw) = if str_eq raw "" then some all_surfaces else elim (f.decode raw) [
  | malformed ↦ some all_surfaces
  | no_array ↦ some all_surfaces
  | unhashable ↦ none
  | array decoded ↦
      let surfaces = filter (contains decoded) all_surfaces in
      some (if is_empty surfaces then all_surfaces else surfaces)
]

-- `value or default` of a text.
abbrev pub or_text : Option String → String → String
or_text none default = default
or_text (some text) default = if str_eq text "" then default else text

abbrev pub match_type_of : String → MatchType
match_type_of name =
    if str_eq name "exact" then exact else if str_eq name "contains" then including else regex

-- `build_rule` on a row; `none` where it raises `ValueError`.
unfoldable pub build_rule : Formats → AliasRow → List String → Option AliasRule
unfolding is_valid_pattern
build_rule f row apis =
    let match_type = or_text row.match_type "exact" in
    if is_valid_pattern f row.alias_name row.target_model_id match_type
    then some (record {
      id = some row.id;
      pattern = row.alias_name;
      target = row.target_model_id;
      apis = apis;
      match_type = match_type_of match_type;
      priority = get_or row.priority (pos 0);
    })
    else none

-- `rules_by_kind`
pub record RulesByKind : Type 0 where
  pub regular : Dict ℕ (List AliasRule)
  pub instead : Dict ℕ (List AliasRule)

-- `setdefault(pid, []).append(rule)`
abbrev pub append_rule : ℕ → AliasRule → Dict ℕ (List AliasRule) → Dict ℕ (List AliasRule)
append_rule pid rule d = insert pid (get_or (lookup pid d) [] ++ rule ∷ []) d

abbrev pub pid_of : AliasRow → ℕ
pid_of row =
    let pid = get_or row.profile_id default_profile_id in
    if nat_eq pid 0 then default_profile_id else pid

unfoldable pub add_rule : AliasRow → AliasRule → RulesByKind → RulesByKind
unfolding insert lookup
add_rule row rule by_kind =
    let kind = or_text row.kind "alias" in
    if str_eq kind "alias"
    then record by_kind { regular = append_rule (pid_of row) rule by_kind.regular }
    else if str_eq kind "fallback"
    then record by_kind { instead = append_rule (pid_of row) rule by_kind.instead }
    else by_kind

-- One turn of the loop; `none` where it raises.
unfoldable pub load_row : Formats → AliasRow → RulesByKind → Option RulesByKind
unfolding parse_apis build_rule add_rule
load_row f row by_kind = if not row.enabled then some by_kind else elim (parse_apis f row.apis) [
  | none ↦ none
  | some apis ↦ elim (build_rule f row apis) [
    | none ↦ some by_kind
    | some rule ↦ some (add_rule row rule by_kind)
  ]
]

unfoldable pub load_rows : Formats → List AliasRow → RulesByKind → Option RulesByKind
unfolding load_row
load_rows f [] by_kind = some by_kind
load_rows f (row ∷ rows) by_kind = elim (load_row f row by_kind) [
  | none ↦ none
  | some next ↦ load_rows f rows next
]

-- `_RuleSnapshot(rules)` for each profile.
unfoldable pub sort_all : Dict ℕ (List AliasRule) → Dict ℕ (List AliasRule)
unfolding sort_rules
sort_all [] = []
sort_all ((pid, rules) ∷ d) = (pid, sort_rules rules) ∷ sort_all d

unfoldable pub install_rules : RulesByKind → ModelAliasResolver
unfolding lookup erase sort_all sort_rules
install_rules by_kind = record {
  snapshot = sort_rules (get_or (lookup default_profile_id by_kind.regular) []);
  profile_snapshots = sort_all (erase default_profile_id by_kind.regular);
  fallback_snapshot = sort_rules (get_or (lookup default_profile_id by_kind.instead) []);
  fallback_profile_snapshots = sort_all (erase default_profile_id by_kind.instead);
}

-- `none` where the reload raises, which leaves the lists as they were.
unfoldable pub load_from_database : Formats → List AliasRow → Option ModelAliasResolver
unfolding load_rows install_rules
load_from_database f rows = elim (load_rows f rows (record { regular = []; instead = [] })) [
  | none ↦ none
  | some by_kind ↦ some (install_rules by_kind)
]
