-- ===== src/Aliases/Rules.antt =====
-- The rules of app/model_alias.py: their tests, their order, and the rule that a name hits.
use llm_proxy_server.Prelude.{
  ℕ, Bool, true, false, not, ◌&&◌, Option, none, some, List, [], ◌∷◌, String, get_or, contains,
  text_length, str_eq, ltb, leb, ltb_ℤ, ℤ, if◌then◌else◌, ℕ-Keyed, String-Keyed,
}

-- What the rules use of Python's texts and regular expressions: `casefold`, `in`, and a
-- case-insensitive `search`.
pub record Texts : Type 0 where
  pub casefold : String → String
  pub includes : String → String → Bool
  pub search : String → String → Bool

pub data MatchType : Type 0 where
  exact including regex : MatchType

pub record AliasRule : Type 0 where
  pub id : Option ℕ
  pub pattern : String
  pub target : String
  pub apis : List String
  pub match_type : MatchType
  pub priority : ℤ

abbrev pub is_exact : MatchType → Bool
is_exact exact = true
is_exact _ = false

-- `rule.matches(name, folded)`, as `build_rule` makes it.
unfoldable pub rule_matches : Texts → MatchType → String → String → String → Bool
rule_matches x exact pattern name folded = str_eq name pattern
rule_matches x including pattern name folded = x.includes (x.casefold pattern) folded
rule_matches x regex pattern name folded = x.search pattern name

-- `_MAX_PATTERN_NAME_LEN`
abbrev pub max_pattern_name_len : ℕ
max_pattern_name_len = 256

-- The order of the sort keys `(r.priority, r.id or 0)`: not behind.
unfoldable pub precedes : AliasRule → AliasRule → Bool
precedes r s =
    if ltb_ℤ r.priority s.priority
    then true
    else if ltb_ℤ s.priority r.priority
    then false
    else leb (get_or r.id 0) (get_or s.id 0)

-- A rule that stood before the others goes before those with the same key.
unfoldable pub insert_rule : AliasRule → List AliasRule → List AliasRule
unfolding precedes
insert_rule r [] = r ∷ []
insert_rule r (s ∷ rules) =
    let later = insert_rule r rules in if precedes r s then r ∷ s ∷ rules else s ∷ later

unfoldable pub sort_rules : List AliasRule → List AliasRule
unfolding insert_rule
sort_rules [] = []
sort_rules (r ∷ rules) = insert_rule r (sort_rules rules)

-- The tests that `_match` makes of one rule.
unfoldable pub rule_applies : Texts → String → Option String → AliasRule → Bool
unfolding rule_matches text_length
rule_applies x name api r =
    let exact_only = ltb max_pattern_name_len (text_length name) in
    let folded = if exact_only then "" else x.casefold name in
    if exact_only && not (is_exact r.match_type)
    then false
    else if (elim api as (λ _. Bool) [
      | none ↦ false
      | some surface ↦ not (contains r.apis surface)
    ])
    then false
    else rule_matches x r.match_type r.pattern name folded

unfoldable pub first_rule : (AliasRule → Bool) → List AliasRule → Option AliasRule
first_rule applies [] = none
first_rule applies (r ∷ rules) =
    let later = first_rule applies rules in if applies r then some r else later

-- `_RuleSnapshot.match` over the rules of a snapshot, which are sorted when it is built. The cache of a
-- snapshot keeps what `_match` answers, which depends on nothing else.
unfoldable pub match_rules : Texts → List AliasRule → String → Option String → Option AliasRule
unfolding rule_applies first_rule
match_rules x rules name api = first_rule (rule_applies x name api) rules
