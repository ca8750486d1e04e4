-- ===== src/Aliases/Load/Lists.antt =====
-- Which rules a reload puts in which list.
use llm_proxy_server.Prelude.{
  append_nil, append_assoc, ℕ, ◌≡◌, refl, sym, ap, ◌∙◌, Bool, true, false, ◌&&◌, Option, none, some,
  List, [], ◌∷◌, ◌++◌, String, str_eq, str_eq_iff, nat_eq, nat_eq_iff, if◌then◌else◌, Dict, lookup,
  lookup-insert, lookup-erase, erase, get_or, arith, Option-cases, Bool-cases, inl, inr, ℕ-Keyed,
}
use llm_proxy_server.Profiles.{default_profile_id}
use llm_proxy_server.Aliases.{
  AliasRule, ModelAliasResolver, Kind, alias, fallback, snapshot_for, sort_rules,
}
use llm_proxy_server.Aliases.Load.{
  Formats, AliasRow, parse_apis, or_text, build_rule, RulesByKind, pid_of, add_rule, load_row,
  load_rows, sort_all, install_rules, load_from_database,
}

-- The rule of a row, if the row is enabled and valid.
abbrev pub rule_of : Formats → AliasRow → Option AliasRule
rule_of f row =
    if row.enabled
    then (elim (parse_apis f row.apis) as (λ _. Option AliasRule) [
      | none ↦ none
      | some apis ↦ build_rule f row apis
    ])
    else none

abbrev pub is_of_kind : Kind → AliasRow → Bool
is_of_kind alias row = str_eq (or_text row.kind "alias") "alias"
is_of_kind fallback row = str_eq (or_text row.kind "alias") "fallback"

-- What a row adds to the list of a profile and a kind.
abbrev pub rules_of_row : Formats → ℕ → Kind → AliasRow → List AliasRule
rules_of_row f pid kind row = elim (rule_of f row) as (λ _. List AliasRule) [
  | none ↦ []
  | some rule ↦ if nat_eq (pid_of row) pid && is_of_kind kind row then rule ∷ [] else []
]

-- The rules of the enabled and valid rows of a profile and a kind, in the order of the rows.
abbrev pub rules_of : Formats → ℕ → Kind → List AliasRow → List AliasRule
rules_of f pid kind [] = []
rules_of f pid kind (row ∷ rows) = rules_of_row f pid kind row ++ rules_of f pid kind rows

abbrev side : Kind → RulesByKind → Dict ℕ (List AliasRule)
side alias by_kind = by_kind.regular
side fallback by_kind = by_kind.instead

abbrev list_at : ℕ → Kind → RulesByKind → List AliasRule
list_at pid kind by_kind = get_or (lookup pid (side kind by_kind)) []

kinds_apart : (kind : String) → str_eq kind "fallback" ≡ true → str_eq kind "alias" ≡ false
kinds_apart kind h = ap (λ t. str_eq t "alias") ((str_eq_iff kind "fallback").0 h)

list_at-add_rule :
    (pid : ℕ) (kind : Kind) (row : AliasRow) (rule : AliasRule) (by_kind : RulesByKind)
    → list_at pid kind (add_rule row rule by_kind)
      ≡ list_at pid kind by_kind
        ++ (if nat_eq (pid_of row) pid && is_of_kind kind row then rule ∷ [] else [])
unfolding add_rule
list_at-add_rule pid alias row rule by_kind =
    let base = list_at pid alias by_kind in
    let added =
      lookup-insert (pid_of row) pid (list_at (pid_of row) alias by_kind ++ rule ∷ [])
        by_kind.regular in
    grind (arith, added, append_nil base, nat_eq_iff (pid_of row) pid)
list_at-add_rule pid fallback row rule by_kind =
    let base = list_at pid fallback by_kind in
    let added =
      lookup-insert (pid_of row) pid (list_at (pid_of row) fallback by_kind ++ rule ∷ [])
        by_kind.instead in
    let kind = or_text row.kind "alias" in
    elim (Bool-cases (str_eq kind "fallback")) [
      | inl h ↦
          grind (arith, h, kinds_apart kind h, added, append_nil base, nat_eq_iff (pid_of row) pid)
      | inr h ↦ grind (arith, h, append_nil base)
    ]

list_at-load_row :
    (f : Formats) (pid : ℕ) (kind : Kind) (row : AliasRow) (by_kind next : RulesByKind)
    → load_row f row by_kind ≡ some next
    → list_at pid kind next ≡ list_at pid kind by_kind ++ rules_of_row f pid kind row
unfolding load_row
list_at-load_row f pid kind row by_kind next e =
    let base = list_at pid kind by_kind in
    elim (Bool-cases row.enabled) [
      | inr d ↦ grind (arith, e, d, append_nil base)
      | inl d ↦ elim (Option-cases (parse_apis f row.apis)) [
        | inl p ↦ absurd (ground (arith, e, d, p))
        | inr (apis, p) ↦ elim (Option-cases (build_rule f row apis)) [
          | inl b ↦ grind (arith, e, d, p, b, append_nil base)
          | inr (rule, b) ↦ grind (arith, e, d, p, b, list_at-add_rule pid kind row rule by_kind)
        ]
      ]
    ]

list_at-load_rows :
    (f : Formats) (pid : ℕ) (kind : Kind) (rows : List AliasRow) (by_kind next : RulesByKind)
    → load_rows f rows by_kind ≡ some next
    → list_at pid kind next ≡ list_at pid kind by_kind ++ rules_of f pid kind rows
unfolding load_rows
list_at-load_rows f pid kind [] by_kind next e =
    grind (arith, e, append_nil (list_at pid kind by_kind))
list_at-load_rows f pid kind (row ∷ rows) by_kind next e =
    elim (Option-cases (load_row f row by_kind)) [
      | inl l ↦ absurd (ground (arith, e, l))
      | inr (middle, l) ↦
          list_at-load_rows f pid kind rows middle next (ground (arith, e, l))
          ∙ ap (λ list. list ++ rules_of f pid kind rows)
              (list_at-load_row f pid kind row by_kind middle l)
          ∙ append_assoc (list_at pid kind by_kind) (rules_of_row f pid kind row)
              (rules_of f pid kind rows)
    ]

sort_all-lookup :
    (pid : ℕ) (d : Dict ℕ (List AliasRule))
    → get_or (lookup pid (sort_all d)) [] ≡ sort_rules (get_or (lookup pid d) [])
unfolding sort_all lookup sort_rules
sort_all-lookup pid [] = refl
sort_all-lookup pid ((j, rules) ∷ d) = ground (arith, sort_all-lookup pid d)

others-install_rules :
    (pid : ℕ) (d : Dict ℕ (List AliasRule))
    → nat_eq pid default_profile_id ≡ false
    → get_or (lookup pid (sort_all (erase default_profile_id d))) []
      ≡ sort_rules (get_or (lookup pid d) [])
others-install_rules pid d h =
    let same : lookup pid (erase default_profile_id d) ≡ lookup pid d =
      grind (arith, h, lookup-erase default_profile_id pid d, nat_eq_iff pid default_profile_id) in
    sort_all-lookup pid (erase default_profile_id d) ∙ ap (λ l. sort_rules (get_or l [])) same

snapshot_for-install_rules :
    (pid : ℕ) (kind : Kind) (by_kind : RulesByKind)
    → snapshot_for (install_rules by_kind) (some pid) kind ≡ sort_rules (list_at pid kind by_kind)
unfolding snapshot_for install_rules
snapshot_for-install_rules pid alias by_kind =
    grind (arith, others-install_rules pid by_kind.regular, nat_eq_iff pid default_profile_id)
snapshot_for-install_rules pid fallback by_kind =
    grind (arith, others-install_rules pid by_kind.instead, nat_eq_iff pid default_profile_id)

list_at_empty :
    (pid : ℕ) (kind : Kind) → list_at pid kind (record { regular = []; instead = [] }) ≡ []
unfolding lookup
list_at_empty pid alias = refl
list_at_empty pid fallback = refl

-- A reload that succeeds leaves in the list of each profile and kind the rules of the enabled and valid
-- rows of that profile and kind, sorted by priority and id: a bad row, or one of an unknown kind, is left
-- out and takes no other with it, and a row without profile counts as the default one's.
pub load_from_database-rules_of :
    (f : Formats) (rows : List AliasRow) (pid : ℕ) (kind : Kind) (r : ModelAliasResolver)
    → load_from_database f rows ≡ some r
    → snapshot_for r (some pid) kind ≡ sort_rules (rules_of f pid kind rows)
unfolding load_from_database
load_from_database-rules_of f rows pid kind r e =
    let empty : RulesByKind = record { regular = []; instead = [] } in
    elim (Option-cases (load_rows f rows empty)) [
      | inl l ↦ absurd (ground (arith, e, l))
      | inr (next, l) ↦
          let same : install_rules next ≡ r = ground (arith, e, l) in
          ap (λ s. snapshot_for s (some pid) kind) (sym same)
          ∙ snapshot_for-install_rules pid kind next
          ∙ ap sort_rules (
              list_at-load_rows f pid kind rows empty next l
              ∙ ap (λ l. l ++ rules_of f pid kind rows) (list_at_empty pid kind))
    ]
