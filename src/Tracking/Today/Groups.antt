-- ===== src/Tracking/Today/Groups.antt =====
-- What today's counts take for a group's requests is what the limiter charges to the group, and the
-- queries pick the same rows as the loops over the buffer.
use llm_proxy_server.Prelude.{
  ℕ, ◌≡◌, ◌≢◌, ◌↔◌, refl, sym, ◌∙◌, true, false, not, ◌||◌, some, List, [], ◌∷◌, String, Dict,
  lookup, any, contains, keys, contains-filter, nat_eq, str_eq, str_eq_iff, arith, All, has_char,
  before_char, is_some, Bool-cases, inl, inr, ℕ-Keyed, String-Keyed,
}
use llm_proxy_server.Byok.{provider_key_of, is_byok_model}
use llm_proxy_server.Profiles.{default_group_id}
use llm_proxy_server.Limits.Groups.{GroupState, GroupSnapshot, group_for}
use llm_proxy_server.Tracking.Sql.{instance_match}
use llm_proxy_server.Tracking.Sql.Agrees.{instance_match-before_char, byok_match-is_byok_model}
use llm_proxy_server.Tracking.Today.{
  grouped_keys, has_key_of, is_grouped, sql_grouped, in_group, sql_in_group,
}
use llm_proxy_server.Tracking.Keys.{UsageKey-Keyed}

-- Provider keys have no slash and are not empty, and no model id is empty.
abbrev pub IsKeyList : List String → Type 0
IsKeyList ks = All (λ k. (has_char b'/' k ≡ false) × (str_eq k "" ≡ false)) ks

any-instance_match :
    (model : String) (ks : List String)
    → IsKeyList ks
    → any (instance_match model) ks ≡ contains ks (before_char b'/' model)
any-instance_match model [] h = refl
any-instance_match model (k ∷ ks) h = ground (
  arith,
  instance_match-before_char model k h.0.0,
  str_eq_iff (before_char b'/' model) k,
  str_eq_iff k (before_char b'/' model),
  any-instance_match model ks h.1,
)

no_empty_key : (ks : List String) → IsKeyList ks → contains ks "" ≡ false
no_empty_key [] h = refl
no_empty_key (k ∷ ks) h = ground (arith, h.0.1, no_empty_key ks h.1)

has_key_of-before_char :
    (ks : List String) (model : String)
    → str_eq model "" ≡ false
    → has_key_of ks model ≡ contains ks (before_char b'/' model)
unfolding has_key_of provider_key_of
has_key_of-before_char ks model e = rw (e, has_key_of, provider_key_of) refl

has_key_of_empty : (ks : List String) → has_key_of ks "" ≡ false
unfolding has_key_of provider_key_of
has_key_of_empty ks = refl

pub has_key_of-instance_match :
    (model : String) (ks : List String)
    → IsKeyList ks
    → any (instance_match model) ks ≡ has_key_of ks model
unfolding before_char
has_key_of-instance_match model ks h = elim (Bool-cases (str_eq model "")) [
  | inl e ↦
      let empty : model ≡ "" = (str_eq_iff model "").0 e in
      rw (empty, has_key_of_empty ks) (any-instance_match "" ks h ∙ no_empty_key ks h)
  | inr e ↦ any-instance_match model ks h ∙ sym (has_key_of-before_char ks model e)
]

-- No claim of a group is on an empty model id, and the provider keys are keys.
pub record IsNamed (g : GroupState) : Type 0 where
  pub models : contains (grouped_keys g).0 "" ≡ false
  pub instances : IsKeyList (grouped_keys g).1

-- The query of `get_today_count` leaves out just the models that the loop over the buffer leaves out.
pub sql_grouped-is_grouped :
    (g : GroupState) (model : String) → IsNamed g → sql_grouped g model ≡ is_grouped g model
unfolding sql_grouped is_grouped
sql_grouped-is_grouped g model h =
    rw
      (
        has_key_of-instance_match model (keys g.provider_to_group) h.instances,
        byok_match-is_byok_model model,
      )
      (elim (Bool-cases (str_eq model "")) [
        | inl e ↦
            let empty : model ≡ "" = (str_eq_iff model "").0 e in
            rw (empty, h.models, has_key_of_empty (keys g.provider_to_group)) refl
        | inr e ↦ ground (arith, e)
      ])

contains-keys-lookup : (x : String) (d : Dict String ℕ) → contains (keys d) x ≡ is_some (lookup x d)
unfolding lookup
contains-keys-lookup x [] = refl
contains-keys-lookup x ((j, v) ∷ d) = ground (arith, contains-keys-lookup x d)

-- Today's Default count leaves out a model of a nonempty id just when the limiter charges it to a named
-- group, or when a BYOK instance serves it.
pub is_grouped-group_for :
    (g : GroupState) (model : String)
    → str_eq model "" ≡ false
    → ((x : String) → lookup x g.model_to_group ≢ some default_group_id)
    → ((x : String) → lookup x g.provider_to_group ≢ some default_group_id)
    → is_grouped g model
      ≡ (is_byok_model (some model) || not (nat_eq (group_for g (some model)) default_group_id))
unfolding is_grouped group_for provider_key_of
is_grouped-group_for g model e hm hp = ground (
  arith,
  e,
  hm model,
  hp (before_char b'/' model),
  has_key_of-before_char (keys g.provider_to_group) model e,
  contains-keys-lookup model g.model_to_group,
  contains-keys-lookup (before_char b'/' model) g.provider_to_group,
)

-- The snapshot lists just the models and the instances that the maps give to the group.
pub record IsExact (g : GroupState) (gid : ℕ) (snap : GroupSnapshot) : Type 0 where
  pub models :
      (x : String) → (contains snap.model_ids x ≡ true) ↔ (lookup x g.model_to_group ≡ some gid)
  pub instances :
      (x : String)
      → (contains snap.provider_keys x ≡ true) ↔ (lookup x g.provider_to_group ≡ some gid)

-- The query of `get_today_group_count` picks just the models that the loop over the buffer counts.
pub sql_in_group-in_group :
    (g : GroupState) (model_ids provider_keys : List String) (model : String)
    → IsKeyList provider_keys
    → contains model_ids "" ≡ false
    → sql_in_group g model_ids provider_keys model ≡ in_group g model_ids provider_keys model
unfolding sql_in_group in_group
sql_in_group-in_group g model_ids provider_keys model h unnamed =
    rw (has_key_of-instance_match model provider_keys h) (elim (Bool-cases (str_eq model "")) [
      | inl e ↦
          let empty : model ≡ "" = (str_eq_iff model "").0 e in
          rw (empty, unnamed, has_key_of_empty provider_keys) refl
      | inr e ↦ ground (arith, e)
    ])

pub in_group-group_for :
    (g : GroupState) (gid : ℕ) (snap : GroupSnapshot) (model : String)
    → str_eq model "" ≡ false
    → gid ≢ default_group_id
    → IsExact g gid snap
    → in_group g snap.model_ids snap.provider_keys model ≡ nat_eq (group_for g (some model)) gid
unfolding in_group group_for provider_key_of
in_group-group_for g gid snap model e named h = ground (
  arith,
  e,
  named,
  h.models model,
  h.instances (before_char b'/' model),
  has_key_of-before_char snap.provider_keys model e,
  contains-filter (λ m. not (contains snap.model_ids m)) model (keys g.model_to_group),
  contains-keys-lookup model g.model_to_group,
)
