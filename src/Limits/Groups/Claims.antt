-- ===== src/Limits/Groups/Claims.antt =====
-- Every claim of a group on a model or an instance is one of the snapshot of a group that is there: so
-- it is after a reload, and a group that is dropped governs nothing.
use llm_proxy_server.Prelude.{
  ℕ, ◌≡◌, ◌≢◌, refl, sym, ◌∙◌, Bool, true, false, Option, none, some, List, [], ◌∷◌, String, Dict,
  lookup, insert, erase, lookup-insert, lookup-erase, is_some, contains, str_eq, if◌then◌else◌,
  arith, Option-cases, Bool-cases, inl, inr, ℕ-Keyed, String-Keyed, before_char, map, count,
  IsDistinct,
}
use llm_proxy_server.Byok.{provider_key_of}
use llm_proxy_server.Profiles.{default_group_id}
use llm_proxy_server.Limits.Groups.{GroupState, GroupSnapshot, group_for, drop_group, erase_all}
use llm_proxy_server.Limits.Load.{
  GroupRow, snapshot_of, load_groups, claim_all, load_claims, load_group_state,
}

-- The group has a snapshot that lists the claim.
abbrev pub listed : (GroupSnapshot → List String) → Dict ℕ GroupSnapshot → String → ℕ → Bool
listed claims groups x gid = elim (lookup gid groups) [
  | none ↦ false
  | some snap ↦ contains (claims snap) x
]

-- Each claim of the map is listed.
abbrev pub IsListed : (GroupSnapshot → List String) → Dict ℕ GroupSnapshot → Dict String ℕ → Type 0
IsListed claims groups d =
    (x : String) (gid : ℕ) → lookup x d ≡ some gid → listed claims groups x gid ≡ true

pub record IsClaimed (g : GroupState) : Type 0 where
  pub models : IsListed (λ s. s.model_ids) g.groups g.model_to_group
  pub instances : IsListed (λ s. s.provider_keys) g.groups g.provider_to_group

lookup-claim_all :
    (xs : List String) (gid : ℕ) (x : String) (d : Dict String ℕ)
    → lookup x (claim_all xs gid d) ≡ (if contains xs x then some gid else lookup x d)
unfolding claim_all
lookup-claim_all [] gid x d = refl
lookup-claim_all (y ∷ xs) gid x d =
    ground (arith, lookup-claim_all xs gid x (insert y gid d), lookup-insert y x gid d)

lookup-erase_all :
    (xs : List String) (x : String) (d : Dict String ℕ)
    → lookup x (erase_all xs d) ≡ (if contains xs x then none else lookup x d)
unfolding erase_all
lookup-erase_all [] x d = refl
lookup-erase_all (y ∷ xs) x d =
    ground (arith, lookup-erase_all xs x (erase y d), lookup-erase y x d)

-- The ids of the rows.
abbrev pub row_ids : List GroupRow → List ℕ
row_ids gs = map (λ (g : GroupRow). g.id) gs

lookup-load_groups :
    (gs : List GroupRow) (gid : ℕ) (d : Dict ℕ GroupSnapshot)
    → count gid (row_ids gs) ≡ 0
    → lookup gid (load_groups gs d) ≡ lookup gid d
unfolding load_groups
lookup-load_groups [] gid d h = refl
lookup-load_groups (g ∷ gs) gid d h = ground (
  arith,
  lookup-load_groups gs gid (insert g.id (snapshot_of g) d),
  lookup-insert g.id gid (snapshot_of g) d,
)

drop-drop_group :
    (claims : GroupSnapshot → List String) (gid : ℕ) (snap : GroupSnapshot)
    (groups : Dict ℕ GroupSnapshot) (d : Dict String ℕ)
    → lookup gid groups ≡ some snap
    → IsListed claims groups d
    → IsListed claims (erase gid groups) (erase_all (claims snap) d)
drop-drop_group claims gid snap groups d e h x other m =
    ground
      (arith, e, m, h x other, lookup-erase_all (claims snap) x d, lookup-erase gid other groups)

dropped : ℕ → GroupSnapshot → GroupState → GroupState
dropped gid snap g = record {
  groups = erase gid g.groups;
  model_to_group = erase_all snap.model_ids g.model_to_group;
  provider_to_group = erase_all snap.provider_keys g.provider_to_group;
}

drop_group_found :
    (g : GroupState) (gid : ℕ) (snap : GroupSnapshot)
    → lookup gid g.groups ≡ some snap
    → drop_group g gid ≡ dropped gid snap g
unfolding drop_group dropped
drop_group_found g gid snap e = ground (arith, e)

drop_group_absent : (g : GroupState) (gid : ℕ) → lookup gid g.groups ≡ none → drop_group g gid ≡ g
unfolding drop_group
drop_group_absent g gid e = ground (arith, e)

drop_group-IsClaimed : (g : GroupState) (gid : ℕ) → IsClaimed g → IsClaimed (drop_group g gid)
unfolding dropped
drop_group-IsClaimed g gid h = elim (Option-cases (lookup gid g.groups)) [
  | inl e ↦ rw (drop_group_absent g gid e) h
  | inr (snap, e) ↦ rw (drop_group_found g gid snap e) (record {
    models = drop-drop_group (λ s. s.model_ids) gid snap g.groups g.model_to_group e h.models;
    instances =
        drop-drop_group (λ s. s.provider_keys) gid snap g.groups g.provider_to_group e h.instances;
  })
]

-- No claim of the map is by the group of a row that is still to come.
abbrev IsEarlier : Dict String ℕ → List GroupRow → Type 0
IsEarlier d gs = (x : String) (gid : ℕ) → lookup x d ≡ some gid → count gid (row_ids gs) ≡ 0

module _ (claims : GroupSnapshot → List String) (members : GroupRow → List String)
    (same : (g : GroupRow) → claims (snapshot_of g) ≡ members g) where
  claim-IsListed :
      (g : GroupRow) (gs : List GroupRow) (groups : Dict ℕ GroupSnapshot) (d : Dict String ℕ)
      → IsListed claims groups d
      → IsEarlier d (g ∷ gs)
      → IsListed claims (insert g.id (snapshot_of g) groups) (claim_all (members g) g.id d)
  claim-IsListed g gs groups d h earlier x gid m = ground (
    arith,
    m,
    same g,
    h x gid,
    earlier x gid,
    lookup-claim_all (members g) g.id x d,
    lookup-insert g.id gid (snapshot_of g) groups,
  )

  claim-IsEarlier :
      (g : GroupRow) (gs : List GroupRow) (d : Dict String ℕ)
      → IsDistinct (row_ids (g ∷ gs))
      → IsEarlier d (g ∷ gs)
      → IsEarlier (claim_all (members g) g.id d) gs
  claim-IsEarlier g gs d distinct earlier x gid m =
      ground (arith, m, distinct gid, earlier x gid, lookup-claim_all (members g) g.id x d)

  load_claims-IsListed :
      (gs : List GroupRow) (groups : Dict ℕ GroupSnapshot) (d : Dict String ℕ)
      → IsDistinct (row_ids gs)
      → IsListed claims groups d
      → IsEarlier d gs
      → IsListed claims (load_groups gs groups) (load_claims members gs d)
  unfolding load_groups load_claims
  load_claims-IsListed [] groups d distinct h earlier = h
  load_claims-IsListed (g ∷ gs) groups d distinct h earlier =
      load_claims-IsListed gs (insert g.id (snapshot_of g) groups) (claim_all (members g) g.id d)
        (λ u. ground (arith, distinct u)) (claim-IsListed g gs groups d h earlier)
        (claim-IsEarlier g gs d distinct earlier)

-- After a reload of groups with distinct ids, each claim on a model or an instance is listed by the
-- snapshot of the group that has it.
pub load_group_state-IsClaimed :
    (gs : List GroupRow) → IsDistinct (row_ids gs) → IsClaimed (load_group_state gs)
unfolding load_group_state snapshot_of lookup
load_group_state-IsClaimed gs distinct = record {
  models =
      load_claims-IsListed (λ s. s.model_ids) (λ g. g.members) (λ g. refl) gs [] [] distinct
        (λ x gid m. absurd (ground (arith, m))) (λ x gid m. absurd (ground (arith, m)));
  instances =
      load_claims-IsListed (λ s. s.provider_keys) (λ g. g.instance_members) (λ g. refl) gs [] []
        distinct (λ x gid m. absurd (ground (arith, m))) (λ x gid m. absurd (ground (arith, m)));
}

-- The group that governs a model is the Default group or one with a snapshot.
pub group_for_known :
    (g : GroupState) (model_id : Option String)
    → IsClaimed g
    → group_for g model_id ≢ default_group_id
    → is_some (lookup (group_for g model_id) g.groups) ≡ true
unfolding group_for provider_key_of
group_for_known g none h n = absurd (n refl)
group_for_known g (some m) h n =
    let key = before_char b'/' m in
    elim (Bool-cases (str_eq m "")) [
      | inl z ↦ absurd (n (ground (arith, z)))
      | inr z ↦ elim (Option-cases (lookup m g.model_to_group)) [
        | inr (gid, e) ↦ ground (arith, z, e, h.models m gid e)
        | inl e ↦ elim (Option-cases (lookup key g.provider_to_group)) [
          | inr (gid, f) ↦ ground (arith, z, e, f, h.instances key gid f)
          | inl f ↦ absurd (n (ground (arith, z, e, f)))
        ]
      ]
    ]

lookup-drop_group : (g : GroupState) (gid : ℕ) → lookup gid (drop_group g gid).groups ≡ none
unfolding drop_group
lookup-drop_group g gid = elim (Option-cases (lookup gid g.groups)) [
  | inl e ↦ ground (arith, e)
  | inr (snap, e) ↦ ground (arith, e, lookup-erase gid gid g.groups)
]

-- Once a group is dropped, no model is governed by it, whatever claims the other groups have.
pub group_for-drop_group :
    (g : GroupState) (gid : ℕ) (model_id : Option String)
    → IsClaimed g
    → gid ≢ default_group_id
    → group_for (drop_group g gid) model_id ≢ gid
group_for-drop_group g gid model_id h n e =
    let known =
      group_for_known (drop_group g gid) model_id (drop_group-IsClaimed g gid h)
        (λ z. n (sym e ∙ z)) in
    cc (known, e, lookup-drop_group g gid)
