-- ===== src/Pools/Settle/Fair.antt =====
-- What a settlement of a pool with a limit charges each member.
use llm_proxy_server.Prelude.{
  Bool, fun_ext, subst, get_or, max_zero, if◌then◌else◌, ◌-ℤ◌, Bool-cases, inl, inr, ℕ, suc, ◌+◌,
  ◌≡◌, refl, ap, ap₂, ◌∙◌, sym, Bool, true, false, not, ◌&&◌, some, List, [], ◌∷◌, map, arith, ℤ,
  pos, ◌+ℤ◌, ◌≤ℤ◌, leb_ℤ, sum_ℤ, sum_ℤ-+ℤ, sum_by, +ℤ_parts, Dict, contains, All, All-map₂,
  IsDistinct, ℕ-Keyed, Pair-Keyed, min,
}
use llm_proxy_server.Profiles.{ProfileRegistry}
use llm_proxy_server.Limits.Groups.{
  GroupState, Scope, ScopeKind-Keyed, settlement_scopes, member_limit_for_scope,
}
use llm_proxy_server.Pools.Apportion.{MemberShare, ids, apportion, share_of, charge_headroom}
use llm_proxy_server.Pools.Apportion.Shares.{apportion_charge}
use llm_proxy_server.Pools.Settle.{
  Key, Usage, Database, Member, fold_models_into_scopes, record_write, is_unlimited, pool_delta,
  member_position, limited_write, scope_write, settle_pool,
}
use llm_proxy_server.Pools.Settle.Writes.{member_ids}
use llm_proxy_server.Pools.Settle.Balance.{charge_of, sum_ℤ-eq_on, Rewritten, settle_pool-Rewritten}

-- Predicates and sums over the positions are predicates and sums over the members.
All-map {κ} :
    {A B : Type 0} (P : B → Type κ) (f : A → B) (xs : List A)
    → All P (map f xs)
    → All (λ x. P (f x)) xs
All-map P f [] h = tt
All-map P f (x ∷ xs) h = (h.0, All-map P f xs h.1)

All-map_from {κ} :
    {A B : Type 0} (P : B → Type κ) (f : A → B) (xs : List A)
    → All (λ x. P (f x)) xs
    → All P (map f xs)
All-map_from P f [] h = tt
All-map_from P f (x ∷ xs) h = (h.0, All-map_from P f xs h.1)

sum_ℤ-map :
    {A B : Type 0} (h : B → ℤ) (f : A → B) (xs : List A)
    → sum_ℤ h (map f xs) ≡ sum_ℤ (λ x. h (f x)) xs
sum_ℤ-map h f [] = refl
sum_ℤ-map h f (x ∷ xs) = ap (λ t. h (f x) +ℤ t) (sum_ℤ-map h f xs)

sum_by-map :
    {A B : Type 0} (h : B → ℕ) (f : A → B) (xs : List A)
    → sum_by h (map f xs) ≡ sum_by (λ x. h (f x)) xs
sum_by-map h f [] = refl
sum_by-map h f (x ∷ xs) = ap (λ (t : ℕ). h (f x) + t) (sum_by-map h f xs)

-- A charge between the old one and its bound.
add_between :
    (c s : ℤ) (headroom : ℕ)
    → pos 0 ≤ℤ s
    → s ≤ℤ pos headroom
    → (c ≤ℤ c +ℤ s) × (c +ℤ s ≤ℤ c +ℤ pos headroom)
add_between c s headroom lo hi =
    (omega (arith, +ℤ_parts c s), omega (arith, +ℤ_parts c s, +ℤ_parts c (pos headroom)))

module _ (pool today : ℕ) (p : ProfileRegistry) (g : GroupState) (usage : List Usage)
    (dissolving : Bool) (db : Database) (s : Scope) (k : ℕ) (ms : List Member) where
  abbrev by_scope : Dict Key ℕ
  by_scope = fold_models_into_scopes g usage []

  abbrev position : Member → MemberShare
  position = member_position pool today p g by_scope db s

  abbrev after : Database
  after = settle_pool pool today p g usage dissolving ms db

  abbrev shares : Dict ℕ ℤ
  shares = apportion (pos (suc k)) (map position ms)

  ids-positions : (xs : List Member) → ids (map position xs) ≡ member_ids xs
  unfolding member_position
  ids-positions [] = refl
  ids-positions (x ∷ xs) = ap (λ us. x.user_id ∷ us) (ids-positions xs)

  charged-position : (m : Member) → (position m).charged ≡ charge_of pool today db s m
  unfolding member_position
  charged-position m = refl

  user_id-position : (m : Member) → (position m).user_id ≡ m.user_id
  unfolding member_position
  user_id-position m = refl

  limited_charge :
      (m : Member)
      → (limited_write pool today p g by_scope db shares s m).charge
        ≡ some (charge_of pool today db s m +ℤ share_of shares m.user_id)
  unfolding limited_write record_write
  limited_charge m = refl

  module _ (limited : is_unlimited pool today p g by_scope db ms s ≡ false)
      (consumed : pool_delta pool today p g by_scope db ms s ≡ pos (suc k)) where
    some_consumed :
        (leb_ℤ (pos (suc k)) (pos 0) && leb_ℤ (pos 0) (pos (suc k)) && not dissolving) ≡ false
    some_consumed = ground arith

    write_limited :
        (m : Member)
        → scope_write pool today p g by_scope db dissolving ms s m
          ≡ limited_write pool today p g by_scope db shares s m
    unfolding scope_write
    write_limited m = simp (limited, consumed, some_consumed)

    charge_after :
        (m : Member)
        → Rewritten pool today p g usage dissolving db s ms m
        → charge_of pool today after s m ≡ charge_of pool today db s m +ℤ share_of shares m.user_id
    charge_after m r = simp (r.0, write_limited m, limited_charge m)

  abbrev headroom : Member → ℕ
  headroom m = charge_headroom (position m)

  charged_nonneg :
      (xs : List Member)
      → All (λ m. pos 0 ≤ℤ charge_of pool today db s m) xs
      → All (λ m. pos 0 ≤ℤ m.charged) (map position xs)
  charged_nonneg xs h =
      All-map_from (λ m. pos 0 ≤ℤ m.charged) position xs
        (All-map₂ {R = λ m. pos 0 ≤ℤ (position m).charged} (λ m le le'. rw (charged-position m) le)
          xs h h)

  split_of_ms :
      IsDistinct (member_ids ms)
      → All (λ m. pos 0 ≤ℤ charge_of pool today db s m) ms
      → All
          (λ x.
            (pos 0 ≤ℤ share_of shares x.user_id)
            × (share_of shares x.user_id ≤ℤ pos (charge_headroom x)))
          (map position ms)
        × (sum_ℤ (λ x. share_of shares x.user_id) (map position ms)
            ≡ pos (min (suc k) (sum_by charge_headroom (map position ms))))
  split_of_ms distinct nonneg =
      apportion_charge (suc k) (map position ms) (rw (ids-positions ms) distinct)
        (charged_nonneg ms nonneg)

  -- The shares, read by the members' own ids.
  abbrev Shared : Member → Type 0
  Shared m = (pos 0 ≤ℤ share_of shares m.user_id) × (share_of shares m.user_id ≤ℤ pos (headroom m))

  Shared-position :
      (xs : List Member)
      → All
          (λ x.
            (pos 0 ≤ℤ share_of shares x.user_id)
            × (share_of shares x.user_id ≤ℤ pos (charge_headroom x)))
          (map position xs)
      → All Shared xs
  Shared-position [] h = tt
  Shared-position (x ∷ xs) h = (rw (user_id-position x) at h.0, Shared-position xs h.1)

  sum_ℤ-shares :
      (xs : List Member)
      → sum_ℤ (λ x. share_of shares x.user_id) (map position xs)
        ≡ sum_ℤ (λ m. share_of shares m.user_id) xs
  sum_ℤ-shares [] = refl
  sum_ℤ-shares (x ∷ xs) = ap₂ (λ u t. share_of shares u +ℤ t) (user_id-position x) (sum_ℤ-shares xs)

  abbrev Charged : Member → Type 0
  Charged m =
      (charge_of pool today db s m ≤ℤ charge_of pool today after s m)
      × (charge_of pool today after s m ≤ℤ charge_of pool today db s m +ℤ pos (headroom m))

  settle_pool-headroom :
      is_unlimited pool today p g by_scope db ms s ≡ false
      → pool_delta pool today p g by_scope db ms s ≡ pos (suc k)
      → IsDistinct (member_ids ms)
      → contains (settlement_scopes g) s ≡ true
      → All (λ m. pos 0 ≤ℤ charge_of pool today db s m) ms
      → All
          (λ m.
            (charge_of pool today db s m ≤ℤ charge_of pool today after s m)
            × (charge_of pool today after s m ≤ℤ charge_of pool today db s m +ℤ pos (headroom m)))
          ms
        × (sum_ℤ (charge_of pool today after s) ms
            ≡ sum_ℤ (charge_of pool today db s) ms +ℤ pos (min (suc k) (sum_by headroom ms)))
  settle_pool-headroom limited consumed distinct listed nonneg =
      let fair = split_of_ms distinct nonneg in
      let rewritten =
        settle_pool-Rewritten pool today p g usage dissolving db s ms distinct listed in
      (
        All-map₂ {P = Shared} {R = Charged}
            (λ m share r.
              simp (charge_after limited consumed m r)
                (add_between _ _ (headroom m) share.0 share.1))
            ms (Shared-position ms fair.0) rewritten,
        sum_ℤ-eq_on (charge_of pool today after s)
              (λ m. charge_of pool today db s m +ℤ share_of shares m.user_id) ms
              (All-map₂ (λ m r r'. charge_after limited consumed m r) ms rewritten rewritten)
            ∙ sum_ℤ-+ℤ (charge_of pool today db s) (λ m. share_of shares m.user_id) ms
            ∙ ap (λ t. sum_ℤ (charge_of pool today db s) ms +ℤ t)
                (sym (sum_ℤ-shares ms)
                  ∙ fair.1
                  ∙ ap (λ k'. pos (min (suc k) k')) (sum_by-map charge_headroom position ms)),
      )

  -- What can still be charged to a member: nothing if deactivated.
  abbrev pub room : Member → ℕ
  room m =
      if m.is_active
      then max_zero
          (pos (get_or (member_limit_for_scope p g m.user_id s) 0) -ℤ charge_of pool today db s m)
      else 0

  headroom-room : headroom ≡ room
  unfolding member_position ◌-ℤ◌
  headroom-room =
      fun_ext
        (λ m. elim (Bool-cases m.is_active) [ inl e ↦ simp e refl | inr e ↦ simp e (ground arith) ])

  -- Requests consumed by a pool with a limit are charged to distinct members with no negative
  -- charge: each charge grows by at most the headroom below the member's limit, which is none for a
  -- deactivated member, and together they grow by what was consumed, or by all the headroom where
  -- that is less.
  pub settle_pool-charges :
      is_unlimited pool today p g by_scope db ms s ≡ false
      → pool_delta pool today p g by_scope db ms s ≡ pos (suc k)
      → IsDistinct (member_ids ms)
      → contains (settlement_scopes g) s ≡ true
      → All (λ m. pos 0 ≤ℤ charge_of pool today db s m) ms
      → All
          (λ m.
            (charge_of pool today db s m ≤ℤ charge_of pool today after s m)
            × (charge_of pool today after s m ≤ℤ charge_of pool today db s m +ℤ pos (room m)))
          ms
        × (sum_ℤ (charge_of pool today after s) ms
            ≡ sum_ℤ (charge_of pool today db s) ms +ℤ pos (min (suc k) (sum_by room ms)))
  settle_pool-charges limited consumed distinct listed nonneg =
      subst
        (λ f.
          All
            (λ m.
              (charge_of pool today db s m ≤ℤ charge_of pool today after s m)
              × (charge_of pool today after s m ≤ℤ charge_of pool today db s m +ℤ pos (f m)))
            ms
          × (sum_ℤ (charge_of pool today after s) ms
              ≡ sum_ℤ (charge_of pool today db s) ms +ℤ pos (min (suc k) (sum_by f ms))))
        headroom-room (settle_pool-headroom limited consumed distinct listed nonneg)
