-- ===== src/Pools/Join/Level.antt =====
-- Each member of a pool is charged its rows and its carry, whoever joins or leaves.
use llm_proxy_server.Prelude.{
  ℕ, ◌≤◌, ◌≡◌, ap, inl, inr, Bool, true, List, [], ◌∷◌, arith, ℤ, pos, ◌≤ℤ◌, sum_ℤ, pos_part,
  neg_part, +ℤ_parts, eq_of_parts, Dict, contains, All, All-map₂, IsDistinct, ℕ-Keyed, Pair-Keyed,
}
use llm_proxy_server.Profiles.{ProfileRegistry}
use llm_proxy_server.Limits.Groups.{GroupState, Scope, ScopeKind-Keyed, settlement_scopes}
use llm_proxy_server.Pools.Settle.{
  Key, Usage, Database, Member, fold_models_into_scopes, rows_of, carry_in, pool_delta, settle_pool,
}
use llm_proxy_server.Pools.Settle.Writes.{member_ids}
use llm_proxy_server.Pools.Settle.Balance.{
  charge_of, used_of, scope_write-cases, settle_pool-Rewritten, zero_difference,
}

-- The member's charge is what the rate limiter counts for the member.
abbrev pub IsLevel : ℕ → ℕ → Dict Key ℕ → Database → Scope → Member → Type 0
IsLevel pool today by_scope db s m =
    charge_of pool today db s m ≡ used_of pool today by_scope db s m

-- No rows were taken away.
abbrev pub Grows : Dict Key ℕ → Dict Key ℕ → Scope → Member → Type 0
Grows old new s m = rows_of old m.user_id s ≤ rows_of new m.user_id s

sum_ℤ-le :
    (f h : Member → ℤ) (ms : List Member) → All (λ m. f m ≤ℤ h m) ms → sum_ℤ f ms ≤ℤ sum_ℤ h ms
sum_ℤ-le f h [] e = omega arith
sum_ℤ-le f h (m ∷ ms) e =
    omega
      (arith, e.0, sum_ℤ-le f h ms e.1, +ℤ_parts (f m) (sum_ℤ f ms), +ℤ_parts (h m) (sum_ℤ h ms))

-- Sums that agree, of functions in order, agree at each element.
equal_of_sums :
    (f h : Member → ℤ) (ms : List Member)
    → All (λ m. f m ≤ℤ h m) ms
    → sum_ℤ f ms ≡ sum_ℤ h ms
    → All (λ m. f m ≡ h m) ms
equal_of_sums f h [] e same = tt
equal_of_sums f h (m ∷ ms) e same =
    let facts = sum_ℤ-le f h ms e.1 in
    (
      eq_of_parts (f m) (h m) (
          omega (
            arith,
            e.0,
            facts,
            ap pos_part same,
            ap neg_part same,
            +ℤ_parts (f m) (sum_ℤ f ms),
            +ℤ_parts (h m) (sum_ℤ h ms),
          )),
      equal_of_sums f h ms e.1 (
          eq_of_parts (sum_ℤ f ms) (sum_ℤ h ms) (
            omega (
              arith,
              e.0,
              facts,
              ap pos_part same,
              ap neg_part same,
              +ℤ_parts (f m) (sum_ℤ f ms),
              +ℤ_parts (h m) (sum_ℤ h ms),
            ))),
    )

module _ (pool today : ℕ) (p : ProfileRegistry) (g : GroupState) (usage : List Usage)
    (old : Dict Key ℕ) (s : Scope) (listed : contains (settlement_scopes g) s ≡ true) where
  abbrev new : Dict Key ℕ
  new = fold_models_into_scopes g usage []

  old_le_new :
      (db : Database) (m : Member)
      → IsLevel pool today old db s m
      → Grows old new s m
      → charge_of pool today db s m ≤ℤ used_of pool today new db s m
  old_le_new db m level grows = omega (
    arith,
    ap pos_part level,
    ap neg_part level,
    grows,
    +ℤ_parts (pos (rows_of old m.user_id s)) (carry_in pool today db m.user_id s),
    +ℤ_parts (pos (rows_of new m.user_id s)) (carry_in pool today db m.user_id s),
  )

  module _ (dissolving : Bool) (ms : List Member) (distinct : IsDistinct (member_ids ms))
      (db : Database) where
    abbrev after : Database
    after = settle_pool pool today p g usage dissolving ms db

    -- What a skipped scope says of each member.
    skipped-IsLevel :
        All (IsLevel pool today old db s) ms
        → All (Grows old new s) ms
        → pool_delta pool today p g new db ms s ≡ pos 0
        → All (IsLevel pool today new db s) ms
    unfolding pool_delta
    skipped-IsLevel level grows delta =
        equal_of_sums (charge_of pool today db s) (used_of pool today new db s) ms
          (All-map₂ {P = IsLevel pool today old db s} {Q = Grows old new s} (old_le_new db) ms level
            grows)
          (zero_difference _ _ delta)

    -- A settlement of a pool with distinct members, each of whom was charged rows and carry when
    -- the pool was last settled, leaves each charged the rows and carry of now, if nobody's rows
    -- went down in between.
    pub settle_pool-IsLevel :
        All (IsLevel pool today old db s) ms
        → All (Grows old new s) ms
        → All (IsLevel pool today new after s) ms
    settle_pool-IsLevel level grows =
        let rewritten =
          settle_pool-Rewritten pool today p g usage dissolving db s ms distinct listed in
        elim (scope_write-cases pool today p g new db dissolving ms s) [
          | inl each ↦
              All-map₂ {R = IsLevel pool today new after s} (λ m r r'. simp (r.0, r.1) (each m)) ms
                rewritten rewritten
          | inr skip ↦
              All-map₂ {P = IsLevel pool today new db s} {R = IsLevel pool today new after s}
                (λ m l r. simp (r.0, r.1, skip.0 m) l) ms (skipped-IsLevel level grows skip.1)
                rewritten
        ]
