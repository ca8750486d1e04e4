-- ===== src/Pools/Settle/Balance.antt =====
-- After a settlement the charges of a pool's members add up to what the pool has effectively used.
use llm_proxy_server.Prelude.{
  ℕ, ◌≡◌, refl, ap₂, ◌∙◌, sym, ◌⊎◌, inl, inr, Bool, true, not, ◌&&◌, List, [], ◌∷◌, arith, ℤ, pos,
  ◌+ℤ◌, ◌-ℤ◌, leb_ℤ, sum_ℤ, sub_add, sub_zero, is_zero_eq, +ℤ_parts, -ℤ_parts, eq_of_parts, Dict,
  get_or, contains, All, All-map₂, IsDistinct, Bool-cases, ℕ-Keyed, Pair-Keyed,
}
use llm_proxy_server.Profiles.{ProfileRegistry}
use llm_proxy_server.Limits.Groups.{
  GroupState, Scope, ScopeKind-Keyed, settlement_scopes, member_limit_for_scope,
}
use llm_proxy_server.Pools.Apportion.{share_of}
use llm_proxy_server.Pools.Settle.{
  Key, Usage, Database, Member, Write, no_write, fold_models_into_scopes, ledger_at, carry_at,
  rows_of, carry_in, charged_before, record_write, unlimited_write, is_unlimited, pool_delta,
  limited_write, scope_write, settle_pool, clamp, effective,
}
use llm_proxy_server.Pools.Settle.Writes.{written, member_ids, write_scopes-Settled}

abbrev pub charge_of : ℕ → ℕ → Database → Scope → Member → ℤ
charge_of pool today db s m = charged_before pool today db m.user_id s

-- rows and carry: what the rate limiter counts for the member
abbrev pub used_of : ℕ → ℕ → Dict Key ℕ → Database → Scope → Member → ℤ
used_of pool today by_scope db s m =
    pos (rows_of by_scope m.user_id s) +ℤ carry_in pool today db m.user_id s

module _ (pool today : ℕ) (p : ProfileRegistry) (g : GroupState) (by_scope : Dict Key ℕ) where
  module _ (db : Database) where
    -- A write that leaves the member's charge equal to rows and carry.
    abbrev pub Levels : Scope → Member → Write → Type 0
    Levels s m w =
        get_or (written w.charge (ledger_at pool today db m.user_id s)) (pos 0)
        ≡ pos (rows_of by_scope m.user_id s)
          +ℤ get_or (written w.carry (carry_at pool today db m.user_id s)) (pos 0)

    record_write-Levels :
        (s : Scope) (m : Member) (c : ℤ)
        → Levels s m (record_write pool today p g by_scope db m.user_id s c)
    unfolding record_write
    record_write-Levels s m c = ground (
      arith,
      sub_add c (pos (rows_of by_scope m.user_id s)),
      sub_zero c (pos (rows_of by_scope m.user_id s)),
      is_zero_eq (c -ℤ pos (rows_of by_scope m.user_id s)),
    )

    unlimited_write-Levels :
        (s : Scope) (m : Member) → Levels s m (unlimited_write pool today p g by_scope db s m)
    unfolding unlimited_write
    unlimited_write-Levels s m = ground (
      arith,
      record_write-Levels s m (
          pos (
            clamp (member_limit_for_scope p g m.user_id s)
              (effective pool today p g by_scope db m.user_id s))),
      is_zero_eq (carry_in pool today db m.user_id s),
      +ℤ_parts (pos 0) (pos 0),
      eq_of_parts (pos 0) (pos 0 +ℤ pos 0),
    )

    limited_write-Levels :
        (shares : Dict ℕ ℤ) (s : Scope) (m : Member)
        → Levels s m (limited_write pool today p g by_scope db shares s m)
    unfolding limited_write
    limited_write-Levels shares s m =
        record_write-Levels s m
          (charged_before pool today db m.user_id s +ℤ share_of shares m.user_id)

    module _ (dissolving : Bool) (ms : List Member) (s : Scope) where
      abbrev pub write_of : Member → Write
      write_of = scope_write pool today p g by_scope db dissolving ms s

      -- The scope is skipped only when nothing was consumed on it since it was last settled.
      pub scope_write-cases :
          ((m : Member) → Levels s m (write_of m))
          ⊎ (((m : Member) → write_of m ≡ no_write)
              × (pool_delta pool today p g by_scope db ms s ≡ pos 0))
      unfolding scope_write
      scope_write-cases = elim (Bool-cases (is_unlimited pool today p g by_scope db ms s)) [
        | inl e ↦ inl (λ m. rw e (unlimited_write-Levels s m))
        | inr e ↦
            elim (Bool-cases (
              leb_ℤ (pool_delta pool today p g by_scope db ms s) (pos 0)
              && leb_ℤ (pos 0) (pool_delta pool today p g by_scope db ms s)
              && not dissolving)) [
                | inl z ↦ inr (λ m. rw (e, z) refl, is_zero_eq _ (ground arith))
                | inr z ↦ inl (λ m. rw (e, z) (limited_write-Levels _ s m))
              ]
      ]

pub sum_ℤ-eq_on :
    (f h : Member → ℤ) (ms : List Member) → All (λ m. f m ≡ h m) ms → sum_ℤ f ms ≡ sum_ℤ h ms
sum_ℤ-eq_on f h [] e = refl
sum_ℤ-eq_on f h (m ∷ ms) e = ap₂ (λ a b. a +ℤ b) e.0 (sum_ℤ-eq_on f h ms e.1)

pub zero_difference : (a b : ℤ) → a -ℤ b ≡ pos 0 → b ≡ a
zero_difference a b e = ground (arith, -ℤ_parts a b, eq_of_parts b a)

module _ (pool today : ℕ) (p : ProfileRegistry) (g : GroupState) (usage : List Usage)
    (dissolving : Bool) (db : Database) (s : Scope) where
  abbrev pub folded : Dict Key ℕ
  folded = fold_models_into_scopes g usage []

  abbrev pub after : List Member → Database
  after ms = settle_pool pool today p g usage dissolving ms db

  abbrev pub scope_writes : List Member → Scope → Member → Write
  scope_writes ms = scope_write pool today p g folded db dissolving ms

  -- Each entry of the scope is the row written for it, if one is written.
  abbrev pub Rewritten : List Member → Member → Type 0
  Rewritten ms m =
      (ledger_at pool today (after ms) m.user_id s
        ≡ written (scope_writes ms s m).charge (ledger_at pool today db m.user_id s))
      × (carry_at pool today (after ms) m.user_id s
          ≡ written (scope_writes ms s m).carry (carry_at pool today db m.user_id s))

  pub settle_pool-Rewritten :
      (ms : List Member)
      → IsDistinct (member_ids ms)
      → contains (settlement_scopes g) s ≡ true
      → All (Rewritten ms) ms
  unfolding settle_pool
  settle_pool-Rewritten [] distinct listed = tt
  settle_pool-Rewritten (x ∷ xs) distinct listed =
      All-map₂ (λ m e e'. ground (arith, e.0, e.1, listed)) (x ∷ xs)
        (write_scopes-Settled pool today (scope_writes (x ∷ xs)) (x ∷ xs) distinct s
          (settlement_scopes g) db)
        (write_scopes-Settled pool today (scope_writes (x ∷ xs)) (x ∷ xs) distinct s
          (settlement_scopes g) db)

  Levels-sum :
      (ms xs : List Member)
      → ((m : Member) → Levels pool today p g folded db s m (scope_writes ms s m))
      → All (Rewritten ms) xs
      → sum_ℤ (charge_of pool today (after ms) s) xs
        ≡ sum_ℤ (used_of pool today folded (after ms) s) xs
  Levels-sum ms xs level rewritten =
      sum_ℤ-eq_on (charge_of pool today (after ms) s) (used_of pool today folded (after ms) s) xs
        (All-map₂ (λ m r r'. simp (r.0, r.1) (level m)) xs rewritten rewritten)

  skipped-sum :
      (ms : List Member)
      → ((m : Member) → scope_writes ms s m ≡ no_write)
      → pool_delta pool today p g folded db ms s ≡ pos 0
      → All (Rewritten ms) ms
      → sum_ℤ (charge_of pool today (after ms) s) ms
        ≡ sum_ℤ (used_of pool today folded (after ms) s) ms
  unfolding pool_delta
  skipped-sum ms skip delta rewritten =
      sum_ℤ-eq_on (charge_of pool today (after ms) s) (charge_of pool today db s) ms
        (All-map₂ (λ m r r'. simp (r.0, skip m)) ms rewritten rewritten)
      ∙ zero_difference _ _ delta
      ∙ sym (
          sum_ℤ-eq_on (used_of pool today folded (after ms) s) (used_of pool today folded db s) ms
            (All-map₂ (λ m r r'. simp (r.1, skip m)) ms rewritten rewritten))

  -- After a settlement of a pool with distinct members, on every scope that is settled, the charges
  -- of the members add up to the rows and carries of the members, whether or not the pool is
  -- unlimited there and whatever part of the change could not be charged.
  pub settle_pool-balanced :
      (ms : List Member)
      → IsDistinct (member_ids ms)
      → contains (settlement_scopes g) s ≡ true
      → sum_ℤ (charge_of pool today (after ms) s) ms
        ≡ sum_ℤ (used_of pool today folded (after ms) s) ms
  settle_pool-balanced ms distinct listed =
      elim (scope_write-cases pool today p g folded db dissolving ms s) [
        | inl level ↦ Levels-sum ms ms level (settle_pool-Rewritten ms distinct listed)
        | inr skip ↦ skipped-sum ms skip.0 skip.1 (settle_pool-Rewritten ms distinct listed)
      ]
