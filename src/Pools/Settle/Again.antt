-- ===== src/Pools/Settle/Again.antt =====
-- Settling a pool a second time, with nothing consumed in between, changes no entry.
use llm_proxy_server.Prelude.{
  ℕ, ◌≡◌, refl, ◌∙◌, inl, inr, Bool, true, false, not, ◌&&◌, ◌||◌, Option, none, some, List, [],
  arith, ℤ, pos, ◌+ℤ◌, ◌-ℤ◌, leb_ℤ, is_zero_eq, -ℤ_parts, eq_of_parts, nat_eq, Dict, get_or,
  is_some, if◌then◌else◌, contains, All, All-map₂, IsDistinct, Bool-cases, ℕ-Keyed, Pair-Keyed,
  max_zero,
}
use llm_proxy_server.Profiles.{ProfileRegistry}
use llm_proxy_server.Limits.Groups.{
  GroupState, Scope, ScopeKind-Keyed, settlement_scopes, member_limit_for_scope,
}
use llm_proxy_server.Pools.Settle.{
  Key, Usage, Database, Member, Write, no_write, fold_models_into_scopes, ledger_at, carry_at,
  rows_of, unlimited_write, is_unlimited, pool_delta, scope_write, settle_pool, clamp,
}
use llm_proxy_server.Pools.Settle.Writes.{written, member_ids}
use llm_proxy_server.Pools.Settle.Balance.{settle_pool-Rewritten, settle_pool-balanced}

clamp_twice : (own : Option ℕ) (e : ℕ) → clamp own (clamp own e) ≡ clamp own e
clamp_twice none e = refl
clamp_twice (some own) e = omega arith

-- `r + (c - r)` cut at 0 is `c`.
cut_back : (c r : ℕ) → max_zero (pos r +ℤ (pos c -ℤ pos r)) ≡ c
unfolding ◌+ℤ◌ ◌-ℤ◌
cut_back c r = ground arith

cut_zero : (c r : ℕ) → (pos c -ℤ pos r) ≡ pos 0 → max_zero (pos r +ℤ pos 0) ≡ c
unfolding ◌+ℤ◌ ◌-ℤ◌
cut_zero c r e = ground arith

difference_zero : (a b : ℤ) → b ≡ a → a -ℤ b ≡ pos 0
difference_zero a b e = ground (arith, -ℤ_parts a b, eq_of_parts (a -ℤ b) (pos 0))

-- The branch of an unlimited pool as a function of what it reads.
abbrev is_zero : ℤ → Bool
is_zero c = leb_ℤ c (pos 0) && leb_ℤ (pos 0) c

abbrev recorded : ℕ → Option ℤ → ℕ → Write
recorded r carry c = record {
  charge = some (pos c);
  carry = if not (is_zero (pos c -ℤ pos r)) || is_some carry then some (pos c -ℤ pos r) else none;
}

abbrev plan : Option ℕ → ℕ → Option ℤ → Option ℤ → Write
plan own r ledger carry =
    if nat_eq r 0 && not (is_some ledger) && is_zero (get_or carry (pos 0))
    then no_write
    else recorded r carry (clamp own (max_zero (pos r +ℤ get_or carry (pos 0))))

-- With a charge in the ledger the plan records the clamp of rows and carry.
plan-some :
    (own : Option ℕ) (r : ℕ) (v : ℤ) (carry : Option ℤ)
    → plan own r (some v) carry
      ≡ recorded r carry (clamp own (max_zero (pos r +ℤ get_or carry (pos 0))))
plan-some own r v carry = ground arith

-- A recorded charge is the clamp of the rows and the carry that it leaves.
recorded_carry :
    (own : Option ℕ) (r e : ℕ) (carry : Option ℤ)
    → clamp own
        (max_zero (pos r +ℤ get_or (written (recorded r carry (clamp own e)).carry carry) (pos 0)))
      ≡ clamp own e
recorded_carry own r e none = ground (
  arith,
  clamp_twice own e,
  cut_back (clamp own e) r,
  cut_zero (clamp own e) r,
  is_zero_eq (pos (clamp own e) -ℤ pos r),
)
recorded_carry own r e (some c) = ground (arith, clamp_twice own e, cut_back (clamp own e) r)

-- The carry of a recorded charge, recorded again.
recorded_twice :
    (r c : ℕ) (carry : Option ℤ)
    → written
        (recorded r (written (recorded r carry c).carry carry) c).carry
        (written (recorded r carry c).carry carry)
      ≡ written (recorded r carry c).carry carry
recorded_twice r c none = ground arith
recorded_twice r c (some k) = ground arith

abbrev PlansAgain : Option ℕ → ℕ → Option ℤ → Option ℤ → Type 0
PlansAgain own r ledger carry =
    (written (plan own r ledger carry).charge ledger ≡ ledger)
    × (written (plan own r ledger carry).carry carry ≡ carry)

recorded_again :
    (own : Option ℕ) (r e : ℕ) (carry : Option ℤ)
    → PlansAgain own r
        (some (pos (clamp own e)))
        (written (recorded r carry (clamp own e)).carry carry)
recorded_again own r e carry =
    rw (plan-some own r (pos (clamp own e)) (written (recorded r carry (clamp own e)).carry carry))
      (rw (recorded_carry own r e carry) (refl, recorded_twice r (clamp own e) carry))

plan_again :
    (own : Option ℕ) (r : ℕ) (ledger carry : Option ℤ)
    → PlansAgain own r
        (written (plan own r ledger carry).charge ledger)
        (written (plan own r ledger carry).carry carry)
plan_again own r ledger carry =
    elim (Bool-cases (nat_eq r 0 && not (is_some ledger) && is_zero (get_or carry (pos 0)))) [
      | inl e ↦ rw e (rw e (refl, refl))
      | inr e ↦ rw e (recorded_again own r (max_zero (pos r +ℤ get_or carry (pos 0))) carry)
    ]

module _ (pool today : ℕ) (p : ProfileRegistry) (g : GroupState) (usage : List Usage)
    (s : Scope) where
  abbrev by_scope : Dict Key ℕ
  by_scope = fold_models_into_scopes g usage []

  abbrev settled : List Member → Database → Database
  settled ms db = settle_pool pool today p g usage false ms db

  abbrev write_of : Database → List Member → Member → Write
  write_of db ms m = scope_write pool today p g by_scope db false ms s m

  -- The entries of a member on the scope are the same in both.
  abbrev pub SameEntries : Database → Database → Member → Type 0
  SameEntries db db' m =
      (ledger_at pool today db' m.user_id s ≡ ledger_at pool today db m.user_id s)
      × (carry_at pool today db' m.user_id s ≡ carry_at pool today db m.user_id s)

  unlimited_write-plan :
      (db : Database) (m : Member)
      → unlimited_write pool today p g by_scope db s m
        ≡ plan
            (member_limit_for_scope p g m.user_id s)
            (rows_of by_scope m.user_id s)
            (ledger_at pool today db m.user_id s)
            (carry_at pool today db m.user_id s)
  unfolding unlimited_write
  unlimited_write-plan db m = refl

  write_of-unlimited :
      (db : Database) (ms : List Member) (m : Member)
      → is_unlimited pool today p g by_scope db ms s ≡ true
      → write_of db ms m
        ≡ plan
            (member_limit_for_scope p g m.user_id s)
            (rows_of by_scope m.user_id s)
            (ledger_at pool today db m.user_id s)
            (carry_at pool today db m.user_id s)
  unfolding scope_write
  write_of-unlimited db ms m e = rw e (unlimited_write-plan db m)

  is_unlimited-db :
      (db db' : Database) (ms : List Member)
      → is_unlimited pool today p g by_scope db ms s ≡ is_unlimited pool today p g by_scope db' ms s
  unfolding is_unlimited
  is_unlimited-db db db' ms = refl

  write_of-balanced :
      (db : Database) (ms : List Member) (m : Member)
      → is_unlimited pool today p g by_scope db ms s ≡ false
      → pool_delta pool today p g by_scope db ms s ≡ pos 0
      → write_of db ms m ≡ no_write
  unfolding scope_write
  write_of-balanced db ms m e z = rw (e, z) refl

  delta-settled :
      (db : Database) (ms : List Member)
      → IsDistinct (member_ids ms)
      → contains (settlement_scopes g) s ≡ true
      → pool_delta pool today p g by_scope (settled ms db) ms s ≡ pos 0
  unfolding pool_delta
  delta-settled db ms distinct listed =
      difference_zero _ _ (settle_pool-balanced pool today p g usage false db s ms distinct listed)

  -- Settling again with the same usage rows leaves the ledger and the carries of every member on
  -- every settled scope as the first settlement wrote them, unless the pool is being dissolved.
  pub settle_pool-idempotent :
      (ms : List Member) (db : Database)
      → IsDistinct (member_ids ms)
      → contains (settlement_scopes g) s ≡ true
      → All (SameEntries (settled ms db) (settled ms (settled ms db))) ms
  settle_pool-idempotent ms db distinct listed =
      elim (Bool-cases (is_unlimited pool today p g by_scope db ms s)) [
        | inl e ↦
            All-map₂
              (λ m r r'.
                simp
                  (
                    r'.0,
                    r'.1,
                    write_of-unlimited (settled ms db) ms m
                        (is_unlimited-db (settled ms db) db ms ∙ e),
                  )
                  (simp (r.0, r.1, write_of-unlimited db ms m e)
                    (plan_again (member_limit_for_scope p g m.user_id s)
                      (rows_of by_scope m.user_id s) (ledger_at pool today db m.user_id s)
                      (carry_at pool today db m.user_id s))))
              ms (settle_pool-Rewritten pool today p g usage false db s ms distinct listed)
              (settle_pool-Rewritten pool today p g usage false (settled ms db) s ms distinct
                listed)
        | inr e ↦
            All-map₂
              (λ m r r'.
                simp
                  (
                    r'.0,
                    r'.1,
                    write_of-balanced (settled ms db) ms m
                        (is_unlimited-db (settled ms db) db ms ∙ e)
                        (delta-settled db ms distinct listed),
                  )
                  (refl, refl))
              ms (settle_pool-Rewritten pool today p g usage false db s ms distinct listed)
              (settle_pool-Rewritten pool today p g usage false (settled ms db) s ms distinct
                listed)
      ]
