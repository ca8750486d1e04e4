-- ===== src/Pools/Join/Changes.antt =====
-- Joining and leaving a pool keep the charge of every member equal to rows and carry, a departure
-- leaves the carry of everybody as the settlement wrote it, and a full pool admits nobody.
use llm_proxy_server.Prelude.{
  ℕ, ◌≤◌, ◌≡◌, refl, Bool, true, false, not, none, some, List, [], ◌∷◌, ◌++◌, arith, ℤ, pos, ◌+ℤ◌,
  ◌-ℤ◌, leb, max_zero, +ℤ_parts, eq_of_parts, sub_add, sub_zero, is_zero_eq, nat_eq, Dict, lookup,
  get_or, contains, count, filter, All, All-map₂, IsDistinct, length, length-append, Bool-cases,
  inl, inr, subst, ℕ-Keyed, Pair-Keyed,
}
use llm_proxy_server.Profiles.{ProfileRegistry}
use llm_proxy_server.Limits.Groups.{
  GroupState, Scope, ScopeKind-Keyed, settlement_scopes, member_limit_for_scope,
}
use llm_proxy_server.Pools.Settle.{
  Key, Usage, Database, Member, fold_models_into_scopes, ledger_at, carry_at, rows_of, carry_in,
  clamp, settle_pool, scope_write,
}
use llm_proxy_server.Pools.Settle.Writes.{
  written, member_ids, write_scopes-Settled, write_scopes_other,
}
use llm_proxy_server.Pools.Join.{
  admit_write, admit_member, clear_ledger, clear_member_settlement, PoolState, join_pool,
  leave_pool,
}
use llm_proxy_server.Pools.Join.Level.{IsLevel, Grows, settle_pool-IsLevel}

module _ (pool today : ℕ) (p : ProfileRegistry) (g : GroupState) (usage : List Usage)
    (s : Scope) where
  abbrev new : Dict Key ℕ
  new = fold_models_into_scopes g usage []

  -- A member without a ledger row in the pool is admitted at rows and carry.
  admit_write-level :
      (db : Database) (m : Member)
      → ledger_at pool today db m.user_id s ≡ none
      → get_or
          (written
            (admit_write pool today p g new db s m).charge
            (ledger_at pool today db m.user_id s))
          (pos 0)
        ≡ pos (rows_of new m.user_id s)
          +ℤ get_or
              (written
                (admit_write pool today p g new db s m).carry
                (carry_at pool today db m.user_id s))
              (pos 0)
  unfolding admit_write
  admit_write-level db m fresh =
      let r = rows_of new m.user_id s in
      let c =
        clamp (member_limit_for_scope p g m.user_id s)
          (max_zero (pos r +ℤ carry_in pool today db m.user_id s)) in
      ground (
        arith,
        fresh,
        is_zero_eq (carry_in pool today db m.user_id s),
        sub_add (pos c) (pos r),
        sub_zero (pos c) (pos r),
        is_zero_eq (pos c -ℤ pos r),
        +ℤ_parts (pos 0) (pos 0),
        eq_of_parts (pos 0) (pos 0 +ℤ pos 0),
      )

  admit_member_self :
      (db : Database) (m : Member)
      → contains (settlement_scopes g) s ≡ true
      → ledger_at pool today db m.user_id s ≡ none
      → IsLevel pool today new (admit_member pool today p g usage m db) s m
  unfolding admit_member
  admit_member_self db m listed fresh =
      let w =
        write_scopes-Settled pool today (admit_write pool today p g new db) (m ∷ [])
          (λ u. ground arith) s (settlement_scopes g) db in
      simp (w.0.0, w.0.1, listed) (admit_write-level db m fresh)

  admit_member_other :
      (db : Database) (m x : Member)
      → nat_eq m.user_id x.user_id ≡ false
      → IsLevel pool today new db s x
      → IsLevel pool today new (admit_member pool today p g usage m db) s x
  unfolding admit_member
  admit_member_other db m x ne level =
      let w =
        write_scopes_other pool today (admit_write pool today p g new db) (m ∷ []) x.user_id s
          (ground (arith, ne)) (settlement_scopes g) db in
      simp (w.0, w.1) level

-- Clearing the rows of one member of one pool keeps those of everybody else.
lookup-clear_ledger :
    (pool today u v : ℕ) (s : Scope) (d : Dict (ℕ × (ℕ × Key)) ℤ)
    → nat_eq v u ≡ false
    → lookup (pool, (today, (v, s))) (clear_ledger pool u d) ≡ lookup (pool, (today, (v, s))) d
unfolding lookup clear_ledger
lookup-clear_ledger pool today u v s [] ne = refl
lookup-clear_ledger pool today u v s (((q, (day, (w, t))), c) ∷ d) ne =
    ground (arith, lookup-clear_ledger pool today u v s d ne)

All-filter :
    (P : Member → Type 0) (q : Member → Bool) (ms : List Member)
    → All P ms
    → All (λ m. P m × (q m ≡ true)) (filter q ms)
All-filter P q [] h = tt
All-filter P q (m ∷ ms) h = ground (arith, All-filter P q ms h.1)

All-append :
    (P : Member → Type 0) (ms : List Member) (m : Member) → All P ms → P m → All P (ms ++ m ∷ [])
All-append P [] m h pm = (pm, tt)
All-append P (x ∷ ms) m h pm = (h.0, All-append P ms m h.1 pm)

absent :
    (u : ℕ) (ms : List Member)
    → count u (member_ids ms) ≡ 0
    → All (λ m. nat_eq u m.user_id ≡ false) ms
absent u [] z = tt
absent u (m ∷ ms) z = (ground arith, absent u ms (omega arith))

All-one :
    {P Q : Member → Type 0} → ((m : Member) → P m → Q m) → (ms : List Member) → All P ms → All Q ms
All-one f ms h = All-map₂ (λ m a b. f m a) ms h h

module _ (pool today : ℕ) (p : ProfileRegistry) (g : GroupState) (usage : List Usage)
    (old : Dict Key ℕ) (s : Scope) (listed : contains (settlement_scopes g) s ≡ true)
    (state : PoolState) (distinct : IsDistinct (member_ids state.members))
    (level : All (IsLevel pool today old state.db s) state.members)
    (grows : All (Grows old (fold_models_into_scopes g usage []) s) state.members) where
  abbrev now : Dict Key ℕ
  now = fold_models_into_scopes g usage []

  abbrev settled : Database
  settled = settle_pool pool today p g usage false state.members state.db

  settled-IsLevel : All (IsLevel pool today now settled s) state.members
  settled-IsLevel =
      settle_pool-IsLevel pool today p g usage old s listed false state.members distinct state.db
        level grows

  -- The ledger row that a settlement writes is one of a member.
  settled_fresh :
      (u : ℕ)
      → count u (member_ids state.members) ≡ 0
      → ledger_at pool today state.db u s ≡ none
      → ledger_at pool today settled u s ≡ none
  unfolding settle_pool
  settled_fresh u z fresh = ground (
    arith,
    fresh,
    (write_scopes_other pool today (scope_write pool today p g now state.db false state.members)
        state.members u s z (settlement_scopes g) state.db).0,
  )

  abbrev admitted : Member → PoolState
  admitted m = record {
    members = state.members ++ m ∷ [];
    db = admit_member pool today p g usage m settled;
  }

  admitted-IsLevel :
      (m : Member)
      → count m.user_id (member_ids state.members) ≡ 0
      → ledger_at pool today state.db m.user_id s ≡ none
      → All (IsLevel pool today now (admitted m).db s) (admitted m).members
  admitted-IsLevel m z fresh =
      All-append (IsLevel pool today now (admitted m).db s) state.members m
        (All-map₂ {P = IsLevel pool today now settled s}
          {R = IsLevel pool today now (admitted m).db s}
          (λ x l ne. admit_member_other pool today p g usage s settled m x ne l) state.members
          settled-IsLevel (absent m.user_id state.members z))
        (admit_member_self pool today p g usage s settled m listed
          (settled_fresh m.user_id z fresh))

  -- On a settled scope, where the members were level and no rows went down since, a user who is not
  -- a member and has no ledger row in the pool joins it with every member level, the joiner too, and
  -- the pool is no larger than allowed.
  pub join_pool-IsLevel :
      (max_members : ℕ) (m : Member) (joined : PoolState)
      → count m.user_id (member_ids state.members) ≡ 0
      → ledger_at pool today state.db m.user_id s ≡ none
      → join_pool pool today p g usage max_members m state ≡ some joined
      → All (IsLevel pool today now joined.db s) joined.members
        × (length joined.members ≤ max_members)
  unfolding join_pool
  join_pool-IsLevel max_members m joined z fresh e =
      elim (Bool-cases (leb max_members (length state.members))) [
        | inl full ↦ absurd (cc (rw full at e))
        | inr free ↦
            let same : admitted m ≡ joined = cc (rw free at e) in
            subst
              (λ j.
                All (IsLevel pool today now j.db s) j.members × (length j.members ≤ max_members))
              same
              (
                admitted-IsLevel m z fresh,
                ground (arith, free, length-append state.members (m ∷ [])),
              )
      ]

  lookup-cleared :
      (u v : ℕ)
      → nat_eq v u ≡ false
      → ledger_at pool today (clear_member_settlement pool u settled) v s
        ≡ ledger_at pool today settled v s
  unfolding ledger_at clear_member_settlement
  lookup-cleared u v ne = lookup-clear_ledger pool today u v s settled.ledger ne

  carry-cleared :
      (u v : ℕ)
      → carry_at pool today (clear_member_settlement pool u settled) v s
        ≡ carry_at pool today settled v s
  unfolding carry_at clear_member_settlement
  carry-cleared u v = refl

  -- On a settled scope, where the members were level and no rows went down since, the departure of
  -- a member leaves the others level, and everybody's carry as the settlement wrote it.
  pub leave_pool-IsLevel :
      (u : ℕ)
      → All
          (IsLevel pool today now (leave_pool pool today p g usage u state).db s)
          (leave_pool pool today p g usage u state).members
        × ((v : ℕ)
            → carry_at pool today (leave_pool pool today p g usage u state).db v s
              ≡ carry_at pool today settled v s)
  unfolding leave_pool
  leave_pool-IsLevel u = (
    All-one
        (λ m h.
          simp (lookup-cleared u m.user_id (ground (arith, h.1)), carry-cleared u m.user_id) h.0)
        (filter (λ m. not (nat_eq m.user_id u)) state.members)
        (All-filter (IsLevel pool today now settled s) (λ m. not (nat_eq m.user_id u)) state.members
          settled-IsLevel),
    carry-cleared u,
  )
