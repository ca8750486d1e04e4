-- ===== src/Pools/Settle/Writes.antt =====
-- What the rows of a settlement change: each entry of a member and a scope is the row written for
-- it, and every other entry is as it was.
use llm_proxy_server.Prelude.{
  ℕ, ◌≡◌, refl, Bool, true, false, Option, none, some, List, [], ◌∷◌, map, arith, ℤ, nat_eq, Dict,
  lookup, insert, lookup-insert, if◌then◌else◌, count, IsDistinct, contains, All, All-map₂,
  All-const, ap, ◌↔◌, ◌==◌, Keyed, ℕ-Keyed, Pair-Keyed, pair_beq_iff,
}
use llm_proxy_server.Limits.Groups.{Scope, ScopeKind-Keyed}
use llm_proxy_server.Pools.Settle.{
  Database, Member, Write, ledger_at, carry_at, write_rows, write_members, write_scopes, upsert,
}

abbrev pub written {ℓ} : {A : Type ℓ} → Option A → Option A → Option A
written none old = old
written (some v) old = some v

abbrev pub member_ids : List Member → List ℕ
member_ids ms = map (λ m. m.user_id) ms

abbrev pub same : ℕ → Scope → ℕ → Scope → Bool
same u s v t = if nat_eq u v then s == t else false

module _ {ℓ κ} {K : Type ℓ} {V : Type κ} ⦃key : Keyed K⦄ where
  lookup-upsert :
      (k j : K) (o : Option V) (d : Dict K V)
      → lookup j (upsert insert k o d) ≡ (if k == j then written o (lookup j d) else lookup j d)
  lookup-upsert k j none d = ground arith
  lookup-upsert k j (some v) d = lookup-insert k j v d

scope_eq_iff : (s t : Scope) → ((s == t) ≡ true) ↔ (s ≡ t)
scope_eq_iff s t = pair_beq_iff s t

others :
    (u : ℕ) (ms : List Member)
    → count u (member_ids ms) ≡ 0
    → All (λ m. nat_eq u m.user_id ≡ false) ms
others u [] z = tt
others u (m ∷ ms) z = (ground arith, others u ms (omega arith))

module _ (pool today : ℕ) where
  abbrev ledger_of : Database → ℕ → Scope → Option ℤ
  ledger_of = ledger_at pool today

  abbrev carry_of : Database → ℕ → Scope → Option ℤ
  carry_of = carry_at pool today

  ledger_at-write_rows :
      (u v : ℕ) (s t : Scope) (w : Write) (db : Database)
      → ledger_of (write_rows pool today u s w db) v t
        ≡ (if same u s v t then written w.charge (ledger_of db v t) else ledger_of db v t)
  unfolding ledger_at write_rows
  ledger_at-write_rows u v s t w db =
      ground
        (arith, lookup-upsert (pool, (today, (u, s))) (pool, (today, (v, t))) w.charge db.ledger)

  carry_at-write_rows :
      (u v : ℕ) (s t : Scope) (w : Write) (db : Database)
      → carry_of (write_rows pool today u s w db) v t
        ≡ (if same u s v t then written w.carry (carry_of db v t) else carry_of db v t)
  unfolding carry_at write_rows
  carry_at-write_rows u v s t w db =
      ground (arith, lookup-upsert (today, (u, s)) (today, (v, t)) w.carry db.carries)

  module _ (write : Member → Write) (s : Scope) where
    ledger_at-write_members_out :
        (v : ℕ) (t : Scope) (ms : List Member) (db : Database)
        → count v (member_ids ms) ≡ 0
        → ledger_of (write_members pool today write s ms db) v t ≡ ledger_of db v t
    unfolding write_members
    ledger_at-write_members_out v t [] db z = refl
    ledger_at-write_members_out v t (m ∷ ms) db z = ground (
      arith,
      ledger_at-write_members_out v t ms (write_rows pool today m.user_id s (write m) db),
      ledger_at-write_rows m.user_id v s t (write m) db,
    )

    carry_at-write_members_out :
        (v : ℕ) (t : Scope) (ms : List Member) (db : Database)
        → count v (member_ids ms) ≡ 0
        → carry_of (write_members pool today write s ms db) v t ≡ carry_of db v t
    unfolding write_members
    carry_at-write_members_out v t [] db z = refl
    carry_at-write_members_out v t (m ∷ ms) db z = ground (
      arith,
      carry_at-write_members_out v t ms (write_rows pool today m.user_id s (write m) db),
      carry_at-write_rows m.user_id v s t (write m) db,
    )

    -- The scope's entries of a member are those written, and those of another scope are kept.
    abbrev pub Wrote : Scope → Database → Database → Member → Type 0
    Wrote t db after m =
        (ledger_of after m.user_id t ≡ (
          if s == t
          then written (write m).charge (ledger_of db m.user_id t)
          else ledger_of db m.user_id t))
        × (carry_of after m.user_id t ≡ (
            if s == t
            then written (write m).carry (carry_of db m.user_id t)
            else carry_of db m.user_id t))

    write_members-Wrote :
        (t : Scope) (ms : List Member) (db : Database)
        → IsDistinct (member_ids ms)
        → All (Wrote t db (write_members pool today write s ms db)) ms
    unfolding write_members
    write_members-Wrote t [] db distinct = tt
    write_members-Wrote t (m ∷ ms) db distinct =
        let db' = write_rows pool today m.user_id s (write m) db in
        let absent : count m.user_id (member_ids ms) ≡ 0 = ground (arith, distinct m.user_id) in
        (
          ground (
            arith,
            ledger_at-write_members_out m.user_id t ms db' absent,
            carry_at-write_members_out m.user_id t ms db' absent,
            ledger_at-write_rows m.user_id m.user_id s t (write m) db,
            carry_at-write_rows m.user_id m.user_id s t (write m) db,
          ),
          All-map₂
              (λ x other rest. ground (
                arith,
                other,
                rest.0,
                rest.1,
                ledger_at-write_rows m.user_id x.user_id s t (write m) db,
                carry_at-write_rows m.user_id x.user_id s t (write m) db,
              ))
              ms (others m.user_id ms absent)
              (write_members-Wrote t ms db' (λ u. omega (arith, distinct u))),
        )

  module _ (write : Scope → Member → Write) (ms : List Member)
      (distinct : IsDistinct (member_ids ms)) where
    -- After the loop over the scopes.
    abbrev pub Settled : List Scope → Scope → Database → Database → Member → Type 0
    Settled scopes t db after m =
        (ledger_of after m.user_id t ≡ (
          if contains scopes t
          then written (write t m).charge (ledger_of db m.user_id t)
          else ledger_of db m.user_id t))
        × (carry_of after m.user_id t ≡ (
            if contains scopes t
            then written (write t m).carry (carry_of db m.user_id t)
            else carry_of db m.user_id t))

    write_same : (m : Member) (s t : Scope) → (s == t) ≡ true → write s m ≡ write t m
    write_same m s t e = ap (λ x. write x m) ((scope_eq_iff s t).0 e)

    pub write_scopes-Settled :
        (t : Scope) (scopes : List Scope) (db : Database)
        → All (Settled scopes t db (write_scopes pool today write ms scopes db)) ms
    unfolding write_scopes
    write_scopes-Settled t [] db = All-const ms (λ m. (refl, refl))
    write_scopes-Settled t (s ∷ scopes) db =
        All-map₂ (λ m one rest. ground (arith, one.0, one.1, rest.0, rest.1, write_same m s t)) ms
          (write_members-Wrote (write s) s t ms db distinct)
          (write_scopes-Settled t scopes (write_members pool today (write s) s ms db))

  -- A user who is not among the members keeps every entry.
  pub write_scopes_other :
      (write : Scope → Member → Write) (ms : List Member) (v : ℕ) (t : Scope)
      → count v (member_ids ms) ≡ 0
      → (scopes : List Scope) (db : Database)
      → (ledger_of (write_scopes pool today write ms scopes db) v t ≡ ledger_of db v t)
        × (carry_of (write_scopes pool today write ms scopes db) v t ≡ carry_of db v t)
  unfolding write_scopes
  write_scopes_other write ms v t z [] db = (refl, refl)
  write_scopes_other write ms v t z (s ∷ scopes) db =
      let rest =
        write_scopes_other write ms v t z scopes (write_members pool today (write s) s ms db) in
      ground (
        arith,
        rest.0,
        rest.1,
        ledger_at-write_members_out (write s) s v t ms db z,
        carry_at-write_members_out (write s) s v t ms db z,
      )
