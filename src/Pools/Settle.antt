-- ===== src/Pools/Settle.antt =====
-- The database settlement layer of app/auth/pools.py. The two tables are dicts: the ledger by
-- (pool, (day, (user, scope))) and the carries by (day, (user, scope)), which are the columns of
-- their unique constraints. The rows that a settlement writes depend only on the tables as they
-- were loaded, so they are upserted in the order in which the source collects them.
pub mod Writes
pub mod Balance
pub mod Fair
pub mod Again
use llm_proxy_server.Prelude.{
  ℕ, ◌+◌, Bool, true, false, not, ◌&&◌, ◌||◌, Option, none, some, List, [], ◌∷◌, map, String, ℤ,
  pos, ◌+ℤ◌, ◌-ℤ◌, leb_ℤ, max_zero, sum_ℤ, min, nat_eq, Dict, lookup, insert, get_or, is_some,
  if◌then◌else◌, any, is_empty, ℕ-Keyed, Pair-Keyed,
}
use llm_proxy_server.Byok.{is_byok_model}
use llm_proxy_server.Profiles.{ProfileRegistry}
use llm_proxy_server.Limits.Groups.{
  GroupState, Scope, ScopeKind-Keyed, overall, settlement_scopes, scope_for_model,
  member_limit_for_scope,
}
use llm_proxy_server.Pools.Apportion.{MemberShare, apportion, share_of}

abbrev pub Key : Type 0
Key = ℕ × Scope

-- A row of `get_usage_by_user_and_model`.
pub record Usage : Type 0 where
  pub user_id : ℕ
  pub model : String
  pub request_count : ℕ

-- `_fold_models_into_scopes`
unfoldable pub fold_models_into_scopes : GroupState → List Usage → Dict Key ℕ → Dict Key ℕ
unfolding insert lookup is_byok_model scope_for_model
fold_models_into_scopes g [] folded = folded
fold_models_into_scopes g (row ∷ usage) folded =
    let key : Key = (row.user_id, get_or (scope_for_model g (some row.model)) (overall, 0)) in
    fold_models_into_scopes g usage (
      if is_byok_model (some row.model)
      then folded
      else insert key (get_or (lookup key folded) 0 + row.request_count) folded)

pub record Database : Type 0 where
  pub ledger : Dict (ℕ × (ℕ × Key)) ℤ
  pub carries : Dict (ℕ × Key) ℤ

-- A member as `_load_members` returns it.
pub record Member : Type 0 where
  pub user_id : ℕ
  pub is_active : Bool

-- What `record` appends for one member and scope; `none` is no row.
pub record Write : Type 0 where
  pub charge : Option ℤ
  pub carry : Option ℤ

abbrev pub no_write : Write
no_write = record { charge = none; carry = none }

-- One upsert, or none.
abbrev pub upsert {ℓ κ} :
    {K : Type ℓ} {V : Type κ} → (K → V → Dict K V → Dict K V) → K → Option V → Dict K V → Dict K V
upsert ins k none d = d
upsert ins k (some v) d = ins k v d

-- `min(own, effective)`, where no limit is no bound
abbrev pub clamp : Option ℕ → ℕ → ℕ
clamp none effective = effective
clamp (some own) effective = min own effective

-- `by_scope.get(key, 0)`
unfoldable pub rows_of : Dict Key ℕ → ℕ → Scope → ℕ
unfolding lookup
rows_of by_scope u scope = get_or (lookup (u, scope) by_scope) 0

module _ (pool today : ℕ) where
  -- `_load_ledger` and `_load_carries`, a key at a time
  unfoldable pub ledger_at : Database → ℕ → Scope → Option ℤ
  unfolding lookup
  ledger_at db u scope = lookup (pool, (today, (u, scope))) db.ledger

  unfoldable pub carry_at : Database → ℕ → Scope → Option ℤ
  unfolding lookup
  carry_at db u scope = lookup (today, (u, scope)) db.carries

  -- `_write_settlement` for the rows of one member and scope
  unfoldable pub write_rows : ℕ → Scope → Write → Database → Database
  unfolding insert
  write_rows u scope w db = record {
    ledger = upsert insert (pool, (today, (u, scope))) w.charge db.ledger;
    carries = upsert insert (today, (u, scope)) w.carry db.carries;
  }

  -- `carries.get(key, 0)` and `ledger.get(key, 0)`
  abbrev pub carry_in : Database → ℕ → Scope → ℤ
  carry_in db u scope = get_or (carry_at db u scope) (pos 0)

  abbrev pub charged_before : Database → ℕ → Scope → ℤ
  charged_before db u scope = get_or (ledger_at db u scope) (pos 0)

  module _ (p : ProfileRegistry) (g : GroupState) (by_scope : Dict Key ℕ) (db : Database) where
    -- `record`
    unfoldable pub record_write : ℕ → Scope → ℤ → Write
    unfolding rows_of carry_at ◌-ℤ◌
    record_write u scope charged =
        let carry = charged -ℤ pos (rows_of by_scope u scope) in
        let is_zero = leb_ℤ carry (pos 0) && leb_ℤ (pos 0) carry in
        record {
          charge = some charged;
          carry = if not is_zero || is_some (carry_at db u scope) then some carry else none;
        }

    -- What a member has effectively used: `max(0, rows + carry_in)`
    unfoldable pub effective : ℕ → Scope → ℕ
    unfolding rows_of carry_at ◌+ℤ◌
    effective u scope = max_zero (pos (rows_of by_scope u scope) +ℤ carry_in db u scope)

    -- The branch of an unlimited pool.
    unfoldable pub unlimited_write : Scope → Member → Write
    unfolding record_write effective ledger_at member_limit_for_scope
    unlimited_write scope m =
        if nat_eq (rows_of by_scope m.user_id scope) 0
          && not (is_some (ledger_at db m.user_id scope))
          && (leb_ℤ (carry_in db m.user_id scope) (pos 0)
              && leb_ℤ (pos 0) (carry_in db m.user_id scope))
        then no_write
        else record_write m.user_id scope
            (pos (clamp (member_limit_for_scope p g m.user_id scope) (effective m.user_id scope)))

    -- `any(limits[uid] is None for uid, _ in members if uid not in inactive)`
    unfoldable pub is_unlimited : List Member → Scope → Bool
    unfolding member_limit_for_scope
    is_unlimited members scope =
        any (λ m. m.is_active && not (is_some (member_limit_for_scope p g m.user_id scope))) members

    unfoldable pub pool_delta : List Member → Scope → ℤ
    unfolding rows_of carry_at ledger_at ◌+ℤ◌ ◌-ℤ◌
    pool_delta members scope =
        sum_ℤ (λ m. pos (rows_of by_scope m.user_id scope) +ℤ carry_in db m.user_id scope) members
        -ℤ sum_ℤ (λ m. charged_before db m.user_id scope) members

    -- The position of a member as `apportion` sees it. No active member is without a limit here,
    -- so the 0 for one is never read.
    unfoldable pub member_position : Scope → Member → MemberShare
    unfolding rows_of ledger_at member_limit_for_scope
    member_position scope m = record {
      user_id = m.user_id;
      limit =
          if m.is_active
          then pos (get_or (member_limit_for_scope p g m.user_id scope) 0)
          else charged_before db m.user_id scope;
      charged = charged_before db m.user_id scope;
      consumed = rows_of by_scope m.user_id scope;
    }

    -- The branch of a pool with a limit, for the shares of one call of `apportion`.
    unfoldable pub limited_write : Dict ℕ ℤ → Scope → Member → Write
    unfolding record_write share_of ledger_at ◌+ℤ◌
    limited_write shares scope m =
        record_write m.user_id scope
          (charged_before db m.user_id scope +ℤ share_of shares m.user_id)

    -- One scope of the loop of `settle_pool`: the rows of each member.
    unfoldable pub scope_write : Bool → List Member → Scope → Member → Write
    scope_write dissolving members scope m =
        let delta = pool_delta members scope in
        if is_unlimited members scope
        then unlimited_write scope m
        else if leb_ℤ delta (pos 0) && leb_ℤ (pos 0) delta && not dissolving
        then no_write
        else limited_write (apportion delta (map (member_position scope) members)) scope m

  unfoldable pub write_members : (Member → Write) → Scope → List Member → Database → Database
  unfolding write_rows
  write_members write scope [] db = db
  write_members write scope (m ∷ ms) db =
      write_members write scope ms (write_rows m.user_id scope (write m) db)

  unfoldable pub write_scopes :
      (Scope → Member → Write) → List Member → List Scope → Database → Database
  unfolding write_members
  write_scopes write members [] db = db
  write_scopes write members (scope ∷ scopes) db =
      write_scopes write members scopes (write_members (write scope) scope members db)

  -- `settle_pool`, on the usage rows that are read after the flush
  unfoldable pub settle_pool :
      ProfileRegistry → GroupState → List Usage → Bool → List Member → Database → Database
  unfolding scope_write write_scopes fold_models_into_scopes settlement_scopes
  settle_pool p g usage dissolving members db =
      if is_empty members
      then db
      else write_scopes (scope_write p g (fold_models_into_scopes g usage []) db dissolving members)
          members (settlement_scopes g) db
