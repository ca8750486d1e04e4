-- ===== src/Pools/Join.antt =====
-- `admit_member` and `clear_member_settlement` of app/auth/pools.py, and the parts of
-- `accept_invite` and `_remove_member` of app/routes/pools.py that change who is in a pool.
-- Invitations, intervals, ownership and the commit of the session are not in the model.
pub mod Level
pub mod Changes
use llm_proxy_server.Prelude.{
  ℕ, suc, ◌+◌, Bool, true, false, not, ◌&&◌, ◌||◌, Option, none, some, List, [], ◌∷◌, ◌++◌, ℤ, pos,
  ◌+ℤ◌, ◌-ℤ◌, leb_ℤ, leb, max_zero, nat_eq, Dict, get_or, is_some, if◌then◌else◌, length, filter,
  ℕ-Keyed,
}
use llm_proxy_server.Profiles.{ProfileRegistry}
use llm_proxy_server.Limits.Groups.{GroupState, Scope, settlement_scopes, member_limit_for_scope}
use llm_proxy_server.Pools.Settle.{
  Key, Usage, Database, Member, Write, no_write, fold_models_into_scopes, carry_at, rows_of,
  carry_in, clamp, write_rows, write_scopes, settle_pool,
}

module _ (pool today : ℕ) (p : ProfileRegistry) (g : GroupState) where
  -- The opening rows of a member who joins, on one scope.
  unfoldable pub admit_write : Dict Key ℕ → Database → Scope → Member → Write
  admit_write by_scope db scope m =
      let rows = rows_of by_scope m.user_id scope in
      let carry_in' = carry_in pool today db m.user_id scope in
      let charged =
        clamp (member_limit_for_scope p g m.user_id scope) (max_zero (pos rows +ℤ carry_in')) in
      let carry = pos charged -ℤ pos rows in
      if nat_eq charged 0 && nat_eq rows 0 && (leb_ℤ carry_in' (pos 0) && leb_ℤ (pos 0) carry_in')
      then no_write
      else record {
        charge = some (pos charged);
        carry =
            if not (leb_ℤ carry (pos 0) && leb_ℤ (pos 0) carry)
              || is_some (carry_at pool today db m.user_id scope)
            then some carry
            else none;
      }

  unfoldable pub admit_member : List Usage → Member → Database → Database
  unfolding admit_write
  admit_member usage m db =
      write_scopes pool today (admit_write (fold_models_into_scopes g usage []) db) (m ∷ [])
        (settlement_scopes g) db

-- Drops the ledger rows of one member in one pool, of every day, and keeps the carries.
unfoldable pub clear_ledger : ℕ → ℕ → Dict (ℕ × (ℕ × Key)) ℤ → Dict (ℕ × (ℕ × Key)) ℤ
clear_ledger pool u [] = []
clear_ledger pool u (((q, (day, (v, scope))), charged) ∷ d) =
    let rest = clear_ledger pool u d in
    if nat_eq q pool && nat_eq v u then rest else ((q, (day, (v, scope))), charged) ∷ rest

unfoldable pub clear_member_settlement : ℕ → ℕ → Database → Database
unfolding clear_ledger
clear_member_settlement pool u db = record db { ledger = clear_ledger pool u db.ledger }

-- A pool's members, in the order in which they joined, and the two tables.
pub record PoolState : Type 0 where
  pub members : List Member
  pub db : Database

module _ (pool today : ℕ) (p : ProfileRegistry) (g : GroupState) (usage : List Usage) where
  -- `accept_invite` under the pool's lock; `none` is the error that the pool is full.
  unfoldable pub join_pool : ℕ → Member → PoolState → Option PoolState
  join_pool max_members m s =
      if leb max_members (length s.members)
      then none
      else some (record {
        members = s.members ++ m ∷ [];
        db =
            admit_member pool today p g usage m
              (settle_pool pool today p g usage false s.members s.db);
      })

  -- `_remove_member`
  unfoldable pub leave_pool : ℕ → PoolState → PoolState
  leave_pool u s = record {
    members = filter (λ m. not (nat_eq m.user_id u)) s.members;
    db = clear_member_settlement pool u (settle_pool pool today p g usage false s.members s.db);
  }
