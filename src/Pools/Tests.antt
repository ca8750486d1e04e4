-- ===== src/Pools/Tests.antt =====
-- Runs of the settlement of a pool, and its theorems at concrete inputs.
use llm_proxy_server.Prelude.{
  ℕ, ◌≤◌, ◌≡◌, refl, true, false, some, List, [], ◌∷◌, map, arith, pos, negsuc, negate, ◌+ℤ◌, ◌-ℤ◌,
  ◌≤ℤ◌, sum_ℤ, sum_by, Dict, IsDistinct, All, length, min,
}
use llm_proxy_server.Profiles.{ProfileRegistry, empty_default, ProfileSnapshot}
use llm_proxy_server.Limits.Groups.{GroupState, Scope, overall, settlement_scopes}
use llm_proxy_server.Pools.Apportion.{MemberShare, apportion, charge_headroom, refund_headroom}
use llm_proxy_server.Pools.Apportion.Members.{absorbable}
use llm_proxy_server.Pools.Apportion.Shares.{apportion_charge, apportion_refund, member_share}
use llm_proxy_server.Pools.Settle.{
  Usage, Key, Database, Member, settle_pool, scope_write, is_unlimited, pool_delta, limited_write,
  member_position, ledger_at, carry_at, fold_models_into_scopes, rows_of,
}
use llm_proxy_server.Pools.Settle.Balance.{charge_of, used_of, settle_pool-balanced}
use llm_proxy_server.Pools.Settle.Fair.{room, settle_pool-charges}
use llm_proxy_server.Pools.Settle.Again.{SameEntries, settle_pool-idempotent}
use llm_proxy_server.Pools.Join.{PoolState, join_pool, leave_pool, admit_member}
use llm_proxy_server.Pools.Join.Level.{IsLevel, settle_pool-IsLevel}
use llm_proxy_server.Pools.Join.Changes.{join_pool-IsLevel, leave_pool-IsLevel}

abbrev share : ℕ → ℕ → ℕ → ℕ → MemberShare
share u l c k = record { user_id = u; limit = pos l; charged = pos c; consumed = k }

abbrev trio : List MemberShare
trio = share 1 100 0 3 ∷ share 2 100 0 7 ∷ share 3 100 0 7 ∷ []

-- The heavier consumer, then the lower id, absorbs the rounding.
apportion_ties : apportion (pos 10) trio ≡ (1, pos 3) ∷ (2, pos 4) ∷ (3, pos 3) ∷ []
unfolding apportion ◌-ℤ◌
apportion_ties = refl

apportion_capped :
    apportion (pos 10) (share 1 3 2 3 ∷ share 2 100 0 7 ∷ share 3 100 0 7 ∷ [])
    ≡ (1, pos 0) ∷ (2, pos 5) ∷ (3, pos 5) ∷ []
unfolding apportion ◌-ℤ◌
apportion_capped = refl

apportion_charge_example :
    All
      (λ m.
        (pos 0 ≤ℤ member_share (pos 10) trio m)
        × (member_share (pos 10) trio m ≤ℤ pos (charge_headroom m)))
      trio
    × (sum_ℤ (member_share (pos 10) trio) trio ≡ pos (min 10 (sum_by charge_headroom trio)))
apportion_charge_example = apportion_charge 10 trio (λ u. ground arith) (ground arith)

apportion_refund_example :
    All
      (λ m.
        (member_share (negsuc 9) trio m ≤ℤ pos 0)
        × (negate (pos (refund_headroom m)) ≤ℤ member_share (negsuc 9) trio m))
      trio
    × (sum_ℤ (member_share (negsuc 9) trio) trio
        ≡ negate (pos (min 10 (sum_by (absorbable refund_headroom) trio))))
apportion_refund_example = apportion_refund 9 trio (λ u. ground arith)

abbrev hundred : ProfileSnapshot
hundred = record empty_default { rpd = some 100 }

abbrev profiles : ProfileRegistry
profiles = record { users = []; profiles = (1, hundred) ∷ [] }

abbrev no_groups : GroupState
no_groups = record { groups = []; model_to_group = []; provider_to_group = [] }

abbrev scope : Scope
scope = (overall, 0)

abbrev pair : List Member
pair = record { user_id = 7; is_active = true } ∷ record { user_id = 8; is_active = true } ∷ []

abbrev usage : List Usage
usage =
    record { user_id = 7; model = "azure:primary/gpt-4"; request_count = 30 }
    ∷ record { user_id = 8; model = "openai:main/gpt-4"; request_count = 10 }
    ∷ record { user_id = 8; model = "openai:byok-8-mine/gpt-4"; request_count = 5 }
    ∷ []

abbrev empty_db : Database
empty_db = record { ledger = []; carries = [] }

-- 40 requests of equal limits are 20 each: the carries move 10 from one member to the other.
settle_run : settle_pool 3 20 profiles no_groups usage false pair empty_db ≡ record {
  ledger = ((3, (20, (7, scope))), pos 20) ∷ ((3, (20, (8, scope))), pos 20) ∷ [];
  carries = ((20, (7, scope)), negsuc 9) ∷ ((20, (8, scope)), pos 10) ∷ [];
}
unfolding settle_pool scope_write is_unlimited pool_delta limited_write member_position apportion
settle_run = refl

abbrev rows : Dict Key ℕ
rows = fold_models_into_scopes no_groups usage []

pair-IsDistinct : IsDistinct (map (λ (m : Member). m.user_id) pair)
pair-IsDistinct u = ground arith

settle_pool-balanced_example :
    sum_ℤ
      (charge_of 3 20 (settle_pool 3 20 profiles no_groups usage false pair empty_db) scope)
      pair
    ≡ sum_ℤ
        (used_of 3 20 rows (settle_pool 3 20 profiles no_groups usage false pair empty_db) scope)
        pair
unfolding settlement_scopes
settle_pool-balanced_example =
    settle_pool-balanced 3 20 profiles no_groups usage false empty_db scope pair pair-IsDistinct
      refl

settle_pool-charges_example :
    All
      (λ m.
        (charge_of 3 20 empty_db scope m
          ≤ℤ charge_of 3 20 (settle_pool 3 20 profiles no_groups usage false pair empty_db) scope m)
        × (charge_of 3 20 (settle_pool 3 20 profiles no_groups usage false pair empty_db) scope m
            ≤ℤ charge_of 3 20 empty_db scope m
              +ℤ pos (room 3 20 profiles no_groups usage false empty_db scope 39 pair m)))
      pair
    × (sum_ℤ
          (charge_of 3 20 (settle_pool 3 20 profiles no_groups usage false pair empty_db) scope)
          pair
        ≡ sum_ℤ (charge_of 3 20 empty_db scope) pair
          +ℤ pos (
              min 40
                (sum_by (room 3 20 profiles no_groups usage false empty_db scope 39 pair) pair)))
unfolding settlement_scopes is_unlimited pool_delta fold_models_into_scopes ledger_at
settle_pool-charges_example =
    settle_pool-charges 3 20 profiles no_groups usage false empty_db scope 39 pair refl refl
      pair-IsDistinct refl (ground arith)

settle_pool-idempotent_example :
    All
      (SameEntries 3 20 profiles no_groups usage scope
        (settle_pool 3 20 profiles no_groups usage false pair empty_db)
        (settle_pool 3 20 profiles no_groups usage false pair
          (settle_pool 3 20 profiles no_groups usage false pair empty_db)))
      pair
unfolding settlement_scopes
settle_pool-idempotent_example =
    settle_pool-idempotent 3 20 profiles no_groups usage scope pair empty_db pair-IsDistinct refl

-- Before any usage every member is level.
pair-IsLevel : All (IsLevel 3 20 [] empty_db scope) pair
unfolding rows_of ledger_at carry_at ◌+ℤ◌
pair-IsLevel = (refl, (refl, tt))

settle_pool-IsLevel_example :
    All
      (IsLevel 3 20 rows (settle_pool 3 20 profiles no_groups usage false pair empty_db) scope)
      pair
unfolding settlement_scopes ledger_at carry_at rows_of
settle_pool-IsLevel_example =
    settle_pool-IsLevel 3 20 profiles no_groups usage [] scope refl false pair pair-IsDistinct
      empty_db pair-IsLevel (ground arith)

abbrev before_join : PoolState
before_join = record { members = pair; db = empty_db }

leave_pool-IsLevel_example :
    All
      (IsLevel 3 20 rows (leave_pool 3 20 profiles no_groups usage 7 before_join).db scope)
      (leave_pool 3 20 profiles no_groups usage 7 before_join).members
    × ((v : ℕ)
        → carry_at 3 20 (leave_pool 3 20 profiles no_groups usage 7 before_join).db v scope
          ≡ carry_at 3 20 (settle_pool 3 20 profiles no_groups usage false pair empty_db) v scope)
unfolding settlement_scopes rows_of
leave_pool-IsLevel_example =
    leave_pool-IsLevel 3 20 profiles no_groups usage [] scope refl before_join pair-IsDistinct
      pair-IsLevel (ground arith) 7

abbrev joined : PoolState
joined = record {
  members =
      record { user_id = 7; is_active = true }
      ∷ record { user_id = 8; is_active = true }
      ∷ record { user_id = 9; is_active = true }
      ∷ [];
  db =
      admit_member 3 20 profiles no_groups usage (record { user_id = 9; is_active = true })
        (settle_pool 3 20 profiles no_groups usage false pair empty_db);
}

join_pool-IsLevel_example :
    All (IsLevel 3 20 rows joined.db scope) joined.members × (length joined.members ≤ 3)
unfolding settlement_scopes rows_of ledger_at join_pool
join_pool-IsLevel_example =
    join_pool-IsLevel 3 20 profiles no_groups usage [] scope refl before_join pair-IsDistinct
      pair-IsLevel (ground arith) 3 (record { user_id = 9; is_active = true }) joined (ground arith)
      refl refl
