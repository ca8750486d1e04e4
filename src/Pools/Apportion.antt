-- ===== src/Pools/Apportion.antt =====
-- `apportion` of app/auth/pools.py: a split of `delta` whole requests among the members of a pool.
-- User ids and request counts are natural numbers, and the keys of a dict of the source are read
-- with default 0, since every key that the loop reads was put in before it.
pub mod Rounding
pub mod Exact
pub mod Loop
pub mod Ends
pub mod Members
pub mod Shares
use llm_proxy_server.Prelude.{
  ℕ, zero, suc, ◌+◌, ◌-◌, ◌*◌, ◌/◌, ◌%◌, Bool, true, false, List, [], ◌∷◌, map, ℤ, pos, negsuc,
  negate, ◌-ℤ◌, max_zero, ltb, nat_eq, Dict, lookup, insert, get_or, if◌then◌else◌, length, take,
  filter, sum_by, remove, is_empty, ◌||◌, ℕ-Keyed,
}

pub record MemberShare : Type 0 where
  pub user_id : ℕ
  pub limit : ℤ
  pub charged : ℤ
  pub consumed : ℕ

-- `d[u]`
unfoldable pub read : Dict ℕ ℕ → ℕ → ℕ
unfolding lookup
read d u = get_or (lookup u d) 0

-- `{m.user_id: f(m) for m in members}`
unfoldable pub by_user : (MemberShare → ℕ) → List MemberShare → Dict ℕ ℕ → Dict ℕ ℕ
unfolding insert
by_user f [] d = d
by_user f (m ∷ ms) d = by_user f ms (insert m.user_id (f m) d)

-- The variables of the `while` loop.
pub record Split : Type 0 where
  pub active : List ℕ
  pub remaining : ℕ
  pub shares : Dict ℕ ℕ

-- `for u in us: floors[u] += 1`
unfoldable pub increment_each : List ℕ → (ℕ → ℕ) → ℕ → ℕ
increment_each [] floors = floors
increment_each (u ∷ us) floors =
    increment_each us (λ v. if nat_eq u v then floors v + 1 else floors v)

-- `for u in us: shares[u] = f(u)`
unfoldable pub assign_each : (ℕ → ℕ) → List ℕ → Dict ℕ ℕ → Dict ℕ ℕ
unfolding insert
assign_each f [] d = d
assign_each f (u ∷ us) d = assign_each f us (insert u (f u) d)

-- `for u in over: shares[u] = headroom[u]; remaining -= headroom[u]; active.remove(u)`
unfoldable pub pin : (ℕ → ℕ) → List ℕ → Split → Split
unfolding insert
pin headroom [] s = s
pin headroom (u ∷ us) s = pin headroom us (record {
  active = remove u s.active;
  remaining = s.remaining - headroom u;
  shares = insert u (headroom u) s.shares;
})

-- `sum(weight[u] for u in active)`
unfoldable pub weight_sum : (ℕ → ℕ) → List ℕ → ℕ
weight_sum weight active = sum_by weight active

-- `{u: (remaining * weight[u]) // weight_sum for u in active}`
unfoldable pub floor_share : (ℕ → ℕ) → ℕ → List ℕ → ℕ → ℕ
floor_share weight remaining active u = remaining * weight u / weight_sum weight active

unfoldable pub leftover : (ℕ → ℕ) → ℕ → List ℕ → ℕ
leftover weight remaining active = remaining - sum_by (floor_share weight remaining active) active

module _ (weight consumed : ℕ → ℕ) where
  -- The order of the sort keys `(-(remaining * weight % weight_sum), -consumed, u)`.
  unfoldable pub before : ℕ → ℕ → ℕ → ℕ → Bool
  before remaining weight_sum u v =
      let frac_u = remaining * weight u % weight_sum in
      let frac_v = remaining * weight v % weight_sum in
      if ltb frac_v frac_u
      then true
      else if ltb frac_u frac_v
      then false
      else if ltb (consumed v) (consumed u)
      then true
      else if ltb (consumed u) (consumed v)
      then false
      else ltb u v

  unfoldable pub insert_sorted : ℕ → ℕ → ℕ → List ℕ → List ℕ
  unfolding before
  insert_sorted remaining weight_sum u [] = u ∷ []
  insert_sorted remaining weight_sum u (v ∷ vs) =
      let rest = v ∷ insert_sorted remaining weight_sum u vs in
      if before remaining weight_sum v u then rest else u ∷ v ∷ vs

  -- `sorted(active, key=...)`
  unfoldable pub sorted : ℕ → ℕ → List ℕ → List ℕ
  unfolding insert_sorted
  sorted remaining weight_sum [] = []
  sorted remaining weight_sum (u ∷ us) =
      insert_sorted remaining weight_sum u (sorted remaining weight_sum us)

  -- The floors after the leftover is handed out.
  unfoldable pub rounded : ℕ → List ℕ → ℕ → ℕ
  unfolding leftover floor_share weight_sum sorted increment_each
  rounded remaining active =
      let order = sorted remaining (weight_sum weight active) active in
      increment_each (take (leftover weight remaining active) order)
        (floor_share weight remaining active)

module _ (weight headroom consumed : ℕ → ℕ) where
  unfoldable pub over : ℕ → List ℕ → List ℕ
  unfolding rounded
  over remaining active =
      filter (λ u. ltb (headroom u) (rounded weight consumed remaining active u)) active

  -- The state after the branch `if not over`, which leaves the loop.
  unfoldable pub finish : Split → Split
  unfolding rounded assign_each
  finish s = record s {
    remaining = 0;
    shares = assign_each (rounded weight consumed s.remaining s.active) s.active s.shares;
  }

  -- One round of the loop, given what the rounds after it do. The tests are those of `while`, of
  -- `if weight_sum == 0: break` and of `if not over`.
  unfoldable pub round : (Split → Split) → Split → Split
  unfolding over pin finish
  round again s =
      if is_empty s.active || nat_eq s.remaining 0
      then s
      else if nat_eq (weight_sum weight s.active) 0
      then s
      else if is_empty (over s.remaining s.active)
      then finish s
      else again (pin headroom (over s.remaining s.active) s)

  unfoldable pub split_loop : ℕ → Split → Split
  unfolding round
  split_loop zero s = s
  split_loop (suc fuel) s = round (λ t. split_loop fuel t) s

abbrev pub ids : List MemberShare → List ℕ
ids ms = map (λ m. m.user_id) ms

-- What a member can still absorb, and the weight of the limit.
abbrev pub charge_headroom : MemberShare → ℕ
charge_headroom m = max_zero (m.limit -ℤ m.charged)

abbrev pub refund_headroom : MemberShare → ℕ
refund_headroom m = max_zero m.charged

abbrev pub limit_weight : MemberShare → ℕ
limit_weight m = max_zero m.limit

-- The split of `total` requests, with the headroom of the two directions.
unfoldable pub split : (MemberShare → ℕ) → ℕ → List MemberShare → Split
unfolding split_loop by_user read
split room total ms =
    split_loop (read (by_user limit_weight ms [])) (read (by_user room ms []))
      (read (by_user (λ m. m.consumed) ms [])) (suc (length ms))
      (record { active = ids ms; remaining = total; shares = by_user (λ m. 0) ms [] })

unfoldable pub apportion : ℤ → List MemberShare → Dict ℕ ℤ
unfolding split negate
apportion delta [] = []
apportion (pos zero) ms = map (λ (u, s). (u, pos s)) (by_user (λ m. 0) ms [])
apportion (pos (suc n)) ms = map (λ (u, s). (u, pos s)) (split charge_headroom (suc n) ms).shares
apportion (negsuc n) ms =
    map (λ (u, s). (u, negate (pos s))) (split refund_headroom (suc n) ms).shares

-- `shares.get(uid, 0)`
unfoldable pub share_of : Dict ℕ ℤ → ℕ → ℤ
unfolding lookup
share_of d u = get_or (lookup u d) (pos 0)
