-- ===== src/Pools/Apportion/Exact.antt =====
-- One round of `apportion` hands out what remains: the rounded shares add up to it, and each is its
-- exact share rounded down or up.
use native.Mathlib.Nat.{div-add-mod, mod-lt, le_of_mul-le-mul_left, mul_comm}
use llm_proxy_server.Prelude.{
  ℕ, ◌+◌, ◌*◌, ◌/◌, ◌%◌, ◌≤◌, ◌≡◌, List, [], ◌∷◌, arith, nat_eq, if◌then◌else◌, ap, length, take,
  sum_by, count, count-take, sum_by-add, sum_by-eq_on, sum_by-count_swap, sum_by-one, IsDistinct,
  length-take_le,
}
use llm_proxy_server.Pools.Apportion.{weight_sum, floor_share, leftover, rounded}
use llm_proxy_server.Pools.Apportion.Rounding.{
  count-increment_each, frac, order, count-sorted, sum_by-sorted, Falls-sorted, fractional,
  take-frac,
}

module _ (weight consumed : ℕ → ℕ) (r w : ℕ) (pos_w : 1 ≤ w) where
  floors_and_fracs :
      (xs : List ℕ)
      → w * sum_by (λ u. r * weight u / w) xs + sum_by (frac weight consumed r w) xs
        ≡ r * sum_by weight xs
  floors_and_fracs [] = omega arith
  floors_and_fracs (x ∷ xs) = omega (arith, floors_and_fracs xs, div-add-mod (r * weight x) w)

  fracs-le :
      (xs : List ℕ) → sum_by (frac weight consumed r w) xs ≤ w * fractional weight consumed r w xs
  fracs-le [] = omega arith
  fracs-le (x ∷ xs) = ground (arith, fracs-le xs, mod-lt (r * weight x) pos_w)

  fractional-le_length : (xs : List ℕ) → fractional weight consumed r w xs ≤ length xs
  fractional-le_length [] = omega arith
  fractional-le_length (x ∷ xs) = ground (arith, fractional-le_length xs)

module _ (weight consumed : ℕ → ℕ) (r : ℕ) (active : List ℕ)
    (pos_w : 1 ≤ weight_sum weight active) where
  abbrev w : ℕ
  w = weight_sum weight active

  abbrev winners : List ℕ
  winners = take (leftover weight r active) (order weight consumed r w active)

  floors-le : w * sum_by (floor_share weight r active) active ≤ w * r
  unfolding weight_sum floor_share
  floors-le = omega (arith, floors_and_fracs weight consumed r w pos_w active, mul_comm w r)

  -- The subtraction that gives the leftover does not go below 0.
  leftover_exact : sum_by (floor_share weight r active) active + leftover weight r active ≡ r
  unfolding leftover
  leftover_exact = omega (arith, le_of_mul-le-mul_left floors-le pos_w)

  -- There are at least as many fractional parts as requests left over.
  leftover_products : w * leftover weight r active ≤ w * fractional weight consumed r w active
  unfolding weight_sum floor_share
  leftover_products = omega (
    arith,
    floors_and_fracs weight consumed r w pos_w active,
    fracs-le weight consumed r w pos_w active,
    ap (λ (t : ℕ). w * t) leftover_exact,
    mul_comm w r,
  )

  leftover-le : leftover weight r active ≤ fractional weight consumed r w active
  leftover-le = le_of_mul-le-mul_left leftover_products pos_w

  rounded-eq :
      (u : ℕ) → rounded weight consumed r active u ≡ floor_share weight r active u + count u winners
  unfolding rounded
  rounded-eq u = count-increment_each winners (floor_share weight r active) u

  length-winners : length winners ≡ leftover weight r active
  length-winners = length-take_le _ (order weight consumed r w active) (
      omega (
        arith,
        leftover-le,
        fractional-le_length weight consumed r w pos_w active,
        sum_by-sorted weight consumed r w (λ u. 1) active,
        sum_by-one (order weight consumed r w active),
        sum_by-one active,
      ))

  count-winners : (u : ℕ) → count u winners ≤ count u active
  count-winners u = omega (
    arith,
    count-take u (leftover weight r active) (order weight consumed r w active),
    count-sorted weight consumed r w u active,
  )

  -- Only a member with a fractional part gets one of the requests left over.
  winner-frac : (u : ℕ) → 1 ≤ count u winners → 1 ≤ frac weight consumed r w u
  winner-frac u m =
      take-frac weight consumed r w (leftover weight r active) u (order weight consumed r w active)
        (Falls-sorted weight consumed r w active)
        (omega (
          arith,
          leftover-le,
          sum_by-sorted weight consumed r w
              (λ u. if nat_eq (frac weight consumed r w u) 0 then 0 else 1) active,
        ))
        m

  -- A member of weight 0 gets nothing.
  pub rounded-weight_zero : (u : ℕ) → weight u ≡ 0 → rounded weight consumed r active u ≡ 0
  unfolding floor_share
  rounded-weight_zero u z =
      ground (
        arith,
        rounded-eq u,
        winner-frac u,
        ap (λ (t : ℕ). r * t % w) z,
        ap (λ (t : ℕ). r * t / w) z,
      )

  module _ (distinct : IsDistinct active) where
    winners_once : sum_by (λ u. count u winners) active ≡ leftover weight r active
    winners_once = omega (
      arith,
      sum_by-count_swap active winners,
      sum_by-eq_on (λ u. count u active) (λ u. 1) winners
          (λ u m. omega (arith, distinct u, count-winners u)),
      sum_by-one winners,
      length-winners,
    )

    -- The rounded shares add up to what remains.
    pub sum_by-rounded : sum_by (rounded weight consumed r active) active ≡ r
    sum_by-rounded = omega (
      arith,
      leftover_exact,
      winners_once,
      sum_by-add (floor_share weight r active) (λ u. count u winners) active,
      sum_by-eq_on (rounded weight consumed r active)
          (λ u. floor_share weight r active u + count u winners) active (λ u m. rounded-eq u),
    )

    pub rounded-floor : (u : ℕ) → floor_share weight r active u ≤ rounded weight consumed r active u
    rounded-floor u = omega (arith, rounded-eq u)

    pub rounded-ceil :
        (u : ℕ) → rounded weight consumed r active u ≤ floor_share weight r active u + 1
    rounded-ceil u = omega (arith, rounded-eq u, count-winners u, distinct u)
