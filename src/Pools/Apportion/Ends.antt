-- ===== src/Pools/Apportion/Ends.antt =====
-- How the loop of `apportion` ends: by one of its own tests, within as many rounds as there are
-- members in the split.
use llm_proxy_server.Prelude.{
  ℕ, zero, suc, ◌+◌, ◌≤◌, ◌≡◌, refl, inl, inr, true, false, List, arith, nat_eq, ltb, if◌then◌else◌,
  length, sum_by, is_empty, count, count-filter, filter_sound, filter_empty, length-filter_pos,
  sum_by-filter, sum_by-le_on, sum_by-mem, IsDistinct, Bool-cases, count-le_length,
}
use llm_proxy_server.Pools.Apportion.{
  Split, weight_sum, rounded, over, pin, finish, round, split_loop,
}
use llm_proxy_server.Pools.Apportion.Exact.{sum_by-rounded, rounded-weight_zero}
use llm_proxy_server.Pools.Apportion.Loop.{
  IsSound, IsSplit, bounded-IsSound, pin-IsSound, read-assign_each_out, read-assign_each_in,
  sum_by-assign_each,
}

module _ (weight headroom consumed : ℕ → ℕ) (ids : List ℕ) (total : ℕ) (distinct : IsDistinct ids)
    (s : Split) (h : IsSound weight headroom ids total s) where
  abbrev gives : ℕ → ℕ
  gives = rounded weight consumed s.remaining s.active

  abbrev pub capped : List ℕ
  capped = over weight headroom consumed s.remaining s.active

  active-IsDistinct : IsDistinct s.active
  active-IsDistinct u = omega (arith, h.subset u, distinct u)

  module _ (weighs : nat_eq (weight_sum weight s.active) 0 ≡ false) where
    pos_w : 1 ≤ weight_sum weight s.active
    pos_w = ground arith

    pub finish-IsSplit :
        is_empty capped ≡ true
        → IsSplit weight headroom ids total (finish weight headroom consumed s)
    unfolding finish over
    finish-IsSplit none_over = record {
      conserved = omega (
        arith,
        h.conserved,
        sum_by-assign_each gives ids distinct s.active s.shares h.subset h.pending,
        sum_by-rounded weight consumed s.remaining s.active pos_w active-IsDistinct,
      );
      bounded = λ u m. ground (
        arith,
        h.pinned u,
        filter_empty (λ u. ltb (headroom u) (gives u)) u s.active none_over,
        read-assign_each_in gives s.active s.shares u,
        read-assign_each_out gives s.active s.shares u,
      );
      complete = inl refl;
      weightless = λ u z. ground (
        arith,
        h.weightless u z,
        rounded-weight_zero weight consumed s.remaining s.active pos_w u z,
        read-assign_each_in gives s.active s.shares u,
        read-assign_each_out gives s.active s.shares u,
      );
    }

    capped_over : (u : ℕ) → 1 ≤ count u capped → ltb (headroom u) (gives u) ≡ true
    unfolding over
    capped_over u = filter_sound (λ u. ltb (headroom u) (gives u)) u s.active

    capped_weighs : (u : ℕ) → 1 ≤ count u capped → 1 ≤ weight u
    capped_weighs u m =
        ground
          (arith, capped_over u m, rounded-weight_zero weight consumed s.remaining s.active pos_w u)

    -- The members over their headroom can all be pinned: what remains covers it.
    capped_fits : sum_by headroom capped ≤ s.remaining
    unfolding over
    capped_fits = omega (
      arith,
      sum_by-le_on headroom gives capped (λ u m. ground (arith, capped_over u m)),
      sum_by-filter gives (λ u. ltb (headroom u) (gives u)) s.active,
      sum_by-rounded weight consumed s.remaining s.active pos_w active-IsDistinct,
    )

    pub pin-capped :
        IsSound weight headroom ids total (pin headroom capped s)
        × (length (pin headroom capped s).active + length capped ≡ length s.active)
    unfolding over
    pin-capped =
        pin-IsSound weight headroom ids total distinct capped s h
          (λ u. count-filter (λ u. ltb (headroom u) (gives u)) u s.active) capped_weighs capped_fits

    pub pin_shrinks :
        is_empty capped ≡ false → length (pin headroom capped s).active + 1 ≤ length s.active
    unfolding over
    pin_shrinks e =
        omega (arith, pin-capped.1, length-filter_pos (λ u. ltb (headroom u) (gives u)) s.active e)

  -- The three exits that leave the state as it is.
  pub nothing_left : s.remaining ≡ 0 → IsSplit weight headroom ids total s
  nothing_left e = record {
    conserved = h.conserved;
    bounded = bounded-IsSound weight headroom ids total s h;
    complete = inl e;
    weightless = h.weightless;
  }

  pub nobody_left :
      ((u : ℕ) → 1 ≤ count u s.active → weight u ≡ 0) → IsSplit weight headroom ids total s
  nobody_left z = record {
    conserved = h.conserved;
    bounded = bounded-IsSound weight headroom ids total s h;
    complete = inr (λ u m w. ground (arith, h.pinned u, z u));
    weightless = h.weightless;
  }

  pub weight_sum_zero :
      weight_sum weight s.active ≡ 0 → (u : ℕ) → 1 ≤ count u s.active → weight u ≡ 0
  unfolding weight_sum
  weight_sum_zero z u m = omega (arith, sum_by-mem weight u s.active m)

  pub active_empty : is_empty s.active ≡ true → (u : ℕ) → 1 ≤ count u s.active → weight u ≡ 0
  active_empty e u m = ground arith

  over_headroom :
      (again : Split → Split)
      → ((t : Split)
          → IsSound weight headroom ids total t
          → length t.active + 1 ≤ length s.active
          → IsSplit weight headroom ids total (again t))
      → nat_eq (weight_sum weight s.active) 0 ≡ false
      → IsSplit weight headroom ids total (
          if is_empty capped
          then finish weight headroom consumed s
          else again (pin headroom capped s))
  over_headroom again ih w = elim (Bool-cases (is_empty capped)) [
    | inl e ↦ rw e (finish-IsSplit w e)
    | inr e ↦ rw e (ih (pin headroom capped s) (pin-capped w).0 (pin_shrinks w e))
  ]

  with_weight :
      (again : Split → Split)
      → ((t : Split)
          → IsSound weight headroom ids total t
          → length t.active + 1 ≤ length s.active
          → IsSplit weight headroom ids total (again t))
      → IsSplit weight headroom ids total (
          if nat_eq (weight_sum weight s.active) 0
          then s
          else if is_empty capped
          then finish weight headroom consumed s
          else again (pin headroom capped s))
  with_weight again ih = elim (Bool-cases (nat_eq (weight_sum weight s.active) 0)) [
    | inl e ↦ rw e (nobody_left (weight_sum_zero (ground arith)))
    | inr e ↦ rw e (over_headroom again ih e)
  ]

  -- One round, if the rounds after it end well.
  pub round-IsSplit :
      (again : Split → Split)
      → ((t : Split)
          → IsSound weight headroom ids total t
          → length t.active + 1 ≤ length s.active
          → IsSplit weight headroom ids total (again t))
      → IsSplit weight headroom ids total (round weight headroom consumed again s)
  unfolding round
  round-IsSplit again ih = elim (Bool-cases (is_empty s.active)) [
    | inl e ↦ rw e (nobody_left (active_empty e))
    | inr e ↦ elim (Bool-cases (nat_eq s.remaining 0)) [
      | inl z ↦ rw (e, z) (nothing_left (ground arith))
      | inr z ↦ rw (e, z) (with_weight again ih)
    ]
  ]

module _ (weight headroom consumed : ℕ → ℕ) (ids : List ℕ) (total : ℕ)
    (distinct : IsDistinct ids) where
  -- As many rounds as there are members in the split are enough.
  pub split_loop-IsSplit :
      (fuel : ℕ) (s : Split)
      → IsSound weight headroom ids total s
      → length s.active ≤ fuel
      → IsSplit weight headroom ids total (split_loop weight headroom consumed fuel s)
  unfolding split_loop
  split_loop-IsSplit zero s h fits =
      nobody_left weight headroom consumed ids total distinct s h
        (λ u m. absurd (omega (arith, count-le_length u s.active)))
  split_loop-IsSplit (suc fuel) s h fits =
      round-IsSplit weight headroom consumed ids total distinct s h
        (split_loop weight headroom consumed fuel)
        (λ t ht shorter. split_loop-IsSplit fuel t ht (omega arith))
