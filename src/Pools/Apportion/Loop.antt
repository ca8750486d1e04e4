-- ===== src/Pools/Apportion/Loop.antt =====
-- The `while` loop of `apportion`: its invariant, and that it ends by its own tests.
use llm_proxy_server.Prelude.{
  ℕ, ◌+◌, ◌-◌, ◌*◌, ◌≤◌, ◌≡◌, refl, ◌⊎◌, List, [], ◌∷◌, arith, nat_eq, if◌then◌else◌, length,
  sum_by, remove, count, count-remove, length-remove, IsDistinct, Dict, insert, lookup-insert,
  ℕ-Keyed,
}
use llm_proxy_server.Pools.Apportion.{Split, read, assign_each, pin}

pub read-insert :
    (u j v : ℕ) (d : Dict ℕ ℕ) → read (insert u v d) j ≡ (if nat_eq u j then v else read d j)
unfolding read
read-insert u j v d = ground (arith, lookup-insert u j v d)

sum_by-insert :
    (u v : ℕ) (d : Dict ℕ ℕ) (xs : List ℕ)
    → sum_by (read (insert u v d)) xs + count u xs * read d u ≡ sum_by (read d) xs + count u xs * v
sum_by-insert u v d [] = omega arith
sum_by-insert u v d (x ∷ xs) = grind (arith, sum_by-insert u v d xs, read-insert u x v d)

-- A new entry for an id that stands once in `xs`.
sum_by-insert_once :
    (u v : ℕ) (d : Dict ℕ ℕ) (xs : List ℕ)
    → count u xs ≡ 1
    → read d u ≡ 0
    → sum_by (read (insert u v d)) xs ≡ sum_by (read d) xs + v
sum_by-insert_once u v d xs once unset = grind (arith, sum_by-insert u v d xs)

module _ (weight headroom : ℕ → ℕ) (ids : List ℕ) (total : ℕ) where
  -- What is shared out and what remains make up the total; a member still in the split has no
  -- share, one that was pinned has all of its headroom, and one of weight 0 gets nothing.
  pub record IsSound (s : Split) : Type 0 where
    pub subset : (u : ℕ) → count u s.active ≤ count u ids
    pub conserved : sum_by (read s.shares) ids + s.remaining ≡ total
    pub pending : (u : ℕ) → 1 ≤ count u s.active → read s.shares u ≡ 0
    pub pinned : (u : ℕ) → count u s.active ≡ 0 → 1 ≤ count u ids → read s.shares u ≡ headroom u
    pub weightless : (u : ℕ) → weight u ≡ 0 → read s.shares u ≡ 0

  -- How the loop ends: within the headroom, and with nothing left unless everybody who has a
  -- weight has all of the headroom.
  pub record IsSplit (s : Split) : Type 0 where
    pub conserved : sum_by (read s.shares) ids + s.remaining ≡ total
    pub bounded : (u : ℕ) → 1 ≤ count u ids → read s.shares u ≤ headroom u
    pub complete :
        (s.remaining ≡ 0)
        ⊎ ((u : ℕ) → 1 ≤ count u ids → 1 ≤ weight u → read s.shares u ≡ headroom u)
    pub weightless : (u : ℕ) → weight u ≡ 0 → read s.shares u ≡ 0

  -- Of a member's state: pinned or still in the split.
  pub bounded-IsSound :
      (s : Split) → IsSound s → (u : ℕ) → 1 ≤ count u ids → read s.shares u ≤ headroom u
  bounded-IsSound s h u m = ground (arith, h.pending u, h.pinned u)

  module _ (distinct : IsDistinct ids) where
    abbrev pin_one : ℕ → Split → Split
    pin_one u s = record {
      active = remove u s.active;
      remaining = s.remaining - headroom u;
      shares = insert u (headroom u) s.shares;
    }

    pin_one-IsSound :
        (u : ℕ) (s : Split)
        → IsSound s
        → 1 ≤ count u s.active
        → 1 ≤ weight u
        → headroom u ≤ s.remaining
        → IsSound (pin_one u s)
    pin_one-IsSound u s h m weighs fits = record {
      subset = λ v. omega (arith, h.subset v, count-remove u v s.active m);
      conserved = omega (
        arith,
        h.conserved,
        sum_by-insert_once u (headroom u) s.shares ids (omega (arith, h.subset u, distinct u))
            (h.pending u m),
      );
      pending = λ v mv. ground (
        arith,
        h.pending v,
        count-remove u v s.active m,
        read-insert u v (headroom u) s.shares,
        h.subset u,
        distinct u,
      );
      pinned = λ v z mv.
          ground
            (arith, h.pinned v, count-remove u v s.active m, read-insert u v (headroom u) s.shares);
      weightless = λ v z. ground (arith, h.weightless v, read-insert u v (headroom u) s.shares);
    }

    pub pin-IsSound :
        (us : List ℕ) (s : Split)
        → IsSound s
        → ((u : ℕ) → count u us ≤ count u s.active)
        → ((u : ℕ) → 1 ≤ count u us → 1 ≤ weight u)
        → sum_by headroom us ≤ s.remaining
        → IsSound (pin headroom us s)
          × (length (pin headroom us s).active + length us ≡ length s.active)
    unfolding pin
    pin-IsSound [] s h sub weighs fits = (h, omega arith)
    pin-IsSound (u ∷ us) s h sub weighs fits =
        let m : 1 ≤ count u s.active = ground (arith, sub u) in
        let rest =
          pin-IsSound us (pin_one u s)
            (pin_one-IsSound u s h m (weighs u (ground arith)) (omega arith))
            (λ v. omega (arith, sub v, count-remove u v s.active m))
            (λ v mv. weighs v (omega arith)) (omega arith) in
        (rest.0, omega (arith, rest.1, length-remove u s.active m))

-- `assign_each` sets the entries of the list, and no other.
pub read-assign_each_out :
    (f : ℕ → ℕ) (us : List ℕ) (d : Dict ℕ ℕ) (v : ℕ)
    → count v us ≡ 0
    → read (assign_each f us d) v ≡ read d v
unfolding assign_each
read-assign_each_out f [] d v z = refl
read-assign_each_out f (u ∷ us) d v z =
    ground (arith, read-assign_each_out f us (insert u (f u) d) v, read-insert u v (f u) d)

pub read-assign_each_in :
    (f : ℕ → ℕ) (us : List ℕ) (d : Dict ℕ ℕ) (v : ℕ)
    → 1 ≤ count v us
    → read (assign_each f us d) v ≡ f v
unfolding assign_each
read-assign_each_in f [] d v m = absurd (omega arith)
read-assign_each_in f (u ∷ us) d v m = ground (
  arith,
  read-assign_each_in f us (insert u (f u) d) v,
  read-assign_each_out f us (insert u (f u) d) v,
  read-insert u v (f u) d,
)

pub sum_by-assign_each :
    (f : ℕ → ℕ) (ids : List ℕ)
    → IsDistinct ids
    → (us : List ℕ) (d : Dict ℕ ℕ) → ((v : ℕ) → count v us ≤ count v ids)
    → ((v : ℕ) → 1 ≤ count v us → read d v ≡ 0)
    → sum_by (read (assign_each f us d)) ids ≡ sum_by (read d) ids + sum_by f us
unfolding assign_each
sum_by-assign_each f ids distinct [] d sub unset = omega arith
sum_by-assign_each f ids distinct (u ∷ us) d sub unset = omega (
  arith,
  sum_by-assign_each f ids distinct us (insert u (f u) d) (λ v. omega (arith, sub v))
      (λ v m. ground (arith, read-insert u v (f u) d, unset v, sub u, distinct u)),
  sum_by-insert_once u (f u) d ids (ground (arith, sub u, distinct u)) (unset u (ground arith)),
)
