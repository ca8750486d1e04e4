-- ===== src/Pools/Apportion/Rounding.antt =====
-- One round of `apportion`: the floors, the leftover and who gets it.
use llm_proxy_server.Prelude.{
  ℕ, zero, suc, ◌+◌, ◌*◌, ◌%◌, ◌≤◌, ◌≡◌, refl, true, false, List, [], ◌∷◌, arith, nat_eq,
  if◌then◌else◌, take, sum_by, All, count,
}
use llm_proxy_server.Pools.Apportion.{increment_each, before, insert_sorted, sorted}

pub count-increment_each :
    (us : List ℕ) (f : ℕ → ℕ) (v : ℕ) → increment_each us f v ≡ f v + count v us
unfolding increment_each
count-increment_each [] f v = omega arith
count-increment_each (u ∷ us) f v =
    ground (arith, count-increment_each us (λ v. if nat_eq u v then f v + 1 else f v) v)

module _ (weight consumed : ℕ → ℕ) (r w : ℕ) where
  -- the numerator of the fractional part of a member's exact share
  abbrev pub frac : ℕ → ℕ
  frac u = r * weight u % w

  abbrev pub order : List ℕ → List ℕ
  order = sorted weight consumed r w

  count-insert_sorted :
      (v u : ℕ) (xs : List ℕ) → count v (insert_sorted weight consumed r w u xs) ≡ count v (u ∷ xs)
  unfolding insert_sorted
  count-insert_sorted v u [] = refl
  count-insert_sorted v u (x ∷ xs) = ground (arith, count-insert_sorted v u xs)

  pub count-sorted : (v : ℕ) (xs : List ℕ) → count v (order xs) ≡ count v xs
  unfolding sorted
  count-sorted v [] = refl
  count-sorted v (x ∷ xs) = omega (arith, count-insert_sorted v x (order xs), count-sorted v xs)

  sum_by-insert_sorted :
      (f : ℕ → ℕ) (u : ℕ) (xs : List ℕ)
      → sum_by f (insert_sorted weight consumed r w u xs) ≡ f u + sum_by f xs
  unfolding insert_sorted
  sum_by-insert_sorted f u [] = refl
  sum_by-insert_sorted f u (x ∷ xs) = ground (arith, sum_by-insert_sorted f u xs)

  pub sum_by-sorted : (f : ℕ → ℕ) (xs : List ℕ) → sum_by f (order xs) ≡ sum_by f xs
  unfolding sorted
  sum_by-sorted f [] = refl
  sum_by-sorted f (x ∷ xs) = omega (arith, sum_by-insert_sorted f x (order xs), sum_by-sorted f xs)

  -- the fractional parts fall along the list
  abbrev pub Falls : List ℕ → Type 0
  Falls [] = Unit
  Falls (u ∷ us) = All (λ v. frac v ≤ frac u) us × Falls us

  All-insert_sorted :
      (k u : ℕ) (xs : List ℕ)
      → frac u ≤ k
      → All (λ v. frac v ≤ k) xs
      → All (λ v. frac v ≤ k) (insert_sorted weight consumed r w u xs)
  unfolding insert_sorted
  All-insert_sorted k u [] h all = ground arith
  All-insert_sorted k u (x ∷ xs) h all = ground (arith, All-insert_sorted k u xs h)

  All-le_trans :
      (a b : ℕ) (xs : List ℕ) → a ≤ b → All (λ v. frac v ≤ a) xs → All (λ v. frac v ≤ b) xs
  All-le_trans a b [] h all = tt
  All-le_trans a b (x ∷ xs) h all = (omega arith, All-le_trans a b xs h all.1)

  before-frac : (u v : ℕ) → before weight consumed r w u v ≡ true → frac v ≤ frac u
  unfolding before
  before-frac u v h = ground arith

  not_before-frac : (u v : ℕ) → before weight consumed r w u v ≡ false → frac u ≤ frac v
  unfolding before
  not_before-frac u v h = ground arith

  Falls-insert_sorted :
      (u : ℕ) (xs : List ℕ) → Falls xs → Falls (insert_sorted weight consumed r w u xs)
  unfolding insert_sorted
  Falls-insert_sorted u [] h = (tt, tt)
  Falls-insert_sorted u (x ∷ xs) h = ground (
    arith,
    before-frac x u,
    not_before-frac x u,
    All-insert_sorted (frac x) u xs,
    All-le_trans (frac x) (frac u) xs,
    Falls-insert_sorted u xs h.1,
  )

  pub Falls-sorted : (xs : List ℕ) → Falls (order xs)
  unfolding sorted
  Falls-sorted [] = tt
  Falls-sorted (x ∷ xs) = Falls-insert_sorted x (order xs) (Falls-sorted xs)

  -- how many members have a fractional part
  abbrev pub fractional : List ℕ → ℕ
  fractional xs = sum_by (λ u. if nat_eq (frac u) 0 then 0 else 1) xs

  no_fractional : (xs : List ℕ) → All (λ v. frac v ≤ 0) xs → fractional xs ≡ 0
  no_fractional [] h = refl
  no_fractional (x ∷ xs) h = ground (arith, no_fractional xs h.1)

  -- Those in front have one, as long as there are enough of them.
  pub take-frac :
      (k u : ℕ) (xs : List ℕ) → Falls xs → k ≤ fractional xs → 1 ≤ count u (take k xs) → 1 ≤ frac u
  take-frac zero u xs h le m = absurd (omega arith)
  take-frac (suc k) u [] h le m = absurd (omega arith)
  take-frac (suc k) u (x ∷ xs) h le m =
      ground (arith, take-frac k u xs h.1, no_fractional xs, All-le_trans (frac x) 0 xs)
