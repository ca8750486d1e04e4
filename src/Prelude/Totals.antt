-- ===== src/Prelude/Totals.antt =====
-- Sums over the entries of a dictionary whose keys pass a test, and Python's `d[k] += n` on a
-- `defaultdict(int)`.
use Prim.Native.Nat.{ℕ, ◌+◌}
use mathlib.Core.Path.{◌≡◌, refl}
use mathlib.Core.Bool.{Bool, false, not, ◌&&◌}
use mathlib.Core.Option.{none, some}
use mathlib.Core.List.{[], ◌∷◌, ◌++◌}
use native.Mathlib.Omega.{arith}
use llm_proxy_server.Prelude.Tests.{Keyed, if◌then◌else◌}
use llm_proxy_server.Prelude.Lists.{filter}
use llm_proxy_server.Prelude.Maps.{
  Dict, is_some, lookup, insert, erase, lookup-insert, lookup-erase,
}

module _ {ℓ κ} {K : Type ℓ} {V : Type κ} where
  abbrev pub total : (V → ℕ) → (K → Bool) → Dict K V → ℕ
  total f p [] = 0
  total f p ((k, v) ∷ d) = (if p k then f v else 0) + total f p d

  pub total-split :
      (f : V → ℕ) (p q : K → Bool) (d : Dict K V)
      → total f (λ k. p k && q k) d + total f (λ k. p k && not (q k)) d ≡ total f p d
  total-split f p q [] = refl
  total-split f p q ((k, v) ∷ d) = ground (arith, total-split f p q d)

  pub total-never :
      (f : V → ℕ) (p : K → Bool) (d : Dict K V) → ((k : K) → p k ≡ false) → total f p d ≡ 0
  total-never f p [] h = refl
  total-never f p ((k, v) ∷ d) h = ground (arith, h k, total-never f p d h)

  -- The entries that a test picks.
  abbrev pub picked : (K → Bool) → Dict K V → Dict K V
  picked q d = filter (λ e. q e.0) d

  pub total-picked :
      (f : V → ℕ) (p q : K → Bool) (d : Dict K V)
      → total f p (picked q d) ≡ total f (λ k. p k && q k) d
  total-picked f p q [] = refl
  total-picked f p q ((k, v) ∷ d) = ground (arith, total-picked f p q d)

  pub total-append :
      (f : V → ℕ) (p : K → Bool) (c d : Dict K V) → total f p (c ++ d) ≡ total f p c + total f p d
  total-append f p [] d = omega arith
  total-append f p ((k, v) ∷ c) d = omega (arith, total-append f p c d)

module _ {ℓ κ} {K : Type ℓ} {V : Type κ} ⦃key : Keyed K⦄ where
  -- No key occurs twice.
  abbrev pub IsDict : Dict K V → Type 0
  IsDict [] = Unit
  IsDict ((k, v) ∷ d) = (is_some (lookup k d) ≡ false) × IsDict d

  abbrev pub entry : (V → ℕ) → K → Dict K V → ℕ
  entry f k d = elim (lookup k d) [ none ↦ 0 | some v ↦ f v ]

  pub total-insert :
      (f : V → ℕ) (p : K → Bool) (k : K) (v : V) (d : Dict K V)
      → total f p (insert k v d) + (if p k then entry f k d else 0)
        ≡ total f p d + (if p k then f v else 0)
  unfolding insert lookup
  total-insert f p k v [] = ground arith
  total-insert f p k v ((i, w) ∷ d) = ground (arith, key.same_iff i k, total-insert f p k v d)

  pub insert-IsDict : (k : K) (v : V) (d : Dict K V) → IsDict d → IsDict (insert k v d)
  unfolding insert lookup
  insert-IsDict k v [] h = ground arith
  insert-IsDict k v ((i, w) ∷ d) h =
      ground
        (arith, h, key.same_iff i k, key.same_iff k i, lookup-insert k i v d, insert-IsDict k v d)

  pub erase-IsDict : (k : K) (d : Dict K V) → IsDict d → IsDict (erase k d)
  unfolding erase
  erase-IsDict k [] h = h
  erase-IsDict k ((i, w) ∷ d) h = ground (arith, h, lookup-erase k i d, erase-IsDict k d)

  total-absent :
      (f : V → ℕ) (p : K → Bool) (k : K) (d : Dict K V)
      → is_some (lookup k d) ≡ false
      → total f p (erase k d) ≡ total f p d
  unfolding erase lookup
  total-absent f p k [] h = refl
  total-absent f p k ((i, w) ∷ d) h = ground (arith, h, total-absent f p k d)

  pub total-erase :
      (f : V → ℕ) (p : K → Bool) (k : K) (d : Dict K V)
      → IsDict d
      → total f p (erase k d) + (if p k then entry f k d else 0) ≡ total f p d
  unfolding erase lookup
  total-erase f p k [] h = ground arith
  total-erase f p k ((i, w) ∷ d) h =
      ground (arith, h, key.same_iff i k, total-absent f p k d, total-erase f p k d)
