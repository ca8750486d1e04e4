-- ===== src/Prelude/Sweep.antt =====
-- The deletion of the entries of a dictionary that a test finds, as
-- `for k in [k for k, v in d.items() if test(v)]: del d[k]`.
use mathlib.Core.Path.{◌≡◌, refl}
use mathlib.Core.Bool.{Bool, true, false}
use mathlib.Core.Option.{none, some}
use mathlib.Core.List.{List, [], ◌∷◌}
use native.Mathlib.Omega.{arith}
use llm_proxy_server.Prelude.Tests.{Keyed, if◌then◌else◌}
use llm_proxy_server.Prelude.Lists.{contains, filter}
use llm_proxy_server.Prelude.Maps.{Dict, is_some, lookup, erase, lookup-erase}

module _ {ℓ κ} {K : Type ℓ} {V : Type κ} where
  abbrev pub keys : Dict K V → List K
  keys [] = []
  keys ((k, v) ∷ d) = k ∷ keys d

module _ {ℓ} {K : Type ℓ} ⦃key : Keyed K⦄ where
  pub contains-filter :
      (p : K → Bool) (k : K) (ks : List K)
      → contains (filter p ks) k ≡ (if p k then contains ks k else false)
  contains-filter p k [] = ground arith
  contains-filter p k (j ∷ ks) = ground (arith, key.same_iff j k, contains-filter p k ks)

module _ {ℓ κ} {K : Type ℓ} {V : Type κ} ⦃key : Keyed K⦄ where
  -- The test of a key's entry.
  abbrev pub holds_at : (K → V → Bool) → Dict K V → K → Bool
  holds_at test d k = elim (lookup k d) [ none ↦ false | some v ↦ test k v ]

  unfoldable pub erase_keys : List K → Dict K V → Dict K V
  unfolding erase
  erase_keys [] d = d
  erase_keys (k ∷ ks) d = erase_keys ks (erase k d)

  unfoldable pub sweep : (K → V → Bool) → Dict K V → Dict K V
  unfolding erase_keys lookup
  sweep test d = erase_keys (filter (holds_at test d) (keys d)) d

  pub lookup-erase_keys :
      (k : K) (ks : List K) (d : Dict K V)
      → lookup k (erase_keys ks d) ≡ (if contains ks k then none else lookup k d)
  unfolding erase_keys
  lookup-erase_keys k [] d = refl
  lookup-erase_keys k (j ∷ ks) d =
      ground (arith, lookup-erase_keys k ks (erase j d), lookup-erase j k d)

  pub contains-keys :
      (k : K) (d : Dict K V) → is_some (lookup k d) ≡ true → contains (keys d) k ≡ true
  unfolding lookup
  contains-keys k [] h = absurd (ground (arith, h))
  contains-keys k ((j, v) ∷ d) h = ground (arith, contains-keys k d)

  pub lookup-sweep :
      (test : K → V → Bool) (k : K) (d : Dict K V)
      → lookup k (sweep test d) ≡ (if holds_at test d k then none else lookup k d)
  unfolding sweep
  lookup-sweep test k d = ground (
    arith,
    lookup-erase_keys k (filter (holds_at test d) (keys d)) d,
    contains-filter (holds_at test d) k (keys d),
    contains-keys k d,
  )
