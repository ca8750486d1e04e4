-- ===== src/Prelude/Maps.antt =====
-- Python's `dict` as an association list, in insertion order.
use mathlib.Core.Path.{◌≡◌, refl}
use mathlib.Core.Bool.{Bool, true, false}
use mathlib.Core.Option.{Option, none, some}
use mathlib.Core.List.{List, [], ◌∷◌}
use native.Mathlib.Omega.{arith}
use llm_proxy_server.Prelude.Tests.{Keyed, ◌==◌, if◌then◌else◌}

abbrev pub Dict {ℓ κ} : Type ℓ → Type κ → Type (ℓ ⊔ κ)
Dict K V = List (K × V)

module _ {ℓ κ} {K : Type ℓ} {V : Type κ} ⦃key : Keyed K⦄ where
  -- `d.get(k)`
  unfoldable pub lookup : K → Dict K V → Option V
  lookup name [] = none
  lookup name ((i, found) ∷ rest) = if i == name then some found else lookup name rest

  -- `d[k] = v`
  unfoldable pub insert : K → V → Dict K V → Dict K V
  insert name new [] = (name, new) ∷ []
  insert name new ((i, old) ∷ rest) =
      if i == name then (name, new) ∷ rest else (i, old) ∷ insert name new rest

  -- `d.pop(k, None)`
  unfoldable pub erase : K → Dict K V → Dict K V
  erase k [] = []
  erase k ((j, w) ∷ d) = let rest = erase k d in if j == k then rest else (j, w) ∷ rest

  pub lookup-insert :
      (k j : K) (v : V) (d : Dict K V)
      → lookup j (insert k v d) ≡ (if k == j then some v else lookup j d)
  unfolding lookup insert
  lookup-insert name asked new [] = refl
  lookup-insert name asked new ((i, old) ∷ rest) = ground (
    arith,
    key.same_iff name asked,
    key.same_iff i name,
    key.same_iff i asked,
    lookup-insert name asked new rest,
  )

  pub lookup-erase :
      (k j : K) (d : Dict K V) → lookup j (erase k d) ≡ (if k == j then none else lookup j d)
  unfolding lookup erase
  lookup-erase k j [] = ground arith
  lookup-erase k j ((i, w) ∷ d) =
      ground (arith, key.same_iff k j, key.same_iff i k, key.same_iff i j, lookup-erase k j d)

module _ {ℓ} {V : Type ℓ} where
  -- `o if o is not None else d`; `d.get(k, default)` is `get_or (lookup k d) default`
  abbrev pub get_or : Option V → V → V
  get_or none d = d
  get_or (some v) _ = v

  abbrev pub is_some : Option V → Bool
  is_some none = false
  is_some (some _) = true
