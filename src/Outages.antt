-- ===== src/Outages.antt =====
-- app/outages.py: the outages that administrators declare, of provider instances and of models.
mod Tests
use llm_proxy_server.Prelude.{
  refl, Bool, true, false, Option, none, some, String, List, [], ◌∷◌, ◌≡◌, Dict, lookup, insert,
  lookup-insert, str_eq, has_char, before_char, if◌then◌else◌, String-Keyed, arith, ℕ,
}

-- `Outage`, less `created_at`, which nothing here reads.
pub record Outage : Type 0 where
  pub id : ℕ
  pub scope : String
  pub target : String
  pub description : String

-- `OutageRegistry._state`
pub record OutageRegistry : Type 0 where
  pub by_model : Dict String Outage
  pub by_provider : Dict String Outage

unfoldable pub add_outage : Outage → OutageRegistry → OutageRegistry
unfolding insert
add_outage o r =
    if str_eq o.scope "provider"
    then record r { by_provider = insert o.target o r.by_provider }
    else record r { by_model = insert o.target o r.by_model }

unfoldable pub add_outages : List Outage → OutageRegistry → OutageRegistry
unfolding add_outage
add_outages [] r = r
add_outages (o ∷ os) r = add_outages os (add_outage o r)

unfoldable pub install_outages : List Outage → OutageRegistry
unfolding add_outages
install_outages os = add_outages os (record { by_model = []; by_provider = [] })

unfoldable pub outage_for : OutageRegistry → Option String → Option Outage
unfolding lookup has_char before_char
outage_for r none = none
outage_for r (some model_id) =
    if str_eq model_id "" then none else elim (lookup model_id r.by_model) [
      | some outage ↦ some outage
      | none ↦
          if has_char b'/' model_id then lookup (before_char b'/' model_id) r.by_provider else none
    ]

unfoldable pub provider_outage : OutageRegistry → String → Option Outage
unfolding lookup
provider_outage r provider_key = lookup provider_key r.by_provider

-- The last declared outage of a target, of a provider or of a model.
abbrev pub last_of : Bool → String → List Outage → Option Outage → Option Outage
last_of of_provider target [] found = found
last_of of_provider target (o ∷ os) found =
    let newer = last_of of_provider target os (some o) in
    let older = last_of of_provider target os found in
    if str_eq o.target target
    then (if str_eq o.scope "provider"
        then (if of_provider then newer else older)
        else (if of_provider then older else newer))
    else older

lookup-by_model :
    (os : List Outage) (target : String) (r : OutageRegistry)
    → lookup target (add_outages os r).by_model ≡ last_of false target os (lookup target r.by_model)
unfolding add_outages add_outage
lookup-by_model [] target r = ground arith
lookup-by_model (o ∷ os) target r =
    ground (
      arith,
      lookup-by_model os target (add_outage o r),
      lookup-insert o.target target o r.by_model,
    )

lookup-by_provider :
    (os : List Outage) (target : String) (r : OutageRegistry)
    → lookup target (add_outages os r).by_provider
      ≡ last_of true target os (lookup target r.by_provider)
unfolding add_outages add_outage
lookup-by_provider [] target r = ground arith
lookup-by_provider (o ∷ os) target r = ground (
  arith,
  lookup-by_provider os target (add_outage o r),
  lookup-insert o.target target o r.by_provider,
)

-- After an installation of outages, the outage of a model with a name is the one declared last for
-- the model itself, and if there is none and the name has an instance, the one declared last for that
-- instance.
pub outage_for-install_outages :
    (os : List Outage) (model_id : String)
    → str_eq model_id "" ≡ false
    → outage_for (install_outages os) (some model_id)
      ≡ elim (last_of false model_id os none) as (λ _. Option Outage) [
        | some outage ↦ some outage
        | none ↦
            if has_char b'/' model_id
            then last_of true (before_char b'/' model_id) os none
            else none
      ]
unfolding outage_for install_outages lookup
outage_for-install_outages os model_id named =
    let empty : OutageRegistry = record { by_model = []; by_provider = [] } in
    let by_model = lookup-by_model os model_id empty in
    let by_provider = lookup-by_provider os (before_char b'/' model_id) empty in
    ground (arith, named, by_model, by_provider)
