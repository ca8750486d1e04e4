-- ===== src/Prelude/Tests.antt =====
-- Boolean tests on the native numbers, the conditional, and equality as an interface.
use Prim.Native.Nat.{ℕ, compare, Ordering}
use Prim.Native.String.{String}
use mathlib.Core.Path.{◌≡◌, refl}
use mathlib.Core.Logic.{◌↔◌, ◌⊎◌, inl, inr}
use mathlib.Core.Bool.{Bool, true, false}
use mathlib.Core.Option.{Option, none, some}
use native.Mathlib.Omega.{arith}
use text.Mathlib.Text.{◌==◌ as text_eq}
use text.Mathlib.TextEquality.{eq_iff}

abbrev pub ltb : ℕ → ℕ → Bool
ltb a b = elim (compare a b) [ Ordering.lt ↦ true | _ ↦ false ]

abbrev pub leb : ℕ → ℕ → Bool
leb a b = elim (compare a b) [ Ordering.gt ↦ false | _ ↦ true ]

abbrev pub nat_eq : ℕ → ℕ → Bool
nat_eq a b = elim (compare a b) [ Ordering.eq ↦ true | _ ↦ false ]

abbrev pub str_eq : String → String → Bool
str_eq = text_eq

pub str_eq_iff : (a b : String) → (str_eq a b ≡ true) ↔ (a ≡ b)
str_eq_iff = eq_iff

infix 50 ◌==◌
infix 1 if◌then◌else◌
abbrev pub if◌then◌else◌ {ℓ} : {A : Type ℓ} → Bool → A → A → A
if true then x else y = x
if false then x else y = y

pub nat_eq_iff : (a b : ℕ) → (nat_eq a b ≡ true) ↔ (a ≡ b)
nat_eq_iff a b = ground arith

-- To split on a computed value and keep the equation.
pub Bool-cases : (b : Bool) → (b ≡ true) ⊎ (b ≡ false)
Bool-cases true = inl refl
Bool-cases false = inr refl

pub Option-cases {ℓ} : {A : Type ℓ} (o : Option A) → (o ≡ none) ⊎ ((a : A) × (o ≡ some a))
Option-cases none = inl refl
Option-cases (some a) = inr (a, refl)

-- What Python's `==` and `in` ask of a key.
pub record Keyed {ℓ} (K : Type ℓ) : Type ℓ where
  pub same : K → K → Bool
  pub same_iff : (k l : K) → (same k l ≡ true) ↔ (k ≡ l)

abbrev pub ◌==◌ {ℓ} : {K : Type ℓ} ⦃key : Keyed K⦄ (k l : K) → Bool
◌==◌ ⦃key⦄ k l = key.same k l

instance abbrev pub ℕ-Keyed : Keyed ℕ
ℕ-Keyed = record { same = nat_eq; same_iff = nat_eq_iff }

instance abbrev pub String-Keyed : Keyed String
String-Keyed = record { same = str_eq; same_iff = str_eq_iff }

pub pair_beq_iff {ℓ κ} :
    {A : Type ℓ} {B : Type κ} ⦃key : Keyed A⦄ ⦃f : Keyed B⦄ (p q : A × B)
    → (if key.same p.0 q.0 then f.same p.1 q.1 else false) ≡ true ↔ (p ≡ q)
pair_beq_iff ⦃key⦄ ⦃f⦄ (a, b) (c, d) = ground (arith, key.same_iff a c, f.same_iff b d)

instance abbrev pub Pair-Keyed {ℓ κ} :
    {A : Type ℓ} {B : Type κ} ⦃key : Keyed A⦄ ⦃f : Keyed B⦄ → Keyed (A × B)
Pair-Keyed ⦃key⦄ ⦃f⦄ = record {
  same = λ p q. if key.same p.0 q.0 then f.same p.1 q.1 else false;
  same_iff = pair_beq_iff;
}

pub beq_self {ℓ} : {A : Type ℓ} ⦃key : Keyed A⦄ (a : A) → (a == a) ≡ true
beq_self ⦃key⦄ a = (key.same_iff a a).1 refl

-- A test that fails separates the values.
pub beq-ne {ℓ} : {A : Type ℓ} ⦃key : Keyed A⦄ (a b : A) → (a == b) ≡ false → ¬ (a ≡ b)
beq-ne ⦃key⦄ a b h p = cc (h, (key.same_iff a b).1 p)

-- The conditional at a known test.
pub if_true {ℓ} : {A : Type ℓ} (b : Bool) (x y : A) → b ≡ true → (if b then x else y) ≡ x
if_true true x y e = refl
if_true false x y e = absurd (ground (arith, e))

pub if_false {ℓ} : {A : Type ℓ} (b : Bool) (x y : A) → b ≡ false → (if b then x else y) ≡ y
if_false true x y e = absurd (ground (arith, e))
if_false false x y e = refl
