-- ===== src/Prelude/Counts.antt =====
-- Lists of ids as multisets: how often an id occurs, and the sums over them.
use Prim.Native.Nat.{ℕ, zero, suc, ◌+◌, ◌*◌, ◌≤◌}
use mathlib.Core.Path.{◌≡◌, refl}
use mathlib.Core.Bool.{Bool, true, false}
use mathlib.Core.List.{List, [], ◌∷◌}
use native.Mathlib.Omega.{arith}
use llm_proxy_server.Prelude.Tests.{nat_eq, if◌then◌else◌, ℕ-Keyed}
use llm_proxy_server.Prelude.Lists.{length, take, filter, sum_by, remove, is_empty}

abbrev pub count : ℕ → List ℕ → ℕ
count u [] = 0
count u (x ∷ xs) = (if nat_eq x u then 1 else 0) + count u xs

-- Every id of `xs` occurs once.
abbrev pub IsDistinct : List ℕ → Type 0
IsDistinct xs = (u : ℕ) → count u xs ≤ 1

pub count-remove :
    (u v : ℕ) (xs : List ℕ)
    → 1 ≤ count u xs
    → count v (remove u xs) + (if nat_eq u v then 1 else 0) ≡ count v xs
count-remove u v [] h = absurd (omega arith)
count-remove u v (x ∷ xs) h = ground (arith, count-remove u v xs)

pub length-remove : (u : ℕ) (xs : List ℕ) → 1 ≤ count u xs → length (remove u xs) + 1 ≡ length xs
length-remove u [] h = absurd (omega arith)
length-remove u (x ∷ xs) h = ground (arith, length-remove u xs)

pub sum_by-remove :
    (f : ℕ → ℕ) (u : ℕ) (xs : List ℕ) → 1 ≤ count u xs → sum_by f (remove u xs) + f u ≡ sum_by f xs
sum_by-remove f u [] h = absurd (omega arith)
sum_by-remove f u (x ∷ xs) h = ground (arith, sum_by-remove f u xs)

pub count-filter : (p : ℕ → Bool) (v : ℕ) (xs : List ℕ) → count v (filter p xs) ≤ count v xs
count-filter p v [] = omega arith
count-filter p v (x ∷ xs) = ground (arith, count-filter p v xs)

pub filter_sound : (p : ℕ → Bool) (v : ℕ) (xs : List ℕ) → 1 ≤ count v (filter p xs) → p v ≡ true
filter_sound p v [] h = absurd (omega arith)
filter_sound p v (x ∷ xs) h = ground (arith, filter_sound p v xs)

pub sum_by-filter : (f : ℕ → ℕ) (p : ℕ → Bool) (xs : List ℕ) → sum_by f (filter p xs) ≤ sum_by f xs
sum_by-filter f p [] = omega arith
sum_by-filter f p (x ∷ xs) = ground (arith, sum_by-filter f p xs)

pub count-take : (v k : ℕ) (xs : List ℕ) → count v (take k xs) ≤ count v xs
count-take v zero xs = omega arith
count-take v (suc k) [] = omega arith
count-take v (suc k) (x ∷ xs) = omega (arith, count-take v k xs)

-- A sum of a sum of two functions, and of functions that agree where it looks.
pub sum_by-add :
    (f g : ℕ → ℕ) (xs : List ℕ) → sum_by (λ x. f x + g x) xs ≡ sum_by f xs + sum_by g xs
sum_by-add f g [] = omega arith
sum_by-add f g (x ∷ xs) = omega (arith, sum_by-add f g xs)

count_head : (x : ℕ) (xs : List ℕ) → 1 ≤ count x (x ∷ xs)
count_head x xs = ground arith

count_tail : (u x : ℕ) (xs : List ℕ) → 1 ≤ count u xs → 1 ≤ count u (x ∷ xs)
count_tail u x xs h = omega arith

pub sum_by-le_on :
    (f g : ℕ → ℕ) (xs : List ℕ) → ((x : ℕ) → 1 ≤ count x xs → f x ≤ g x) → sum_by f xs ≤ sum_by g xs
sum_by-le_on f g [] h = omega arith
sum_by-le_on f g (x ∷ xs) h =
    omega (arith, h x (count_head x xs), sum_by-le_on f g xs (λ u m. h u (count_tail u x xs m)))

pub sum_by-eq_on :
    (f g : ℕ → ℕ) (xs : List ℕ) → ((x : ℕ) → 1 ≤ count x xs → f x ≡ g x) → sum_by f xs ≡ sum_by g xs
sum_by-eq_on f g [] h = refl
sum_by-eq_on f g (x ∷ xs) h =
    omega (arith, h x (count_head x xs), sum_by-eq_on f g xs (λ u m. h u (count_tail u x xs m)))

pub sum_by-zero : (xs : List ℕ) → sum_by (λ x. 0) xs ≡ 0
sum_by-zero [] = refl
sum_by-zero (x ∷ xs) = omega (arith, sum_by-zero xs)

pub sum_by-one : (xs : List ℕ) → sum_by (λ x. 1) xs ≡ length xs
sum_by-one [] = refl
sum_by-one (x ∷ xs) = omega (arith, sum_by-one xs)

sum_by-count_cons :
    (y : ℕ) (ys xs : List ℕ)
    → sum_by (λ x. count x (y ∷ ys)) xs ≡ count y xs + sum_by (λ x. count x ys) xs
sum_by-count_cons y ys [] = refl
sum_by-count_cons y ys (x ∷ xs) = ground (arith, sum_by-count_cons y ys xs)

-- Counting the pairs of equal ids by either list.
pub sum_by-count_swap : (xs ys : List ℕ) → sum_by (λ x. count x ys) xs ≡ sum_by (λ y. count y xs) ys
sum_by-count_swap xs [] = sum_by-zero xs
sum_by-count_swap xs (y ∷ ys) = omega (arith, sum_by-count_cons y ys xs, sum_by-count_swap xs ys)

pub sum_by-mul : (f : ℕ → ℕ) (k : ℕ) (xs : List ℕ) → sum_by (λ x. k * f x) xs ≡ k * sum_by f xs
sum_by-mul f k [] = omega arith
sum_by-mul f k (x ∷ xs) = omega (arith, sum_by-mul f k xs)

-- What an empty selection says of each element.
pub filter_empty :
    (p : ℕ → Bool) (v : ℕ) (xs : List ℕ)
    → is_empty (filter p xs) ≡ true
    → 1 ≤ count v xs
    → p v ≡ false
filter_empty p v [] e m = absurd (omega arith)
filter_empty p v (x ∷ xs) e m = ground (arith, filter_empty p v xs)

pub length-filter_pos :
    (p : ℕ → Bool) (xs : List ℕ) → is_empty (filter p xs) ≡ false → 1 ≤ length (filter p xs)
length-filter_pos p xs e = ground arith

pub sum_by-mem : (f : ℕ → ℕ) (u : ℕ) (xs : List ℕ) → 1 ≤ count u xs → f u ≤ sum_by f xs
sum_by-mem f u [] m = absurd (omega arith)
sum_by-mem f u (x ∷ xs) m = ground (arith, sum_by-mem f u xs)

pub count-le_length : (u : ℕ) (xs : List ℕ) → count u xs ≤ length xs
count-le_length u [] = omega arith
count-le_length u (x ∷ xs) = ground (arith, count-le_length u xs)
