-- ===== src/Resolve/Rotation.antt =====
-- `_RoundRobin` of app/model_resolution.py.
pub mod Fair
pub mod Picks
use llm_proxy_server.Prelude.{
  ℕ, zero, suc, ◌+◌, ◌%◌, ◌≡◌, ◌↔◌, refl, ap, Bool, true, false, not, ◌&&◌, Option, none, some,
  List, [], ◌∷◌, String, Dict, lookup, insert, get_or, is_some, length, leb, if◌then◌else◌, Keyed,
  ◌==◌, String-Keyed, arith,
}

-- Equality of pools, the keys of the cursors.
unfoldable pub same_pool : List String → List String → Bool
same_pool [] [] = true
same_pool [] (y ∷ ys) = false
same_pool (x ∷ xs) [] = false
same_pool (x ∷ xs) (y ∷ ys) = let rest = same_pool xs ys in if x == y then rest else false

pub same_pool_iff : (xs ys : List String) → (same_pool xs ys ≡ true) ↔ (xs ≡ ys)
unfolding same_pool
same_pool_iff [] [] = (λ _. refl, λ _. refl)
same_pool_iff [] (y ∷ ys) = ground arith
same_pool_iff (x ∷ xs) [] = ground arith
same_pool_iff (x ∷ xs) (y ∷ ys) = ground (arith, same_pool_iff xs ys, String-Keyed.same_iff x y)

instance abbrev pub Pool-Keyed : Keyed (List String)
Pool-Keyed = record { same = same_pool; same_iff = same_pool_iff }

-- `_cursors`
abbrev pub Cursors : Type 0
Cursors = Dict (List String) ℕ

-- `_MAX_KEYS`
abbrev pub max_keys : ℕ
max_keys = 4096

abbrev pub get_elem? : ℕ → List String → Option String
get_elem? n [] = none
get_elem? zero (x ∷ xs) = some x
get_elem? (suc n) (x ∷ xs) = get_elem? n xs

-- A pool of several candidates.
unfoldable pub pick_next : List String → Cursors → Option String × Cursors
unfolding lookup insert
pick_next candidates cursors =
    let index = get_or (lookup candidates cursors) 0 % length candidates in
    let full = not (is_some (lookup candidates cursors)) && leb max_keys (length cursors) in
    (
      get_elem? index candidates,
      insert candidates ((index + 1) % length candidates) (if full then [] else cursors),
    )

-- `pick`; a pool without candidates is an error.
unfoldable pub pick : List String → Cursors → Option String × Cursors
unfolding pick_next
pick [] cursors = (none, cursors)
pick (m ∷ []) cursors = (some m, cursors)
pick (m ∷ n ∷ ms) cursors = pick_next (m ∷ n ∷ ms) cursors
