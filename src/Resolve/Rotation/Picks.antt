-- ===== src/Resolve/Rotation/Picks.antt =====
-- A pick is one of the candidates.
use llm_proxy_server.Prelude.{
  ℕ, zero, suc, ◌%◌, ◌≡◌, ◌<◌, refl, some, List, [], ◌∷◌, String, length, arith, All, get_or,
  lookup, subst,
}
use llm_proxy_server.Resolve.Rotation.{Cursors, Pool-Keyed, get_elem?, pick_next, pick}

get_elem?-All {ℓ} :
    (P : String → Type ℓ) (n : ℕ) (xs : List String) (m : String)
    → All P xs
    → get_elem? n xs ≡ some m
    → P m
get_elem?-All P n [] m a e = absurd (ground (arith, e))
get_elem?-All P zero (x ∷ xs) m a e = let same : x ≡ m = ground (arith, e) in subst P same a.0
get_elem?-All P (suc n) (x ∷ xs) m a e = get_elem?-All P n xs m a.1 e

get_elem?_found :
    (n : ℕ) (xs : List String) → n < length xs → (m : String) × (get_elem? n xs ≡ some m)
get_elem?_found n [] h = absurd (omega (arith, h))
get_elem?_found zero (x ∷ xs) h = (x, refl)
get_elem?_found (suc n) (x ∷ xs) h = get_elem?_found n xs (omega (arith, h))

-- What holds of all the candidates holds of the one that is picked.
pub pick-All {ℓ} :
    (P : String → Type ℓ) (pool : List String) (c : Cursors) (m : String)
    → All P pool
    → (pick pool c).0 ≡ some m
    → P m
unfolding pick pick_next
pick-All P [] c m a e = absurd (ground (arith, e))
pick-All P (x ∷ []) c m a e = let same : x ≡ m = ground (arith, e) in subst P same a.0
pick-All P (x ∷ y ∷ zs) c m a e =
    let pool = x ∷ y ∷ zs in get_elem?-All P (get_or (lookup pool c) 0 % length pool) pool m a e

-- A pool with a candidate always gives one.
pub pick_found :
    (x : String) (xs : List String) (c : Cursors) → (m : String) × ((pick (x ∷ xs) c).0 ≡ some m)
unfolding pick pick_next
pick_found x [] c = (x, refl)
pick_found x (y ∷ zs) c =
    let pool = x ∷ y ∷ zs in
    get_elem?_found (get_or (lookup pool c) 0 % length pool) pool (omega arith)
