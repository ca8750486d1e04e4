-- ===== src/Resolve/Rotation/Fair.antt =====
-- Each pool takes its candidates in turn, whatever other pools do in between.
use llm_proxy_server.Prelude.{
  ℕ, ◌+◌, ◌%◌, ◌≡◌, ◌≤◌, sym, ap, ◌∙◌, List, [], ◌∷◌, String, lookup, insert, lookup-insert, get_or,
  length, if◌then◌else◌, ◌==◌, String-Keyed, arith, Bool-cases, inl, inr,
}
use native.Mathlib.Nat.{mod-add-mod, mod-mod}
use llm_proxy_server.Resolve.Rotation.{
  Cursors, Pool-Keyed, same_pool, same_pool_iff, max_keys, get_elem?, pick_next, pick,
}

-- The picks of a list of pools, the first first.
abbrev pub run_picks : List (List String) → Cursors → Cursors
run_picks [] c = c
run_picks (p ∷ ps) c = run_picks ps (pick p c).1

-- How often a pool is among those that pick.
abbrev pub turns : List String → List (List String) → ℕ
turns pool [] = 0
turns pool (p ∷ ps) = (if p == pool then 1 else 0) + turns pool ps

abbrev pub cursor : List String → Cursors → ℕ
cursor pool c = get_or (lookup pool c) 0

length-insert : (p : List String) (n : ℕ) (c : Cursors) → length (insert p n c) ≤ length c + 1
unfolding insert
length-insert p n [] = omega arith
length-insert p n ((q, m) ∷ c) = ground (arith, length-insert p n c)

length-pick : (p : List String) (c : Cursors) → length (pick p c).1 ≤ length c + 1
unfolding pick pick_next
length-pick [] c = omega arith
length-pick (x ∷ []) c = omega arith
length-pick (x ∷ y ∷ zs) c =
    let p = x ∷ y ∷ zs in
    let next = (cursor p c % length p + 1) % length p in
    ground (arith, length-insert p next c, length-insert p next [])

-- The cursor that a pick of the pool leaves.
abbrev next_cursor : List String → Cursors → ℕ
next_cursor pool c = (cursor pool c % length pool + 1) % length pool

pick_next-cursor :
    (pool p : List String) (c : Cursors)
    → length c + 1 ≤ max_keys
    → cursor pool (pick_next p c).1 ≡ (if p == pool then next_cursor p c else cursor pool c)
unfolding pick_next
pick_next-cursor pool p c h = ground (arith, h, lookup-insert p pool (next_cursor p c) c)

-- The cursor of a pool of several after one pick of some pool, while the table is not full.
pick-cursor :
    (x y : String) (zs p : List String) (c : Cursors)
    → length c + 1 ≤ max_keys
    → let pool = x ∷ y ∷ zs in
      cursor pool (pick p c).1 ≡ (if p == pool then next_cursor p c else cursor pool c)
unfolding pick
pick-cursor x y zs [] c h = ground (arith, same_pool_iff [] (x ∷ y ∷ zs))
pick-cursor x y zs (a ∷ []) c h = ground (arith, same_pool_iff (a ∷ []) (x ∷ y ∷ zs))
pick-cursor x y zs (a ∷ b ∷ cs) c h = pick_next-cursor (x ∷ y ∷ zs) (a ∷ b ∷ cs) c h

-- One pick moves the cursor on by the turns it takes, round the pool.
pick-turn :
    (x y : String) (zs p : List String) (c : Cursors)
    → length c + 1 ≤ max_keys
    → let pool = x ∷ y ∷ zs in
      cursor pool (pick p c).1 % length pool
      ≡ (cursor pool c + (if p == pool then 1 else 0)) % length pool
pick-turn x y zs p c h =
    let pool = x ∷ y ∷ zs in
    let moved = pick-cursor x y zs p c h in
    let n = length pool in
    elim (Bool-cases (same_pool p pool)) [
      | inl e ↦
          let same = (same_pool_iff p pool).0 e in
          let step = mod-mod (cursor pool c % n + 1) n ∙ mod-add-mod (cursor pool c) n 1 in
          let moved_here : cursor pool (pick p c).1 ≡ next_cursor pool c =
            rw e at moved ∙ ap (λ q. next_cursor q c) same in
          rw e (ap (λ k. k % n) moved_here ∙ step)
      | inr e ↦ grind (arith, e, moved)
    ]

run_picks-cursor :
    (x y : String) (zs : List String) (ps : List (List String)) (c : Cursors)
    → length c + length ps ≤ max_keys
    → let pool = x ∷ y ∷ zs in
      cursor pool (run_picks ps c) % length pool ≡ (cursor pool c + turns pool ps) % length pool
run_picks-cursor x y zs [] c h = grind arith
run_picks-cursor x y zs (p ∷ ps) c h =
    let pool = x ∷ y ∷ zs in
    let n = length pool in
    let d = (pick p c).1 in
    let turn : ℕ = if p == pool then 1 else 0 in
    let rest = run_picks-cursor x y zs ps d (omega (arith, length-pick p c, h)) in
    let first = pick-turn x y zs p c (omega (arith, h)) in
    rest
    ∙ sym (mod-add-mod (cursor pool d) n (turns pool ps))
    ∙ ap (λ k. (k + turns pool ps) % n) first
    ∙ mod-add-mod (cursor pool c + turn) n (turns pool ps)
    ∙ ap (λ k. k % n) (omega arith)

-- While the table of cursors has room, each pool takes its candidates in turn, whatever other pools do in
-- between: after a run of picks it takes the candidate that is as many places behind the one it stood at
-- as the pool had turns in the run, round the pool.
pub pick-run_picks :
    (x : String) (xs : List String) (ps : List (List String)) (c : Cursors)
    → length c + length ps ≤ max_keys
    → let pool = x ∷ xs in
      (pick pool (run_picks ps c)).0
      ≡ get_elem? ((cursor pool c + turns pool ps) % length pool) pool
unfolding pick pick_next
pick-run_picks x [] ps c h = grind arith
pick-run_picks x (y ∷ zs) ps c h =
    ap (λ k. get_elem? k (x ∷ y ∷ zs)) (run_picks-cursor x y zs ps c h)
