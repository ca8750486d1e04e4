-- ===== src/Prelude/Buffers.antt =====
-- Dictionaries of counts: Python's `defaultdict(int)`, with `d[k] += n`, the removal of the keys that
-- a test finds, and the subtraction of a snapshot.
use Prim.Native.Nat.{ℕ, ◌+◌}
use mathlib.Core.Path.{◌≡◌, refl}
use mathlib.Core.Bool.{Bool, true, false, not, ◌&&◌}
use mathlib.Core.Option.{none, some}
use mathlib.Core.List.{List, [], ◌∷◌}
use native.Mathlib.Omega.{arith}
use llm_proxy_server.Prelude.Tests.{Keyed, ◌==◌, if◌then◌else◌}
use llm_proxy_server.Prelude.Lists.{contains, filter}
use llm_proxy_server.Prelude.Maps.{
  Dict, get_or, is_some, lookup, insert, erase, lookup-insert, lookup-erase,
}
use llm_proxy_server.Prelude.Sweep.{keys, contains-keys, contains-filter}
use llm_proxy_server.Prelude.Totals.{
  total, IsDict, total-insert, total-erase, insert-IsDict, erase-IsDict, total-split,
}

abbrev pub same_count : ℕ → ℕ
same_count n = n

module _ {ℓ} {K : Type ℓ} ⦃key : Keyed K⦄ where
  -- The sum of the counts whose keys pass a test.
  abbrev pub tally : (K → Bool) → Dict K ℕ → ℕ
  tally p d = total same_count p d

  -- `d[k]`, which is 0 for a key that is not there.
  abbrev pub count_at : K → Dict K ℕ → ℕ
  count_at k d = get_or (lookup k d) 0

  -- `d[k] += n`
  unfoldable pub bump : K → ℕ → Dict K ℕ → Dict K ℕ
  unfolding insert lookup
  bump k n d = insert k (count_at k d + n) d

  pub tally-bump :
      (p : K → Bool) (k : K) (n : ℕ) (d : Dict K ℕ)
      → tally p (bump k n d) ≡ tally p d + (if p k then n else 0)
  unfolding bump
  tally-bump p k n d = ground (arith, total-insert same_count p k (count_at k d + n) d)

  pub bump-IsDict : (k : K) (n : ℕ) (d : Dict K ℕ) → IsDict d → IsDict (bump k n d)
  unfolding bump
  bump-IsDict k n d h = insert-IsDict k (count_at k d + n) d h

  pub lookup-bump :
      (k j : K) (n : ℕ) (d : Dict K ℕ)
      → lookup j (bump k n d) ≡ (if k == j then some (count_at k d + n) else lookup j d)
  unfolding bump
  lookup-bump k j n d = lookup-insert k j (count_at k d + n) d

  pub count_at-erase :
      (p : K → Bool) (k : K) (d : Dict K ℕ)
      → IsDict d
      → tally p (erase k d) + (if p k then count_at k d else 0) ≡ tally p d
  count_at-erase p k d h = ground (arith, total-erase same_count p k d h)

  -- `d.pop(k)` for each key of a list, and the sum of what was popped.
  unfoldable pub pop_all : List K → Dict K ℕ → Dict K ℕ × ℕ
  unfolding erase lookup
  pop_all [] d = (d, 0)
  pop_all (k ∷ ks) d = let (left, popped) = pop_all ks (erase k d) in (left, count_at k d + popped)

  -- The keys that a test finds.
  abbrev pub stale_keys : (K → Bool) → Dict K ℕ → List K
  stale_keys q d = filter q (keys d)

  pub pop_all-IsDict : (ks : List K) (d : Dict K ℕ) → IsDict d → IsDict (pop_all ks d).0
  unfolding pop_all
  pop_all-IsDict [] d h = h
  pop_all-IsDict (k ∷ ks) d h = pop_all-IsDict ks (erase k d) (erase-IsDict k d h)

  pub lookup-pop_all :
      (ks : List K) (j : K) (d : Dict K ℕ)
      → lookup j (pop_all ks d).0 ≡ (if contains ks j then none else lookup j d)
  unfolding pop_all
  lookup-pop_all [] j d = refl
  lookup-pop_all (k ∷ ks) j d = ground (arith, lookup-pop_all ks j (erase k d), lookup-erase k j d)

  -- Only keys of the list are popped.
  pop_all-within :
      (p : K → Bool) (ks : List K) (d : Dict K ℕ)
      → IsDict d
      → ((k : K) → contains ks k ≡ true → p k ≡ true)
      → tally p (pop_all ks d).0 + (pop_all ks d).1 ≡ tally p d
  unfolding pop_all
  pop_all-within p [] d h all = omega arith
  pop_all-within p (k ∷ ks) d h all = ground (
    arith,
    count_at-erase p k d h,
    all k,
    key.same_iff k k,
    pop_all-within p ks (erase k d) (erase-IsDict k d h) (λ j m. all j (ground (arith, m))),
  )

  pop_all-beside :
      (p : K → Bool) (ks : List K) (d : Dict K ℕ)
      → IsDict d
      → ((k : K) → contains ks k ≡ true → p k ≡ false)
      → tally p (pop_all ks d).0 ≡ tally p d
  unfolding pop_all
  pop_all-beside p [] d h all = refl
  pop_all-beside p (k ∷ ks) d h all = ground (
    arith,
    count_at-erase p k d h,
    all k,
    key.same_iff k k,
    pop_all-beside p ks (erase k d) (erase-IsDict k d h) (λ j m. all j (ground (arith, m))),
  )

  -- A test that no key of the dictionary passes.
  tally-none :
      (p : K → Bool) (d : Dict K ℕ)
      → IsDict d
      → ((k : K) → p k ≡ true → is_some (lookup k d) ≡ false)
      → tally p d ≡ 0
  unfolding lookup
  tally-none p [] h none_here = refl
  tally-none p ((i, n) ∷ d) h none_here = ground (
    arith,
    h,
    none_here i,
    key.same_iff i i,
    tally-none p d h.1 (λ k e. ground (arith, h, none_here k e, key.same_iff i k)),
  )

  pub stale_gone :
      (q : K → Bool) (d : Dict K ℕ) (k : K)
      → q k ≡ true
      → is_some (lookup k (pop_all (stale_keys q d) d).0) ≡ false
  stale_gone q d k e = ground (
    arith,
    e,
    lookup-pop_all (stale_keys q d) k d,
    contains-filter q k (keys d),
    contains-keys k d,
  )

  stale_pass :
      (q : K → Bool) (d : Dict K ℕ) (k : K) → contains (stale_keys q d) k ≡ true → q k ≡ true
  stale_pass q d k m = ground (arith, m, contains-filter q k (keys d))

  -- What is popped is the sum of the counts that the test finds, and nothing else is lost.
  pub popped-tally :
      (q : K → Bool) (d : Dict K ℕ) → IsDict d → (pop_all (stale_keys q d) d).1 ≡ tally q d
  popped-tally q d h = ground (
    arith,
    pop_all-within q (stale_keys q d) d h (stale_pass q d),
    tally-none q (pop_all (stale_keys q d) d).0 (pop_all-IsDict (stale_keys q d) d h)
        (stale_gone q d),
  )

  pub tally-pop_all :
      (p q : K → Bool) (d : Dict K ℕ)
      → IsDict d
      → tally p (pop_all (stale_keys q d) d).0 + tally (λ k. p k && q k) d ≡ tally p d
  tally-pop_all p q d h =
      let after = (pop_all (stale_keys q d) d).0 in
      let after_h = pop_all-IsDict (stale_keys q d) d h in
      let beside =
        pop_all-beside (λ k. p k && not (q k)) (stale_keys q d) d h
          (λ k m. ground (arith, stale_pass q d k m)) in
      let gone =
        tally-none (λ k. p k && q k) after after_h (λ k e. stale_gone q d k (ground (arith, e))) in
      omega (arith, total-split same_count p q d, total-split same_count p q after, beside, gone)

  -- After a purge the test finds nothing, and what it did not find is as it was.
  pub tally-popped :
      (q : K → Bool) (d : Dict K ℕ) → IsDict d → tally q (pop_all (stale_keys q d) d).0 ≡ 0
  tally-popped q d h =
      tally-none q (pop_all (stale_keys q d) d).0 (pop_all-IsDict (stale_keys q d) d h)
        (stale_gone q d)

  pub tally-unpopped :
      (p q : K → Bool) (d : Dict K ℕ)
      → IsDict d
      → tally (λ k. p k && not (q k)) (pop_all (stale_keys q d) d).0
        ≡ tally (λ k. p k && not (q k)) d
  tally-unpopped p q d h =
      pop_all-beside (λ k. p k && not (q k)) (stale_keys q d) d h
        (λ k m. ground (arith, stale_pass q d k m))
