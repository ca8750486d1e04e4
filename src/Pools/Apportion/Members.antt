-- ===== src/Pools/Apportion/Members.antt =====
-- `apportion` as its callers see it: what each member is charged or refunded, and the total.
use llm_proxy_server.Prelude.{
  ℕ, suc, ◌≤◌, ◌≡◌, refl, sym, ap, inl, inr, List, [], ◌∷◌, map, arith, nat_eq, min, if◌then◌else◌,
  length, sum_by, All, All-map₂, count, IsDistinct, sum_by-eq_on, sum_by-le_on, Dict, lookup,
  insert, ℤ, pos, ℕ-Keyed,
}
use llm_proxy_server.Pools.Apportion.{
  MemberShare, Split, read, by_user, ids, limit_weight, split, share_of,
}
use llm_proxy_server.Pools.Apportion.Loop.{IsSound, IsSplit, read-insert}
use llm_proxy_server.Pools.Apportion.Ends.{split_loop-IsSplit}

read-by_user_out :
    (f : MemberShare → ℕ) (ms : List MemberShare) (d : Dict ℕ ℕ) (u : ℕ)
    → count u (ids ms) ≡ 0
    → read (by_user f ms d) u ≡ read d u
unfolding by_user
read-by_user_out f [] d u z = refl
read-by_user_out f (m ∷ ms) d u z =
    ground
      (arith, read-by_user_out f ms (insert m.user_id (f m) d) u, read-insert m.user_id u (f m) d)

-- The dict comprehension holds each member's value, when the ids are distinct.
read-by_user :
    (f : MemberShare → ℕ) (ms : List MemberShare) (d : Dict ℕ ℕ)
    → IsDistinct (ids ms)
    → All (λ m. read (by_user f ms d) m.user_id ≡ f m) ms
unfolding by_user
read-by_user f [] d distinct = tt
read-by_user f (m ∷ ms) d distinct = (
  ground (
    arith,
    distinct m.user_id,
    read-by_user_out f ms (insert m.user_id (f m) d) m.user_id,
    read-insert m.user_id m.user_id (f m) d,
  ),
  read-by_user f ms (insert m.user_id (f m) d) (λ u. omega (arith, distinct u)),
)

pub read-by_user_zero :
    (ms : List MemberShare) (d : Dict ℕ ℕ) (u : ℕ)
    → read d u ≡ 0
    → read (by_user (λ m. 0) ms d) u ≡ 0
unfolding by_user
read-by_user_zero [] d u z = z
read-by_user_zero (m ∷ ms) d u z =
    read-by_user_zero ms (insert m.user_id 0 d) u (ground (arith, read-insert m.user_id u 0 d))

length-ids : (ms : List MemberShare) → length (ids ms) ≡ length ms
length-ids [] = refl
length-ids (m ∷ ms) = ap suc (length-ids ms)

sum_by-reads_zero : (d : Dict ℕ ℕ) (us : List ℕ) → ((u : ℕ) → read d u ≡ 0) → sum_by (read d) us ≡ 0
sum_by-reads_zero d [] z = refl
sum_by-reads_zero d (u ∷ us) z = omega (arith, z u, sum_by-reads_zero d us z)

-- What a member can take: nothing without a positive limit.
abbrev pub absorbable : (MemberShare → ℕ) → MemberShare → ℕ
absorbable room m = if nat_eq (limit_weight m) 0 then 0 else room m

module _ (room : MemberShare → ℕ) (total : ℕ) (ms : List MemberShare)
    (distinct : IsDistinct (ids ms)) where
  abbrev weights : ℕ → ℕ
  weights = read (by_user limit_weight ms [])

  abbrev rooms : ℕ → ℕ
  rooms = read (by_user room ms [])

  start_zero : (u : ℕ) → read (by_user (λ m. 0) ms []) u ≡ 0
  start_zero u = read-by_user_zero ms [] u (unfold read lookup in refl)

  start : Split
  start = record { active = ids ms; remaining = total; shares = by_user (λ m. 0) ms [] }

  start-IsSound : IsSound weights rooms (ids ms) total start
  unfolding start
  start-IsSound = record {
    subset = λ u. omega arith;
    conserved = omega (arith, sum_by-reads_zero (by_user (λ m. 0) ms []) (ids ms) start_zero);
    pending = λ u m. start_zero u;
    pinned = λ u z m. absurd (omega arith);
    weightless = λ u z. start_zero u;
  }

  pub split-IsSplit : IsSplit weights rooms (ids ms) total (split room total ms)
  unfolding split start
  split-IsSplit =
      split_loop-IsSplit weights rooms (read (by_user (λ m. m.consumed) ms [])) (ids ms) total
        distinct (suc (length ms)) start start-IsSound (omega (arith, length-ids ms))

  abbrev pub absorbable_at : ℕ → ℕ
  absorbable_at u = if nat_eq (weights u) 0 then 0 else rooms u

  abbrev final : Dict ℕ ℕ
  final = (split room total ms).shares

  pub final-le : (u : ℕ) → 1 ≤ count u (ids ms) → read final u ≤ absorbable_at u
  final-le u m = ground (arith, split-IsSplit.bounded u m, split-IsSplit.weightless u)

  pub final-total : sum_by (read final) (ids ms) ≡ min total (sum_by absorbable_at (ids ms))
  final-total = elim split-IsSplit.complete [
    | inl done ↦ omega (
      arith,
      done,
      split-IsSplit.conserved,
      sum_by-le_on (read final) absorbable_at (ids ms) final-le,
    )
    | inr full ↦ omega (
      arith,
      split-IsSplit.conserved,
      sum_by-eq_on (read final) absorbable_at (ids ms)
          (λ u m. ground (arith, full u m, split-IsSplit.weightless u)),
    )
  ]

-- From the ids to the members.
sum_by-ids :
    (f : ℕ → ℕ) (g : MemberShare → ℕ) (ms : List MemberShare)
    → All (λ m. f m.user_id ≡ g m) ms
    → sum_by f (ids ms) ≡ sum_by g ms
sum_by-ids f g [] h = refl
sum_by-ids f g (m ∷ ms) h = omega (arith, h.0, sum_by-ids f g ms h.1)

All-ids {κ} :
    {P : ℕ → Type κ} (ms : List MemberShare)
    → ((u : ℕ) → 1 ≤ count u (ids ms) → P u)
    → All (λ m. P m.user_id) ms
All-ids [] h = tt
All-ids (m ∷ ms) h = (h m.user_id (ground arith), All-ids ms (λ u c. h u (omega arith)))

-- `{u: f(s) for u, s in shares.items()}`
pub share_of-map :
    (f : ℕ → ℤ) (d : Dict ℕ ℕ) (u : ℕ)
    → f 0 ≡ pos 0
    → share_of (map (λ (e : ℕ × ℕ). (e.0, f e.1)) d) u ≡ f (read d u)
unfolding share_of read
share_of-map f [] u z = sym z
share_of-map f ((j, s) ∷ d) u z = ground (arith, share_of-map f d u z)

module _ (room : MemberShare → ℕ) (total : ℕ) (ms : List MemberShare)
    (distinct : IsDistinct (ids ms)) where
  abbrev pub given : MemberShare → ℕ
  given m = read (split room total ms).shares m.user_id

  abbrev IsKnown : MemberShare → Type 0
  IsKnown m =
      (read (by_user limit_weight ms []) m.user_id ≡ limit_weight m)
      × (read (by_user room ms []) m.user_id ≡ room m)

  known : All IsKnown ms
  known =
      All-map₂ {R = IsKnown} (λ m p q. (p, q)) ms (read-by_user limit_weight ms [] distinct)
        (read-by_user room ms [] distinct)

  pub given-le : All (λ m. given m ≤ absorbable room m) ms
  given-le =
      All-map₂ {Q = IsKnown} (λ m le k. ground (arith, le, k.0, k.1)) ms
        (All-ids ms (final-le room total ms distinct)) known

  pub sum_by-given : sum_by given ms ≡ min total (sum_by (absorbable room) ms)
  sum_by-given = omega (
    arith,
    final-total room total ms distinct,
    sum_by-ids (read (split room total ms).shares) given ms
        (All-map₂ {P = IsKnown} {Q = IsKnown} (λ m k l. refl) ms known known),
    sum_by-ids (absorbable_at room total ms distinct) (absorbable room) ms
        (All-map₂ {P = IsKnown} {Q = IsKnown} (λ m k l. ground (arith, k.0, k.1)) ms known known),
  )
