-- ===== src/Pools/Apportion/Shares.antt =====
-- What `apportion` promises: shares within the headroom, and nothing lost while there is headroom.
use llm_proxy_server.Prelude.{
  ℕ, zero, suc, ◌≡◌, refl, ap, ◌∙◌, fun_ext, List, [], ◌∷◌, arith, min, sum_by, All, All-map₂,
  IsDistinct, ℤ, pos, negsuc, negate, ◌≤ℤ◌, int_laws, negate_parts, -ℤ_parts, sum_ℤ, lookup,
}
use llm_proxy_server.Pools.Apportion.{
  MemberShare, read, by_user, ids, charge_headroom, refund_headroom, split, apportion, share_of,
}
use llm_proxy_server.Pools.Apportion.Members.{
  absorbable, given, given-le, sum_by-given, share_of-map, read-by_user_zero,
}

sum_ℤ-eq :
    {A : Type 0} (f g : A → ℤ) (xs : List A) → ((x : A) → f x ≡ g x) → sum_ℤ f xs ≡ sum_ℤ g xs
sum_ℤ-eq f g xs h = ap (λ k. sum_ℤ k xs) (fun_ext h)

sum_ℤ-pos : {A : Type 0} (f : A → ℕ) (xs : List A) → sum_ℤ (λ x. pos (f x)) xs ≡ pos (sum_by f xs)
sum_ℤ-pos f [] = refl
sum_ℤ-pos f (x ∷ xs) = rw (sum_ℤ-pos f xs) (omega int_laws)

sum_ℤ-negate :
    {A : Type 0} (f : A → ℕ) (xs : List A)
    → sum_ℤ (λ x. negate (pos (f x))) xs ≡ negate (pos (sum_by f xs))
sum_ℤ-negate f [] = omega int_laws
sum_ℤ-negate f (x ∷ xs) = rw (sum_ℤ-negate f xs) (omega int_laws)

sum_ℤ-zero : {A : Type 0} (xs : List A) → sum_ℤ (λ x. pos 0) xs ≡ pos 0
sum_ℤ-zero [] = refl
sum_ℤ-zero (x ∷ xs) = rw (sum_ℤ-zero xs) (omega int_laws)

share-zero : (ms : List MemberShare) (u : ℕ) → share_of (apportion (pos zero) ms) u ≡ pos 0
unfolding apportion
share-zero [] u = unfold share_of lookup in refl
share-zero (m ∷ ms) u =
    share_of-map (λ s. pos s) (by_user (λ m. 0) (m ∷ ms) []) u refl
    ∙ ap pos (read-by_user_zero (m ∷ ms) [] u (unfold read lookup in refl))

share-charge :
    (n : ℕ) (m : MemberShare) (ms : List MemberShare) (u : ℕ)
    → share_of (apportion (pos (suc n)) (m ∷ ms)) u
      ≡ pos (read (split charge_headroom (suc n) (m ∷ ms)).shares u)
unfolding apportion
share-charge n m ms u =
    share_of-map (λ s. pos s) (split charge_headroom (suc n) (m ∷ ms)).shares u refl

share-refund :
    (n : ℕ) (m : MemberShare) (ms : List MemberShare) (u : ℕ)
    → share_of (apportion (negsuc n) (m ∷ ms)) u
      ≡ negate (pos (read (split refund_headroom (suc n) (m ∷ ms)).shares u))
unfolding apportion
share-refund n m ms u =
    share_of-map (λ s. negate (pos s)) (split refund_headroom (suc n) (m ∷ ms)).shares u
      (omega int_laws)

-- A member without a positive limit has no headroom, unless its charge is negative.
headroom-absorbable :
    (ms : List MemberShare)
    → All (λ m. pos 0 ≤ℤ m.charged) ms
    → sum_by (absorbable charge_headroom) ms ≡ sum_by charge_headroom ms
headroom-absorbable [] h = refl
headroom-absorbable (m ∷ ms) h =
    ground (arith, headroom-absorbable ms h.1, -ℤ_parts m.limit m.charged)

abbrev pub member_share : ℤ → List MemberShare → MemberShare → ℤ
member_share delta ms m = share_of (apportion delta ms) m.user_id

zero_within :
    (f : MemberShare → ℤ) (ms : List MemberShare)
    → ((m : MemberShare) → f m ≡ pos 0)
    → All (λ m. (pos 0 ≤ℤ f m) × (f m ≤ℤ pos (charge_headroom m))) ms
zero_within f [] z = tt
zero_within f (m ∷ ms) z = (ground (arith, z m), zero_within f ms z)

-- A charge of `n` requests on members with distinct ids and no negative charge gives each a share
-- between 0 and the headroom below the limit, and the shares add up to `n`, or to the whole
-- headroom where that is less.
pub apportion_charge :
    (n : ℕ) (ms : List MemberShare)
    → IsDistinct (ids ms)
    → All (λ m. pos 0 ≤ℤ m.charged) ms
    → All
        (λ m.
          (pos 0 ≤ℤ member_share (pos n) ms m)
          × (member_share (pos n) ms m ≤ℤ pos (charge_headroom m)))
        ms
      × (sum_ℤ (member_share (pos n) ms) ms ≡ pos (min n (sum_by charge_headroom ms)))
apportion_charge zero ms distinct h = (
  zero_within (member_share (pos zero) ms) ms (λ m. share-zero ms m.user_id),
  sum_ℤ-eq (member_share (pos zero) ms) (λ m. pos 0) ms (λ m. share-zero ms m.user_id)
      ∙ sum_ℤ-zero ms
      ∙ ap pos (omega arith),
)
apportion_charge (suc n) [] distinct h = (tt, ap pos (omega arith))
apportion_charge (suc n) (m ∷ ms) distinct h = (
  All-map₂ (λ x le p. ground (arith, le, share-charge n m ms x.user_id)) (m ∷ ms)
      (given-le charge_headroom (suc n) (m ∷ ms) distinct) h,
  sum_ℤ-eq (member_share (pos (suc n)) (m ∷ ms))
        (λ x. pos (given charge_headroom (suc n) (m ∷ ms) distinct x)) (m ∷ ms)
        (λ x. share-charge n m ms x.user_id)
      ∙ sum_ℤ-pos (given charge_headroom (suc n) (m ∷ ms) distinct) (m ∷ ms)
      ∙ ap pos (
          omega (
            arith,
            sum_by-given charge_headroom (suc n) (m ∷ ms) distinct,
            headroom-absorbable (m ∷ ms) h,
          )),
)

-- A refund of `n + 1` requests on members with distinct ids gives each a share between 0 and minus
-- what was charged, and the shares add up to minus `n + 1`, or to minus all that members with a
-- positive limit were charged where that is less.
pub apportion_refund :
    (n : ℕ) (ms : List MemberShare)
    → IsDistinct (ids ms)
    → All
        (λ m.
          (member_share (negsuc n) ms m ≤ℤ pos 0)
          × (negate (pos (refund_headroom m)) ≤ℤ member_share (negsuc n) ms m))
        ms
      × (sum_ℤ (member_share (negsuc n) ms) ms
          ≡ negate (pos (min (suc n) (sum_by (absorbable refund_headroom) ms))))
apportion_refund n [] distinct =
    (tt, let e : min (suc n) 0 ≡ 0 = omega arith in rw e (unfold negate in refl))
apportion_refund n (m ∷ ms) distinct = (
  All-map₂
      (λ x le same. ground (
        arith,
        le,
        share-refund n m ms x.user_id,
        negate_parts (pos (given refund_headroom (suc n) (m ∷ ms) distinct x)),
        negate_parts (pos (refund_headroom x)),
      ))
      (m ∷ ms) (given-le refund_headroom (suc n) (m ∷ ms) distinct)
      (given-le refund_headroom (suc n) (m ∷ ms) distinct),
  sum_ℤ-eq (member_share (negsuc n) (m ∷ ms))
        (λ x. negate (pos (given refund_headroom (suc n) (m ∷ ms) distinct x))) (m ∷ ms)
        (λ x. share-refund n m ms x.user_id)
      ∙ sum_ℤ-negate (given refund_headroom (suc n) (m ∷ ms) distinct) (m ∷ ms)
      ∙ ap (λ k. negate (pos k)) (sum_by-given refund_headroom (suc n) (m ∷ ms) distinct),
)
