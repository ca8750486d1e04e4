-- ===== src/Tracking/Buffer/Active.antt =====
-- Predicates of every request in flight of `RequestTracker`, app/request_tracker.py.
use llm_proxy_server.Prelude.{
  ℕ, ◌≡◌, subst, arith, true, false, some, [], ◌∷◌, String, Dict, lookup, insert, erase, All,
  Bool-cases, inl, inr, String-Keyed, ◌==◌,
}
use llm_proxy_server.Tracking.Keys.{ActiveRequest}
use llm_proxy_server.Tracking.Buffer.{is_of_user, change_user}

abbrev pub EachActive : (ActiveRequest → Type 0) → Dict String ActiveRequest → Type 0
EachActive P active = All (λ (e : String × ActiveRequest). P e.1) active

-- A request of the user has the label.
abbrev pub IsLabelled : ℕ → String → ActiveRequest → Type 0
IsLabelled user_id label e = is_of_user user_id e ≡ true → e.user_identity ≡ label

pub change_user-EachActive :
    (P Q : ActiveRequest → Type 0) (f : ActiveRequest → ActiveRequest) (user_id : ℕ)
    → ((e : ActiveRequest) → P e → is_of_user user_id e ≡ true → Q (f e))
    → ((e : ActiveRequest) → P e → is_of_user user_id e ≡ false → Q e)
    → (active : Dict String ActiveRequest) → EachActive P active
    → EachActive Q (change_user f user_id active)
unfolding change_user
change_user-EachActive P Q f user_id hit miss [] h = tt
change_user-EachActive P Q f user_id hit miss ((id, e) ∷ active) h = (
  elim (Bool-cases (is_of_user user_id e)) [
    | inl own ↦ rw own (hit e h.0 own)
    | inr other ↦ rw other (miss e h.0 other)
  ],
  change_user-EachActive P Q f user_id hit miss active h.1,
)

module _ (P : ActiveRequest → Type 0) where
  pub insert-EachActive :
      (id : String) (e : ActiveRequest) (active : Dict String ActiveRequest)
      → P e
      → EachActive P active
      → EachActive P (insert id e active)
  unfolding insert
  insert-EachActive id e [] new h = (new, tt)
  insert-EachActive id e ((j, old) ∷ active) new h = elim (Bool-cases (j == id)) [
    | inl same ↦ rw same (new, h.1)
    | inr other ↦ rw other (h.0, insert-EachActive id e active new h.1)
  ]

  pub erase-EachActive :
      (id : String) (active : Dict String ActiveRequest)
      → EachActive P active
      → EachActive P (erase id active)
  unfolding erase
  erase-EachActive id [] h = tt
  erase-EachActive id ((j, old) ∷ active) h = elim (Bool-cases (j == id)) [
    | inl same ↦ rw same (erase-EachActive id active h.1)
    | inr other ↦ rw other (h.0, erase-EachActive id active h.1)
  ]

  pub lookup-EachActive :
      (id : String) (e : ActiveRequest) (active : Dict String ActiveRequest)
      → lookup id active ≡ some e
      → EachActive P active
      → P e
  unfolding lookup
  lookup-EachActive id e [] found h = absurd (ground (arith, found))
  lookup-EachActive id e ((j, old) ∷ active) found h = elim (Bool-cases (j == id)) [
    | inl same ↦ let old_e : old ≡ e = ground (arith, found, same) in subst P old_e h.0
    | inr other ↦ lookup-EachActive id e active (ground (arith, found, other)) h.1
  ]
