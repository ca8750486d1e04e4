-- ===== src/Limits/Status/Agrees.antt =====
-- The status that a user is shown agrees with what the check decides.
use llm_proxy_server.Prelude.{
  ℕ, ◌≡◌, ◌⊎◌, inl, inr, sym, refl, true, false, Option, some, String, is_some, arith, Bool-cases,
  subst,
}
use llm_proxy_server.Limits.Tracker.{Tracker, World, rpd_scope}
use llm_proxy_server.Limits.Decision.{window_of, remaining, is_used_up}
use llm_proxy_server.Limits.Checks.{check_limits, limits_of, check_and_increment}
use llm_proxy_server.Limits.Checks.Rpm.{used, check_limits-rpm}
use llm_proxy_server.Limits.Checks.Verdict.{today_read, check_and_increment-allowed}
use llm_proxy_server.Limits.Status.{get_user_status}

remaining-zero :
    (limit : Option ℕ) (count : ℕ) → remaining limit count ≡ some 0 → is_used_up limit count ≡ true
remaining-zero limit count h = ground (arith, h)

get_user_status-rpd :
    (w : World) (u : ℕ) (name : String) (t : Tracker)
    → (get_user_status w u name t).0.rpd_limit ≡ (check_limits w u name t).rpd
unfolding get_user_status check_limits limits_of
get_user_status-rpd w u name t = elim (Bool-cases (is_some (rpd_scope t u name).pool_id)) [
  | inl e ↦ simp e refl
  | inr e ↦ simp e refl
]

rpm_used_up :
    (w : World) (u : ℕ) (name : String) (t : Tracker)
    → (get_user_status w u name t).0.rpm_remaining ≡ some 0
    → is_used_up (check_limits w u name t).rpm (used t u (window_of w.now)) ≡ true
unfolding get_user_status
rpm_used_up w u name t h =
    subst (λ l. is_used_up l (used t u (window_of w.now)) ≡ true)
      (sym (check_limits-rpm w u name t)) (remaining-zero _ _ h)

rpd_used_up :
    (w : World) (u : ℕ) (name : String) (t : Tracker)
    → (get_user_status w u name t).0.rpd_remaining ≡ some 0
    → is_used_up (check_limits w u name t).rpd (today_read w (rpd_scope t u name) t).0 ≡ true
unfolding get_user_status
rpd_used_up w u name t h =
    subst (λ l. is_used_up l (today_read w (rpd_scope t u name) t).0 ≡ true)
      (get_user_status-rpd w u name t) (remaining-zero _ _ h)

-- A user whose status shows no request left in this minute, or none left today, is denied the next
-- one.
pub check_and_increment-get_user_status :
    (w : World) (u : ℕ) (name : String) (t : Tracker)
    → ((get_user_status w u name t).0.rpm_remaining ≡ some 0)
      ⊎ ((get_user_status w u name t).0.rpd_remaining ≡ some 0)
    → (check_and_increment w u name t).0.allowed ≡ false
check_and_increment-get_user_status w u name t shown =
    elim (Bool-cases (check_and_increment w u name t).0.allowed) [
      | inr denied ↦ denied
      | inl allowed ↦
          let open_limits = (check_and_increment-allowed w u name t).0 allowed in
          elim shown [
            | inl z ↦ absurd (cc (open_limits.0, rpm_used_up w u name t z))
            | inr z ↦ absurd (cc (open_limits.1.0, rpd_used_up w u name t z))
          ]
    ]
