-- ===== src/Tracking/Sql/Agrees.antt =====
-- The SQL predicates of app/request_tracker.py are the tests that the buffer is read with.
use llm_proxy_server.Prelude.{
  first_chars, behind_chars, ◌+◌, ◌-◌, ◌≡◌, refl, sym, false, not, ◌&&◌, some, String, has_char,
  before_char, after_char, starts_with, str_eq, str_eq_iff, if◌then◌else◌, arith, Bool-cases, inl,
  inr, ltb, text_length,
}
use llm_proxy_server.Byok.{
  provider_key_of, instance_part, is_byok_model, is_byok_provider_key, is_byok_instance_name,
  byok_instance_prefix,
}
use llm_proxy_server.Tracking.Sql.{
  instance_match, byok_match, sql_prefix, sql_substr, sql_instr, with_slash,
}
use llm_proxy_server.Tracking.Sql.Parts.{
  first_chars-starts_with, instr-has_char, instr-after_char, instr-before_char, before_char-whole,
  with_slash-before_char,
}

-- For a provider key without a slash, the SQL test for an instance's models finds just the models whose
-- provider key it is.
pub instance_match-before_char :
    (model key : String)
    → has_char b'/' key ≡ false
    → instance_match model key ≡ str_eq (before_char b'/' model) key
unfolding instance_match sql_substr behind_chars
instance_match-before_char model key h =
    rw (first_chars-starts_with (with_slash key) model) (with_slash-before_char key model h)

sql_prefix-before_char : (model : String) → sql_prefix model ≡ before_char b'/' model
unfolding sql_prefix sql_substr behind_chars
sql_prefix-before_char model = elim (Bool-cases (has_char b'/' model)) [
  | inl e ↦ ground (arith, e, instr-has_char model b'/', instr-before_char model b'/' e)
  | inr e ↦ ground (arith, e, instr-has_char model b'/', before_char-whole model b'/' e)
]

byok_nonempty :
    (part : String)
    → (not (str_eq part "") && starts_with byok_instance_prefix part)
      ≡ starts_with byok_instance_prefix part
unfolding starts_with
byok_nonempty part = elim (Bool-cases (str_eq part "")) [
  | inl e ↦ let empty : part ≡ "" = (str_eq_iff part "").0 e in rw empty refl
  | inr e ↦ rw e refl
]

first_five :
    (part : String)
    → str_eq (first_chars 5 part) byok_instance_prefix ≡ starts_with byok_instance_prefix part
unfolding text_length
first_five part = first_chars-starts_with byok_instance_prefix part

-- What `_byok_match` asks of the provider key.
byok_part :
    (key : String)
    → (ltb 0 (sql_instr key b':')
        && str_eq (sql_substr key (sql_instr key b':' + 1) 5) byok_instance_prefix)
      ≡ is_byok_instance_name (if has_char b':' key then after_char b':' key else "")
unfolding sql_substr is_byok_instance_name
byok_part key = elim (Bool-cases (has_char b':' key)) [
  | inl e ↦
      let at_colon : sql_instr key b':' + 1 - 1 ≡ sql_instr key b':' = omega arith in
      rw
        (
          instr-has_char key b':',
          e,
          at_colon,
          instr-after_char key b':' e,
          first_five (after_char b':' key),
        )
        (sym (byok_nonempty (after_char b':' key)))
  | inr e ↦ rw (instr-has_char key b':', e) refl
]

-- `_byok_match` finds just the models that `is_byok_model` says are of a BYOK instance, whatever the
-- text.
pub byok_match-is_byok_model : (model : String) → byok_match model ≡ is_byok_model (some model)
unfolding byok_match is_byok_model is_byok_provider_key instance_part provider_key_of
byok_match-is_byok_model model =
    rw (sql_prefix-before_char model, byok_part (before_char b'/' model))
      (elim (Bool-cases (str_eq model "")) [
        | inl e ↦ let empty : model ≡ "" = (str_eq_iff model "").0 e in rw empty refl
        | inr e ↦ rw e refl
      ])
