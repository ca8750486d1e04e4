-- ===== src/Tracking/Sql.antt =====
-- The SQL predicates of app/request_tracker.py over a model id, `_instance_match` and `_byok_match`'s `substr` and `instr`, and that they are the tests that the buffer is read with.
pub mod Parts
pub mod Agrees
use Prim.Native.Char.{Char, code}
use text.Mathlib.TextEquality.{Char-path}
use llm_proxy_server.Prelude.{
  ℕ, ◌+◌, ◌-◌, ◌≡◌, ◌≢◌, sym, refl, ap, ◌∙◌, ◌<◌, Bool, true, false, not, ◌&&◌, ◌||◌, Option, some,
  String, has_char, before_char, after_char, starts_with, text_length, str_eq, str_eq_iff, nat_eq,
  ltb, first_chars, behind_chars, if◌then◌else◌, arith, Bool-cases, inl, inr, suc, zero,
}
use llm_proxy_server.Byok.{
  provider_key_of, instance_part, is_byok_model, is_byok_provider_key, is_byok_instance_name,
  byok_instance_prefix,
}

-- SQLite's `substr(s, start, n)` for a start from 1 on.
unfoldable pub sql_substr : String → ℕ → ℕ → String
unfolding first_chars behind_chars
sql_substr s start n = first_chars n (behind_chars (start - 1) s)

-- SQLite's `instr(s, c)`: the position of a character from 1 on, or 0.
unfoldable pub sql_instr : String → ℕ → ℕ
sql_instr String.[] sep = 0
sql_instr (String.◌∷◌ c s) sep =
    let rest = sql_instr s sep in
    if nat_eq (code c) sep then 1 else if nat_eq rest 0 then 0 else rest + 1

-- `f"{provider_key}/"`
unfoldable pub with_slash : String → String
with_slash String.[] = "/"
with_slash (String.◌∷◌ c s) = String.◌∷◌ c (with_slash s)

unfoldable pub instance_match : String → String → Bool
unfolding sql_substr with_slash
instance_match column provider_key =
    str_eq (sql_substr column 1 (text_length (with_slash provider_key))) (with_slash provider_key)
    || str_eq column provider_key

-- The part of a column before the first slash, as the `case` of `_byok_match`.
unfoldable pub sql_prefix : String → String
unfolding sql_substr sql_instr
sql_prefix column =
    if ltb 0 (sql_instr column b'/')
    then sql_substr column 1 (sql_instr column b'/' - 1)
    else column

unfoldable pub byok_match : String → Bool
unfolding sql_prefix sql_substr sql_instr
byok_match column =
    let colon = sql_instr (sql_prefix column) b':' in
    ltb 0 colon && str_eq (sql_substr (sql_prefix column) (colon + 1) 5) byok_instance_prefix
