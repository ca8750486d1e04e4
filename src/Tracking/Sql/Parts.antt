-- ===== src/Tracking/Sql/Parts.antt =====
-- First characters, positions and prefixes of a text, as SQLite and Python compute them.
use Prim.Native.Char.{Char, code}
use text.Mathlib.TextEquality.{Char-path}
use llm_proxy_server.Prelude.{
  first_chars, behind_chars, ℕ, ◌+◌, ◌-◌, ◌≡◌, ◌≢◌, refl, ap, ◌∙◌, ◌<◌, true, false, ◌||◌, String,
  has_char, before_char, after_char, starts_with, text_length, str_eq, str_eq_iff, nat_eq, ltb,
  if◌then◌else◌, arith, Bool-cases, inl, inr, suc, zero,
}
use llm_proxy_server.Tracking.Sql.{sql_instr, with_slash}

str_eq-cons :
    (c d : Char) (s t : String)
    → str_eq (String.◌∷◌ c s) (String.◌∷◌ d t)
      ≡ (if nat_eq (code c) (code d) then str_eq s t else false)
str_eq-cons c d s t =
    ground (arith, str_eq_iff (String.◌∷◌ c s) (String.◌∷◌ d t), str_eq_iff s t, Char-path c d)

first_chars_cons :
    (n : ℕ) (c : Char) (s : String)
    → first_chars (n + 1) (String.◌∷◌ c s) ≡ String.◌∷◌ c (first_chars n s)
unfolding first_chars
first_chars_cons n c s =
    let step : n + 1 ≡ suc n = omega arith in ap (λ m. first_chars m (String.◌∷◌ c s)) step

first_chars_nil : (n : ℕ) → first_chars n "" ≡ ""
unfolding first_chars
first_chars_nil zero = refl
first_chars_nil (suc n) = refl

behind_chars_cons :
    (n : ℕ) (c : Char) (s : String) → behind_chars (n + 1) (String.◌∷◌ c s) ≡ behind_chars n s
unfolding behind_chars
behind_chars_cons n c s =
    let step : n + 1 ≡ suc n = omega arith in ap (λ m. behind_chars m (String.◌∷◌ c s)) step

nil_ne-cons : (c : Char) (s : String) → String.[] ≢ String.◌∷◌ c s
unfolding text_length
nil_ne-cons c s p = absurd (omega (arith, ap text_length p))

str_eq-nil : (c : Char) (s : String) → str_eq "" (String.◌∷◌ c s) ≡ false
str_eq-nil c s = ground (arith, str_eq_iff "" (String.◌∷◌ c s), nil_ne-cons c s)

str_eq-cons_nil : (c : Char) (s : String) → str_eq (String.◌∷◌ c s) "" ≡ false
str_eq-cons_nil c s = ground (arith, str_eq_iff (String.◌∷◌ c s) "", nil_ne-cons c s)

-- A text has a prefix when its first characters are the prefix.
pub first_chars-starts_with :
    (p s : String) → str_eq (first_chars (text_length p) s) p ≡ starts_with p s
unfolding first_chars starts_with text_length
first_chars-starts_with String.[] s = refl
first_chars-starts_with (String.◌∷◌ c p) String.[] =
    rw (first_chars_nil (text_length p + 1)) (str_eq-nil c p)
first_chars-starts_with (String.◌∷◌ c p) (String.◌∷◌ d s) =
    rw (first_chars_cons (text_length p) d s) (
      ground
        (arith, str_eq-cons d c (first_chars (text_length p) s) p, first_chars-starts_with p s))

-- The position of a character, by the parts of the text around it.
pub instr-has_char : (s : String) (sep : ℕ) → ltb 0 (sql_instr s sep) ≡ has_char sep s
unfolding sql_instr has_char
instr-has_char String.[] sep = refl
instr-has_char (String.◌∷◌ c s) sep = ground (arith, instr-has_char s sep)

instr_hit :
    (c : Char) (s : String) (sep : ℕ)
    → nat_eq (code c) sep ≡ true
    → sql_instr (String.◌∷◌ c s) sep ≡ 1
unfolding sql_instr
instr_hit c s sep e = rw e refl

instr_miss :
    (c : Char) (s : String) (sep : ℕ)
    → nat_eq (code c) sep ≡ false
    → has_char sep s ≡ true
    → sql_instr (String.◌∷◌ c s) sep ≡ sql_instr s sep + 1
unfolding sql_instr
instr_miss c s sep e m = ground (arith, e, m, instr-has_char s sep)

pub instr-after_char :
    (s : String) (sep : ℕ)
    → has_char sep s ≡ true
    → behind_chars (sql_instr s sep) s ≡ after_char sep s
unfolding sql_instr has_char after_char behind_chars
instr-after_char String.[] sep h = absurd (ground (arith, h))
instr-after_char (String.◌∷◌ c s) sep h = elim (Bool-cases (nat_eq (code c) sep)) [
  | inl e ↦ rw (instr_hit c s sep e, e) refl
  | inr e ↦
      let m : has_char sep s ≡ true = ground (arith, h, e) in
      rw (instr_miss c s sep e m, e, behind_chars_cons (sql_instr s sep) c s)
        (instr-after_char s sep m)
]

shift_first :
    (n : ℕ) (c : Char) (s : String)
    → 0 < n
    → first_chars (n + 1 - 1) (String.◌∷◌ c s) ≡ String.◌∷◌ c (first_chars (n - 1) s)
shift_first n c s h =
    let step : n + 1 - 1 ≡ n - 1 + 1 = omega arith in
    ap (λ m. first_chars m (String.◌∷◌ c s)) step ∙ first_chars_cons (n - 1) c s

pub instr-before_char :
    (s : String) (sep : ℕ)
    → has_char sep s ≡ true
    → first_chars (sql_instr s sep - 1) s ≡ before_char sep s
unfolding sql_instr has_char before_char first_chars
instr-before_char String.[] sep h = absurd (ground (arith, h))
instr-before_char (String.◌∷◌ c s) sep h = elim (Bool-cases (nat_eq (code c) sep)) [
  | inl e ↦ rw (instr_hit c s sep e, e) refl
  | inr e ↦
      let m : has_char sep s ≡ true = ground (arith, h, e) in
      let positive : 0 < sql_instr s sep = ground (arith, m, instr-has_char s sep) in
      rw (instr_miss c s sep e m, e, shift_first (sql_instr s sep) c s positive)
        (ap (λ rest. String.◌∷◌ c rest) (instr-before_char s sep m))
]

pub before_char-whole : (s : String) (sep : ℕ) → has_char sep s ≡ false → before_char sep s ≡ s
unfolding has_char before_char
before_char-whole String.[] sep h = refl
before_char-whole (String.◌∷◌ c s) sep h = ground (arith, h, before_char-whole s sep)

-- `with_slash k` is a prefix of `m`, or `m` is `k`.
pub with_slash-before_char :
    (k m : String)
    → has_char b'/' k ≡ false
    → (starts_with (with_slash k) m || str_eq m k) ≡ str_eq (before_char b'/' m) k
unfolding with_slash starts_with has_char before_char
with_slash-before_char String.[] String.[] h = refl
with_slash-before_char String.[] (String.◌∷◌ d m) h = elim (Bool-cases (nat_eq (code d) b'/')) [
  | inl e ↦ let found : nat_eq b'/' (code d) ≡ true = ground (arith, e) in rw (e, found) refl
  | inr e ↦
      let absent : nat_eq b'/' (code d) ≡ false = ground (arith, e) in
      rw (e, absent, str_eq-cons_nil d m, str_eq-cons_nil d (before_char b'/' m)) refl
]
with_slash-before_char (String.◌∷◌ c k) String.[] h = refl
with_slash-before_char (String.◌∷◌ c k) (String.◌∷◌ d m) h = ground (
  arith,
  h,
  str_eq-cons d c m k,
  str_eq-nil c k,
  str_eq-cons d c (before_char b'/' m) k,
  with_slash-before_char k m,
)

pub starts_with-nil : (c : Char) (p : String) → starts_with (String.◌∷◌ c p) "" ≡ false
unfolding starts_with
starts_with-nil c p = refl
