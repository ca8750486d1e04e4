-- ===== src/Prelude/Text.antt =====
-- Python's string operations that the program uses, over the native strings.
use Prim.Native.Char.{code}
use mathlib.Core.Bool.{Bool, true, false}
use Prim.Native.String.{String}
use Prim.Native.Nat.{ℕ, zero, suc, ◌+◌}
use mathlib.Core.Path.{◌≡◌, refl, ap}
use llm_proxy_server.Prelude.Tests.{nat_eq, ltb, if◌then◌else◌}

-- `sep in s`
unfoldable pub has_char : ℕ → String → Bool
has_char sep String.[] = false
has_char sep (String.◌∷◌ c s) = if nat_eq (code c) sep then true else has_char sep s

-- `s.split(sep, 1)[0]`: all before the first separator.
unfoldable pub before_char : ℕ → String → String
before_char sep String.[] = ""
before_char sep (String.◌∷◌ c s) =
    let rest = before_char sep s in if nat_eq (code c) sep then "" else String.◌∷◌ c rest

-- `s.split(sep, 1)[1]`: all behind the first separator, for a text that has one.
unfoldable pub after_char : ℕ → String → String
after_char sep String.[] = ""
after_char sep (String.◌∷◌ c s) =
    let rest = after_char sep s in if nat_eq (code c) sep then s else rest

-- `s.startswith(prefix)`
unfoldable pub starts_with : String → String → Bool
starts_with String.[] s = true
starts_with (String.◌∷◌ c p) String.[] = false
starts_with (String.◌∷◌ c p) (String.◌∷◌ d s) =
    let rest = starts_with p s in if nat_eq (code c) (code d) then rest else false

-- `len(s)`, in code points.
unfoldable pub text_length : String → ℕ
text_length String.[] = 0
text_length (String.◌∷◌ c s) = text_length s + 1

-- `a <= b`, by code points.
unfoldable pub text_le : String → String → Bool
text_le String.[] t = true
text_le (String.◌∷◌ c s) String.[] = false
text_le (String.◌∷◌ c s) (String.◌∷◌ d t) =
    let rest = text_le s t in
    if ltb (code c) (code d) then true else if nat_eq (code c) (code d) then rest else false

-- The first `n` characters, and the rest behind them.
unfoldable pub first_chars : ℕ → String → String
first_chars zero s = ""
first_chars (suc n) String.[] = ""
first_chars (suc n) (String.◌∷◌ c s) = String.◌∷◌ c (first_chars n s)

unfoldable pub behind_chars : ℕ → String → String
behind_chars zero s = s
behind_chars (suc n) String.[] = ""
behind_chars (suc n) (String.◌∷◌ c s) = behind_chars n s

-- `s + t`
unfoldable pub text_append : String → String → String
text_append String.[] t = t
text_append (String.◌∷◌ c s) t = String.◌∷◌ c (text_append s t)

pub text_append_nil : (s : String) → text_append s "" ≡ s
unfolding text_append
text_append_nil String.[] = refl
text_append_nil (String.◌∷◌ c s) = ap (λ t. String.◌∷◌ c t) (text_append_nil s)

pub text_append_assoc :
    (s t u : String) → text_append (text_append s t) u ≡ text_append s (text_append t u)
unfolding text_append
text_append_assoc String.[] t u = refl
text_append_assoc (String.◌∷◌ c s) t u = ap (λ w. String.◌∷◌ c w) (text_append_assoc s t u)
