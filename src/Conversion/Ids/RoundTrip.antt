-- ===== src/Conversion/Ids/RoundTrip.antt =====
-- A tool id that goes to the client and comes back is the upstream's id, with its signature.
use Prim.Native.Char.{code}
use llm_proxy_server.Prelude.{
  suc, ◌+◌, ◌≡◌, refl, ap, ◌∙◌, true, false, Option, none, some, String, get_or, has_char,
  before_char, after_char, starts_with, text_length, str_eq, nat_eq, if_true, if_false,
  behind_chars, text_append, arith, Bool-cases, inl, inr,
}
use llm_proxy_server.Tracking.Sql.Parts.{before_char-whole}
use llm_proxy_server.Conversion.Ids.{
  Codec, has_id_chars, encoded_id_prefix, separator, sanitize_tool_id, signed_text,
  tool_id_with_signature, decode_tool_id, restore_tool_id, tool_id_signature,
}

starts_with-text_append : (p s : String) → starts_with p (text_append p s) ≡ true
unfolding starts_with text_append
starts_with-text_append String.[] s = refl
starts_with-text_append (String.◌∷◌ c p) s = ground (arith, starts_with-text_append p s)

behind_chars-text_append : (p s : String) → behind_chars (text_length p) (text_append p s) ≡ s
unfolding behind_chars text_length text_append
behind_chars-text_append String.[] s = refl
behind_chars-text_append (String.◌∷◌ c p) s =
    let step : text_length p + 1 ≡ suc (text_length p) = omega arith in
    ap (λ n. behind_chars n (String.◌∷◌ c (text_append p s))) step ∙ behind_chars-text_append p s

has_id_chars-text_append :
    (s t : String)
    → has_id_chars s ≡ true
    → has_id_chars t ≡ true
    → has_id_chars (text_append s t) ≡ true
unfolding has_id_chars text_append
has_id_chars-text_append String.[] t h k = k
has_id_chars-text_append (String.◌∷◌ c s) t h k = ground (arith, h, has_id_chars-text_append s t)

-- A text that a separator and another text follow, for one without the separator.
split_at_separator :
    (s t : String)
    → has_char separator s ≡ false
    → let whole = text_append s (text_append "\u{1f}" t) in
      (before_char separator whole ≡ s)
      × (after_char separator whole ≡ t)
      × (has_char separator whole ≡ true)
unfolding has_char before_char after_char text_append
split_at_separator String.[] t h = (refl, refl, refl)
split_at_separator (String.◌∷◌ c s) t h = elim (Bool-cases (nat_eq (code c) separator)) [
  | inl e ↦ absurd (ground (arith, h, e))
  | inr e ↦
      let m : has_char separator s ≡ false = ground (arith, h, e) in
      let (before, after, there) = split_at_separator s t m in
      rw e (ap (λ u. String.◌∷◌ c u) before, after, there)
]

-- What the code relies on of base64url and of random ids: they are made of the characters of an id, and
-- base64url can be undone.
record IsPlain (codec : Codec) : Type 0 where
  pub encoded : (s : String) → has_id_chars (codec.encode s) ≡ true
  pub fresh : has_id_chars codec.fresh ≡ true

abbrev pub IsUndone : Codec → String → Type 0
IsUndone codec s = codec.decode (codec.encode s) ≡ some s

decode-encoded :
    (codec : Codec) (s : String)
    → IsUndone codec s
    → decode_tool_id codec (text_append encoded_id_prefix (codec.encode s)) ≡ s
unfolding decode_tool_id
decode-encoded codec s h =
    if_true (starts_with encoded_id_prefix (text_append encoded_id_prefix (codec.encode s))) _ _
      (starts_with-text_append encoded_id_prefix (codec.encode s))
    ∙ ap (λ t. get_or (codec.decode t) (text_append encoded_id_prefix (codec.encode s)))
        (behind_chars-text_append encoded_id_prefix (codec.encode s))
    ∙ ap (λ o. get_or o (text_append encoded_id_prefix (codec.encode s))) h

signed_id :
    (codec : Codec) (raw_id signature : String)
    → str_eq raw_id "" ≡ false
    → str_eq signature "" ≡ false
    → tool_id_with_signature codec (some raw_id) (some signature)
      ≡ text_append encoded_id_prefix
          (codec.encode (text_append raw_id (text_append "\u{1f}" signature)))
unfolding tool_id_with_signature signed_text
signed_id codec raw_id signature e f =
    if_false (str_eq signature "") _ _ f
    ∙ ap
        (λ t.
          text_append encoded_id_prefix
            (codec.encode (text_append t (text_append "\u{1f}" signature))))
        (if_false (str_eq raw_id "") _ _ e)

-- An id that carries a thought signature to the client gives back both when it is returned, for an
-- upstream id that is not empty and does not hold the separator, and a signature that is not empty, when
-- base64url is undone on the two.
pub restore-tool_id_with_signature :
    (codec : Codec) (raw_id signature : String)
    → IsUndone codec (text_append raw_id (text_append "\u{1f}" signature))
    → str_eq raw_id "" ≡ false
    → has_char separator raw_id ≡ false
    → str_eq signature "" ≡ false
    → let sent = tool_id_with_signature codec (some raw_id) (some signature) in
      (restore_tool_id codec sent ≡ raw_id) × (tool_id_signature codec sent ≡ some signature)
unfolding restore_tool_id tool_id_signature
restore-tool_id_with_signature codec raw_id signature h e sep f =
    let whole = text_append raw_id (text_append "\u{1f}" signature) in
    let (before, after, there) = split_at_separator raw_id signature sep in
    rw (signed_id codec raw_id signature e f, decode-encoded codec whole h, there, after, f)
      (before, refl)

fresh_id_plain :
    (codec : Codec) → IsPlain codec → has_id_chars (text_append "toolu_" codec.fresh) ≡ true
unfolding has_id_chars
fresh_id_plain codec h = has_id_chars-text_append "toolu_" codec.fresh refl h.fresh

encoded_id_plain :
    (codec : Codec) (s : String)
    → IsPlain codec
    → has_id_chars (text_append encoded_id_prefix (codec.encode s)) ≡ true
unfolding has_id_chars
encoded_id_plain codec s h =
    has_id_chars-text_append encoded_id_prefix (codec.encode s) refl (h.encoded s)

sanitize_tool_id-plain :
    (codec : Codec) (raw_id : Option String)
    → IsPlain codec
    → has_id_chars (sanitize_tool_id codec raw_id) ≡ true
unfolding sanitize_tool_id
sanitize_tool_id-plain codec none h = fresh_id_plain codec h
sanitize_tool_id-plain codec (some raw_id) h =
    ground (arith, fresh_id_plain codec h, encoded_id_plain codec raw_id h)

-- Whatever the upstream id and the signature are, missing ones included, the id that the client gets is
-- made of the characters that Anthropic allows in one, when base64url texts and random ids are.
tool_id_with_signature-plain :
    (codec : Codec) (raw_id signature : Option String)
    → IsPlain codec
    → has_id_chars (tool_id_with_signature codec raw_id signature) ≡ true
unfolding tool_id_with_signature
tool_id_with_signature-plain codec raw_id none h = sanitize_tool_id-plain codec raw_id h
tool_id_with_signature-plain codec raw_id (some signature) h = ground (
  arith,
  sanitize_tool_id-plain codec raw_id h,
  encoded_id_plain codec (text_append (signed_text codec raw_id) (text_append "\u{1f}" signature))
      h,
)

plain_text_decode :
    (codec : Codec) (s : String)
    → starts_with encoded_id_prefix s ≡ false
    → decode_tool_id codec s ≡ s
unfolding decode_tool_id
plain_text_decode codec s e = if_false (starts_with encoded_id_prefix s) _ _ e

-- An id without a signature comes back as it was, for one that is not empty, does not hold the separator
-- and does not look like an encoded id, when base64url is undone on it.
pub restore-sanitize_tool_id :
    (codec : Codec) (raw_id : String)
    → IsUndone codec raw_id
    → str_eq raw_id "" ≡ false
    → has_char separator raw_id ≡ false
    → starts_with encoded_id_prefix raw_id ≡ false
    → restore_tool_id codec (sanitize_tool_id codec (some raw_id)) ≡ raw_id
unfolding restore_tool_id sanitize_tool_id
restore-sanitize_tool_id codec raw_id h e sep enc =
    let encoded = text_append encoded_id_prefix (codec.encode raw_id) in
    let whole = before_char-whole raw_id separator sep in
    ap (λ t. restore_tool_id codec t) (if_false (str_eq raw_id "") _ _ e)
    ∙ (elim (Bool-cases (has_id_chars raw_id)) [
      | inl p ↦
          ap (λ t. restore_tool_id codec t) (if_true (has_id_chars raw_id) _ _ p)
          ∙ ap (λ t. before_char separator t) (plain_text_decode codec raw_id enc)
          ∙ whole
      | inr p ↦
          ap (λ t. restore_tool_id codec t) (if_false (has_id_chars raw_id) _ _ p)
          ∙ ap (λ t. before_char separator t) (decode-encoded codec raw_id h)
          ∙ whole
    ])
