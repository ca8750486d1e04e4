-- ===== src/Conversion/Ids.antt =====
-- Tool ids and tool names in app/conversion/anthropic_helpers.py. Base64, SHA-256 and the random ids
-- are parameters.
pub mod RoundTrip
use llm_proxy_server.Prelude.{
  ℕ, ◌+◌, ◌-◌, Bool, true, false, not, ◌&&◌, ◌||◌, Option, none, some, String, Dict, lookup, insert,
  get_or, has_char, before_char, after_char, starts_with, text_length, str_eq, nat_eq, leb,
  if◌then◌else◌, first_chars, behind_chars, text_append, String-Keyed,
}
use Prim.Native.Char.{code}

-- `[a-zA-Z0-9_-]`
abbrev pub is_id_char : ℕ → Bool
is_id_char c =
    leb b'a' c && leb c b'z'
    || leb b'A' c && leb c b'Z'
    || leb b'0' c && leb c b'9'
    || nat_eq c b'_'
    || nat_eq c b'-'

-- `not _INVALID_ID_CHARS.search(text)`
unfoldable pub has_id_chars : String → Bool
has_id_chars String.[] = true
has_id_chars (String.◌∷◌ c s) =
    let rest = has_id_chars s in if is_id_char (code c) then rest else false

-- `_INVALID_NAME_CHARS.sub("_", name)`
unfoldable pub sub_name_chars : String → String
sub_name_chars String.[] = ""
sub_name_chars (String.◌∷◌ c s) =
    let rest = sub_name_chars s in
    if is_id_char (code c) then String.◌∷◌ c rest else text_append "_" rest

abbrev pub encoded_id_prefix : String
encoded_id_prefix = "toolu_enc_"

-- `_SIGNATURE_SEPARATOR`
abbrev pub separator : ℕ
separator = 31

-- The parameters: base64url without padding, its inverse that fails on other texts, the first
-- characters of a SHA-256 in hexadecimal, and a random id.
pub record Codec : Type 0 where
  pub encode : String → String
  pub decode : String → Option String
  pub digest : String → String
  pub fresh : String

-- A missing id and an empty one are `none`.
unfoldable pub sanitize_tool_id : Codec → Option String → String
unfolding has_id_chars text_append
sanitize_tool_id codec none = text_append "toolu_" codec.fresh
sanitize_tool_id codec (some raw_id) =
    if str_eq raw_id ""
    then text_append "toolu_" codec.fresh
    else if has_id_chars raw_id
    then raw_id
    else text_append encoded_id_prefix (codec.encode raw_id)

-- The id that a signature is put beside.
unfoldable pub signed_text : Codec → Option String → String
unfolding sanitize_tool_id
signed_text codec none = sanitize_tool_id codec none
signed_text codec (some raw_id) = if str_eq raw_id "" then sanitize_tool_id codec none else raw_id

unfoldable pub tool_id_with_signature : Codec → Option String → Option String → String
unfolding sanitize_tool_id text_append signed_text
tool_id_with_signature codec raw_id none = sanitize_tool_id codec raw_id
tool_id_with_signature codec raw_id (some signature) =
    if str_eq signature ""
    then sanitize_tool_id codec raw_id
    else text_append encoded_id_prefix
        (codec.encode (text_append (signed_text codec raw_id) (text_append "\u{1f}" signature)))

unfoldable pub decode_tool_id : Codec → String → String
unfolding starts_with behind_chars text_length
decode_tool_id codec tool_id =
    if starts_with encoded_id_prefix tool_id
    then get_or (codec.decode (behind_chars (text_length encoded_id_prefix) tool_id)) tool_id
    else tool_id

-- `_decode_tool_id(tool_id).split(_SIGNATURE_SEPARATOR, 1)[0]`
unfoldable pub restore_tool_id : Codec → String → String
unfolding decode_tool_id before_char
restore_tool_id codec tool_id = before_char separator (decode_tool_id codec tool_id)

unfoldable pub tool_id_signature : Codec → String → Option String
unfolding decode_tool_id has_char after_char
tool_id_signature codec tool_id =
    let decoded = decode_tool_id codec tool_id in
    if has_char separator decoded && not (str_eq (after_char separator decoded) "")
    then some (after_char separator decoded)
    else none

-- A text without the newline at its end, which `$` also matches before.
unfoldable pub drop_final_newline : String → String
drop_final_newline String.[] = ""
drop_final_newline (String.◌∷◌ c s) =
    let rest = drop_final_newline s in
    if nat_eq (code c) 10 && str_eq s "" then "" else String.◌∷◌ c rest

-- `_VALID_NAME.match(name)`
unfoldable pub is_valid_name : String → Bool
unfolding drop_final_newline has_id_chars text_length
is_valid_name name =
    let line = drop_final_newline name in
    has_id_chars line && leb 1 (text_length line) && leb (text_length line) 64

unfoldable pub shorten_tool_name : Codec → String → String
unfolding sub_name_chars first_chars text_append text_length
shorten_tool_name codec name =
    let sanitized = if str_eq (sub_name_chars name) "" then "tool" else sub_name_chars name in
    if leb (text_length sanitized) 64 && str_eq sanitized name
    then name
    else text_append (first_chars 55 sanitized) (text_append "_" (codec.digest name))

-- `ToolNameMap`
pub record ToolNameMap : Type 0 where
  pub forward : Dict String String
  pub reverse : Dict String String

unfoldable pub to_openai : Codec → ToolNameMap → String → String × ToolNameMap
unfolding shorten_tool_name is_valid_name lookup insert
to_openai codec names name =
    if str_eq name "" then (name, names) else elim (lookup name names.forward) [
      | some mapped ↦ (mapped, names)
      | none ↦
          let mapped = if is_valid_name name then name else shorten_tool_name codec name in
          (
            mapped,
            record {
              forward = insert name mapped names.forward;
              reverse = elim (lookup mapped names.reverse) [
                | some _ ↦ names.reverse
                | none ↦ insert mapped name names.reverse
              ];
            },
          )
    ]

unfoldable pub to_anthropic : ToolNameMap → String → String
unfolding lookup
to_anthropic names name = get_or (lookup name names.reverse) name
