-- ===== src/Conversion/Stream.antt =====
-- The stream converter `OpenAIToAnthropicConverter` of app/conversion/anthropic_openai.py: its state,
-- the events, and the helpers that open, close and fill the content blocks. An upstream chunk is a
-- record of what the code reads of it.
pub mod Chunks
pub mod End
pub mod Protocol
pub mod Bracketed
pub mod Content
pub mod Tools
pub mod Steps
pub mod Streams
pub mod Quiet
pub mod Said
pub mod ToolSteps
pub mod Fed
pub mod Heard
use llm_proxy_server.Prelude.{
  ℕ, suc, ◌+◌, ◌-◌, max, Bool, true, false, not, ◌&&◌, ◌||◌, Option, none, some, List, [], ◌∷◌,
  ◌++◌, map, String, Dict, lookup, insert, is_some, get_or, length, is_empty, str_eq, nat_eq,
  text_length, if◌then◌else◌, first_chars, behind_chars, text_append, ℕ-Keyed, String-Keyed,
}
use llm_proxy_server.Conversion.Ids.{Codec, ToolNameMap, tool_id_with_signature, to_anthropic}
use llm_proxy_server.Conversion.Splitter.{
  PieceKind, thinking, text, kind_same, Piece, ThinkTagSplitter,
}

-- A `url_citation` annotation, and the citation made of it.
pub record Annotation : Type 0 where
  pub is_url_citation : Bool
  pub url : String
  pub title : String
  pub span : Option (ℕ × ℕ)

pub record Citation : Type 0 where
  pub url : String
  pub title : String
  pub cited_text : String

unfoldable pub cited_text_of : String → Option (ℕ × ℕ) → String
unfolding first_chars behind_chars
cited_text_of full_text none = ""
cited_text_of full_text (some (start, end)) =
    first_chars 150 (first_chars (end - start) (behind_chars start full_text))

unfoldable pub citations_from_annotations : String → List Annotation → List Citation
unfolding cited_text_of
citations_from_annotations full_text [] = []
citations_from_annotations full_text (ann ∷ anns) =
    let rest = citations_from_annotations full_text anns in
    let title = if str_eq ann.title "" then ann.url else ann.title in
    if ann.is_url_citation && not (str_eq ann.url "")
    then record { url = ann.url; title = title; cited_text = cited_text_of full_text ann.span }
      ∷ rest
    else rest

pub data BlockType : Type 0 where
  text_block thinking_block tool_use_block : BlockType

-- The `content_block` of a start event.
pub data ContentBlock : Type 0 where
  text_start : ContentBlock
  thinking_start : ContentBlock
  tool_use_start : (id name : String) → ContentBlock

pub data Delta : Type 0 where
  text_delta : String → Delta
  thinking_delta : String → Delta
  input_json_delta : String → Delta
  signature_delta : Delta
  citations_delta : Citation → Delta

-- (input_tokens, output_tokens, cache_read_input_tokens)
abbrev pub TokenUsage : Type 0
TokenUsage = ℕ × ℕ × ℕ

pub data StreamEvent : Type 0 where
  content_block_start : ℕ → ContentBlock → StreamEvent
  content_block_delta : ℕ → Delta → StreamEvent
  content_block_stop : ℕ → StreamEvent
  message_delta : (stop_reason : String) (stop_sequence : Option String) → TokenUsage → StreamEvent
  message_stop : StreamEvent

-- A buffered tool call.
pub record PendingCall : Type 0 where
  pub id : Option String
  pub name : String
  pub signature : Option String
  pub buffered_args : String

abbrev pub no_call : PendingCall
no_call = record { id = none; name = ""; signature = none; buffered_args = "" }

-- `StreamConversionState`; an index of -1 is `none`, and a name that is missing is empty.
pub record StreamConversionState : Type 0 where
  pub content_block_index : Option ℕ
  pub current_block_type : BlockType
  pub block_open : Bool
  pub tool_call_indices : Dict ℕ ℕ
  pub pending_tool_calls : Dict ℕ PendingCall
  pub tool_call_ids : Dict String ℕ
  pub tool_call_keys : Dict ℕ ℕ
  pub live_tool_index : Option ℕ
  pub deferred_content : List Piece
  pub finish_reason : Option String
  pub usage : TokenUsage
  pub had_tool_use : Bool
  pub tool_names : ToolNameMap
  pub matched_stop_sequence : Option String
  pub think_splitter : Option ThinkTagSplitter
  pub full_text : String
  pub annotations : List Annotation
  pub citations_emitted : Bool

-- What a step of the converter returns: the events and the state.
abbrev pub Emitted : Type 0
Emitted = List StreamEvent × StreamConversionState

-- A step, then another one on its state.
abbrev pub and_then : Emitted → (StreamConversionState → Emitted) → Emitted
and_then r f = (r.0 ++ (f r.1).0, (f r.1).1)

-- The index of the block that is open.
abbrev pub index_of : StreamConversionState → ℕ
index_of s = get_or s.content_block_index 0

-- `content_block_index + 1`
abbrev pub next_index : Option ℕ → ℕ
next_index none = 0
next_index (some n) = suc n

-- The citations are due: a text block with annotations that none were emitted for.
abbrev pub citations_due : StreamConversionState → Bool
citations_due s = not (is_empty s.annotations) && not s.citations_emitted

-- The deltas that end a block.
unfoldable pub closing_deltas : StreamConversionState → BlockType → List Delta
unfolding citations_from_annotations
closing_deltas s thinking_block = signature_delta ∷ []
closing_deltas s text_block =
    if citations_due s
    then map (λ c. citations_delta c) (citations_from_annotations s.full_text s.annotations)
    else []
closing_deltas s tool_use_block = []

abbrev pub cites : StreamConversionState → BlockType → Bool
cites s text_block = citations_due s || s.citations_emitted
cites s _ = s.citations_emitted

abbrev pub deltas_at : ℕ → List Delta → List StreamEvent
deltas_at index ds = map (λ d. content_block_delta index d) ds

unfoldable pub close_block : StreamConversionState → Emitted
unfolding closing_deltas
close_block s =
    if s.block_open
    then (
      deltas_at (index_of s) (closing_deltas s s.current_block_type)
          ++ content_block_stop (index_of s) ∷ [],
      record s { block_open = false; citations_emitted = cites s s.current_block_type },
    )
    else ([], s)

unfoldable pub open_block : BlockType → ContentBlock → StreamConversionState → Emitted
unfolding close_block
open_block block_type content_block s =
    let r = close_block s in
    let index = next_index r.1.content_block_index in
    (
      r.0 ++ content_block_start index content_block ∷ [],
      record r.1 {
        content_block_index = some index;
        current_block_type = block_type;
        block_open = true;
      },
    )

-- `state.deferred_content` with a piece at its end.
unfoldable pub defer_piece : PieceKind → String → List Piece → List Piece
unfolding text_append
defer_piece kind piece [] = (kind, piece) ∷ []
defer_piece kind piece ((k, said) ∷ []) =
    if kind_same k kind then (kind, text_append said piece) ∷ [] else (k, said) ∷ (kind, piece) ∷ []
defer_piece kind piece (p ∷ q ∷ deferred) = p ∷ defer_piece kind piece (q ∷ deferred)

abbrev pub block_of : PieceKind → BlockType
block_of thinking = thinking_block
block_of text = text_block

abbrev pub start_of : PieceKind → ContentBlock
start_of thinking = thinking_start
start_of text = text_start

abbrev pub delta_of : PieceKind → String → Delta
delta_of thinking piece = thinking_delta piece
delta_of text piece = text_delta piece

abbrev pub is_in : BlockType → BlockType → Bool
is_in text_block text_block = true
is_in thinking_block thinking_block = true
is_in tool_use_block tool_use_block = true
is_in _ _ = false

unfoldable pub full_text_with : PieceKind → String → String → String
unfolding text_append
full_text_with thinking full_text piece = full_text
full_text_with text full_text piece = text_append full_text piece

-- The block of the kind, opened if it is not open.
unfoldable pub in_block : PieceKind → StreamConversionState → Emitted
unfolding open_block
in_block kind s =
    if s.block_open && is_in s.current_block_type (block_of kind)
    then ([], s)
    else open_block (block_of kind) (start_of kind) s

unfoldable pub emit_content : PieceKind → String → StreamConversionState → Emitted
unfolding in_block defer_piece
emit_content kind piece s =
    if str_eq piece ""
    then ([], s)
    else if is_some s.live_tool_index
    then ([], record s { deferred_content = defer_piece kind piece s.deferred_content })
    else let r = in_block kind s in
      (
        r.0 ++ content_block_delta (index_of r.1) (delta_of kind piece) ∷ [],
        record r.1 { full_text = full_text_with kind r.1.full_text piece },
      )

unfoldable pub emit_all : List Piece → StreamConversionState → Emitted
unfolding emit_content
emit_all [] s = ([], s)
emit_all ((kind, piece) ∷ pieces) s = and_then (emit_content kind piece s) (emit_all pieces)
