-- ===== src/Conversion/Stream/Chunks.antt =====
-- `_handle_tool_delta`, `convert_stream_chunk` and `convert_stream_end` of
-- app/conversion/anthropic_openai.py.
use llm_proxy_server.Prelude.{
  ℕ, ◌-◌, Bool, true, false, not, ◌&&◌, ◌||◌, Option, none, some, List, [], ◌∷◌, ◌++◌, String,
  lookup, insert, is_some, get_or, length, str_eq, nat_eq, if◌then◌else◌, text_append, ℕ-Keyed,
  String-Keyed,
}
use llm_proxy_server.Conversion.Ids.{Codec, tool_id_with_signature, to_anthropic}
use llm_proxy_server.Conversion.Splitter.{thinking, text, Piece, ThinkTagSplitter, feed}
use llm_proxy_server.Conversion.Stream.{
  Annotation, tool_use_block, tool_use_start, input_json_delta, TokenUsage, StreamEvent,
  content_block_delta, PendingCall, no_call, StreamConversionState, Emitted, and_then, index_of,
  open_block, emit_all,
}

-- A tool call of a delta; what is missing in it is `none`, a missing name is empty.
pub record ToolDelta : Type 0 where
  pub index : Option ℕ
  pub id : String
  pub name : String
  pub arguments : String
  pub signature : Option String

unfoldable pub call_at : StreamConversionState → ℕ → PendingCall
unfolding lookup
call_at s key = get_or (lookup key s.pending_tool_calls) no_call

-- `if x: [f(x)]`
abbrev pub json_delta : ℕ → String → List StreamEvent
json_delta index args =
    if str_eq args "" then [] else content_block_delta index (input_json_delta args) ∷ []

unfoldable pub open_tool_block : Codec → ℕ → StreamConversionState → Emitted
unfolding open_block tool_id_with_signature to_anthropic insert
open_tool_block codec key s =
    let call = call_at s key in
    let block =
      tool_use_start (tool_id_with_signature codec call.id call.signature)
        (to_anthropic s.tool_names call.name) in
    let r = open_block tool_use_block block (record s { had_tool_use = true }) in
    (r.0, record r.1 { tool_call_indices = insert key (index_of r.1) r.1.tool_call_indices })

-- The key that a delta's id is known by.
unfoldable pub known_key : ToolDelta → StreamConversionState → Option ℕ
unfolding lookup
known_key tc s = if str_eq tc.id "" then none else lookup tc.id s.tool_call_ids

-- Whether a delta that is not known by its id starts a new call.
abbrev pub is_new_call : ToolDelta → Option ℕ → StreamConversionState → Bool
is_new_call tc none s = true
is_new_call tc (some key) s =
    not (str_eq tc.id "") && not (str_eq tc.name "") && is_some (call_at s key).id

-- The key of a delta's call.
unfoldable pub key_of : ToolDelta → StreamConversionState → ℕ
unfolding known_key lookup
key_of tc s = elim (known_key tc s) [
  | some key ↦ key
  | none ↦
      let at_index = lookup (get_or tc.index 0) s.tool_call_keys in
      if is_new_call tc at_index s then length s.pending_tool_calls else get_or at_index 0
]

-- The call with what a delta says of it; a new call starts empty.
abbrev pub told : ToolDelta → PendingCall → PendingCall
told tc call = record {
  id = if is_some call.id || str_eq tc.id "" then call.id else some tc.id;
  name = if str_eq tc.name "" then call.name else tc.name;
  signature = if is_some tc.signature then tc.signature else call.signature;
  buffered_args = call.buffered_args;
}

-- The state with the delta's id, index and call on record.
unfoldable pub record_call : ToolDelta → ℕ → StreamConversionState → StreamConversionState
unfolding insert call_at
record_call tc key s = record s {
  tool_call_keys = insert (get_or tc.index 0) key s.tool_call_keys;
  tool_call_ids = if str_eq tc.id "" then s.tool_call_ids else insert tc.id key s.tool_call_ids;
  pending_tool_calls = insert key (told tc (call_at s key)) s.pending_tool_calls;
}

unfoldable pub with_args : ℕ → String → StreamConversionState → StreamConversionState
unfolding insert call_at
with_args key args s = record s {
  pending_tool_calls =
      insert key (record (call_at s key) { buffered_args = args }) s.pending_tool_calls;
}

abbrev pub is_live : ℕ → StreamConversionState → Bool
is_live key s = elim s.live_tool_index [ none ↦ false | some live ↦ nat_eq key live ]

unfoldable pub should_open : ToolDelta → ℕ → StreamConversionState → Bool
unfolding lookup call_at
should_open tc key s =
    nat_eq key 0
    && not (is_some s.live_tool_index)
    && not (is_some (lookup key s.tool_call_indices))
    && not (str_eq (call_at s key).name "")
    && (is_some (call_at s key).id
        || not (str_eq (call_at s key).buffered_args "")
        || not (str_eq tc.arguments ""))

-- The first call opens live, with the arguments that were buffered before.
unfoldable pub open_live : Codec → ToolDelta → ℕ → StreamConversionState → Emitted
unfolding open_tool_block with_args call_at
open_live codec tc key s =
    let r = open_tool_block codec key s in
    let args = (call_at s key).buffered_args in
    (
      r.0 ++ (json_delta (index_of r.1) args ++ json_delta (index_of r.1) tc.arguments),
      record (with_args key "" r.1) { live_tool_index = some key },
    )

unfoldable pub handle_recorded : Codec → ToolDelta → ℕ → StreamConversionState → Emitted
unfolding open_live with_args should_open lookup text_append call_at
handle_recorded codec tc key s =
    if is_live key s
    then (json_delta (get_or (lookup key s.tool_call_indices) 0) tc.arguments, s)
    else if should_open tc key s
    then open_live codec tc key s
    else ([], with_args key (text_append (call_at s key).buffered_args tc.arguments) s)

unfoldable pub handle_tool_delta : Codec → ToolDelta → StreamConversionState → Emitted
unfolding handle_recorded record_call key_of
handle_tool_delta codec tc s =
    let key = key_of tc s in handle_recorded codec tc key (record_call tc key s)

unfoldable pub handle_tool_deltas : Codec → List ToolDelta → StreamConversionState → Emitted
unfolding handle_tool_delta
handle_tool_deltas codec [] s = ([], s)
handle_tool_deltas codec (tc ∷ tcs) s =
    and_then (handle_tool_delta codec tc s) (handle_tool_deltas codec tcs)

-- A usage report: `prompt_tokens`, `completion_tokens` and the cached tokens, if they are there.
pub record UsageReport : Type 0 where
  pub prompt_tokens : Option ℕ
  pub completion_tokens : Option ℕ
  pub cached_tokens : ℕ

-- `_record_usage`, with `anthropic_usage_from_openai`.
unfoldable pub record_usage : Option UsageReport → TokenUsage → TokenUsage
record_usage none usage = usage
record_usage (some report) (input, output, cached) =
    let read : ℕ × ℕ = elim report.prompt_tokens [
      | none ↦ (input, cached)
      | some prompt ↦ (prompt - report.cached_tokens, report.cached_tokens)
    ] in
    (read.0, get_or report.completion_tokens output, read.1)

-- The first choice of a chunk.
pub record Choice : Type 0 where
  pub reasoning : String
  pub content : String
  pub tool_calls : List ToolDelta
  pub annotations : List Annotation
  pub finish_reason : Option String
  pub matched : Option String
  pub usage : Option UsageReport

pub record Chunk : Type 0 where
  pub usage : Option UsageReport
  pub choice : Option Choice

-- The pieces of a choice's content, by the splitter if there is one.
unfoldable pub split_content :
    String → Option ThinkTagSplitter → Option ThinkTagSplitter × List Piece
unfolding feed
split_content content splitter = if str_eq content "" then (splitter, []) else elim splitter [
  | none ↦ (none, (text, content) ∷ [])
  | some s ↦ let r = feed content s in (some r.0, r.1)
]

unfoldable pub pieces_of : Choice → Option ThinkTagSplitter → Option ThinkTagSplitter × List Piece
unfolding split_content
pieces_of c splitter =
    let r = split_content c.content splitter in
    (r.0, if str_eq c.reasoning "" then r.1 else (thinking, c.reasoning) ∷ r.1)

-- `x or y`, for a value that replaces another one if it is there.
abbrev pub or_kept {ℓ} : {A : Type ℓ} → Option A → Option A → Option A
or_kept none kept = kept
or_kept (some new) kept = some new

-- The end of a chunk: annotations, finish reason and usage.
unfoldable pub conclude_chunk : Choice → StreamConversionState → StreamConversionState
unfolding record_usage
conclude_chunk c s = record s {
  annotations = s.annotations ++ c.annotations;
  finish_reason = or_kept c.finish_reason s.finish_reason;
  matched_stop_sequence =
      if is_some c.finish_reason
      then or_kept c.matched s.matched_stop_sequence
      else s.matched_stop_sequence;
  usage = record_usage c.usage s.usage;
}

unfoldable pub convert_choice : Codec → Choice → StreamConversionState → Emitted
unfolding pieces_of emit_all handle_tool_deltas conclude_chunk
convert_choice codec c s =
    let p = pieces_of c s.think_splitter in
    let r =
      and_then (emit_all p.1 (record s { think_splitter = p.0 }))
        (handle_tool_deltas codec c.tool_calls) in
    (r.0, conclude_chunk c r.1)

-- `choices = chunk_data.get("choices") or []; if not choices: return events`
unfoldable pub convert_choices : Codec → Option Choice → StreamConversionState → Emitted
unfolding convert_choice
convert_choices codec none s = ([], s)
convert_choices codec (some c) s = convert_choice codec c s

unfoldable pub convert_stream_chunk : Codec → Chunk → StreamConversionState → Emitted
unfolding convert_choices record_usage
convert_stream_chunk codec chunk s =
    convert_choices codec chunk.choice (record s { usage = record_usage chunk.usage s.usage })
