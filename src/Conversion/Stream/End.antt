-- ===== src/Conversion/Stream/End.antt =====
-- `convert_stream_end` of app/conversion/anthropic_openai.py, and whole streams.
use llm_proxy_server.Prelude.{
  ℕ, Bool, false, not, ◌&&◌, ◌||◌, Option, none, some, List, [], ◌∷◌, ◌++◌, String, Dict, lookup,
  is_some, get_or, str_eq, if◌then◌else◌, ℕ-Keyed,
}
use llm_proxy_server.Conversion.Ids.{Codec, ToolNameMap}
use llm_proxy_server.Conversion.Splitter.{ThinkTagSplitter, flush}
use llm_proxy_server.Conversion.Stream.{
  text_block, text_start, content_block_start, content_block_stop, message_delta, message_stop,
  PendingCall, StreamConversionState, Emitted, and_then, index_of, close_block, emit_all,
}
use llm_proxy_server.Conversion.Stream.Chunks.{
  Chunk, convert_stream_chunk, open_tool_block, json_delta, call_at, with_args,
}

-- What the splitter held.
unfoldable pub flush_held : Option ThinkTagSplitter → StreamConversionState → Emitted
unfolding flush emit_all
flush_held none s = ([], s)
flush_held (some splitter) s =
    let r = flush splitter in emit_all r.1 (record s { think_splitter = some r.0 })

unfoldable pub flush_splitter : StreamConversionState → Emitted
unfolding flush_held
flush_splitter s = flush_held s.think_splitter s

-- The live tool block is closed.
unfoldable pub end_live : StreamConversionState → Emitted
unfolding close_block
end_live s =
    if is_some s.live_tool_index
    then (let r = close_block s in (r.0, record r.1 { live_tool_index = none }))
    else ([], s)

-- A call whose block was not opened and that has a name is emitted whole.
unfoldable pub emit_call : Codec → ℕ → StreamConversionState → Emitted
unfolding open_tool_block close_block lookup with_args call_at
emit_call codec key s =
    if is_some (lookup key s.tool_call_indices) || str_eq (call_at s key).name ""
    then ([], s)
    else let args = (call_at s key).buffered_args in
      and_then (open_tool_block codec key s)
        (λ t. and_then (json_delta (index_of t) args, with_args key "" t) close_block)

unfoldable pub emit_calls : Codec → Dict ℕ PendingCall → StreamConversionState → Emitted
unfolding emit_call
emit_calls codec [] s = ([], s)
emit_calls codec ((key, _) ∷ calls) s = and_then (emit_call codec key s) (emit_calls codec calls)

unfoldable pub emit_deferred : StreamConversionState → Emitted
unfolding emit_all
emit_deferred s = emit_all s.deferred_content (record s { deferred_content = [] })

-- An empty text block, if no block was ever opened.
unfoldable pub emit_empty : StreamConversionState → Emitted
emit_empty s = if is_some s.content_block_index then ([], s) else (
  content_block_start 0 text_start ∷ content_block_stop 0 ∷ [],
  record s { content_block_index = some 0 },
)

-- The blocks of `convert_stream_end`, from its last part to the whole.
unfoldable pub close_out : StreamConversionState → Emitted
unfolding close_block emit_empty
close_out s = and_then (close_block s) emit_empty

unfoldable pub end_deferred : StreamConversionState → Emitted
unfolding emit_deferred close_out
end_deferred s = and_then (emit_deferred s) close_out

unfoldable pub end_calls : Codec → StreamConversionState → Emitted
unfolding emit_calls end_deferred
end_calls codec s = and_then (emit_calls codec s.pending_tool_calls s) end_deferred

unfoldable pub end_open : Codec → StreamConversionState → Emitted
unfolding end_live end_calls
end_open codec s = and_then (end_live s) (end_calls codec)

unfoldable pub end_blocks : Codec → StreamConversionState → Emitted
unfolding flush_splitter end_open
end_blocks codec s = and_then (flush_splitter s) (end_open codec)

-- `STOP_REASON_MAP.get(reason, "end_turn")`
unfoldable pub mapped_reason : String → String
mapped_reason reason =
    if str_eq reason "length"
    then "max_tokens"
    else if str_eq reason "tool_calls" || str_eq reason "function_call"
    then "tool_use"
    else if str_eq reason "content_filter" || str_eq reason "refusal"
    then "refusal"
    else "end_turn"

unfoldable pub final_stop_reason : Option String → Bool → String
unfolding mapped_reason
final_stop_reason finish_reason has_tool_use =
    let reason = mapped_reason (get_or finish_reason "stop") in
    if has_tool_use && not (str_eq reason "max_tokens" || str_eq reason "refusal")
    then "tool_use"
    else reason

-- The stop reason and the stop sequence.
unfoldable pub stop_of : StreamConversionState → String × Option String
unfolding final_stop_reason
stop_of s =
    let reason = final_stop_reason s.finish_reason s.had_tool_use in
    if str_eq reason "end_turn" && is_some s.matched_stop_sequence
    then ("stop_sequence", s.matched_stop_sequence)
    else (reason, none)

unfoldable pub convert_stream_end : Codec → StreamConversionState → Emitted
unfolding end_blocks stop_of
convert_stream_end codec s =
    let r = end_blocks codec s in
    let stop = stop_of r.1 in
    (r.0 ++ message_delta stop.0 stop.1 r.1.usage ∷ message_stop ∷ [], r.1)

unfoldable pub new_stream_state : ToolNameMap → Option ThinkTagSplitter → ℕ → StreamConversionState
new_stream_state names splitter input_tokens = record {
  content_block_index = none;
  current_block_type = text_block;
  block_open = false;
  tool_call_indices = [];
  pending_tool_calls = [];
  tool_call_ids = [];
  tool_call_keys = [];
  live_tool_index = none;
  deferred_content = [];
  finish_reason = none;
  usage = (input_tokens, 0, 0);
  had_tool_use = false;
  tool_names = names;
  matched_stop_sequence = none;
  think_splitter = splitter;
  full_text = "";
  annotations = [];
  citations_emitted = false;
}

unfoldable pub convert_chunks : Codec → List Chunk → StreamConversionState → Emitted
unfolding convert_stream_chunk
convert_chunks codec [] s = ([], s)
convert_chunks codec (chunk ∷ chunks) s =
    and_then (convert_stream_chunk codec chunk s) (convert_chunks codec chunks)

-- A whole stream.
unfoldable pub convert_stream : Codec → List Chunk → StreamConversionState → Emitted
unfolding convert_chunks convert_stream_end
convert_stream codec chunks s = and_then (convert_chunks codec chunks s) (convert_stream_end codec)
