-- ===== src/Conversion/Stream/Steps.antt =====
-- Chunks, and the parts of the end, keep the order of the events of the stream converter of
-- app/conversion/anthropic_openai.py.
use llm_proxy_server.Prelude.{
  ℕ, sym, subst, ◌||◌, Option, none, some, List, [], ◌∷◌, Dict, lookup, is_some, str_eq, if_true,
  if_false, arith, Bool-cases, inl, inr, ℕ-Keyed,
}
use llm_proxy_server.Conversion.Ids.{Codec}
use llm_proxy_server.Conversion.Splitter.{ThinkTagSplitter, flush}
use llm_proxy_server.Conversion.Stream.{
  PendingCall, StreamConversionState, Emitted, and_then, index_of, close_block, emit_all,
}
use llm_proxy_server.Conversion.Stream.Chunks.{
  Chunk, Choice, convert_choices, convert_stream_chunk, convert_choice, conclude_chunk, pieces_of,
  record_usage, handle_tool_deltas, open_tool_block, json_delta, call_at, with_args,
}
use llm_proxy_server.Conversion.Stream.End.{
  flush_held, end_live, emit_call, emit_calls, emit_deferred, convert_chunks,
}
use llm_proxy_server.Conversion.Stream.Bracketed.{
  IsOpened, Brackets-none, close_block-closed, close_block-Brackets,
}
use llm_proxy_server.Conversion.Stream.Content.{Opens, Opens-and_then, IsLive, emit_all-Opens}
use llm_proxy_server.Conversion.Stream.Tools.{
  open_tool_block-Opens, json_delta-admit, live_phase, handle_tool_deltas-Opens,
}

pub convert_choice-Opens :
    (codec : Codec) (c : Choice) (s : StreamConversionState)
    → IsOpened s
    → IsLive s
    → Opens s (convert_choice codec c s) × IsLive (convert_choice codec c s).1
unfolding convert_choice conclude_chunk
convert_choice-Opens codec c s h live =
    let p = pieces_of c s.think_splitter in
    let before : StreamConversionState = record s { think_splitter = p.0 } in
    let first = emit_all p.1 before in
    let (opens, keeps) = emit_all-Opens p.1 before h in
    let (rest, rest_live) =
      handle_tool_deltas-Opens codec c.tool_calls first.1 opens.1 (keeps live) in
    let whole =
      Opens-and_then before first (handle_tool_deltas codec c.tool_calls) opens (λ _. rest) in
    ((whole.0, whole.1), rest_live)

pub convert_choices-Opens :
    (codec : Codec) (choice : Option Choice) (s : StreamConversionState)
    → IsOpened s
    → IsLive s
    → Opens s (convert_choices codec choice s) × IsLive (convert_choices codec choice s).1
unfolding convert_choices
convert_choices-Opens codec none s h live = ((Brackets-none s, h), live)
convert_choices-Opens codec (some c) s h live = convert_choice-Opens codec c s h live

pub convert_stream_chunk-Opens :
    (codec : Codec) (chunk : Chunk) (s : StreamConversionState)
    → IsOpened s
    → IsLive s
    → Opens s (convert_stream_chunk codec chunk s) × IsLive (convert_stream_chunk codec chunk s).1
unfolding convert_stream_chunk
convert_stream_chunk-Opens codec chunk s h live =
    convert_choices-Opens codec chunk.choice (record s { usage = record_usage chunk.usage s.usage })
      h live

pub convert_chunks-Opens :
    (codec : Codec) (chunks : List Chunk) (s : StreamConversionState)
    → IsOpened s
    → IsLive s
    → Opens s (convert_chunks codec chunks s)
unfolding convert_chunks
convert_chunks-Opens codec [] s h live = (Brackets-none s, h)
convert_chunks-Opens codec (chunk ∷ chunks) s h live =
    let first = convert_stream_chunk codec chunk s in
    let (opens, still) = convert_stream_chunk-Opens codec chunk s h live in
    Opens-and_then s first (convert_chunks codec chunks) opens
      (λ k. convert_chunks-Opens codec chunks first.1 k still)

pub close_block-Opens : (s : StreamConversionState) → IsOpened s → Opens s (close_block s)
close_block-Opens s h =
    let (shut, _, _) = close_block-closed s in
    (close_block-Brackets s h, λ e. absurd (ground (arith, e, shut)))

pub flush_held-Opens :
    (o : Option ThinkTagSplitter) (s : StreamConversionState)
    → IsOpened s
    → Opens s (flush_held o s)
unfolding flush_held
flush_held-Opens none s h = (Brackets-none s, h)
flush_held-Opens (some splitter) s h =
    let r = flush splitter in (emit_all-Opens r.1 (record s { think_splitter = some r.0 }) h).0

pub end_live-Opens : (s : StreamConversionState) → IsOpened s → Opens s (end_live s)
unfolding end_live
end_live-Opens s h = elim (Bool-cases (is_some s.live_tool_index)) [
  | inl e ↦
      subst (Opens s) (sym (if_true (is_some s.live_tool_index) _ _ e)) (close_block-Opens s h)
  | inr e ↦ subst (Opens s) (sym (if_false (is_some s.live_tool_index) _ _ e)) (Brackets-none s, h)
]

-- A call that is emitted whole.
abbrev pub whole_call : Codec → ℕ → StreamConversionState → Emitted
whole_call codec key s =
    let args = (call_at s key).buffered_args in
    and_then (open_tool_block codec key s)
      (λ t. and_then (json_delta (index_of t) args, with_args key "" t) close_block)

pub whole_call-Opens :
    (codec : Codec) (key : ℕ) (s : StreamConversionState)
    → IsOpened s
    → Opens s (whole_call codec key s)
unfolding whole_call with_args
whole_call-Opens codec key s h =
    let r = open_tool_block codec key s in
    let args = (call_at s key).buffered_args in
    let (opens, live) = open_tool_block-Opens codec key s h in
    Opens-and_then s r
      (λ t. and_then (json_delta (index_of t) args, with_args key "" t) close_block) opens
      (λ k.
        Opens-and_then r.1 (json_delta (index_of r.1) args, with_args key "" r.1) close_block
          (json_delta-admit r.1 args (live_phase r.1 key live), k)
          (λ m. close_block-Opens (with_args key "" r.1) m))

pub emit_call-Opens :
    (codec : Codec) (key : ℕ) (s : StreamConversionState)
    → IsOpened s
    → Opens s (emit_call codec key s)
unfolding emit_call whole_call
emit_call-Opens codec key s h =
    let done = is_some (lookup key s.tool_call_indices) || str_eq (call_at s key).name "" in
    elim (Bool-cases done) [
      | inl e ↦ subst (Opens s) (sym (if_true done _ _ e)) (Brackets-none s, h)
      | inr e ↦ subst (Opens s) (sym (if_false done _ _ e)) (whole_call-Opens codec key s h)
    ]

pub emit_calls-Opens :
    (codec : Codec) (calls : Dict ℕ PendingCall) (s : StreamConversionState)
    → IsOpened s
    → Opens s (emit_calls codec calls s)
unfolding emit_calls
emit_calls-Opens codec [] s h = (Brackets-none s, h)
emit_calls-Opens codec ((key, call) ∷ calls) s h =
    Opens-and_then s (emit_call codec key s) (emit_calls codec calls)
      (emit_call-Opens codec key s h)
      (λ k. emit_calls-Opens codec calls (emit_call codec key s).1 k)

pub emit_deferred-Opens : (s : StreamConversionState) → IsOpened s → Opens s (emit_deferred s)
unfolding emit_deferred
emit_deferred-Opens s h =
    (emit_all-Opens s.deferred_content (record s { deferred_content = [] }) h).0
