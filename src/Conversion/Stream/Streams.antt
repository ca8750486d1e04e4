-- ===== src/Conversion/Stream/Streams.antt =====
-- Whole streams: chunks, and the end.
use llm_proxy_server.Prelude.{
  ℕ, suc, ◌≡◌, refl, sym, ap, ◌∙◌, subst, true, false, Option, some, List, [], ◌∷◌, String, is_some,
  if_true, if_false, arith, Option-cases, Bool-cases, inl, inr, ℕ-Keyed,
}
use llm_proxy_server.Conversion.Ids.{Codec, ToolNameMap}
use llm_proxy_server.Conversion.Splitter.{ThinkTagSplitter}
use llm_proxy_server.Conversion.Stream.{
  text_start, TokenUsage, content_block_start, content_block_stop, message_delta, message_stop,
  StreamConversionState, Emitted, and_then, next_index, close_block,
}
use llm_proxy_server.Conversion.Stream.Chunks.{Chunk}
use llm_proxy_server.Conversion.Stream.End.{
  flush_splitter, end_live, emit_calls, emit_deferred, emit_empty, close_out, end_deferred,
  end_calls, end_open, end_blocks, stop_of, convert_stream_end, new_stream_state, convert_chunks,
  convert_stream,
}
use llm_proxy_server.Conversion.Stream.Protocol.{
  between, ended, admit_event, admit_events, admit_events-append,
}
use llm_proxy_server.Conversion.Stream.Bracketed.{
  phase_of, Brackets, IsOpened, Brackets-and_then, Brackets-none, close_block-closed,
  phase_when_shut,
}
use llm_proxy_server.Conversion.Stream.Content.{Opens, IsLive-none}
use llm_proxy_server.Conversion.Stream.Steps.{
  convert_chunks-Opens, close_block-Opens, flush_held-Opens, end_live-Opens, emit_calls-Opens,
  emit_deferred-Opens,
}

-- Behind the last step no block is open and at least one was.
abbrev IsDone : StreamConversionState → Type 0
IsDone s = (s.block_open ≡ false) × (is_some s.content_block_index ≡ true)

-- A step that ends the blocks.
abbrev Ends : StreamConversionState → Emitted → Type 0
Ends s r = Brackets s r × IsDone r.1

Ends-and_then :
    (s : StreamConversionState) (r : Emitted) (f : StreamConversionState → Emitted)
    → Opens s r
    → Ends r.1 (f r.1)
    → Ends s (and_then r f)
Ends-and_then s r f h k = (Brackets-and_then s r f h.0 k.0, k.1)

admit_empty :
    admit_events (between 0) (content_block_start 0 text_start ∷ content_block_stop 0 ∷ [])
    ≡ some (between 1)
unfolding admit_events admit_event
admit_empty = refl

emit_empty-Ends : (s : StreamConversionState) → s.block_open ≡ false → Ends s (emit_empty s)
unfolding emit_empty
emit_empty-Ends s shut = elim (Bool-cases (is_some s.content_block_index)) [
  | inl e ↦
      subst (Ends s) (sym (if_true (is_some s.content_block_index) _ _ e))
        (Brackets-none s, (shut, e))
  | inr e ↦ subst (Ends s) (sym (if_false (is_some s.content_block_index) _ _ e)) (
      let first : next_index s.content_block_index ≡ 0 = ground (arith, e) in
      let last : StreamConversionState = record s { content_block_index = some 0 } in
      let events = content_block_start 0 text_start ∷ content_block_stop 0 ∷ [] in
      (
        ap (λ p. admit_events p events) (phase_when_shut s shut ∙ ap (λ n. between n) first)
            ∙ admit_empty
            ∙ ap (λ p. some p) (sym (phase_when_shut last shut)),
        (shut, refl),
      ))
]

close_out-Ends : (s : StreamConversionState) → IsOpened s → Ends s (close_out s)
unfolding close_out
close_out-Ends s h =
    let (shut, _, _) = close_block-closed s in
    Ends-and_then s (close_block s) emit_empty (close_block-Opens s h)
      (emit_empty-Ends (close_block s).1 shut)

end_deferred-Ends : (s : StreamConversionState) → IsOpened s → Ends s (end_deferred s)
unfolding end_deferred
end_deferred-Ends s h =
    let opens = emit_deferred-Opens s h in
    Ends-and_then s (emit_deferred s) close_out opens (close_out-Ends (emit_deferred s).1 opens.1)

end_calls-Ends :
    (codec : Codec) (s : StreamConversionState) → IsOpened s → Ends s (end_calls codec s)
unfolding end_calls
end_calls-Ends codec s h =
    let opens = emit_calls-Opens codec s.pending_tool_calls s h in
    let r = emit_calls codec s.pending_tool_calls s in
    Ends-and_then s r end_deferred opens (end_deferred-Ends r.1 opens.1)

end_open-Ends : (codec : Codec) (s : StreamConversionState) → IsOpened s → Ends s (end_open codec s)
unfolding end_open
end_open-Ends codec s h =
    let opens = end_live-Opens s h in
    Ends-and_then s (end_live s) (end_calls codec) opens
      (end_calls-Ends codec (end_live s).1 opens.1)

end_blocks-Ends :
    (codec : Codec) (s : StreamConversionState) → IsOpened s → Ends s (end_blocks codec s)
unfolding end_blocks flush_splitter
end_blocks-Ends codec s h =
    let opens = flush_held-Opens s.think_splitter s h in
    Ends-and_then s (flush_splitter s) (end_open codec) opens
      (end_open-Ends codec (flush_splitter s).1 opens.1)

-- Behind the blocks, at least one of them, the stop reason and the end are admitted.
admit_end :
    (s : StreamConversionState) (reason : String) (sequence : Option String) (usage : TokenUsage)
    → IsDone s
    → admit_events (phase_of s) (message_delta reason sequence usage ∷ message_stop ∷ [])
      ≡ some ended
unfolding admit_events admit_event
admit_end s reason sequence usage (shut, e) = elim (Option-cases s.content_block_index) [
  | inl o ↦ absurd (ground (arith, e, o))
  | inr (n, o) ↦
      let phase : phase_of s ≡ between (suc n) =
        phase_when_shut s shut ∙ ap (λ i. between (next_index i)) o in
      rw phase refl
]

convert_stream_end-admitted :
    (codec : Codec) (s : StreamConversionState)
    → IsOpened s
    → admit_events (phase_of s) (convert_stream_end codec s).0 ≡ some ended
unfolding convert_stream_end
convert_stream_end-admitted codec s h =
    let r = end_blocks codec s in
    let stop = stop_of r.1 in
    let (blocks, done) = end_blocks-Ends codec s h in
    admit_events-append (phase_of s) (phase_of r.1) r.0
      (message_delta stop.0 stop.1 r.1.usage ∷ message_stop ∷ []) blocks
    ∙ admit_end r.1 stop.0 stop.1 r.1.usage done

-- Whatever the upstream sends, the events of a converted stream are an Anthropic message: blocks with
-- the indices 0, 1, 2, ... one after another, at least one, each delta inside a block of its type, and
-- then the stop reason and the end.
pub convert_stream-admitted :
    (codec : Codec) (chunks : List Chunk) (names : ToolNameMap) (splitter : Option ThinkTagSplitter)
    (input_tokens : ℕ)
    → admit_events
        (between 0)
        (convert_stream codec chunks (new_stream_state names splitter input_tokens)).0
      ≡ some ended
unfolding convert_stream new_stream_state
convert_stream-admitted codec chunks names splitter input_tokens =
    let s = new_stream_state names splitter input_tokens in
    let r = convert_chunks codec chunks s in
    let opens =
      convert_chunks-Opens codec chunks s (λ e. absurd (ground (arith, e))) (IsLive-none s refl) in
    admit_events-append (between 0) (phase_of r.1) r.0 (convert_stream_end codec r.1).0 opens.0
    ∙ convert_stream_end-admitted codec r.1 opens.1
