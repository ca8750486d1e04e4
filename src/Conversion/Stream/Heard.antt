-- ===== src/Conversion/Stream/Heard.antt =====
-- Whole streams say what goes in: no text and no thinking of the upstream is lost, repeated or put in
-- another order, whatever tool calls come between.
use llm_proxy_server.Prelude.{
  ℕ, ◌≡◌, refl, sym, ap, ap₂, ◌∙◌, subst, ◌||◌, Option, none, some, List, [], ◌∷◌, ◌++◌, Dict,
  lookup, is_some, str_eq, if_true, if_false, arith, Bool-cases, inl, inr, text_append,
  text_append_nil, text_append_assoc, ℕ-Keyed,
}
use llm_proxy_server.Conversion.Ids.{Codec, ToolNameMap}
use llm_proxy_server.Conversion.Splitter.{PieceKind, Piece, ThinkTagSplitter, flush}
use llm_proxy_server.Conversion.Stream.{
  message_delta, message_stop, PendingCall, StreamConversionState, Emitted, and_then, index_of,
  close_block, emit_all,
}
use llm_proxy_server.Conversion.Stream.Chunks.{
  Chunk, open_tool_block, json_delta, call_at, with_args,
}
use llm_proxy_server.Conversion.Stream.End.{
  flush_held, flush_splitter, end_live, emit_call, emit_calls, emit_deferred, emit_empty, close_out,
  end_deferred, end_calls, end_open, end_blocks, stop_of, convert_stream_end, new_stream_state,
  convert_chunks, convert_stream,
}
use llm_proxy_server.Conversion.Stream.Bracketed.{close_block-closed}
use llm_proxy_server.Conversion.Stream.Content.{not_some}
use llm_proxy_server.Conversion.Stream.Said.{IsOrdered, emit_all-IsSaid}
use llm_proxy_server.Conversion.Stream.Quiet.{
  said, heard, heard-append, heard_silent, close_block-IsQuiet,
}
use llm_proxy_server.Conversion.Stream.ToolSteps.{json_silent, open_tool_block-IsQuiet}
use llm_proxy_server.Conversion.Stream.Fed.{fed, convert_chunks-Tells}

-- What the splitter still holds at the end.
unfoldable pub held_pieces : Option ThinkTagSplitter → List Piece
unfolding flush
held_pieces none = []
held_pieces (some splitter) = (flush splitter).1

flush_held-says :
    (kind : PieceKind) (o : Option ThinkTagSplitter) (s : StreamConversionState)
    → IsOrdered s
    → text_append (heard kind (flush_held o s).0) (said kind (flush_held o s).1.deferred_content)
      ≡ text_append (said kind s.deferred_content) (said kind (held_pieces o))
unfolding flush_held held_pieces heard said text_append
flush_held-says kind none s h = sym (text_append_nil (said kind s.deferred_content))
flush_held-says kind (some splitter) s h =
    let r = flush splitter in
    (emit_all-IsSaid kind r.1 (record s { think_splitter = some r.0 }) h).says

-- A silent step while no call is live.
record IsFree (kind : PieceKind) (s : StreamConversionState) (r : Emitted) : Type 0 where
  silent : heard kind r.0 ≡ ""
  deferred : r.1.deferred_content ≡ s.deferred_content
  free : r.1.live_tool_index ≡ none

IsFree-and_then :
    (kind : PieceKind) (s : StreamConversionState) (r : Emitted)
    (f : StreamConversionState → Emitted)
    → IsFree kind s r
    → IsFree kind r.1 (f r.1)
    → IsFree kind s (and_then r f)
IsFree-and_then kind s r f h k = record {
  silent = heard_silent kind r.0 (f r.1).0 h.silent k.silent;
  deferred = k.deferred ∙ h.deferred;
  free = k.free;
}

IsFree-none :
    (kind : PieceKind) (s : StreamConversionState)
    → s.live_tool_index ≡ none
    → IsFree kind s ([], s)
unfolding heard
IsFree-none kind s e = record { silent = refl; deferred = refl; free = e }

end_live-IsFree : (kind : PieceKind) (s : StreamConversionState) → IsFree kind s (end_live s)
unfolding end_live
end_live-IsFree kind s = elim (Bool-cases (is_some s.live_tool_index)) [
  | inl e ↦ subst (IsFree kind s) (sym (if_true (is_some s.live_tool_index) _ _ e)) (
      let q = close_block-IsQuiet kind s in
      record { silent = q.silent; deferred = q.deferred; free = refl })
  | inr e ↦
      subst (IsFree kind s) (sym (if_false (is_some s.live_tool_index) _ _ e))
        (IsFree-none kind s (not_some s.live_tool_index e))
]

close_block-IsFree :
    (kind : PieceKind) (s : StreamConversionState)
    → s.live_tool_index ≡ none
    → IsFree kind s (close_block s)
close_block-IsFree kind s e =
    let q = close_block-IsQuiet kind s in
    let (_, _, live) = close_block-closed s in
    record { silent = q.silent; deferred = q.deferred; free = live ∙ e }

emit_call-IsFree :
    (kind : PieceKind) (codec : Codec) (key : ℕ) (s : StreamConversionState)
    → s.live_tool_index ≡ none
    → IsFree kind s (emit_call codec key s)
unfolding emit_call with_args
emit_call-IsFree kind codec key s e =
    let done = is_some (lookup key s.tool_call_indices) || str_eq (call_at s key).name "" in
    let args = (call_at s key).buffered_args in
    let r = open_tool_block codec key s in
    let (q, live) = open_tool_block-IsQuiet kind codec key s in
    let fill : StreamConversionState → Emitted =
      λ t. and_then (json_delta (index_of t) args, with_args key "" t) close_block in
    elim (Bool-cases done) [
      | inl d ↦ subst (IsFree kind s) (sym (if_true done _ _ d)) (IsFree-none kind s e)
      | inr d ↦ subst (IsFree kind s) (sym (if_false done _ _ d)) (
          IsFree-and_then kind s r fill
            (record { silent = q.silent; deferred = q.deferred; free = live ∙ e })
            (IsFree-and_then kind r.1 (json_delta (index_of r.1) args, with_args key "" r.1)
              close_block
              (record {
                silent = json_silent kind (index_of r.1) args;
                deferred = refl;
                free = live ∙ e;
              })
              (close_block-IsFree kind (with_args key "" r.1) (live ∙ e))))
    ]

emit_calls-IsFree :
    (kind : PieceKind) (codec : Codec) (calls : Dict ℕ PendingCall) (s : StreamConversionState)
    → s.live_tool_index ≡ none
    → IsFree kind s (emit_calls codec calls s)
unfolding emit_calls
emit_calls-IsFree kind codec [] s e = IsFree-none kind s e
emit_calls-IsFree kind codec ((key, call) ∷ calls) s e =
    let first = emit_call-IsFree kind codec key s e in
    IsFree-and_then kind s (emit_call codec key s) (emit_calls codec calls) first
      (emit_calls-IsFree kind codec calls (emit_call codec key s).1 first.free)

emit_empty_silent :
    (kind : PieceKind) (s : StreamConversionState) → heard kind (emit_empty s).0 ≡ ""
unfolding emit_empty heard text_append
emit_empty_silent kind s = ground arith

close_out_silent : (kind : PieceKind) (s : StreamConversionState) → heard kind (close_out s).0 ≡ ""
unfolding close_out
close_out_silent kind s =
    heard_silent kind (close_block s).0 (emit_empty (close_block s).1).0
      (close_block-IsQuiet kind s).silent (emit_empty_silent kind (close_block s).1)

end_deferred-heard :
    (kind : PieceKind) (s : StreamConversionState)
    → s.live_tool_index ≡ none
    → heard kind (end_deferred s).0 ≡ said kind s.deferred_content
unfolding end_deferred emit_deferred said text_append
end_deferred-heard kind s e =
    let before : StreamConversionState = record s { deferred_content = [] } in
    let told = emit_all-IsSaid kind s.deferred_content before (λ _. refl) in
    let r = emit_all s.deferred_content before in
    let left : r.1.deferred_content ≡ [] = told.ordered (ap is_some (told.live ∙ e)) in
    heard-append kind r.0 (close_out r.1).0
    ∙ ap (λ t. text_append (heard kind r.0) t)
        (close_out_silent kind r.1 ∙ ap (said kind) (sym left))
    ∙ told.says

end_open-heard :
    (kind : PieceKind) (codec : Codec) (s : StreamConversionState)
    → heard kind (end_open codec s).0 ≡ said kind s.deferred_content
unfolding end_open end_calls text_append
end_open-heard kind codec s =
    let a = end_live s in
    let a_free = end_live-IsFree kind s in
    let b = emit_calls codec a.1.pending_tool_calls a.1 in
    let b_free = emit_calls-IsFree kind codec a.1.pending_tool_calls a.1 a_free.free in
    heard-append kind a.0 (b.0 ++ (end_deferred b.1).0)
    ∙ ap₂ text_append a_free.silent (
        heard-append kind b.0 (end_deferred b.1).0
        ∙ ap₂ text_append b_free.silent (end_deferred-heard kind b.1 b_free.free))
    ∙ ap (said kind) (b_free.deferred ∙ a_free.deferred)

convert_stream_end-heard :
    (kind : PieceKind) (codec : Codec) (s : StreamConversionState)
    → IsOrdered s
    → heard kind (convert_stream_end codec s).0
      ≡ text_append (said kind s.deferred_content) (said kind (held_pieces s.think_splitter))
unfolding convert_stream_end end_blocks flush_splitter heard text_append
convert_stream_end-heard kind codec s h =
    let a = flush_held s.think_splitter s in
    let r = end_blocks codec s in
    let stop = stop_of r.1 in
    heard-append kind r.0 (message_delta stop.0 stop.1 r.1.usage ∷ message_stop ∷ [])
    ∙ text_append_nil (heard kind r.0)
    ∙ heard-append kind a.0 (end_open codec a.1).0
    ∙ ap (λ t. text_append (heard kind a.0) t) (end_open-heard kind codec a.1)
    ∙ flush_held-says kind s.think_splitter s h

-- Whatever the chunks, the text deltas of the converted stream are, one after another, the text that
-- the chunks feed and the splitter holds at the end, and the thinking deltas are the thinking:
-- nothing is lost, repeated or reordered, even what is deferred behind a tool call. A chunk feeds its
-- reasoning as thinking, and then its content, as text or as what the splitter makes of it.
pub convert_stream-heard :
    (kind : PieceKind) (codec : Codec) (chunks : List Chunk) (names : ToolNameMap)
    (splitter : Option ThinkTagSplitter) (input_tokens : ℕ)
    → heard kind (convert_stream codec chunks (new_stream_state names splitter input_tokens)).0
      ≡ text_append
          (said kind (fed chunks splitter).1)
          (said kind (held_pieces (fed chunks splitter).0))
unfolding convert_stream new_stream_state said text_append
convert_stream-heard kind codec chunks names splitter input_tokens =
    let s = new_stream_state names splitter input_tokens in
    let told = convert_chunks-Tells kind codec chunks s (λ _. refl) in
    let r = convert_chunks codec chunks s in
    heard-append kind r.0 (convert_stream_end codec r.1).0
    ∙ ap (λ t. text_append (heard kind r.0) t)
        (convert_stream_end-heard kind codec r.1 told.ordered)
    ∙ sym (
        text_append_assoc (heard kind r.0) (said kind r.1.deferred_content)
          (said kind (held_pieces r.1.think_splitter)))
    ∙ ap₂ text_append told.says (ap (λ o. said kind (held_pieces o)) told.split)
