-- ===== src/Conversion/Stream/Tools.antt =====
-- Tool calls keep the order of the events of the stream converter: the first opens live and takes its
-- arguments as they come, the others are buffered.
use llm_proxy_server.Prelude.{
  ℕ, ◌≡◌, refl, ap, ◌∙◌, subst, true, false, some, List, [], ◌∷◌, ◌++◌, String, lookup,
  lookup-insert, is_some, get_or, str_eq, if_true, if_false, arith, Bool-cases, inl, inr,
  text_append, ℕ-Keyed,
}
use llm_proxy_server.Conversion.Ids.{Codec, tool_id_with_signature, to_anthropic}
use llm_proxy_server.Conversion.Stream.{
  tool_use_block, tool_use_start, input_json_delta, StreamConversionState, index_of, open_block,
}
use llm_proxy_server.Conversion.Stream.Chunks.{
  ToolDelta, open_tool_block, call_at, json_delta, key_of, record_call, with_args, is_live,
  should_open, open_live, handle_recorded, handle_tool_delta, handle_tool_deltas,
}
use llm_proxy_server.Conversion.Stream.Protocol.{
  inside, admit_events, admit_events-append, admit_deltas,
}
use llm_proxy_server.Conversion.Stream.Bracketed.{
  phase_of, IsOpened, Brackets-none, open_block-Brackets,
}
use llm_proxy_server.Conversion.Stream.Content.{
  Opens, Opens-and_then, IsLiveAt, IsLive, open_block-IsOpened,
}

-- Arguments for the tool block that is open.
pub json_delta-admit :
    (s : StreamConversionState) (args : String)
    → phase_of s ≡ inside (index_of s) tool_use_block
    → admit_events (phase_of s) (json_delta (index_of s) args) ≡ some (phase_of s)
unfolding admit_events
json_delta-admit s args e = elim (Bool-cases (str_eq args "")) [
  | inl z ↦ rw (z) refl
  | inr z ↦
      rw (z, e) (admit_deltas (index_of s) tool_use_block (input_json_delta args ∷ []) (refl, tt))
]

pub live_phase :
    (s : StreamConversionState) (key : ℕ)
    → IsLiveAt s key
    → phase_of s ≡ inside (index_of s) tool_use_block
live_phase s key (opened, tool, _) =
    if_true s.block_open _ _ opened ∙ ap (λ t. inside (index_of s) t) tool

-- A tool block that opens is the next block, and its index is on record.
pub open_tool_block-Opens :
    (codec : Codec) (key : ℕ) (s : StreamConversionState)
    → IsOpened s
    → let r = open_tool_block codec key s in Opens s r × IsLiveAt r.1 key
unfolding open_tool_block open_block
open_tool_block-Opens codec key s h =
    let call = call_at s key in
    let block =
      tool_use_start (tool_id_with_signature codec call.id call.signature)
        (to_anthropic s.tool_names call.name) in
    let before : StreamConversionState = record s { had_tool_use = true } in
    let t = (open_block tool_use_block block before).1 in
    (
      (
        open_block-Brackets tool_use_block block before h refl,
        open_block-IsOpened tool_use_block block before,
      ),
      (refl, refl, ground (arith, lookup-insert key key (index_of t) t.tool_call_indices)),
    )

is_live-true :
    (key : ℕ) (s : StreamConversionState) → is_live key s ≡ true → s.live_tool_index ≡ some key
is_live-true key s e = ground (arith, e)

should_open_free :
    (tc : ToolDelta) (key : ℕ) (s : StreamConversionState)
    → should_open tc key s ≡ true
    → is_some s.live_tool_index ≡ false
unfolding should_open
should_open_free tc key s e = ground (arith, e)

open_live-Opens :
    (codec : Codec) (tc : ToolDelta) (key : ℕ) (s : StreamConversionState)
    → IsOpened s
    → Opens s (open_live codec tc key s) × IsLive (open_live codec tc key s).1
unfolding open_live with_args
open_live-Opens codec tc key s h =
    let (opens, live) = open_tool_block-Opens codec key s h in
    let r = open_tool_block codec key s in
    let phase = live_phase r.1 key live in
    let args = (call_at s key).buffered_args in
    (
      (
        admit_events-append (phase_of s) (phase_of r.1) r.0
              (json_delta (index_of r.1) args ++ json_delta (index_of r.1) tc.arguments) opens.0
            ∙ admit_events-append (phase_of r.1) (phase_of r.1) (json_delta (index_of r.1) args)
                (json_delta (index_of r.1) tc.arguments) (json_delta-admit r.1 args phase)
            ∙ json_delta-admit r.1 tc.arguments phase,
        opens.1,
      ),
      λ other l.
          let same : key ≡ other = ground (arith, l) in
          subst (IsLiveAt (open_live codec tc key s).1) same live,
    )

pub handle_live :
    (codec : Codec) (tc : ToolDelta) (key : ℕ) (s : StreamConversionState)
    → is_live key s ≡ true
    → handle_recorded codec tc key s
      ≡ (json_delta (get_or (lookup key s.tool_call_indices) 0) tc.arguments, s)
unfolding handle_recorded
handle_live codec tc key s e = if_true (is_live key s) _ _ e

pub handle_open :
    (codec : Codec) (tc : ToolDelta) (key : ℕ) (s : StreamConversionState)
    → is_live key s ≡ false
    → should_open tc key s ≡ true
    → handle_recorded codec tc key s ≡ open_live codec tc key s
unfolding handle_recorded
handle_open codec tc key s e o =
    if_false (is_live key s) _ _ e ∙ if_true (should_open tc key s) _ _ o

pub handle_buffer :
    (codec : Codec) (tc : ToolDelta) (key : ℕ) (s : StreamConversionState)
    → is_live key s ≡ false
    → should_open tc key s ≡ false
    → handle_recorded codec tc key s
      ≡ ([], with_args key (text_append (call_at s key).buffered_args tc.arguments) s)
unfolding handle_recorded
handle_buffer codec tc key s e o =
    if_false (is_live key s) _ _ e ∙ if_false (should_open tc key s) _ _ o

pub handle_recorded-Opens :
    (codec : Codec) (tc : ToolDelta) (key : ℕ) (s : StreamConversionState)
    → IsOpened s
    → IsLive s
    → Opens s (handle_recorded codec tc key s) × IsLive (handle_recorded codec tc key s).1
unfolding with_args
handle_recorded-Opens codec tc key s h live = elim (Bool-cases (is_live key s)) [
  | inl e ↦ rw (handle_live codec tc key s e) (
      let held = live key (is_live-true key s e) in
      let (_, _, at_index) = held in
      let index : get_or (lookup key s.tool_call_indices) 0 ≡ index_of s =
        ap (λ o. get_or o 0) at_index in
      (
        (
          ap (λ n. admit_events (phase_of s) (json_delta n tc.arguments)) index
              ∙ json_delta-admit s tc.arguments (live_phase s key held),
          h,
        ),
        live,
      ))
  | inr e ↦ elim (Bool-cases (should_open tc key s)) [
    | inl o ↦ rw (handle_open codec tc key s e o) (open_live-Opens codec tc key s h)
    | inr o ↦ rw (handle_buffer codec tc key s e o) ((Brackets-none s, h), live)
  ]
]

pub handle_tool_delta-Opens :
    (codec : Codec) (tc : ToolDelta) (s : StreamConversionState)
    → IsOpened s
    → IsLive s
    → Opens s (handle_tool_delta codec tc s) × IsLive (handle_tool_delta codec tc s).1
unfolding handle_tool_delta record_call
handle_tool_delta-Opens codec tc s h live =
    handle_recorded-Opens codec tc (key_of tc s) (record_call tc (key_of tc s) s) h live

pub handle_tool_deltas-Opens :
    (codec : Codec) (tcs : List ToolDelta) (s : StreamConversionState)
    → IsOpened s
    → IsLive s
    → Opens s (handle_tool_deltas codec tcs s) × IsLive (handle_tool_deltas codec tcs s).1
unfolding handle_tool_deltas
handle_tool_deltas-Opens codec [] s h live = ((Brackets-none s, h), live)
handle_tool_deltas-Opens codec (tc ∷ tcs) s h live =
    let first = handle_tool_delta codec tc s in
    let (opens, still) = handle_tool_delta-Opens codec tc s h live in
    let (rest, rest_live) = handle_tool_deltas-Opens codec tcs first.1 opens.1 still in
    (Opens-and_then s first (handle_tool_deltas codec tcs) opens (λ _. rest), rest_live)
