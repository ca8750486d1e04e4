-- ===== src/Conversion/Stream/ToolSteps.antt =====
-- Tool calls of app/conversion/anthropic_openai.py say no text and no thinking.
use llm_proxy_server.Prelude.{
  ℕ, ◌≡◌, refl, ◌∙◌, true, false, List, [], ◌∷◌, ◌++◌, String, lookup, is_some, get_or, str_eq,
  arith, Bool-cases, inl, inr, text_append, ℕ-Keyed,
}
use llm_proxy_server.Conversion.Ids.{Codec, tool_id_with_signature, to_anthropic}
use llm_proxy_server.Conversion.Splitter.{PieceKind, thinking, text}
use llm_proxy_server.Conversion.Stream.{
  tool_use_block, tool_use_start, content_block_delta, input_json_delta, StreamConversionState,
  Emitted, index_of,
}
use llm_proxy_server.Conversion.Stream.Chunks.{
  ToolDelta, handle_recorded, handle_tool_delta, handle_tool_deltas, open_tool_block, json_delta,
  call_at, with_args, is_live, should_open, open_live, record_call, key_of,
}
use llm_proxy_server.Conversion.Stream.Bracketed.{open_block-live}
use llm_proxy_server.Conversion.Stream.Tools.{handle_live, handle_open, handle_buffer}
use llm_proxy_server.Conversion.Stream.Said.{IsOrdered}
use llm_proxy_server.Conversion.Stream.Quiet.{
  heard, IsQuiet, IsQuiet-none, IsQuiet-and_then, heard_silent, open_block-IsQuiet,
}

pub json_text :
    (kind : PieceKind) (n : ℕ) (args : String)
    → heard kind (content_block_delta n (input_json_delta args) ∷ []) ≡ ""
unfolding heard text_append
json_text text n args = refl
json_text thinking n args = refl

pub json_silent : (kind : PieceKind) (n : ℕ) (args : String) → heard kind (json_delta n args) ≡ ""
unfolding heard text_append
json_silent kind n args = elim (Bool-cases (str_eq args "")) [
  | inl e ↦ rw e refl
  | inr e ↦ rw e (json_text kind n args)
]

pub open_tool_block-IsQuiet :
    (kind : PieceKind) (codec : Codec) (key : ℕ) (s : StreamConversionState)
    → IsQuiet kind s (open_tool_block codec key s)
      × ((open_tool_block codec key s).1.live_tool_index ≡ s.live_tool_index)
unfolding open_tool_block
open_tool_block-IsQuiet kind codec key s =
    let call = call_at s key in
    let block =
      tool_use_start (tool_id_with_signature codec call.id call.signature)
        (to_anthropic s.tool_names call.name) in
    let before : StreamConversionState = record s { had_tool_use = true } in
    let q = open_block-IsQuiet kind tool_use_block block before in
    (
      record { silent = q.silent; deferred = q.deferred; splitter = q.splitter },
      open_block-live tool_use_block block before,
    )

-- A step of a tool call: it says nothing, and once a call is live it stays so.
pub record IsToolStep (kind : PieceKind) (s : StreamConversionState) (r : Emitted) : Type 0 where
  pub quiet : IsQuiet kind s r
  pub stays : is_some r.1.live_tool_index ≡ false → is_some s.live_tool_index ≡ false

pub tool_step-IsOrdered :
    (kind : PieceKind) (s : StreamConversionState) (r : Emitted)
    → IsToolStep kind s r
    → IsOrdered s
    → IsOrdered r.1
tool_step-IsOrdered kind s r h ordered e = h.quiet.deferred ∙ ordered (h.stays e)

pub open_live-IsToolStep :
    (kind : PieceKind) (codec : Codec) (tc : ToolDelta) (key : ℕ) (s : StreamConversionState)
    → IsToolStep kind s (open_live codec tc key s)
unfolding open_live with_args
open_live-IsToolStep kind codec tc key s =
    let (q, _) = open_tool_block-IsQuiet kind codec key s in
    let r = open_tool_block codec key s in
    let args = (call_at s key).buffered_args in
    record {
      quiet = record {
        silent =
            heard_silent kind r.0
              (json_delta (index_of r.1) args ++ json_delta (index_of r.1) tc.arguments) q.silent
              (heard_silent kind (json_delta (index_of r.1) args)
                (json_delta (index_of r.1) tc.arguments) (json_silent kind (index_of r.1) args)
                (json_silent kind (index_of r.1) tc.arguments));
        deferred = q.deferred;
        splitter = q.splitter;
      };
      stays = λ e. absurd (ground (arith, e));
    }

pub handle_recorded-IsToolStep :
    (kind : PieceKind) (codec : Codec) (tc : ToolDelta) (key : ℕ) (s : StreamConversionState)
    → IsToolStep kind s (handle_recorded codec tc key s)
unfolding with_args heard
handle_recorded-IsToolStep kind codec tc key s = elim (Bool-cases (is_live key s)) [
  | inl e ↦ rw (handle_live codec tc key s e) (record {
    quiet = record {
      silent = json_silent kind (get_or (lookup key s.tool_call_indices) 0) tc.arguments;
      deferred = refl;
      splitter = refl;
    };
    stays = λ m. m;
  })
  | inr e ↦ elim (Bool-cases (should_open tc key s)) [
    | inl o ↦ rw (handle_open codec tc key s e o) (open_live-IsToolStep kind codec tc key s)
    | inr o ↦ rw (handle_buffer codec tc key s e o) (record {
      quiet = record { silent = refl; deferred = refl; splitter = refl };
      stays = λ m. m;
    })
  ]
]

pub handle_tool_delta-IsToolStep :
    (kind : PieceKind) (codec : Codec) (tc : ToolDelta) (s : StreamConversionState)
    → IsToolStep kind s (handle_tool_delta codec tc s)
unfolding handle_tool_delta record_call
handle_tool_delta-IsToolStep kind codec tc s =
    let h =
      handle_recorded-IsToolStep kind codec tc (key_of tc s) (record_call tc (key_of tc s) s) in
    record {
      quiet = record {
        silent = h.quiet.silent;
        deferred = h.quiet.deferred;
        splitter = h.quiet.splitter;
      };
      stays = h.stays;
    }

pub handle_tool_deltas-IsToolStep :
    (kind : PieceKind) (codec : Codec) (tcs : List ToolDelta) (s : StreamConversionState)
    → IsToolStep kind s (handle_tool_deltas codec tcs s)
unfolding handle_tool_deltas
handle_tool_deltas-IsToolStep kind codec [] s = record {
  quiet = IsQuiet-none kind s;
  stays = λ m. m;
}
handle_tool_deltas-IsToolStep kind codec (tc ∷ tcs) s =
    let r = handle_tool_delta codec tc s in
    let first = handle_tool_delta-IsToolStep kind codec tc s in
    let rest = handle_tool_deltas-IsToolStep kind codec tcs r.1 in
    record {
      quiet = IsQuiet-and_then kind s r (handle_tool_deltas codec tcs) first.quiet rest.quiet;
      stays = λ m. first.stays (rest.stays m);
    }
