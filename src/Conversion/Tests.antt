-- ===== src/Conversion/Tests.antt =====
-- Runs of the tool ids, of the splitter and of the stream converter, and their theorems at concrete
-- inputs.
use llm_proxy_server.Prelude.{
  ◌≡◌, refl, none, some, List, [], ◌∷◌, String, str_eq, text_append, has_char, text_length,
  if◌then◌else◌, lookup,
}
use llm_proxy_server.Conversion.Ids.{
  Codec, ToolNameMap, has_id_chars, tool_id_with_signature, restore_tool_id, tool_id_signature,
  to_openai, is_valid_name, drop_final_newline,
}
use llm_proxy_server.Conversion.Ids.RoundTrip.{restore-tool_id_with_signature}
use llm_proxy_server.Conversion.Splitter.{text, thinking, new_splitter, feed}
use llm_proxy_server.Conversion.Splitter.Feeds.{feed-text_append}
use llm_proxy_server.Conversion.Stream.Chunks.{Chunk, ToolDelta}
use llm_proxy_server.Conversion.Stream.End.{convert_stream, new_stream_state}
use llm_proxy_server.Conversion.Stream.Protocol.{between, ended, admit_events}
use llm_proxy_server.Conversion.Stream.Streams.{convert_stream-admitted}
use llm_proxy_server.Conversion.Stream.Quiet.{said, heard}
use llm_proxy_server.Conversion.Stream.Heard.{held_pieces, convert_stream-heard}
use llm_proxy_server.Conversion.Stream.Fed.{fed}

-- A table in place of base64url, for the one text that the tests encode.
abbrev codec : Codec
codec = record {
  encode = λ s. "Y2FsbC4xH3NpZw";
  decode = λ s. if str_eq s "Y2FsbC4xH3NpZw" then some "call.1\u{1f}sig" else none;
  digest = λ s. "0a1b2c3d";
  fresh = "00112233";
}

restore-tool_id_with_signature_example :
    (restore_tool_id codec (tool_id_with_signature codec (some "call.1") (some "sig")) ≡ "call.1")
    × (tool_id_signature codec (tool_id_with_signature codec (some "call.1") (some "sig"))
        ≡ some "sig")
unfolding has_char text_append
restore-tool_id_with_signature_example =
    restore-tool_id_with_signature codec "call.1" "sig" refl refl refl refl

abbrev names : ToolNameMap
names = record { forward = []; reverse = [] }

-- A name with a newline at its end passes for a valid one and is sent as it is.
newline_name : (to_openai codec names "run\n").0 ≡ "run\n"
unfolding to_openai lookup is_valid_name drop_final_newline has_id_chars text_length
newline_name = refl

-- A tag that two chunks cut.
cut_tag :
    (feed "ink>b</think>c" (feed "a<th" new_splitter).0).1 ≡ (thinking, "b") ∷ (text, "c") ∷ []
unfolding feed text_append text_length
cut_tag = refl

-- The same text in one piece, after the newlines that are dropped.
abbrev tagged : String × String
tagged = ("\na<th", "ink>b</think>c")

feed-text_append_example :
    ((feed tagged.1 (feed tagged.0 new_splitter).0).0
      ≡ (feed (text_append tagged.0 tagged.1) new_splitter).0)
    × (text_append
          (said text (feed tagged.0 new_splitter).1)
          (said text (feed tagged.1 (feed tagged.0 new_splitter).0).1)
        ≡ said text (feed (text_append tagged.0 tagged.1) new_splitter).1)
feed-text_append_example = feed-text_append text tagged.0 tagged.1 new_splitter

-- Text, a call that opens live, text behind it that is deferred, and the end of the call's arguments.
abbrev call_start : ToolDelta
call_start = record {
  index = some 0;
  id = "call_1";
  name = "run";
  arguments = "{";
  signature = none;
}

abbrev call_rest : ToolDelta
call_rest = record { index = some 0; id = ""; name = ""; arguments = "}"; signature = none }

abbrev said_choice : String → List ToolDelta → Chunk
said_choice content calls = record {
  usage = none;
  choice = some (record {
    reasoning = "";
    content = content;
    tool_calls = calls;
    annotations = [];
    finish_reason = none;
    matched = none;
    usage = none;
  });
}

abbrev chunks : List Chunk
chunks =
    said_choice "one" (call_start ∷ [])
    ∷ said_choice " two" (call_rest ∷ [])
    ∷ record { usage = none; choice = none }
    ∷ []

convert_stream-admitted_example :
    admit_events (between 0) (convert_stream codec chunks (new_stream_state names none 10)).0
    ≡ some ended
convert_stream-admitted_example = convert_stream-admitted codec chunks names none 10

convert_stream-heard_example :
    heard text (convert_stream codec chunks (new_stream_state names (some new_splitter) 10)).0
    ≡ text_append
        (said text (fed chunks (some new_splitter)).1)
        (said text (held_pieces (fed chunks (some new_splitter)).0))
convert_stream-heard_example = convert_stream-heard text codec chunks names (some new_splitter) 10
