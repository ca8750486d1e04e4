-- ===== src/Conversion/Stream/Fed.antt =====
-- What the chunks of a stream feed, and that the chunks up to some point say it or defer it
-- (app/conversion/anthropic_openai.py).
use llm_proxy_server.Prelude.{
  ◌≡◌, refl, sym, ap, ap₂, ◌∙◌, subst, Option, none, some, List, [], ◌∷◌, ◌++◌, String, text_append,
  text_append_nil, str_eq, str_eq_iff, if◌then◌else◌, Bool-cases, inl, inr, ℕ-Keyed,
}
use llm_proxy_server.Conversion.Ids.{Codec}
use llm_proxy_server.Conversion.Splitter.{PieceKind, thinking, text, Piece, ThinkTagSplitter, feed}
use llm_proxy_server.Conversion.Splitter.Emits.{of_kind_nil}
use llm_proxy_server.Conversion.Stream.{StreamConversionState, Emitted, emit_all}
use llm_proxy_server.Conversion.Stream.Chunks.{
  Chunk, Choice, convert_choices, convert_stream_chunk, convert_choice, conclude_chunk, pieces_of,
  split_content, record_usage, handle_tool_deltas,
}
use llm_proxy_server.Conversion.Stream.End.{convert_chunks}
use llm_proxy_server.Conversion.Stream.Said.{IsOrdered, emit_all-IsSaid, says_both}
use llm_proxy_server.Conversion.Stream.Quiet.{of_kind, said, heard, heard-append, said-append}
use llm_proxy_server.Conversion.Stream.ToolSteps.{
  tool_step-IsOrdered, handle_tool_deltas-IsToolStep,
}

-- A chunk tells a text: what is heard and deferred behind it is what was deferred and the text.
pub record Tells (kind : PieceKind) (s : StreamConversionState) (r : Emitted) (x : String)
    (splitter : Option ThinkTagSplitter) : Type 0 where
  pub says :
      text_append (heard kind r.0) (said kind r.1.deferred_content)
      ≡ text_append (said kind s.deferred_content) x
  pub ordered : IsOrdered r.1
  pub split : r.1.think_splitter ≡ splitter

pub convert_choice-Tells :
    (kind : PieceKind) (codec : Codec) (c : Choice) (s : StreamConversionState)
    → IsOrdered s
    → let p = pieces_of c s.think_splitter in
      Tells kind s (convert_choice codec c s) (said kind p.1) p.0
unfolding convert_choice conclude_chunk
convert_choice-Tells kind codec c s h =
    let p = pieces_of c s.think_splitter in
    let before : StreamConversionState = record s { think_splitter = p.0 } in
    let first = emit_all p.1 before in
    let told = emit_all-IsSaid kind p.1 before h in
    let tools = handle_tool_deltas-IsToolStep kind codec c.tool_calls first.1 in
    let last = handle_tool_deltas codec c.tool_calls first.1 in
    record {
      says =
          ap₂ text_append
            (heard-append kind first.0 last.0
              ∙ ap (λ t. text_append (heard kind first.0) t) tools.quiet.silent
              ∙ text_append_nil (heard kind first.0))
            (ap (said kind) tools.quiet.deferred)
          ∙ told.says;
      ordered = tool_step-IsOrdered kind first.1 last tools told.ordered;
      split = tools.quiet.splitter ∙ told.splitter;
    }

-- The text of a choice: all of it is text without a splitter, and what the splitter makes of it
-- otherwise; no text leaves the splitter as it is.
unfoldable pub fed_content : String → Option ThinkTagSplitter → Option ThinkTagSplitter × List Piece
unfolding feed
fed_content content none = (none, (text, content) ∷ [])
fed_content content (some s) =
    if str_eq content "" then (some s, []) else (some (feed content s).0, (feed content s).1)

-- What a chunk's choice feeds: its reasoning, and its text behind it. Then what all chunks feed, with the
-- splitter behind them.
unfoldable pub fed_choice :
    Option Choice → Option ThinkTagSplitter → Option ThinkTagSplitter × List Piece
unfolding fed_content
fed_choice none splitter = (splitter, [])
fed_choice (some c) splitter =
    let r = fed_content c.content splitter in (r.0, (thinking, c.reasoning) ∷ r.1)

split_content-fed :
    (kind : PieceKind) (content : String) (splitter : Option ThinkTagSplitter)
    → ((split_content content splitter).0 ≡ (fed_content content splitter).0)
      × (said kind (split_content content splitter).1 ≡ said kind (fed_content content splitter).1)
unfolding split_content fed_content said text_append
split_content-fed kind content none = elim (Bool-cases (str_eq content "")) [
  | inl e ↦
      let empty : content ≡ "" = (str_eq_iff content "").0 e in
      rw (e, split_content)
        (
          refl,
          sym (
              ap (λ t. text_append (of_kind kind text t) "") empty
              ∙ text_append_nil (of_kind kind text "")
              ∙ of_kind_nil kind text),
        )
  | inr e ↦ rw (e, split_content) (refl, refl)
]
split_content-fed kind content (some s) = elim (Bool-cases (str_eq content "")) [
  | inl e ↦ rw (e, split_content, fed_content) (refl, refl)
  | inr e ↦ rw (e, split_content, fed_content) (refl, refl)
]

pieces_of-fed :
    (kind : PieceKind) (c : Choice) (splitter : Option ThinkTagSplitter)
    → ((pieces_of c splitter).0 ≡ (fed_choice (some c) splitter).0)
      × (said kind (pieces_of c splitter).1 ≡ said kind (fed_choice (some c) splitter).1)
unfolding pieces_of fed_choice said text_append
pieces_of-fed kind c splitter =
    let same = split_content-fed kind c.content splitter in
    let texts = (fed_content c.content splitter).1 in
    elim (Bool-cases (str_eq c.reasoning "")) [
      | inl e ↦
          let empty : c.reasoning ≡ "" = (str_eq_iff c.reasoning "").0 e in
          rw (e, pieces_of)
            (
              same.0,
              same.1
                  ∙ sym (
                      ap (λ t. text_append t (said kind texts))
                        (ap (of_kind kind thinking) empty ∙ of_kind_nil kind thinking)),
            )
      | inr e ↦
          rw (e, pieces_of)
            (same.0, ap (λ t. text_append (of_kind kind thinking c.reasoning) t) same.1)
    ]

unfoldable pub fed : List Chunk → Option ThinkTagSplitter → Option ThinkTagSplitter × List Piece
unfolding fed_choice
fed [] splitter = (splitter, [])
fed (chunk ∷ chunks) splitter =
    let first = fed_choice chunk.choice splitter in
    let rest = fed chunks first.0 in (rest.0, first.1 ++ rest.1)

pub convert_choices-Tells :
    (kind : PieceKind) (codec : Codec) (choice : Option Choice) (s : StreamConversionState)
    → IsOrdered s
    → let p = fed_choice choice s.think_splitter in
      Tells kind s (convert_choices codec choice s) (said kind p.1) p.0
unfolding convert_choices fed_choice heard said text_append
convert_choices-Tells kind codec none s h = record {
  says = sym (text_append_nil (said kind s.deferred_content));
  ordered = h;
  split = refl;
}
convert_choices-Tells kind codec (some c) s h =
    let same = pieces_of-fed kind c s.think_splitter in
    let r = convert_choice codec c s in
    subst (λ x. Tells kind s r x (fed_choice (some c) s.think_splitter).0) same.1
      (subst (λ o. Tells kind s r (said kind (pieces_of c s.think_splitter).1) o) same.0
        (convert_choice-Tells kind codec c s h))

pub convert_chunks-Tells :
    (kind : PieceKind) (codec : Codec) (chunks : List Chunk) (s : StreamConversionState)
    → IsOrdered s
    → let p = fed chunks s.think_splitter in
      Tells kind s (convert_chunks codec chunks s) (said kind p.1) p.0
unfolding convert_chunks convert_stream_chunk fed heard said text_append
convert_chunks-Tells kind codec [] s h = record {
  says = sym (text_append_nil (said kind s.deferred_content));
  ordered = h;
  split = refl;
}
convert_chunks-Tells kind codec (chunk ∷ chunks) s h =
    let counted : StreamConversionState = record s { usage = record_usage chunk.usage s.usage } in
    let r = convert_choices codec chunk.choice counted in
    let first = convert_choices-Tells kind codec chunk.choice counted h in
    let rest = convert_chunks-Tells kind codec chunks r.1 first.ordered in
    let p = fed_choice chunk.choice s.think_splitter in
    let last = convert_chunks codec chunks r.1 in
    let after : Tells kind r.1 last (said kind (fed chunks p.0).1) (fed chunks p.0).0 =
      subst
        (λ splitter.
          Tells kind r.1 last (said kind (fed chunks splitter).1) (fed chunks splitter).0)
        first.split rest in
    record {
      says =
          ap (λ t. text_append t (said kind last.1.deferred_content)) (heard-append kind r.0 last.0)
          ∙ says_both (heard kind r.0) (said kind r.1.deferred_content) (heard kind last.0)
              (said kind last.1.deferred_content) (said kind s.deferred_content) (said kind p.1)
              (said kind (fed chunks p.0).1) first.says after.says
          ∙ ap (λ t. text_append (said kind s.deferred_content) t)
              (sym (said-append kind p.1 (fed chunks p.0).1));
      ordered = after.ordered;
      split = after.split;
    }
