-- ===== src/Conversion/Stream/Protocol.antt =====
-- The order of the events of an Anthropic message, independent of the code: blocks one after another
-- with the indices 0, 1, 2, ..., each with deltas of its type between its start and its stop, then the
-- stop reason and the end.
use llm_proxy_server.Prelude.{
  ℕ, suc, ◌≡◌, refl, sym, ap, ◌∙◌, true, Option, none, some, List, [], ◌∷◌, ◌++◌, nat_eq,
  if◌then◌else◌, arith, Option-cases, inl, inr, All,
}
use llm_proxy_server.Conversion.Stream.{
  BlockType, text_block, thinking_block, tool_use_block, ContentBlock, text_start, thinking_start,
  tool_use_start, Delta, text_delta, thinking_delta, input_json_delta, signature_delta,
  citations_delta, StreamEvent, content_block_start, content_block_delta, content_block_stop,
  message_delta, message_stop, is_in, deltas_at,
}

-- Between blocks, with the number of the blocks so far; inside a block; behind the stop reason; at the
-- end.
pub data StreamPhase : Type 0 where
  between : ℕ → StreamPhase
  inside : ℕ → BlockType → StreamPhase
  stopping : StreamPhase
  ended : StreamPhase

abbrev pub started_type : ContentBlock → BlockType
started_type text_start = text_block
started_type thinking_start = thinking_block
started_type (tool_use_start id name) = tool_use_block

abbrev pub delta_type : Delta → BlockType
delta_type (text_delta s) = text_block
delta_type (thinking_delta s) = thinking_block
delta_type (input_json_delta s) = tool_use_block
delta_type signature_delta = thinking_block
delta_type (citations_delta c) = text_block

-- The phase behind an event, if the event may stand there. A message has at least one block.
unfoldable pub admit_event : StreamPhase → StreamEvent → Option StreamPhase
admit_event (between n) (content_block_start i block) =
    if nat_eq i n then some (inside n (started_type block)) else none
admit_event (between (suc n)) (message_delta reason sequence usage) = some stopping
admit_event (inside n block_type) (content_block_delta i delta) =
    if nat_eq i n
    then if is_in block_type (delta_type delta) then some (inside n block_type) else none
    else none
admit_event (inside n block_type) (content_block_stop i) =
    if nat_eq i n then some (between (suc n)) else none
admit_event stopping message_stop = some ended
admit_event _ _ = none

unfoldable pub admit_events : StreamPhase → List StreamEvent → Option StreamPhase
unfolding admit_event
admit_events phase [] = some phase
admit_events phase (e ∷ events) = elim (admit_event phase e) [
  | none ↦ none
  | some next ↦ admit_events next events
]

admit_cons :
    (phase next : StreamPhase) (e : StreamEvent) (events : List StreamEvent)
    → admit_event phase e ≡ some next
    → admit_events phase (e ∷ events) ≡ admit_events next events
unfolding admit_events
admit_cons phase next e events h = rw (h, admit_events) refl

pub admit_events-append :
    (phase next : StreamPhase) (xs ys : List StreamEvent)
    → admit_events phase xs ≡ some next
    → admit_events phase (xs ++ ys) ≡ admit_events next ys
unfolding admit_events
admit_events-append phase next [] ys h =
    let same : phase ≡ next = ground (arith, h) in ap (λ p. admit_events p ys) same
admit_events-append phase next (x ∷ xs) ys h = elim (Option-cases (admit_event phase x)) [
  | inl e ↦ absurd (ground (arith, h, e))
  | inr (mid, e) ↦
      admit_cons phase mid x (xs ++ ys) e
      ∙ admit_events-append mid next xs ys (sym (admit_cons phase mid x xs e) ∙ h)
]

-- Deltas of the type of the block that is open.
pub admit_deltas :
    (n : ℕ) (block_type : BlockType) (ds : List Delta)
    → All (λ d. is_in block_type (delta_type d) ≡ true) ds
    → admit_events (inside n block_type) (deltas_at n ds) ≡ some (inside n block_type)
unfolding admit_events admit_event
admit_deltas n block_type [] h = refl
admit_deltas n block_type (d ∷ ds) h =
    let here : admit_event (inside n block_type) (content_block_delta n d)
        ≡ some (inside n block_type) =
      ground (arith, h.0) in
    admit_cons (inside n block_type) (inside n block_type) (content_block_delta n d)
      (deltas_at n ds) here
    ∙ admit_deltas n block_type ds h.1
