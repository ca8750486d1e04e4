-- ===== src/Conversion/Stream/Bracketed.antt =====
-- The helpers of the stream converter keep the order of the events: each takes the phase that the state
-- stands for to the phase of the state it returns.
use llm_proxy_server.Prelude.{
  ℕ, suc, ◌≡◌, refl, ap, ◌∙◌, true, false, Option, none, some, List, [], ◌∷◌, ◌++◌, map, is_some,
  get_or, if◌then◌else◌, arith, if_true, if_false, Bool-cases, inl, inr, All,
}
use llm_proxy_server.Conversion.Stream.{
  BlockType, text_block, thinking_block, tool_use_block, ContentBlock, Delta, Citation,
  citations_delta, content_block_start, content_block_stop, StreamConversionState, Emitted,
  and_then, index_of, next_index, citations_due, closing_deltas, cites, deltas_at, close_block,
  open_block, is_in, citations_from_annotations,
}
use llm_proxy_server.Conversion.Stream.Protocol.{
  StreamPhase, between, inside, started_type, delta_type, admit_event, admit_events,
  admit_events-append, admit_deltas,
}

-- The phase that a state stands for.
abbrev pub phase_of : StreamConversionState → StreamPhase
phase_of s =
    if s.block_open
    then inside (index_of s) s.current_block_type
    else between (next_index s.content_block_index)

-- The events of a step lead from the phase of a state to the phase of the state it returns.
abbrev pub Brackets : StreamConversionState → Emitted → Type 0
Brackets s r = admit_events (phase_of s) r.0 ≡ some (phase_of r.1)

-- A block that is open has an index.
abbrev pub IsOpened : StreamConversionState → Type 0
IsOpened s = s.block_open ≡ true → is_some s.content_block_index ≡ true

pub Brackets-and_then :
    (s : StreamConversionState) (r : Emitted) (f : StreamConversionState → Emitted)
    → Brackets s r
    → Brackets r.1 (f r.1)
    → Brackets s (and_then r f)
Brackets-and_then s r f h k = admit_events-append (phase_of s) (phase_of r.1) r.0 (f r.1).0 h ∙ k

pub Brackets-none : (s : StreamConversionState) → Brackets s ([], s)
unfolding admit_events
Brackets-none s = refl

citations-All :
    (cs : List Citation)
    → All (λ d. is_in text_block (delta_type d) ≡ true) (map (λ c. citations_delta c) cs)
citations-All [] = tt
citations-All (c ∷ cs) = (refl, citations-All cs)

closing_deltas-All :
    (s : StreamConversionState) (block_type : BlockType)
    → All (λ d. is_in block_type (delta_type d) ≡ true) (closing_deltas s block_type)
unfolding closing_deltas
closing_deltas-All s thinking_block = (refl, tt)
closing_deltas-All s tool_use_block = tt
closing_deltas-All s text_block = elim (Bool-cases (citations_due s)) [
  | inl e ↦ rw e (citations-All (citations_from_annotations s.full_text s.annotations))
  | inr e ↦ rw e tt
]

-- A stop event behind the deltas of a block.
admit_stop :
    (n : ℕ) (block_type : BlockType) (ds : List Delta)
    → All (λ d. is_in block_type (delta_type d) ≡ true) ds
    → admit_events (inside n block_type) (deltas_at n ds ++ content_block_stop n ∷ [])
      ≡ some (between (suc n))
unfolding admit_events admit_event
admit_stop n block_type ds h =
    admit_events-append (inside n block_type) (inside n block_type) (deltas_at n ds)
      (content_block_stop n ∷ []) (admit_deltas n block_type ds h)
    ∙ ground arith

index_next : (o : Option ℕ) → is_some o ≡ true → suc (get_or o 0) ≡ next_index o
index_next none h = absurd (ground (arith, h))
index_next (some n) h = refl

pub close_block_when_open :
    (s : StreamConversionState)
    → s.block_open ≡ true
    → close_block s ≡ (
      deltas_at (index_of s) (closing_deltas s s.current_block_type)
          ++ content_block_stop (index_of s) ∷ [],
      record s { block_open = false; citations_emitted = cites s s.current_block_type },
    )
unfolding close_block
close_block_when_open s e = if_true s.block_open _ _ e

pub close_block_when_shut :
    (s : StreamConversionState) → s.block_open ≡ false → close_block s ≡ ([], s)
unfolding close_block
close_block_when_shut s e = if_false s.block_open _ _ e

-- A block that is closed is closed, and its index and the live call are as they were.
pub close_block-closed :
    (s : StreamConversionState)
    → let t = (close_block s).1 in
      (t.block_open ≡ false)
      × (t.content_block_index ≡ s.content_block_index)
      × (t.live_tool_index ≡ s.live_tool_index)
close_block-closed s = elim (Bool-cases s.block_open) [
  | inl e ↦ rw (close_block_when_open s e) (refl, refl, refl)
  | inr e ↦ rw (close_block_when_shut s e) (e, refl, refl)
]

phase_when_open :
    (s : StreamConversionState)
    → s.block_open ≡ true
    → phase_of s ≡ inside (index_of s) s.current_block_type
phase_when_open s e = if_true s.block_open _ _ e

pub phase_when_shut :
    (s : StreamConversionState)
    → s.block_open ≡ false
    → phase_of s ≡ between (next_index s.content_block_index)
phase_when_shut s e = if_false s.block_open _ _ e

pub close_block-Brackets : (s : StreamConversionState) → IsOpened s → Brackets s (close_block s)
close_block-Brackets s h = elim (Bool-cases s.block_open) [
  | inl e ↦ rw (close_block_when_open s e) (
      ap
        (λ p. admit_events p (
          deltas_at (index_of s) (closing_deltas s s.current_block_type)
          ++ content_block_stop (index_of s) ∷ []))
        (phase_when_open s e)
      ∙ admit_stop (index_of s) s.current_block_type (closing_deltas s s.current_block_type)
          (closing_deltas-All s s.current_block_type)
      ∙ ap (λ n. some (between n)) (index_next s.content_block_index (h e)))
  | inr e ↦ rw (close_block_when_shut s e) (Brackets-none s)
]

-- A block that is opened is the next one, and of its type.
pub open_block-Brackets :
    (block_type : BlockType) (block : ContentBlock) (s : StreamConversionState)
    → IsOpened s
    → started_type block ≡ block_type
    → Brackets s (open_block block_type block s)
unfolding open_block admit_events admit_event
open_block-Brackets block_type block s h e =
    let r = close_block s in
    let shut = phase_when_shut r.1 (close_block-closed s).0 in
    let index = next_index r.1.content_block_index in
    admit_events-append (phase_of s) (phase_of r.1) r.0 (content_block_start index block ∷ [])
      (close_block-Brackets s h)
    ∙ ap (λ p. admit_events p (content_block_start index block ∷ [])) shut
    ∙ ground (arith, e)

pub open_block-live :
    (block_type : BlockType) (block : ContentBlock) (s : StreamConversionState)
    → (open_block block_type block s).1.live_tool_index ≡ s.live_tool_index
unfolding open_block
open_block-live block_type block s = let (_, _, same) = close_block-closed s in same
