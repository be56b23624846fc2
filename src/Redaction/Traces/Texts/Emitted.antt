-- ===== src/Redaction/Traces/Texts/Emitted.antt =====
-- redaction.py: what holds of each text that traceback_text and stack_text return.
use ai_voice_agent.Prelude.{
  Outcome, returned, raised, or_else, ℕ, ◌≤◌, ◌≡◌, refl, ◌⊎◌, inl, inr, Bool, true, List, [], ◌∷◌,
  leb, if◌then◌else◌, leb→le, Bool-cases, length,
}
use ai_voice_agent.Redaction.Events.{scrubbed_alone, scrub_text}
use ai_voice_agent.Redaction.Markers.{redacted, unreadable, max_string_length}
use ai_voice_agent.Redaction.Objects.{Frame, World}
use ai_voice_agent.Redaction.Traces.{TraceUnit}
use ai_voice_agent.Redaction.Traces.Texts.{
  first_unchanged, candidates, emitted_candidate, traceback_text, stack_lines, stack_text,
}
use ai_voice_agent.Text.{Text, text_eq, join}
use ai_voice_agent.Text.Sorting.{text_eq-≡}

-- A text that the scrubber, reading it whole, emits exactly as it is.
pub record EmittedUnchanged (world : World) (text : Text) : Type 0 where
  pub read_in_full : length text ≤ max_string_length
  pub unchanged_text : scrub_text world text ≡ text

-- A fixed marker, or a text that is emitted unchanged.
abbrev pub MarkerOrUnchanged : World → Text → Type 0
MarkerOrUnchanged world text =
    (text ≡ redacted) ⊎ ((text ≡ unreadable) ⊎ EmittedUnchanged world text)

module _ (world : World) where
  candidate-cases :
      (text : Text) (rest : Outcome Text) (scrubbed : Outcome Text)
      → leb (length text) max_string_length ≡ true
      → scrubbed_alone world text ≡ scrubbed
      → MarkerOrUnchanged world (or_else rest unreadable)
      → MarkerOrUnchanged world (
          or_else
            (elim scrubbed as (λ _. Outcome Text) [
              | raised ↦ raised
              | returned found ↦ if text_eq found text then returned text else rest
            ])
            unreadable)
  unfolding scrub_text
  candidate-cases text rest raised fits is_it h = inr (inl refl)
  candidate-cases text rest (returned found) fits is_it h = elim (Bool-cases (text_eq found text)) [
    | inl e ↦ rw e (
        inr (
          inr (record {
            read_in_full = leb→le (length text) max_string_length fits;
            unchanged_text = rw is_it (text_eq-≡ found text e);
          })))
    | inr e ↦ rw e h
  ]

  first_unchanged-cases :
      (texts : List Text)
      → MarkerOrUnchanged world (or_else (first_unchanged world texts) unreadable)
  unfolding first_unchanged
  first_unchanged-cases [] = inl refl
  first_unchanged-cases (text ∷ texts) = elim (Bool-cases (leb (length text) max_string_length)) [
    | inl e ↦ rw e (
        candidate-cases text (first_unchanged world texts) (scrubbed_alone world text) e refl
          (first_unchanged-cases texts))
    | inr e ↦ rw e (first_unchanged-cases texts)
  ]

  module _ (is_printable : ℕ → Bool) where
    emitted_candidate-cases :
        (units : Outcome (List TraceUnit))
        → MarkerOrUnchanged world (or_else (emitted_candidate world is_printable units) unreadable)
    unfolding emitted_candidate
    emitted_candidate-cases raised = inr (inl refl)
    emitted_candidate-cases (returned units) = first_unchanged-cases (candidates units)

    -- What traceback_text returns, whatever the exceptions say and hold, is one of the markers
    -- [REDACTED] and [UNREADABLE], or a text of at most 16,384 characters that the scrubber, given
    -- the whole of it, returns exactly as it is.
    pub traceback_text-cases :
        (address : ℕ) → MarkerOrUnchanged world (traceback_text world is_printable address)
    unfolding traceback_text
    traceback_text-cases address = emitted_candidate-cases _

    -- The same of stack_text, for any stack of frames.
    pub stack_text-cases :
        (frames : List Frame) → MarkerOrUnchanged world (stack_text world is_printable frames)
    unfolding stack_text
    stack_text-cases frames =
        first_unchanged-cases (join (10 ∷ []) (stack_lines world is_printable frames) ∷ [])
