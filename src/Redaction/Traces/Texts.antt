-- ===== src/Redaction/Traces/Texts.antt =====
-- redaction.py: traceback_lines, traceback_text, render_exception, stack_lines and stack_text.
pub mod Emitted
use ai_voice_agent.Prelude.{
  Outcome, returned, raised, or_else, ℕ, Bool, false, ◌||◌, none, some, List, [], ◌∷◌, ◌++◌, map,
  ltb, leb, if◌then◌else◌, length, take,
}
use ai_voice_agent.Redaction.Budgets.{fresh_budget}
use ai_voice_agent.Redaction.Events.{scrubbed_alone}
use ai_voice_agent.Redaction.Frames.{max_traceback_frames, frame_lines}
use ai_voice_agent.Redaction.Markers.{
  redacted, truncated, unreadable, truncated_sensitive, max_string_length,
}
use ai_voice_agent.Redaction.Objects.{Frame, World}
use ai_voice_agent.Redaction.Traces.{TraceUnit, traceback_units}
use ai_voice_agent.Text.{Text, codes, contains, text_eq, join}
use mathlib.Core.List.{reverse}

abbrev stack_header : Text
stack_header = codes "Stack (most recent call last):"

module _ (world : World) where
  -- The first candidate that _is_emitted_unchanged.
  pub first_unchanged : List Text → Outcome Text
  first_unchanged [] = returned redacted
  first_unchanged (text ∷ texts) =
      let later = first_unchanged texts in
      if leb (length text) max_string_length
      then elim (scrubbed_alone world text) as (λ _. Outcome Text) [
        | raised ↦ raised
        | returned scrubbed ↦ if text_eq scrubbed text then returned text else later
      ]
      else later

-- Whether something was masked in a message that may be withheld.
is_masked : TraceUnit → Bool
is_masked (line, none) = false
is_masked (line, some withheld) = contains redacted line || contains truncated_sensitive line

-- Every masked message but the last ends with a space.
spaced_lines : List TraceUnit → List Text
unfolding is_masked
spaced_lines [] = []
spaced_lines (unit ∷ []) = unit.0 ∷ []
spaced_lines (unit ∷ next ∷ units) =
    (if is_masked unit then unit.0 ++ b' ' ∷ [] else unit.0) ∷ spaced_lines (next ∷ units)

withheld_line : TraceUnit → Text
withheld_line (line, none) = line
withheld_line (line, some withheld) = withheld

pub candidates : List TraceUnit → List Text
unfolding spaced_lines withheld_line is_masked
candidates units =
    join (10 ∷ []) (map (λ (unit : TraceUnit). unit.0) units)
    ∷ join (10 ∷ []) (spaced_lines units)
    ∷ join (10 ∷ []) (map (λ unit. if is_masked unit then withheld_line unit else unit.0) units)
    ∷ join (10 ∷ []) (map withheld_line units)
    ∷ []

module _ (world : World) (is_printable : ℕ → Bool) where
  -- traceback_lines
  unfoldable pub traceback_lines : ℕ → List Text
  traceback_lines address = elim (traceback_units world is_printable address fresh_budget).0 [
    | raised ↦ unreadable ∷ []
    | returned units ↦ map (λ unit. unit.0) units
  ]

  pub emitted_candidate : Outcome (List TraceUnit) → Outcome Text
  unfolding first_unchanged candidates
  emitted_candidate raised = raised
  emitted_candidate (returned units) = first_unchanged world (candidates units)

  -- traceback_text
  unfoldable pub traceback_text : ℕ → Text
  unfolding emitted_candidate
  traceback_text address =
      or_else (emitted_candidate (traceback_units world is_printable address fresh_budget).0)
        unreadable

  -- render_exception
  unfoldable pub render_exception : ℕ → Text
  unfolding traceback_text
  render_exception address = traceback_text address ++ 10 ∷ []

  stack_header_of : List Frame → Text
  stack_header_of frames =
      if ltb max_traceback_frames (length frames)
      then stack_header ++ (b' ' ∷ truncated)
      else stack_header

  -- stack_lines; the innermost frame is first
  unfoldable pub stack_lines : List Frame → List Text
  unfolding stack_header_of
  stack_lines frames =
      elim (frame_lines world is_printable (take max_traceback_frames frames) fresh_budget).0 [
        | raised ↦ unreadable ∷ []
        | returned lines ↦ reverse (lines ++ stack_header_of frames ∷ [])
      ]

  -- stack_text
  unfoldable pub stack_text : List Frame → Text
  unfolding first_unchanged
  stack_text frames =
      or_else (first_unchanged world (join (10 ∷ []) (stack_lines frames) ∷ [])) unreadable
