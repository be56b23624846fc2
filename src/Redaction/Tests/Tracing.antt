-- ===== src/Redaction/Tests/Tracing.antt =====
-- Runs of redaction.py's tracebacks on small chains of exceptions.
use ai_voice_agent.Prelude.{
  returned, raised, ℕ, zero, ◌+◌, ◌≤◌, ◌≡◌, refl, false, none, some, List, [], ◌∷◌, length,
}
use ai_voice_agent.Redaction.Budgets.{
  ◌>>=◌, fresh_budget, pure, ◌>>◌, lift, caught, with_budget, Budget,
}
use ai_voice_agent.Redaction.Described.{type_name, describe_exception}
use ai_voice_agent.Redaction.Layers.{scrub}
use ai_voice_agent.Redaction.Library.{is_digit, is_letter}
use ai_voice_agent.Redaction.Markers.{max_string_length, max_event_scan}
use ai_voice_agent.Redaction.Objects.{Exception, Object, no_errors, exception_object}
use ai_voice_agent.Redaction.Sanitizer.{calls_within}
use ai_voice_agent.Redaction.Tests.Sanitizing.{test_world}
use ai_voice_agent.Redaction.Traces.{
  max_traceback_lines, max_exception_chain, TraceUnit, exception_chain, text_length, add_block,
  no_blocks, traceback_units, raised_first, as_context,
}
use ai_voice_agent.Redaction.Traces.Bounds.{
  Distinct, exception_chain_bounded, traceback_units_bounded,
}
use ai_voice_agent.Redaction.Traces.Texts.{traceback_text}
use ai_voice_agent.Redaction.Traces.Texts.Emitted.{MarkerOrUnchanged, traceback_text-cases}
use ai_voice_agent.Text.{codes}

-- Two exceptions, each the context of the other.
abbrev broken : Exception
broken = record {
  qualname = some (codes "ValueError");
  errors = no_errors;
  message = raised;
  members = none;
  cause = none;
  context = some 1;
  suppress_context = false;
  traceback = none;
}

abbrev linked_heap : ℕ → Object
linked_heap zero = exception_object broken
linked_heap address = exception_object (record broken { context = some 0 })

test_chain : exception_chain linked_heap 0 ≡ (0, raised_first) ∷ (1, as_context) ∷ []
unfolding exception_chain
test_chain = refl

exception_chain_bounded_example :
    (length (exception_chain linked_heap 0) ≤ max_exception_chain)
    × Distinct (exception_chain linked_heap 0) []
exception_chain_bounded_example = exception_chain_bounded linked_heap 0

traceback_text-cases_example :
    MarkerOrUnchanged (test_world linked_heap) (traceback_text (test_world linked_heap) is_letter 0)
traceback_text-cases_example = traceback_text-cases (test_world linked_heap) is_letter 0

-- With no characters left to scan, a message is not read at all.
abbrev unscanned : Budget
unscanned = record fresh_budget { scanned = max_event_scan }

abbrev lone_heap : ℕ → Object
lone_heap address = exception_object (record broken { context = none })

abbrev lone_units : List TraceUnit
lone_units = (codes "ValueError: [TRUNCATED]", some (codes "ValueError: [REDACTED]")) ∷ []

test_units : (traceback_units (test_world lone_heap) is_letter 0 unscanned).0 ≡ returned lone_units
unfolding traceback_units calls_within exception_chain with_budget ◌>>◌ ◌>>=◌ pure lift caught
    describe_exception scrub type_name text_length add_block no_blocks is_letter is_digit
test_units = refl

traceback_units_bounded_example :
    (length lone_units ≤ max_traceback_lines + 1)
    × (text_length lone_units + length lone_units ≤ max_string_length)
traceback_units_bounded_example =
    traceback_units_bounded (test_world lone_heap) is_letter 0 unscanned lone_units test_units
