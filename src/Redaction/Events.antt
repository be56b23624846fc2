-- ===== src/Redaction/Events.antt =====
-- redaction.py: the functions that the logging pipeline calls, each with a budget of its own.
pub mod Trusted
use ai_voice_agent.Prelude.{
  Outcome, returned, raised, or_else, ℕ, suc, true, ◌&&◌, Option, none, some, List, [], ◌∷◌, ◌++◌,
  ltb, leb, if◌then◌else◌, length, any,
}
use ai_voice_agent.Redaction.Assembled.{assembled_text}
use ai_voice_agent.Redaction.Budgets.{◌>>=◌, fresh_budget, Call, pure, lift}
use ai_voice_agent.Redaction.Entries.{when_affordable, text_value, sanitize_entries}
use ai_voice_agent.Redaction.Identifiers.{fits_grammar, IdentifierKind}
use ai_voice_agent.Redaction.Layers.{scrub}
use ai_voice_agent.Redaction.Markers.{unreadable, max_event_fields, max_event_nodes}
use ai_voice_agent.Redaction.Objects.{
  set_field, Items, Object, Json, JsonFields, World, text_object, json_text, no_fields,
}
use ai_voice_agent.Redaction.Sanitizer.{calls_within}
use ai_voice_agent.Text.{Text, codes, text_eq}

-- One more level than an event has nodes.
abbrev pub event_levels : ℕ
event_levels = suc max_event_nodes

abbrev pub max_identifier_length : ℕ
max_identifier_length = 128

-- The mapping of an event: .get(key), len(), and its keys and values in order.
pub record Event : Type 0 where
  pub get : Text → Outcome (Option ℕ)
  pub size : Outcome ℕ
  pub fields : Items (ℕ × ℕ)

abbrev fields_note : Text
fields_note = codes "event field limit reached"

-- names.union(others), of names without repetition
union_of : List Text → List Text → List Text
union_of names [] = names
union_of names (name ∷ others) =
    let absent = union_of (names ++ name ∷ []) others in
    let present = union_of names others in if any (text_eq name) names then present else absent

module _ (world : World) where
  -- The text rules on a budget of their own.
  pub scrubbed_alone : Text → Outcome Text
  scrubbed_alone text = (scrub world (calls_within world event_levels).value 0 text fresh_budget).0

  -- scrub_text
  unfoldable pub scrub_text : Text → Text
  unfolding scrubbed_alone
  scrub_text text = or_else (scrubbed_alone text) unreadable

  -- sanitize
  unfoldable pub sanitized : ℕ → Json
  sanitized address =
      or_else ((calls_within world event_levels).value address 0 0 fresh_budget).0
        (json_text unreadable)

  -- _sanitize_field
  sanitize_field : List Text → Text → ℕ → Call Json
  sanitize_field assembled key address =
      let value = (calls_within world event_levels).value in
      if any (text_eq key) assembled
      then when_affordable (text_value world value 0 (assembled_text world.heap address))
      else value address 1 0

  leading_field : List Text → Text → JsonFields → Option ℕ → Call JsonFields
  unfolding sanitize_field
  leading_field assembled key result none = pure result
  leading_field assembled key result (some address) =
      sanitize_field assembled key address >>= λ value. pure (set_field result key value)

  leading_fields : List Text → Event → List Text → JsonFields → Call JsonFields
  unfolding leading_field
  leading_fields assembled event [] result = pure result
  leading_fields assembled event (key ∷ keys) result =
      lift (event.get key)
      >>= leading_field assembled key result
      >>= leading_fields assembled event keys

  -- sanitize_event; the budget is fresh
  unfoldable pub sanitize_event : Event → List Text → List Text → List Text → Call JsonFields
  unfolding leading_fields union_of
  sanitize_event event skip leading assembled =
      leading_fields assembled event leading no_fields
      >>= sanitize_entries world (calls_within world event_levels).value 0 0 assembled
          max_event_fields (union_of skip leading) (returned fields_note) event.fields

  pub unchanged : Text → Text → Outcome Text → Text
  unchanged value fallback raised = fallback
  unchanged value fallback (returned text) = if text_eq text value then value else fallback

  -- trusted_identifier
  unfoldable pub trusted_identifier : Object → IdentifierKind → Text → Text
  unfolding unchanged scrubbed_alone
  trusted_identifier (text_object true value) kind fallback =
      if ltb 0 (length value) && leb (length value) max_identifier_length && fits_grammar kind value
      then unchanged value fallback (scrubbed_alone value)
      else fallback
  trusted_identifier object kind fallback = fallback
