-- ===== src/Redaction/Sanitizer.antt =====
-- redaction.py: _sanitize and _sanitize_container, with the recursion through containers, embedded
-- JSON, exceptions and enumerations.
pub mod Agreement
pub mod Digits
pub mod Uuids
pub mod Shapes
pub mod Levels
use ai_voice_agent.Prelude.{
  Outcome, returned, raised, ℕ, zero, suc, ◌+◌, ◌-◌, ◌/◌, ◌%◌, true, false, Option, none, some, [],
  ◌∷◌, ◌++◌, ltb, leb, ◌==◌, if◌then◌else◌, length, drop,
}
use ai_voice_agent.Redaction.Budgets.{
  ◌>>=◌, Call, pure, raise, ◌>>◌, lift, caught, with_budget, charge, Budget,
}
use ai_voice_agent.Redaction.Described.{emit, marker, describe_exception}
use ai_voice_agent.Redaction.Entries.{
  max_int_bits, large_integer, more_than, when_affordable, text_value, sanitize_entries,
}
use ai_voice_agent.Redaction.Json.{Sanitize}
use ai_voice_agent.Redaction.Library.{remove_if}
use ai_voice_agent.Redaction.Markers.{
  redacted, truncated, cycle, repeated, unreadable, unsupported, max_depth, max_items,
  separator_cost,
}
use ai_voice_agent.Redaction.Objects.{
  integer_text, bit_length, Items, Object, Json, World, text_object, mapping_object,
  sequence_object, set_object, none_object, boolean_object, integer_object, real_object,
  secret_object, exception_object, enum_object, duration_object, path_object, uuid_object,
  rendered_object, other_object, json_null, json_bool, json_text, json_integer, json_real,
  json_list, json_object, no_items, no_fields,
}
use ai_voice_agent.Redaction.Sequences.{sanitize_sequence}
use ai_voice_agent.Text.{Text, codes, slice, one_of}

pub hex_character : ℕ → ℕ
hex_character n = if ltb n 10 then b'0' + n else b'a' + (n - 10)

-- f"{number:0{width}x}"
unfoldable pub hex_digits : ℕ → ℕ → Text
unfolding hex_character
hex_digits zero n = []
hex_digits (suc width) n = hex_digits width (n / 16) ++ hex_character (n % 16) ∷ []

pub group_digits : Text → Text
group_digits digits =
    slice digits 0 8
    ++ (b'-' ∷ slice digits 8 12
        ++ (b'-' ∷ slice digits 12 16 ++ (b'-' ∷ slice digits 16 20 ++ (b'-' ∷ drop 20 digits))))

-- _uuid_text
unfoldable pub uuid_text : Option ℕ → Text
unfolding hex_digits group_digits
uuid_text none = unsupported
uuid_text (some number) = group_digits (hex_digits 32 number)

-- value if budget.charge(cost) else TRUNCATED
unfoldable pub charged : ℕ → ℕ → Json → Call Json
charged cost nesting value =
    charge cost nesting >>= λ paid. pure (if paid then value else json_text truncated)

pub marked : Text → ℕ → Call Json
marked text nesting = marker text nesting >>= λ shown. pure (json_text shown)

-- budget.seen[marker] = value; budget.active.add(marker)
unfoldable pub enter : ℕ → Call (Unit {0})
enter address b = (returned tt, record b { active = address ∷ b.active; seen = address ∷ b.seen })

abbrev leave_after : {A : Type 0} → ℕ → Outcome A × Budget → Outcome A × Budget
leave_after address (result, b) =
    (result, record b { active = remove_if (λ other. other == address) b.active })

-- `try: m / finally: budget.active.discard(marker)`, from where the marker is entered
unfoldable pub while_entered : {A : Type 0} → ℕ → Call A → Call A
unfolding enter
while_entered address m b = leave_after address ((enter address >> m) b)

-- What a level of the recursion calls: the sanitiser of values and the description of an
-- exception, by address.
pub record Calls : Type 0 where
  pub value : Sanitize
  pub description : ℕ → Call Text

-- A container that is not active, by its size, what it is when empty and how it is read.
pub expand : ℕ → Json → Call Json → ℕ → Call Json
expand address empty read zero = pure empty
expand address empty read (suc size) =
    with_budget
      λ b. if one_of b.seen address then pure (json_text repeated) else while_entered address read

-- _sanitize_container
pub sanitize_container : ℕ → ℕ → ℕ → Outcome ℕ → Json → Call Json → Call Json
unfolding expand
sanitize_container nesting address depth size empty read = with_budget λ b.
    if one_of b.active address
    then pure (json_text cycle)
    else if leb max_depth depth
    then pure (json_text truncated)
    else caught (json_text unreadable)
        (charge separator_cost nesting >> (lift size >>= expand address empty read))

module _ (world : World) where
  module _ (calls : Calls) (nesting : ℕ) where
    pub sanitize_mapping : ℕ → Outcome ℕ → Items (ℕ × ℕ) → Call Json
    sanitize_mapping depth size found =
        sanitize_entries world calls.value nesting depth [] max_items []
          (more_than size max_items (codes " more entries")) found no_fields
        >>= λ fields. pure (json_object fields)

    -- The branches of _sanitize behind its first two lines.
    pub sanitize_object : ℕ → ℕ → Object → Call Json
    unfolding sanitize_mapping sanitize_container uuid_text marked
    sanitize_object address depth (text_object exact text) =
        text_value world calls.value nesting text
    sanitize_object address depth (mapping_object size found) =
        sanitize_container nesting address depth size (json_object no_fields)
          (sanitize_mapping depth size found)
    sanitize_object address depth (sequence_object size found) =
        sanitize_container nesting address depth size (json_list no_items)
          (sanitize_sequence world calls.value nesting depth false size found)
    sanitize_object address depth (set_object size found) =
        sanitize_container nesting address depth size (json_list no_items)
          (sanitize_sequence world calls.value nesting depth true size found)
    sanitize_object address depth none_object = charged 5 nesting json_null
    sanitize_object address depth (boolean_object b) = charged 5 nesting (json_bool b)
    sanitize_object address depth (integer_object negative n) =
        if leb (bit_length n) max_int_bits
        then charged (length (integer_text negative n)) nesting (json_integer negative n)
        else marked (large_integer (bit_length n)) nesting
    sanitize_object address depth (real_object text) =
        charged (length text) nesting (json_real text)
    sanitize_object address depth secret_object = marked redacted nesting
    sanitize_object address depth (exception_object exc) =
        describe_exception world calls.value calls.description exc >>= λ text.
        emit world text nesting >>= λ shown. pure (json_text shown)
    sanitize_object address depth (enum_object stored) = calls.value stored depth nesting
    sanitize_object address depth (duration_object text) =
        charged (length text) nesting (json_real text)
    sanitize_object address depth (path_object text) = text_value world calls.value nesting text
    sanitize_object address depth (uuid_object number) = marked (uuid_text number) nesting
    sanitize_object address depth (rendered_object raised) = raise
    sanitize_object address depth (rendered_object (returned text)) = marked text nesting
    sanitize_object address depth other_object = marked unsupported nesting

  pub described_at : Calls → Sanitize → Object → Call Text
  described_at below sanitize (exception_object exc) =
      describe_exception world sanitize below.description exc
  described_at below sanitize object = raise

  pub value_with : Calls → Sanitize
  unfolding sanitize_object
  value_with below address depth nesting =
      when_affordable (sanitize_object below nesting address depth (world.heap address))

  pub no_calls : Calls
  no_calls = record { value = λ address depth nesting. raise; description = λ address. raise }

  -- _sanitize and _describe_exception. Each call that a level makes of the level below takes one of
  -- the event's nodes, or finds the budget exhausted.
  unfoldable pub calls_within : ℕ → Calls
  unfolding described_at value_with no_calls
  calls_within zero = no_calls
  calls_within (suc fuel) =
      let below = calls_within fuel in
      record {
        value = value_with below;
        description = λ address. described_at below (value_with below) (world.heap address);
      }
