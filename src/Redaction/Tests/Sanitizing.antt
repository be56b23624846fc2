-- ===== src/Redaction/Tests/Sanitizing.antt =====
-- Runs of redaction.py's sanitiser on small heaps.
use ai_voice_agent.Prelude.{
  returned, raised, ℕ, zero, suc, ◌+◌, ◌-◌, ◌≤◌, ◌≡◌, refl, ◌⊎◌, inr, true, false, none, some, [],
  ◌∷◌, arith, ltb, if◌then◌else◌, length,
}
use ai_voice_agent.Redaction.Budgets.{
  ◌>>=◌, fresh_budget, pure, raise, ◌>>◌, lift, caught, with_budget, exhausted, take_node,
  charge_cost, charge, Budget,
}
use ai_voice_agent.Redaction.Described.{emit}
use ai_voice_agent.Redaction.Described.Emitting.{total, needs_no_escape, emit-fits}
use ai_voice_agent.Redaction.Entries.{when_affordable, sanitize_entries}
use ai_voice_agent.Redaction.Entries.Masking.{masks, Alike, sanitize_entries_masked}
use ai_voice_agent.Redaction.Events.{trusted_identifier}
use ai_voice_agent.Redaction.Events.Trusted.{trusted_identifier-cases, Accepted}
use ai_voice_agent.Redaction.Identifiers.{logger_name}
use ai_voice_agent.Redaction.Json.{Sanitize, decode_at, json_loop, json_start, JsonScan}
use ai_voice_agent.Redaction.Json.Loop.{json_loop_ends}
use ai_voice_agent.Redaction.Keys.{search_phrases, is_sensitive_key}
use ai_voice_agent.Redaction.Library.{is_ascii, hex_number}
use ai_voice_agent.Redaction.Markers.{
  truncated, cycle, max_depth, max_items, max_event_output, separator_cost,
}
use ai_voice_agent.Redaction.Objects.{
  append_item, Items, Object, World, text_object, sequence_object, integer_object, json_text,
  json_list, no_items, item_then, no_fields, not_json,
}
use ai_voice_agent.Redaction.Sanitizer.{uuid_text, while_entered, calls_within}
use ai_voice_agent.Redaction.Sanitizer.Uuids.{without_dashes, Grouped, hex_number-uuid_text}
use ai_voice_agent.Redaction.Sanitizer.Levels.{calls_within_enough, calls_within_budget}
use ai_voice_agent.Redaction.Sanitizer.Shapes.{calls_within_shape}
use ai_voice_agent.Redaction.Sequences.{sanitize_sequence}
use ai_voice_agent.Redaction.Shapes.{json_levels, json_width}
use ai_voice_agent.Redaction.Tests.{plain_library}
use ai_voice_agent.Text.{codes, find_in}

-- The width of a character in a rendered JSON string.
abbrev test_width : ℕ → ℕ
test_width c = if needs_no_escape c then 1 else if ltb c 128 then 6 else 12

-- A heap of objects with nothing to decode in any text.
abbrev pub test_world : (ℕ → Object) → World
test_world heap = record {
  library = plain_library;
  heap = heap;
  raw_decode = λ decodes text start. not_json none;
  dumps_length = λ text. 2 + total test_width text;
  dumps = λ value. [];
  repr = λ value. [];
}

-- A list that holds itself.
abbrev cyclic_list : ℕ → Object
cyclic_list address = sequence_object (returned 1) (record { items = address ∷ []; ends = true })

abbrev cyclic_world : World
cyclic_world = test_world cyclic_list

-- A budget with two nodes left.
abbrev nearly_spent : Budget
nearly_spent = record fresh_budget { visited = 2046 }

test_cycle :
    ((calls_within cyclic_world 3).value 0 0 0 nearly_spent).0
    ≡ returned (json_list (item_then (json_text cycle) no_items))
unfolding calls_within when_affordable exhausted with_budget ◌>>◌ ◌>>=◌ take_node pure charge
    charge_cost lift caught sanitize_sequence while_entered append_item
test_cycle = refl

calls_within_enough_example :
    (calls_within cyclic_world 3).value 0 0 0 nearly_spent
    ≡ (calls_within cyclic_world 9).value 0 0 0 nearly_spent
calls_within_enough_example =
    calls_within_enough cyclic_world 2 8 0 0 0 nearly_spent (omega arith) (omega arith)

calls_within_budget_example :
    (2046 ≤ ((calls_within cyclic_world 3).value 0 0 0 nearly_spent).1.visited)
    × (0 ≤ ((calls_within cyclic_world 3).value 0 0 0 nearly_spent).1.scanned)
    × (((calls_within cyclic_world 3).value 0 0 0 nearly_spent).1.output ≤ max_event_output)
    × (((calls_within cyclic_world 3).value 0 0 0 nearly_spent).1.active ≡ [])
calls_within_budget_example = calls_within_budget cyclic_world 2 0 0 0 nearly_spent (omega arith)

calls_within_shape_example :
    (json_levels (json_list (item_then (json_text cycle) no_items)) ≤ max_depth - 0)
    × (json_width (json_list (item_then (json_text cycle) no_items)) ≤ max_items + 1)
calls_within_shape_example =
    calls_within_shape cyclic_world 3 0 0 0 nearly_spent
      (json_list (item_then (json_text cycle) no_items)) test_cycle

-- A key "password" and two values.
abbrev secret_heap : ℕ → Object
secret_heap zero = text_object true (codes "password")
secret_heap (suc zero) = text_object true (codes "hunter2")
secret_heap address = integer_object false address

abbrev entry_with : ℕ → Items (ℕ × ℕ)
entry_with item = record { items = (0, item) ∷ []; ends = true }

test-Alike : Alike (test_world secret_heap) ((0, 1) ∷ []) ((0, 2) ∷ [])
unfolding Alike masks is_sensitive_key search_phrases
test-Alike = (refl, inr refl, tt)

abbrev no_value : Sanitize
no_value address depth nesting = raise

sanitize_entries_masked_example :
    sanitize_entries
      (test_world secret_heap)
      no_value
      0
      0
      []
      200
      []
      raised
      (entry_with 1)
      no_fields
      fresh_budget
    ≡ sanitize_entries
        (test_world secret_heap)
        no_value
        0
        0
        []
        200
        []
        raised
        (entry_with 2)
        no_fields
        fresh_budget
sanitize_entries_masked_example =
    sanitize_entries_masked (test_world secret_heap) no_value 0 0 [] 200 [] raised (entry_with 1)
      (entry_with 2) no_fields fresh_budget test-Alike refl

test_wide : (c : ℕ) → test_width c ≤ 12
test_wide c = ground arith

test_narrow : (c : ℕ) → ltb c 128 ≡ true → test_width c ≤ 6
test_narrow c h = ground arith

test_plain : (c : ℕ) → needs_no_escape c ≡ true → test_width c ≡ 1
test_plain c h = rw h refl

abbrev little_output : Budget
little_output = record fresh_budget { output = 30 }

test_emitted :
    (emit cyclic_world (codes "aaaabbbbccccddddeeeeffffgggghhhh") 0 little_output).0
    ≡ returned (codes "aa [TRUNCATED]")
unfolding emit total is_ascii
test_emitted = refl

emit-fits_example :
    (codes "aa [TRUNCATED]" ≡ truncated)
    ⊎ (cyclic_world.dumps_length (codes "aa [TRUNCATED]")
          + separator_cost
          + (emit cyclic_world (codes "aaaabbbbccccddddeeeeffffgggghhhh") 0 little_output).1.output
        ≤ 30)
emit-fits_example =
    emit-fits cyclic_world test_width (λ text. refl) test_wide test_narrow test_plain
      (codes "aaaabbbbccccddddeeeeffffgggghhhh") little_output (codes "aa [TRUNCATED]") test_emitted

hex_number-uuid_text_example :
    Grouped (uuid_text (some 4660))
    × (length (without_dashes (uuid_text (some 4660))) ≡ 32)
    × (hex_number 32 (without_dashes (uuid_text (some 4660))) ≡ some 4660)
hex_number-uuid_text_example = hex_number-uuid_text 4660 (omega arith)

trusted_identifier-cases_example :
    (trusted_identifier cyclic_world (text_object true (codes "app.api")) logger_name (codes "?")
      ≡ codes "?")
    ⊎ Accepted cyclic_world (text_object true (codes "app.api")) logger_name (
        trusted_identifier cyclic_world
          (text_object true (codes "app.api"))
          logger_name
          (codes "?"))
trusted_identifier-cases_example =
    trusted_identifier-cases cyclic_world (text_object true (codes "app.api")) logger_name
      (codes "?")

-- A text in which nothing is JSON: the scan tries its one bracket and finds no other.
abbrev ended_scan : JsonScan
ended_scan = record {
  position = 1;
  copied = 0;
  parts = [];
  fragments = [];
  work = 1038;
  finished = true;
}

test_loop :
    (json_loop cyclic_world no_value
      (codes "[1")
      0
      4
      (json_start cyclic_world no_value (codes "[1") 0)
      fresh_budget).0
    ≡ returned ended_scan
unfolding json_loop json_start ◌>>=◌ pure decode_at find_in
test_loop = refl

json_loop_ends_example : ended_scan.finished ≡ true
json_loop_ends_example =
    json_loop_ends cyclic_world no_value (codes "[1") 0 fresh_budget ended_scan test_loop
