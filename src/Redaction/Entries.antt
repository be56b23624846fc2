-- ===== src/Redaction/Entries.antt =====
-- redaction.py: _sanitize_key, _is_named_in and _sanitize_entries, over a sanitiser of values.
pub mod Agreement
pub mod Masking
pub mod Shapes
use ai_voice_agent.Prelude.{
  Outcome, returned, raised, ℕ, suc, ◌+◌, ◌-◌, min, max, Bool, true, false, ◌&&◌, ◌||◌, List, [],
  ◌∷◌, ◌++◌, ltb, leb, if◌then◌else◌, length, take, any,
}
use ai_voice_agent.Redaction.Assembled.{assembled_text}
use ai_voice_agent.Redaction.Budgets.{
  ◌>>=◌, Call, pure, raise, ◌>>◌, lift, with_budget, exhausted, take_node, take_scan, charge,
  Budget,
}
use ai_voice_agent.Redaction.Described.{emit, marker}
use ai_voice_agent.Redaction.Json.{Sanitize}
use ai_voice_agent.Redaction.Keys.{is_sensitive_key}
use ai_voice_agent.Redaction.Layers.{scrub}
use ai_voice_agent.Redaction.Markers.{
  redacted, truncated, unsupported, max_string_length, max_event_scan,
}
use ai_voice_agent.Redaction.Objects.{
  set_field, decimal, integer_text, bit_length, Items, Object, Json, JsonFields, World, text_object,
  none_object, boolean_object, integer_object, real_object, json_text,
}
use ai_voice_agent.Text.{Text, codes, text_eq}

abbrev pub max_key_length : ℕ
max_key_length = 256

abbrev pub max_int_bits : ℕ
max_int_bits = 128

-- str.__len__(key) <= min(MAX_STRING_LENGTH, budget.scan)
pub affordable : Text → Budget → Bool
affordable key b = leb (length key) max_string_length && leb (b.scanned + length key) max_event_scan

-- _is_named_in
unfoldable pub is_named_in : Object → List Text → Bool
is_named_in (text_object exact key) names =
    leb (length key) max_key_length && any (text_eq key) names
is_named_in object names = false

-- type(key) is str and key == TRUNCATED
pub is_own_marker : Object → Bool
is_own_marker (text_object true key) = text_eq key truncated
is_own_marker object = false

pub large_integer : ℕ → Text
large_integer bits = codes "<int: " ++ (decimal bits ++ codes " bits>")

-- The text of an int, or how large it is.
unfoldable pub bounded_integer : Bool → ℕ → Text
unfolding large_integer
bounded_integer negative n =
    if leb (bit_length n) max_int_bits
    then integer_text negative n
    else large_integer (bit_length n)

-- The text of a key that is no str.
plain_key : Object → Text
unfolding bounded_integer
plain_key none_object = codes "None"
plain_key (boolean_object true) = codes "True"
plain_key (boolean_object false) = codes "False"
plain_key (integer_object negative n) = bounded_integer negative n
plain_key (real_object text) = text
plain_key object = unsupported

-- f"{len(value) - limit} more", or the note of the caller; len() may raise.
unfoldable pub more_than : Outcome ℕ → ℕ → Text → Outcome Text
more_than raised limit what = raised
more_than (returned size) limit what =
    returned (integer_text (ltb size limit) (max size limit - min size limit) ++ what)

-- if budget.exhausted: return TRUNCATED; budget.nodes -= 1
unfoldable pub when_affordable : Call Json → Call Json
when_affordable m =
    with_budget λ b. if exhausted b then pure (json_text truncated) else (take_node >> m)

abbrev pub budget_note : Text
budget_note = codes "event budget exhausted"

module _ (world : World) (sanitize : Sanitize) (nesting : ℕ) where
  pub text_key : Text → Bool → Call (Bool × Text)
  text_key key sensitive = scrub world sanitize nesting key >>= λ scrubbed.
      emit world (take max_key_length scrubbed) nesting >>= λ safe.
      pure (sensitive || is_sensitive_key world.library safe, safe)

  pub sanitize_object_key : Object → Call (Bool × Text)
  unfolding affordable text_key plain_key
  sanitize_object_key (text_object exact key) = with_budget λ b.
      if affordable key b
      then (take_scan (length key) >> text_key key (is_sensitive_key world.library key))
      else text_key key true
  sanitize_object_key object =
      charge (length (plain_key object) + 2) nesting >> pure (false, plain_key object)

  -- _sanitize_key
  unfoldable pub sanitize_key : ℕ → Call (Bool × Text)
  unfolding sanitize_object_key
  sanitize_key address = sanitize_object_key (world.heap address)

  -- _text, as a value
  unfoldable pub text_value : Text → Call Json
  text_value text = scrub world sanitize nesting text >>= λ scrubbed.
      emit world scrubbed nesting >>= λ safe. pure (json_text safe)

  module _ (depth : ℕ) (assembled : List Text) where
    -- The value of an entry whose key is not sensitive.
    pub item_value : ℕ × ℕ → Call Json
    unfolding text_value
    item_value (key, item) =
        if is_named_in (world.heap key) assembled
        then when_affordable (text_value (assembled_text world.heap item))
        else sanitize item (suc depth) nesting

    pub entry_value : ℕ × ℕ → Bool → Call Json
    unfolding item_value
    entry_value entry true =
        take_node >> (marker redacted nesting >>= λ text. pure (json_text text))
    entry_value entry false = item_value entry

    pub admit : ℕ × ℕ → JsonFields → Call JsonFields
    unfolding entry_value sanitize_key
    admit (key, item) result = sanitize_key key >>= λ named.
        entry_value (key, item) named.0 >>= λ value. pure (set_field result named.1 value)

    module _ (limit : ℕ) (skip : List Text) (beyond : Outcome Text) where
      -- The one marker that stands for what is beyond the limit.
      close_entries : ℕ × ℕ → JsonFields → Call JsonFields
      unfolding is_own_marker
      close_entries (key, item) result =
          if is_own_marker (world.heap key)
          then (sanitize item (suc depth) nesting >>= λ value.
              pure (set_field result truncated value))
          else (lift beyond >>= λ note. pure (set_field result truncated (json_text note)))

      entries_from : Bool → List (ℕ × ℕ) → ℕ → JsonFields → Call JsonFields
      unfolding admit close_entries
      entries_from ends [] admitted result = if ends then pure result else raise
      entries_from ends (entry ∷ entries) admitted result =
          if is_named_in (world.heap entry.0) skip
          then entries_from ends entries admitted result
          else if leb limit admitted
          then close_entries entry result
          else with_budget λ b.
            if exhausted b
            then pure (set_field result truncated (json_text budget_note))
            else (admit entry result >>= entries_from ends entries (suc admitted))

      -- _sanitize_entries
      unfoldable pub sanitize_entries : Items (ℕ × ℕ) → JsonFields → Call JsonFields
      unfolding entries_from
      sanitize_entries found result =
          let most = limit + length skip + 1 in
          entries_from (found.ends || leb most (length found.items)) (take most found.items) 0
            result
