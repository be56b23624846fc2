-- ===== src/Redaction/Sanitizer/Shapes.antt =====
-- redaction.py: how deep and how wide a value is that _sanitize returns.
use ai_voice_agent.Prelude.{
  Outcome, returned, raised, ℕ, zero, suc, ◌+◌, ◌-◌, ◌≤◌, ◌<◌, ◌≡◌, refl, Bool, true, false, [],
  ◌∷◌, arith, leb, if◌then◌else◌, length,
}
use ai_voice_agent.Redaction.Budgets.{◌>>=◌, Call, ◌>>◌, Budget}
use ai_voice_agent.Redaction.Entries.{max_int_bits, large_integer}
use ai_voice_agent.Redaction.Entries.Shapes.{
  when_affordable-Shaped, text_value-Shaped, sanitize_entries-Shaped,
}
use ai_voice_agent.Redaction.Markers.{truncated, cycle, repeated, unreadable, max_depth, max_items}
use ai_voice_agent.Redaction.Objects.{
  integer_text, bit_length, Items, Object, Json, World, text_object, mapping_object,
  sequence_object, set_object, none_object, boolean_object, integer_object, real_object,
  secret_object, exception_object, enum_object, duration_object, path_object, uuid_object,
  rendered_object, other_object, json_text, json_integer, json_list, no_items,
}
use ai_voice_agent.Redaction.Results.{
  Ensures-pure, Ensures-raise, Ensures-if, Ensures-with_budget, Ensures-caught, Ensures-bind,
  Ensures-last, Ensures-then, weaken, Ensures,
}
use ai_voice_agent.Redaction.Sanitizer.{
  charged, marked, enter, while_entered, expand, sanitize_container, sanitize_mapping,
  sanitize_object, value_with, no_calls, calls_within, Calls,
}
use ai_voice_agent.Redaction.Sequences.{sanitize_sequence}
use ai_voice_agent.Redaction.Sequences.Shapes.{sanitize_sequence-Shaped}
use ai_voice_agent.Redaction.Shapes.{
  json_levels, json_width, text-Shaped, no_items-Shaped, no_fields-Shaped, list-Shaped,
  object-Shaped, Shaped, ShapedFields,
}
use ai_voice_agent.Text.{Text, one_of}

-- What is returned at a depth; at the greatest depth it is no list or object.
abbrev ShapedAt : ℕ → Json → Type 0
ShapedAt depth = Shaped (max_depth - depth) (suc max_items)

fewer_levels :
    {levels more : ℕ} {value : Json}
    → levels ≤ more
    → Shaped levels (suc max_items) value
    → Shaped more (suc max_items) value
fewer_levels le h = record { deep = omega (arith, h.deep); wide = h.wide }

while_entered-Ensures :
    {A : Type 0} {P : A → Type 0} (address : ℕ) (m : Call A)
    → Ensures P m
    → Ensures P (while_entered address m)
unfolding while_entered ◌>>◌ ◌>>=◌ enter
while_entered-Ensures address m h = record {
  at = λ b a e. h.at (record b { active = address ∷ b.active; seen = address ∷ b.seen }) a e;
}

paid-Shaped :
    {n : ℕ} (paid : Bool) (value : Json)
    → Shaped n (suc max_items) value
    → Shaped n (suc max_items) (if paid then value else json_text truncated)
paid-Shaped true value h = h
paid-Shaped false value h = text-Shaped truncated

charged-Shaped :
    {n : ℕ} (cost nesting : ℕ) (value : Json)
    → Shaped n (suc max_items) value
    → Ensures (Shaped n (suc max_items)) (charged cost nesting value)
unfolding charged
charged-Shaped cost nesting value h =
    Ensures-last _ _ (λ paid. Ensures-pure _ (paid-Shaped paid value h))

marked-Shaped :
    {n : ℕ} (text : Text) (nesting : ℕ) → Ensures (Shaped n (suc max_items)) (marked text nesting)
unfolding marked
marked-Shaped text nesting = Ensures-last _ _ (λ shown. Ensures-pure _ (text-Shaped shown))

plain-Shaped :
    {n : ℕ} (value : Json)
    → json_levels value ≡ 0
    → json_width value ≡ 0
    → Shaped n (suc max_items) value
plain-Shaped value hl hw = record { deep = omega (arith, hl); wide = omega (arith, hw) }

module _ (nesting address depth : ℕ) (empty : Json) (read : Call Json)
    (empty_shape : depth < max_depth → ShapedAt depth empty)
    (read_shape : depth < max_depth → Ensures (ShapedAt depth) read) where
  expand-Shaped :
      (size : ℕ) → depth < max_depth → Ensures (ShapedAt depth) (expand address empty read size)
  unfolding expand
  expand-Shaped zero left = Ensures-pure empty (empty_shape left)
  expand-Shaped (suc size) left = Ensures-with_budget _ λ b.
      Ensures-if (one_of b.seen address) _ _ (λ _. Ensures-pure _ (text-Shaped repeated))
        (λ _. while_entered-Ensures address read (read_shape left))

  container-Shaped :
      (size : Outcome ℕ)
      → Ensures (ShapedAt depth) (sanitize_container nesting address depth size empty read)
  unfolding sanitize_container
  container-Shaped size = Ensures-with_budget _ λ b.
      Ensures-if (one_of b.active address) _ _ (λ _. Ensures-pure _ (text-Shaped cycle))
        (λ _.
          Ensures-if (leb max_depth depth) _ _ (λ _. Ensures-pure _ (text-Shaped truncated))
            (λ e.
              Ensures-caught _ _ (text-Shaped unreadable)
                (Ensures-then _ _ (Ensures-last _ _ (λ n. expand-Shaped n (ground arith))))))

module _ (world : World) (below : Calls) (nesting : ℕ)
    (values : (address n : ℕ) → Ensures (ShapedAt n) (below.value address n nesting)) where
  sequence-Shaped :
      (address depth : ℕ) (is_set : Bool) (size : Outcome ℕ) (found : Items ℕ)
      → Ensures (ShapedAt depth) (
          sanitize_container nesting address depth size
            (json_list no_items)
            (sanitize_sequence world below.value nesting depth is_set size found))
  sequence-Shaped address depth is_set size found =
      container-Shaped nesting address depth _ _
        (λ left.
          fewer_levels (omega arith) (list-Shaped (omega arith) (no_items-Shaped {levels = 0})))
        (λ left.
          weaken (λ value. fewer_levels (omega arith))
            (sanitize_sequence-Shaped world below.value nesting depth (max_depth - suc depth)
              (λ item. values item (suc depth)) is_set size found))
        size

  mapping-Shaped :
      (depth : ℕ) (size : Outcome ℕ) (found : Items (ℕ × ℕ))
      → depth < max_depth
      → Ensures (ShapedAt depth) (sanitize_mapping world below nesting depth size found)
  unfolding sanitize_mapping
  mapping-Shaped depth size found left =
      Ensures-bind (ShapedFields (max_depth - suc depth) (suc max_items) (suc max_items)) _ _
        (sanitize_entries-Shaped world below.value nesting depth []
          (λ item. values item (suc depth)) max_items [] _ found)
        (λ fields h. Ensures-pure _ (fewer_levels (omega arith) (object-Shaped (omega arith) h)))

  sanitize_object-Shaped :
      (address depth : ℕ) (object : Object)
      → Ensures (ShapedAt depth) (sanitize_object world below nesting address depth object)
  unfolding sanitize_object json_levels json_width
  sanitize_object-Shaped address depth (text_object exact text) =
      text_value-Shaped world below.value nesting text
  sanitize_object-Shaped address depth (mapping_object size found) =
      container-Shaped nesting address depth _ _
        (λ left.
          fewer_levels (omega arith) (object-Shaped (omega arith) (no_fields-Shaped {levels = 0})))
        (mapping-Shaped depth size found) size
  sanitize_object-Shaped address depth (sequence_object size found) =
      sequence-Shaped address depth false size found
  sanitize_object-Shaped address depth (set_object size found) =
      sequence-Shaped address depth true size found
  sanitize_object-Shaped address depth (exception_object exc) =
      Ensures-last _ _ (λ text. Ensures-last _ _ (λ shown. Ensures-pure _ (text-Shaped shown)))
  sanitize_object-Shaped address depth (enum_object stored) = values stored depth
  sanitize_object-Shaped address depth (path_object text) =
      text_value-Shaped world below.value nesting text
  sanitize_object-Shaped address depth (rendered_object raised) = Ensures-raise
  sanitize_object-Shaped address depth (rendered_object (returned text)) =
      marked-Shaped text nesting
  sanitize_object-Shaped address depth (integer_object negative n) =
      Ensures-if (leb (bit_length n) max_int_bits) _ _
        (λ _.
          charged-Shaped (length (integer_text negative n)) nesting (json_integer negative n)
            (plain-Shaped (json_integer negative n) refl refl))
        (λ _. marked-Shaped (large_integer (bit_length n)) nesting)
  sanitize_object-Shaped address depth (uuid_object number) = marked-Shaped _ nesting
  sanitize_object-Shaped address depth secret_object = marked-Shaped _ nesting
  sanitize_object-Shaped address depth other_object = marked-Shaped _ nesting
  sanitize_object-Shaped address depth none_object =
      charged-Shaped _ nesting _ (plain-Shaped _ refl refl)
  sanitize_object-Shaped address depth (boolean_object b) =
      charged-Shaped _ nesting _ (plain-Shaped _ refl refl)
  sanitize_object-Shaped address depth (real_object text) =
      charged-Shaped _ nesting _ (plain-Shaped _ refl refl)
  sanitize_object-Shaped address depth (duration_object text) =
      charged-Shaped _ nesting _ (plain-Shaped _ refl refl)

module _ (world : World) where
  values-Shaped :
      (f address depth nesting : ℕ)
      → Ensures (ShapedAt depth) ((calls_within world f).value address depth nesting)
  unfolding calls_within no_calls value_with
  values-Shaped zero address depth nesting = Ensures-raise
  values-Shaped (suc f) address depth nesting = when_affordable-Shaped _ (
      sanitize_object-Shaped world (calls_within world f) nesting
        (λ inner n. values-Shaped f inner n nesting) address depth (world.heap address))

  -- Whatever the objects are, sharing and cycles included: a value that is returned at a depth has
  -- at most as many levels of lists and objects as there are from that depth to 8, none of which has
  -- more than 201 entries, 200 of the original and one marker.
  pub calls_within_shape :
      (f address depth nesting : ℕ) (b : Budget) (value : Json)
      → ((calls_within world f).value address depth nesting b).0 ≡ returned value
      → (json_levels value ≤ max_depth - depth) × (json_width value ≤ max_items + 1)
  calls_within_shape f address depth nesting b value e =
      let h = (values-Shaped f address depth nesting).at b value e in
      (h.deep, omega (arith, h.wide))
