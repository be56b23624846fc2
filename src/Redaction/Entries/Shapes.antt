-- ===== src/Redaction/Entries/Shapes.antt =====
-- redaction.py: how deep and how wide the entries that _sanitize_entries makes are.
use ai_voice_agent.Prelude.{
  Outcome, ℕ, suc, ◌+◌, ◌≤◌, Bool, true, false, ◌||◌, List, [], ◌∷◌, arith, leb, length, take,
}
use ai_voice_agent.Redaction.Budgets.{Call, exhausted}
use ai_voice_agent.Redaction.Entries.{
  is_named_in, is_own_marker, when_affordable, budget_note, text_value, item_value, entry_value,
  admit, sanitize_entries, entries_from, close_entries,
}
use ai_voice_agent.Redaction.Json.{Sanitize}
use ai_voice_agent.Redaction.Markers.{truncated}
use ai_voice_agent.Redaction.Objects.{Items, Json, JsonFields, World, json_text, no_fields}
use ai_voice_agent.Redaction.Results.{
  Ensures-pure, Ensures-raise, Ensures-if, Ensures-with_budget, Ensures-bind, Ensures-last,
  Ensures-then, Ensures,
}
use ai_voice_agent.Redaction.Shapes.{
  set_field-Shaped, text-Shaped, no_fields-Shaped, Shaped, ShapedFields,
}
use ai_voice_agent.Text.{Text}

pub when_affordable-Shaped :
    {levels width : ℕ} (m : Call Json)
    → Ensures (Shaped levels width) m
    → Ensures (Shaped levels width) (when_affordable m)
unfolding when_affordable
when_affordable-Shaped m h = Ensures-with_budget _ λ b.
    Ensures-if (exhausted b) _ _ (λ _. Ensures-pure _ (text-Shaped truncated))
      (λ _. Ensures-then _ _ h)

wider_fields :
    {levels width count more : ℕ} {fields : JsonFields}
    → count ≤ more
    → ShapedFields levels width count fields
    → ShapedFields levels width more fields
wider_fields le h = record {
  fields_deep = h.fields_deep;
  fields_wide = h.fields_wide;
  fields_count = omega (arith, h.fields_count);
}

module _ (world : World) (sanitize : Sanitize) (nesting : ℕ) where
  pub text_value-Shaped :
      {levels width : ℕ} (text : Text)
      → Ensures (Shaped levels width) (text_value world sanitize nesting text)
  unfolding text_value
  text_value-Shaped text =
      Ensures-last _ _ (λ scrubbed. Ensures-last _ _ (λ safe. Ensures-pure _ (text-Shaped safe)))

  module _ {levels width : ℕ} (depth : ℕ) (assembled : List Text)
      (below : (item : ℕ) → Ensures (Shaped levels width) (sanitize item (suc depth) nesting)) where
    item_value-Shaped :
        (entry : ℕ × ℕ)
        → Ensures (Shaped levels width) (item_value world sanitize nesting depth assembled entry)
    unfolding item_value
    item_value-Shaped (key, item) =
        Ensures-if (is_named_in (world.heap key) assembled) _ _
          (λ _. when_affordable-Shaped _ (text_value-Shaped _)) (λ _. below item)

    entry_value-Shaped :
        (entry : ℕ × ℕ) (sensitive : Bool)
        → Ensures
            (Shaped levels width)
            (entry_value world sanitize nesting depth assembled entry sensitive)
    unfolding entry_value
    entry_value-Shaped entry true =
        Ensures-then _ _ (Ensures-last _ _ (λ text. Ensures-pure _ (text-Shaped text)))
    entry_value-Shaped entry false = item_value-Shaped entry

    admit-Shaped :
        {count : ℕ} (entry : ℕ × ℕ) (result : JsonFields)
        → ShapedFields levels width count result
        → Ensures
            (ShapedFields levels width (suc count))
            (admit world sanitize nesting depth assembled entry result)
    unfolding admit
    admit-Shaped (key, item) result h = Ensures-last _ _ (λ named.
        Ensures-bind (Shaped levels width) _ _ (entry_value-Shaped (key, item) named.0)
          (λ value hv. Ensures-pure _ (set_field-Shaped value result named.1 h hv)))

    module _ (limit : ℕ) (skip : List Text) (beyond : Outcome Text) where
      close_entries-Shaped :
          (entry : ℕ × ℕ) (result : JsonFields)
          → ShapedFields levels width limit result
          → Ensures
              (ShapedFields levels width (suc limit))
              (close_entries world sanitize nesting depth assembled limit skip beyond entry result)
      unfolding close_entries
      close_entries-Shaped (key, item) result h =
          Ensures-if (is_own_marker (world.heap key)) _ _
            (λ _.
              Ensures-bind (Shaped levels width) _ _ (below item)
                (λ value hv. Ensures-pure _ (set_field-Shaped value result truncated h hv)))
            (λ _. Ensures-last _ _ (λ note.
              Ensures-pure _
                (set_field-Shaped (json_text note) result truncated h (text-Shaped note))))

      entries_from-Shaped :
          (ends : Bool) (entries : List (ℕ × ℕ)) (admitted : ℕ) (result : JsonFields)
          → admitted ≤ limit
          → ShapedFields levels width admitted result
          → Ensures (ShapedFields levels width (suc limit)) (
              entries_from world sanitize nesting depth assembled limit skip beyond ends entries
                admitted result)
      unfolding entries_from
      entries_from-Shaped ends [] admitted result le h =
          Ensures-if ends _ _ (λ _. Ensures-pure _ (wider_fields (omega arith) h))
            (λ _. Ensures-raise)
      entries_from-Shaped ends (entry ∷ entries) admitted result le h =
          let room = wider_fields {more = limit} le h in
          Ensures-if (is_named_in (world.heap entry.0) skip) _ _
            (λ _. entries_from-Shaped ends entries admitted result le h)
            (λ _.
              Ensures-if (leb limit admitted) _ _ (λ _. close_entries-Shaped entry result room)
                (λ e. Ensures-with_budget _ λ b.
                  Ensures-if (exhausted b) _ _
                    (λ _. Ensures-pure _ (
                      set_field-Shaped (json_text budget_note) result truncated room
                        (text-Shaped budget_note)))
                    (λ _.
                      Ensures-bind (ShapedFields levels width (suc admitted)) _ _
                        (admit-Shaped entry result h)
                        (λ next hn.
                          entries_from-Shaped ends entries (suc admitted) next (ground arith) hn))))

      pub sanitize_entries-Shaped :
          (found : Items (ℕ × ℕ))
          → Ensures (ShapedFields levels width (suc limit)) (
              sanitize_entries world sanitize nesting depth assembled limit skip beyond found
                no_fields)
      unfolding sanitize_entries
      sanitize_entries-Shaped found =
          entries_from-Shaped (found.ends || leb (limit + length skip + 1) (length found.items))
            (take (limit + length skip + 1) found.items) 0 no_fields (omega arith) no_fields-Shaped
