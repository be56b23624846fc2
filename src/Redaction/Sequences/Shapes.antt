-- ===== src/Redaction/Sequences/Shapes.antt =====
-- redaction.py: how deep and how wide the list that _sanitize_sequence returns is.
use ai_voice_agent.Prelude.{
  Outcome, ℕ, suc, ◌≤◌, max, ◌≡◌, refl, inl, inr, Bool, true, false, Option, none, some, List, [],
  ◌∷◌, arith, leb, if◌then◌else◌, Bool-cases,
}
use ai_voice_agent.Redaction.Budgets.{exhausted}
use ai_voice_agent.Redaction.Json.{Sanitize}
use ai_voice_agent.Redaction.Markers.{max_items}
use ai_voice_agent.Redaction.Objects.{
  append_item, Items, Json, JsonItems, World, json_text, json_list, no_items, item_then,
}
use ai_voice_agent.Redaction.Results.{
  Ensures-pure, Ensures-raise, Ensures-if, Ensures-with_budget, Ensures-bind, Ensures-last, Ensures,
}
use ai_voice_agent.Redaction.Sequences.{
  starts_with_marker, insert_by_repr, sort_by_repr, with_note, close_items, items_from,
  sanitize_sequence,
}
use ai_voice_agent.Redaction.Shapes.{
  json_levels, items_levels, count_items, json_width, items_width, append_item-Shaped, text-Shaped,
  no_items-Shaped, list-Shaped, Shaped, ShapedItems,
}
use ai_voice_agent.Text.{Text}
use ai_voice_agent.Text.Sorting.{text_before}

-- A sort changes the order only.
module _ (repr : Json → Text) where
  levels-insert_by_repr :
      (value : Json) (items : JsonItems)
      → items_levels (insert_by_repr repr value items)
        ≡ max (json_levels value) (items_levels items)
  unfolding insert_by_repr items_levels
  levels-insert_by_repr value no_items = refl
  levels-insert_by_repr value (item_then item items) =
      elim (Bool-cases (text_before (repr item) (repr value))) [
        | inl e ↦ rw e (omega (arith, levels-insert_by_repr value items))
        | inr e ↦ rw e refl
      ]

  width-insert_by_repr :
      (value : Json) (items : JsonItems)
      → items_width (insert_by_repr repr value items) ≡ max (json_width value) (items_width items)
  unfolding insert_by_repr items_width
  width-insert_by_repr value no_items = refl
  width-insert_by_repr value (item_then item items) =
      elim (Bool-cases (text_before (repr item) (repr value))) [
        | inl e ↦ rw e (omega (arith, width-insert_by_repr value items))
        | inr e ↦ rw e refl
      ]

  count-insert_by_repr :
      (value : Json) (items : JsonItems)
      → count_items (insert_by_repr repr value items) ≡ suc (count_items items)
  unfolding insert_by_repr count_items
  count-insert_by_repr value no_items = refl
  count-insert_by_repr value (item_then item items) =
      elim (Bool-cases (text_before (repr item) (repr value))) [
        | inl e ↦ rw e (omega (arith, count-insert_by_repr value items))
        | inr e ↦ rw e refl
      ]

  levels-sort_by_repr :
      (items : JsonItems) → items_levels (sort_by_repr repr items) ≡ items_levels items
  unfolding sort_by_repr items_levels
  levels-sort_by_repr no_items = refl
  levels-sort_by_repr (item_then item items) =
      omega (arith, levels-sort_by_repr items, levels-insert_by_repr item (sort_by_repr repr items))

  width-sort_by_repr :
      (items : JsonItems) → items_width (sort_by_repr repr items) ≡ items_width items
  unfolding sort_by_repr items_width
  width-sort_by_repr no_items = refl
  width-sort_by_repr (item_then item items) =
      omega (arith, width-sort_by_repr items, width-insert_by_repr item (sort_by_repr repr items))

  count-sort_by_repr :
      (items : JsonItems) → count_items (sort_by_repr repr items) ≡ count_items items
  unfolding sort_by_repr count_items
  count-sort_by_repr no_items = refl
  count-sort_by_repr (item_then item items) =
      omega (arith, count-sort_by_repr items, count-insert_by_repr item (sort_by_repr repr items))

  sort_by_repr-Shaped :
      {levels width count : ℕ} (items : JsonItems)
      → ShapedItems levels width count items
      → ShapedItems levels width count (sort_by_repr repr items)
  sort_by_repr-Shaped items h = record {
    items_deep = omega (arith, levels-sort_by_repr items, h.items_deep);
    items_wide = omega (arith, width-sort_by_repr items, h.items_wide);
    items_count = omega (arith, count-sort_by_repr items, h.items_count);
  }

-- The items made so far and the note, if there is one, within so many entries.
WithNote : ℕ → ℕ → JsonItems × Option Text → Type 0
WithNote levels width (items, none) = ShapedItems levels width (suc max_items) items
WithNote levels width (items, some note) = ShapedItems levels width max_items items

wider_items :
    {levels width count more : ℕ} {items : JsonItems}
    → count ≤ more
    → ShapedItems levels width count items
    → ShapedItems levels width more items
wider_items le h = record {
  items_deep = h.items_deep;
  items_wide = h.items_wide;
  items_count = omega (arith, h.items_count);
}

with_note-Shaped :
    {levels width : ℕ} (repr : Json → Text) (is_set : Bool) (made : JsonItems × Option Text)
    → WithNote levels width made
    → suc max_items ≤ width
    → Shaped
        (suc levels)
        width
        (json_list (with_note made.1 (if is_set then sort_by_repr repr made.0 else made.0)))
unfolding with_note WithNote
with_note-Shaped repr true (items, none) h le = list-Shaped le (sort_by_repr-Shaped repr items h)
with_note-Shaped repr false (items, none) h le = list-Shaped le h
with_note-Shaped repr true (items, some note) h le =
    list-Shaped le
      (append_item-Shaped (json_text note) _ (sort_by_repr-Shaped repr items h) (text-Shaped note))
with_note-Shaped repr false (items, some note) h le =
    list-Shaped le (append_item-Shaped (json_text note) _ h (text-Shaped note))

module _ (world : World) (sanitize : Sanitize) (nesting depth levels : ℕ)
    (below : (item : ℕ)
      → Ensures (Shaped levels (suc max_items)) (sanitize item (suc depth) nesting)) where
  close_items-Shaped :
      (size : Outcome ℕ) (item : ℕ) (result : JsonItems)
      → ShapedItems levels (suc max_items) max_items result
      → Ensures
          (WithNote levels (suc max_items))
          (close_items world sanitize nesting depth size item result)
  unfolding close_items WithNote
  close_items-Shaped size item result h =
      Ensures-if (starts_with_marker (world.heap item)) _ _
        (λ _.
          Ensures-bind (Shaped levels (suc max_items)) _ _ (below item)
            (λ value hv. Ensures-pure _ (append_item-Shaped value result h hv)))
        (λ _. Ensures-last _ _ (λ note. Ensures-pure _ h))

  items_from-Shaped :
      (size : Outcome ℕ) (ends : Bool) (items : List ℕ) (index : ℕ) (result : JsonItems)
      → index ≤ max_items
      → ShapedItems levels (suc max_items) index result
      → Ensures
          (WithNote levels (suc max_items))
          (items_from world sanitize nesting depth size ends items index result)
  unfolding items_from WithNote
  items_from-Shaped size ends [] index result le h =
      Ensures-if ends _ _ (λ _. Ensures-pure _ (wider_items (omega arith) h)) (λ _. Ensures-raise)
  items_from-Shaped size ends (item ∷ items) index result le h =
      Ensures-if (leb max_items index) _ _
        (λ _. close_items-Shaped size item result (wider_items le h))
        (λ e. Ensures-with_budget _ λ b.
          Ensures-if (exhausted b) _ _ (λ _. Ensures-pure _ (wider_items le h))
            (λ _. Ensures-bind (Shaped levels (suc max_items)) _ _ (below item) (λ value hv.
              items_from-Shaped size ends items (suc index) (append_item result value)
                (ground arith) (append_item-Shaped value result h hv))))

  pub sanitize_sequence-Shaped :
      (is_set : Bool) (size : Outcome ℕ) (found : Items ℕ)
      → Ensures
          (Shaped (suc levels) (suc max_items))
          (sanitize_sequence world sanitize nesting depth is_set size found)
  unfolding sanitize_sequence
  sanitize_sequence-Shaped is_set size found =
      Ensures-bind (WithNote levels (suc max_items)) _ _
        (items_from-Shaped size found.ends found.items 0 no_items (omega arith) no_items-Shaped)
        (λ made h. Ensures-pure _ (with_note-Shaped world.repr is_set made h (omega arith)))
