-- ===== src/Redaction/Sequences.antt =====
-- redaction.py: _sanitize_sequence, over a sanitiser of values.
pub mod Agreement
pub mod Shapes
use ai_voice_agent.Prelude.{
  Outcome, ℕ, suc, Bool, false, Option, none, some, List, [], ◌∷◌, ◌++◌, leb, if◌then◌else◌,
}
use ai_voice_agent.Redaction.Budgets.{◌>>=◌, Call, pure, raise, lift, with_budget, exhausted}
use ai_voice_agent.Redaction.Entries.{more_than}
use ai_voice_agent.Redaction.Json.{Sanitize}
use ai_voice_agent.Redaction.Markers.{truncated, max_items}
use ai_voice_agent.Redaction.Objects.{
  append_item, Items, Object, Json, JsonItems, World, text_object, json_text, json_list, no_items,
  item_then,
}
use ai_voice_agent.Text.{Text, codes, starts_with}
use ai_voice_agent.Text.Sorting.{text_before}

-- issubclass(type(item), str) and str.startswith(item, TRUNCATED)
pub starts_with_marker : Object → Bool
starts_with_marker (text_object exact text) = starts_with truncated text
starts_with_marker object = false

-- list.sort(key=repr)
pub insert_by_repr : (Json → Text) → Json → JsonItems → JsonItems
insert_by_repr repr value no_items = item_then value no_items
insert_by_repr repr value (item_then item items) =
    let later = item_then item (insert_by_repr repr value items) in
    if text_before (repr item) (repr value) then later else item_then value (item_then item items)

pub sort_by_repr : (Json → Text) → JsonItems → JsonItems
unfolding insert_by_repr
sort_by_repr repr no_items = no_items
sort_by_repr repr (item_then item items) = insert_by_repr repr item (sort_by_repr repr items)

-- The note that is appended, if there is one.
pub with_note : Option Text → JsonItems → JsonItems
with_note none items = items
with_note (some note) items = append_item items (json_text note)

module _ (world : World) (sanitize : Sanitize) (nesting depth : ℕ) where
  -- The item behind the last one admitted.
  pub close_items : Outcome ℕ → ℕ → JsonItems → Call (JsonItems × Option Text)
  unfolding starts_with_marker more_than
  close_items size item result =
      if starts_with_marker (world.heap item)
      then (sanitize item (suc depth) nesting >>= λ value. pure (append_item result value, none))
      else (lift (more_than size max_items (codes " more items")) >>= λ note.
          pure (result, some (truncated ++ (b' ' ∷ note))))

  pub items_from : Outcome ℕ → Bool → List ℕ → ℕ → JsonItems → Call (JsonItems × Option Text)
  unfolding close_items
  items_from size ends [] index result = if ends then pure (result, none) else raise
  items_from size ends (item ∷ items) index result =
      if leb max_items index
      then close_items size item result
      else with_budget λ b.
        if exhausted b
        then pure (result, some truncated)
        else (sanitize item (suc depth) nesting >>= λ value.
            items_from size ends items (suc index) (append_item result value))

  -- _sanitize_sequence; `is_set` where it is a set or frozenset
  unfoldable pub sanitize_sequence : Bool → Outcome ℕ → Items ℕ → Call Json
  unfolding items_from sort_by_repr with_note
  sanitize_sequence is_set size found =
      items_from size found.ends found.items 0 no_items >>= λ (made : JsonItems × Option Text).
      pure
        (json_list (with_note made.1 (if is_set then sort_by_repr world.repr made.0 else made.0)))
