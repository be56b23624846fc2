-- ===== src/Redaction/Shapes.antt =====
-- redaction.py: how deep and how wide a sanitised value is.
use ai_voice_agent.Prelude.{ℕ, suc, ◌≤◌, max, ◌≡◌, refl, inl, inr, arith, Bool-cases}
use ai_voice_agent.Redaction.Objects.{
  append_item, set_field, Json, JsonItems, JsonFields, json_text, json_list, json_object, no_items,
  item_then, no_fields, field_then,
}
use ai_voice_agent.Text.{Text, text_eq}

unfoldable mutual
  -- How many levels of lists and objects there are.
  pub json_levels : Json → ℕ
  json_levels (json_list items) = suc (items_levels items)
  json_levels (json_object fields) = suc (fields_levels fields)
  json_levels value = 0

  pub items_levels : JsonItems → ℕ
  items_levels no_items = 0
  items_levels (item_then item items) = max (json_levels item) (items_levels items)

  pub fields_levels : JsonFields → ℕ
  fields_levels no_fields = 0
  fields_levels (field_then name value fields) = max (json_levels value) (fields_levels fields)

unfoldable pub count_items : JsonItems → ℕ
count_items no_items = 0
count_items (item_then item items) = suc (count_items items)

unfoldable pub count_fields : JsonFields → ℕ
count_fields no_fields = 0
count_fields (field_then name value fields) = suc (count_fields fields)

unfoldable mutual
  -- The largest number of entries of a list or object, at any level.
  pub json_width : Json → ℕ
  json_width (json_list items) = max (count_items items) (items_width items)
  json_width (json_object fields) = max (count_fields fields) (fields_width fields)
  json_width value = 0

  pub items_width : JsonItems → ℕ
  items_width no_items = 0
  items_width (item_then item items) = max (json_width item) (items_width items)

  pub fields_width : JsonFields → ℕ
  fields_width no_fields = 0
  fields_width (field_then name value fields) = max (json_width value) (fields_width fields)

-- At most `levels` levels of at most `width` entries.
pub record Shaped (levels width : ℕ) (value : Json) : Type 0 where
  pub deep : json_levels value ≤ levels
  pub wide : json_width value ≤ width

pub record ShapedItems (levels width count : ℕ) (items : JsonItems) : Type 0 where
  pub items_deep : items_levels items ≤ levels
  pub items_wide : items_width items ≤ width
  pub items_count : count_items items ≤ count

pub record ShapedFields (levels width count : ℕ) (fields : JsonFields) : Type 0 where
  pub fields_deep : fields_levels fields ≤ levels
  pub fields_wide : fields_width fields ≤ width
  pub fields_count : count_fields fields ≤ count

module _ (value : Json) where
  levels-append_item :
      (items : JsonItems)
      → items_levels (append_item items value) ≡ max (items_levels items) (json_levels value)
  unfolding append_item items_levels
  levels-append_item no_items = omega arith
  levels-append_item (item_then item items) = omega (arith, levels-append_item items)

  width-append_item :
      (items : JsonItems)
      → items_width (append_item items value) ≡ max (items_width items) (json_width value)
  unfolding append_item items_width
  width-append_item no_items = omega arith
  width-append_item (item_then item items) = omega (arith, width-append_item items)

  count-append_item :
      (items : JsonItems) → count_items (append_item items value) ≡ suc (count_items items)
  unfolding append_item count_items
  count-append_item no_items = refl
  count-append_item (item_then item items) = omega (arith, count-append_item items)

  levels-set_field :
      (fields : JsonFields) (key : Text)
      → fields_levels (set_field fields key value) ≤ max (fields_levels fields) (json_levels value)
  unfolding set_field fields_levels
  levels-set_field no_fields key = omega arith
  levels-set_field (field_then name found fields) key = elim (Bool-cases (text_eq name key)) [
    | inl e ↦ rw e (omega arith)
    | inr e ↦ rw e (omega (arith, levels-set_field fields key))
  ]

  width-set_field :
      (fields : JsonFields) (key : Text)
      → fields_width (set_field fields key value) ≤ max (fields_width fields) (json_width value)
  unfolding set_field fields_width
  width-set_field no_fields key = omega arith
  width-set_field (field_then name found fields) key = elim (Bool-cases (text_eq name key)) [
    | inl e ↦ rw e (omega arith)
    | inr e ↦ rw e (omega (arith, width-set_field fields key))
  ]

  count-set_field :
      (fields : JsonFields) (key : Text)
      → count_fields (set_field fields key value) ≤ suc (count_fields fields)
  unfolding set_field count_fields
  count-set_field no_fields key = omega arith
  count-set_field (field_then name found fields) key = elim (Bool-cases (text_eq name key)) [
    | inl e ↦ rw e (omega arith)
    | inr e ↦ rw e (omega (arith, count-set_field fields key))
  ]

  pub append_item-Shaped :
      {levels width count : ℕ} (items : JsonItems)
      → ShapedItems levels width count items
      → Shaped levels width value
      → ShapedItems levels width (suc count) (append_item items value)
  append_item-Shaped items h hv = record {
    items_deep = omega (arith, levels-append_item items, h.items_deep, hv.deep);
    items_wide = omega (arith, width-append_item items, h.items_wide, hv.wide);
    items_count = omega (arith, count-append_item items, h.items_count);
  }

  pub set_field-Shaped :
      {levels width count : ℕ} (fields : JsonFields) (key : Text)
      → ShapedFields levels width count fields
      → Shaped levels width value
      → ShapedFields levels width (suc count) (set_field fields key value)
  set_field-Shaped fields key h hv = record {
    fields_deep = omega (arith, levels-set_field fields key, h.fields_deep, hv.deep);
    fields_wide = omega (arith, width-set_field fields key, h.fields_wide, hv.wide);
    fields_count = omega (arith, count-set_field fields key, h.fields_count);
  }

pub text-Shaped : {levels width : ℕ} (text : Text) → Shaped levels width (json_text text)
unfolding json_levels json_width
text-Shaped text = record { deep = omega arith; wide = omega arith }

pub no_items-Shaped : {levels width : ℕ} → ShapedItems levels width 0 no_items
unfolding items_levels items_width count_items
no_items-Shaped = record {
  items_deep = omega arith;
  items_wide = omega arith;
  items_count = omega arith;
}

pub no_fields-Shaped : {levels width : ℕ} → ShapedFields levels width 0 no_fields
unfolding fields_levels fields_width count_fields
no_fields-Shaped = record {
  fields_deep = omega arith;
  fields_wide = omega arith;
  fields_count = omega arith;
}

pub list-Shaped :
    {levels width count : ℕ} {items : JsonItems}
    → count ≤ width
    → ShapedItems levels width count items
    → Shaped (suc levels) width (json_list items)
unfolding json_levels json_width
list-Shaped le h = record {
  deep = omega (arith, h.items_deep);
  wide = omega (arith, h.items_wide, h.items_count);
}

pub object-Shaped :
    {levels width count : ℕ} {fields : JsonFields}
    → count ≤ width
    → ShapedFields levels width count fields
    → Shaped (suc levels) width (json_object fields)
unfolding json_levels json_width
object-Shaped le h = record {
  deep = omega (arith, h.fields_deep);
  wide = omega (arith, h.fields_wide, h.fields_count);
}
