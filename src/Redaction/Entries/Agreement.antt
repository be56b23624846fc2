-- ===== src/Redaction/Entries/Agreement.antt =====
-- redaction.py: keys and entries, with sanitisers that agree.
use ai_voice_agent.Prelude.{Outcome, ℕ, suc, ◌<◌, Bool, true, false, List, [], ◌∷◌, arith, leb}
use ai_voice_agent.Redaction.Agreement.{
  not_exhausted, Agrees-pure, Agrees-if, Agrees-with_budget, Agrees-bind, Agrees-later,
  Agrees-guarded, Agrees, agreement,
}
use ai_voice_agent.Redaction.Assembled.{assembled_text}
use ai_voice_agent.Redaction.Budgets.{Call, pure, exhausted}
use ai_voice_agent.Redaction.Described.Agreement.{charge-Agrees, emit-Agrees, marker-Agrees}
use ai_voice_agent.Redaction.Entries.{
  is_named_in, when_affordable, text_key, sanitize_object_key, sanitize_key, text_value, item_value,
  entry_value, admit, sanitize_entries, close_entries, entries_from,
}
use ai_voice_agent.Redaction.Json.{Sanitize}
use ai_voice_agent.Redaction.Json.Agreement.{AgreeFrom}
use ai_voice_agent.Redaction.Layers.Agreement.{scrub-Agrees}
use ai_voice_agent.Redaction.Markers.{truncated, max_event_nodes}
use ai_voice_agent.Redaction.Objects.{
  set_field, Items, Object, Json, JsonFields, World, text_object, json_text,
}
use ai_voice_agent.Text.{Text}

pub when_affordable-Agrees :
    {k : ℕ} (m n : Call Json)
    → (k < max_event_nodes → Agrees (suc k) m n)
    → Agrees k (when_affordable m) (when_affordable n)
unfolding when_affordable
when_affordable-Agrees m n h =
    Agrees-guarded exhausted (pure (json_text truncated)) m n not_exhausted
      (Agrees-pure (json_text truncated)) h

module _ {k : ℕ} (world : World) {s t : Sanitize} (h : AgreeFrom k s t) (nesting : ℕ) where
  text_key-Agrees :
      (key : Text) (sensitive : Bool)
      → Agrees k (text_key world s nesting key sensitive) (text_key world t nesting key sensitive)
  unfolding text_key
  text_key-Agrees key sensitive = search (agreement, scrub-Agrees world h, emit-Agrees)

  object_key-Agrees :
      (object : Object)
      → Agrees k
          (sanitize_object_key world s nesting object)
          (sanitize_object_key world t nesting object)
  unfolding sanitize_object_key
  object_key-Agrees (text_object exact key) = search (agreement, text_key-Agrees)
  object_key-Agrees object = search (agreement, charge-Agrees)

  sanitize_key-Agrees :
      (address : ℕ)
      → Agrees k (sanitize_key world s nesting address) (sanitize_key world t nesting address)
  unfolding sanitize_key
  sanitize_key-Agrees address = object_key-Agrees (world.heap address)

  pub text_value-Agrees :
      (text : Text) → Agrees k (text_value world s nesting text) (text_value world t nesting text)
  unfolding text_value
  text_value-Agrees text = search (agreement, scrub-Agrees world h, emit-Agrees)

  module _ (depth : ℕ) (assembled : List Text) where
    item_value-Agrees :
        (entry : ℕ × ℕ)
        → Agrees k
            (item_value world s nesting depth assembled entry)
            (item_value world t nesting depth assembled entry)
    unfolding item_value
    item_value-Agrees (key, item) =
        let later = λ (left : k < max_event_nodes).
          Agrees-later _ _ (omega arith) (text_value-Agrees (assembled_text world.heap item)) in
        Agrees-if _ _ _ _ _ (when_affordable-Agrees _ _ later) (h item (suc depth) nesting)

    entry_value-Agrees :
        (entry : ℕ × ℕ) (sensitive : Bool)
        → Agrees k
            (entry_value world s nesting depth assembled entry sensitive)
            (entry_value world t nesting depth assembled entry sensitive)
    unfolding entry_value
    entry_value-Agrees entry true = search (agreement, marker-Agrees)
    entry_value-Agrees entry false = item_value-Agrees entry

    admit-Agrees :
        (entry : ℕ × ℕ) (result : JsonFields)
        → Agrees k
            (admit world s nesting depth assembled entry result)
            (admit world t nesting depth assembled entry result)
    unfolding admit
    admit-Agrees (key, item) result = Agrees-bind _ _ _ _ (sanitize_key-Agrees key) (λ named.
        Agrees-bind _ _ _ _ (entry_value-Agrees (key, item) named.0)
          (λ value. Agrees-pure (set_field result named.1 value)))

    module _ (limit : ℕ) (skip : List Text) (beyond : Outcome Text) where
      close_entries-Agrees :
          (entry : ℕ × ℕ) (result : JsonFields)
          → Agrees k
              (close_entries world s nesting depth assembled limit skip beyond entry result)
              (close_entries world t nesting depth assembled limit skip beyond entry result)
      unfolding close_entries
      close_entries-Agrees (key, item) result = search (agreement, h)

      entries_from-Agrees :
          (ends : Bool) (entries : List (ℕ × ℕ)) (admitted : ℕ) (result : JsonFields)
          → Agrees k
              (entries_from world s nesting depth assembled limit skip beyond ends entries admitted
                result)
              (entries_from world t nesting depth assembled limit skip beyond ends entries admitted
                result)
      unfolding entries_from
      entries_from-Agrees ends [] admitted result = search agreement
      entries_from-Agrees ends (entry ∷ entries) admitted result =
          Agrees-if (is_named_in (world.heap entry.0) skip) _ _ _ _
            (entries_from-Agrees ends entries admitted result)
            (Agrees-if (leb limit admitted) _ _ _ _ (close_entries-Agrees entry result) (
              Agrees-with_budget _ _ λ b. Agrees-if (exhausted b) _ _ _ _ (Agrees-pure _) (
                Agrees-bind _ _ _ _ (admit-Agrees entry result)
                  (entries_from-Agrees ends entries (suc admitted)))))

      pub sanitize_entries-Agrees :
          (found : Items (ℕ × ℕ)) (result : JsonFields)
          → Agrees k
              (sanitize_entries world s nesting depth assembled limit skip beyond found result)
              (sanitize_entries world t nesting depth assembled limit skip beyond found result)
      unfolding sanitize_entries
      sanitize_entries-Agrees found result = search (agreement, entries_from-Agrees)
