-- ===== src/Redaction/Sequences/Agreement.antt =====
-- redaction.py: _sanitize_sequence, with sanitisers that agree.
use ai_voice_agent.Prelude.{Outcome, ℕ, suc, Bool, List, [], ◌∷◌, leb}
use ai_voice_agent.Redaction.Agreement.{
  Agrees-pure, Agrees-if, Agrees-with_budget, Agrees-bind, Agrees, agreement,
}
use ai_voice_agent.Redaction.Budgets.{exhausted}
use ai_voice_agent.Redaction.Json.{Sanitize}
use ai_voice_agent.Redaction.Json.Agreement.{AgreeFrom}
use ai_voice_agent.Redaction.Markers.{max_items}
use ai_voice_agent.Redaction.Objects.{append_item, Items, JsonItems, World}
use ai_voice_agent.Redaction.Sequences.{close_items, items_from, sanitize_sequence}

module _ {k : ℕ} (world : World) {s t : Sanitize} (h : AgreeFrom k s t) (nesting depth : ℕ) where
  close_items-Agrees :
      (size : Outcome ℕ) (item : ℕ) (result : JsonItems)
      → Agrees k
          (close_items world s nesting depth size item result)
          (close_items world t nesting depth size item result)
  unfolding close_items
  close_items-Agrees size item result = search (agreement, h)

  items_from-Agrees :
      (size : Outcome ℕ) (ends : Bool) (items : List ℕ) (index : ℕ) (result : JsonItems)
      → Agrees k
          (items_from world s nesting depth size ends items index result)
          (items_from world t nesting depth size ends items index result)
  unfolding items_from
  items_from-Agrees size ends [] index result = search agreement
  items_from-Agrees size ends (item ∷ items) index result =
      Agrees-if (leb max_items index) _ _ _ _ (close_items-Agrees size item result) (
        Agrees-with_budget _ _ λ b. Agrees-if (exhausted b) _ _ _ _ (Agrees-pure _) (
          Agrees-bind _ _ _ _ (h item (suc depth) nesting)
            (λ value. items_from-Agrees size ends items (suc index) (append_item result value))))

  pub sanitize_sequence-Agrees :
      (is_set : Bool) (size : Outcome ℕ) (found : Items ℕ)
      → Agrees k
          (sanitize_sequence world s nesting depth is_set size found)
          (sanitize_sequence world t nesting depth is_set size found)
  unfolding sanitize_sequence
  sanitize_sequence-Agrees is_set size found = search (agreement, items_from-Agrees)
