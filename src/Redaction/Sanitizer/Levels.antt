-- ===== src/Redaction/Sanitizer/Levels.antt =====
-- redaction.py: the levels of the recursion through _sanitize and _describe_exception.
use ai_voice_agent.Prelude.{ℕ, zero, suc, ◌+◌, ◌≤◌, ◌<◌, ◌≡◌, arith}
use ai_voice_agent.Redaction.Agreement.{Agrees, agreement}
use ai_voice_agent.Redaction.Budgets.{Budget}
use ai_voice_agent.Redaction.Described.Agreement.{describe_exception-Agrees}
use ai_voice_agent.Redaction.Entries.Agreement.{when_affordable-Agrees}
use ai_voice_agent.Redaction.Json.Agreement.{AgreeFrom}
use ai_voice_agent.Redaction.Markers.{max_event_nodes}
use ai_voice_agent.Redaction.Objects.{Object, World, exception_object}
use ai_voice_agent.Redaction.Sanitizer.{described_at, value_with, calls_within, Calls}
use ai_voice_agent.Redaction.Sanitizer.Agreement.{sanitize_object-Agrees}

module _ (world : World) where
  module _ {k : ℕ} {below below' : Calls}
      (values : k < max_event_nodes → AgreeFrom (suc k) below.value below'.value)
      (descriptions : k < max_event_nodes
        → (address : ℕ)
        → Agrees (suc k) (below.description address) (below'.description address)) where
    value_with-AgreeFrom : AgreeFrom k (value_with world below) (value_with world below')
    unfolding value_with
    value_with-AgreeFrom address depth nesting = when_affordable-Agrees _ _ (λ left.
        sanitize_object-Agrees world below below' (values left) (descriptions left) nesting address
          depth (world.heap address))

    described_at-Agrees :
        (object : Object)
        → Agrees k
            (described_at world below (value_with world below) object)
            (described_at world below' (value_with world below') object)
    unfolding described_at
    described_at-Agrees (exception_object exc) =
        describe_exception-Agrees world value_with-AgreeFrom descriptions exc
    described_at-Agrees object = search agreement

  record AgreeOn (k : ℕ) (c d : Calls) : Type 0 where
    pub values : AgreeFrom k c.value d.value
    pub descriptions : (address : ℕ) → Agrees k (c.description address) (d.description address)

  next_level :
      (f g k : ℕ)
      → (k < max_event_nodes → AgreeOn (suc k) (calls_within world f) (calls_within world g))
      → AgreeOn k (calls_within world (suc f)) (calls_within world (suc g))
  unfolding calls_within
  next_level f g k h = record {
    values = value_with-AgreeFrom (λ left. (h left).values) (λ left. (h left).descriptions);
    descriptions = λ address.
        described_at-Agrees (λ left. (h left).values) (λ left. (h left).descriptions)
          (world.heap address);
  }

  levels_agree :
      (f g k : ℕ)
      → max_event_nodes ≤ k + f
      → max_event_nodes ≤ k + g
      → AgreeOn k (calls_within world (suc f)) (calls_within world (suc g))
  levels_agree zero g k hf hg = next_level zero g k (λ left. absurd (omega arith))
  levels_agree (suc f) zero k hf hg = next_level (suc f) zero k (λ left. absurd (omega arith))
  levels_agree (suc f) (suc g) k hf hg =
      next_level (suc f) (suc g) k (λ left. levels_agree f g (suc k) (omega arith) (omega arith))

  module _ (f g address depth nesting : ℕ) (b : Budget) (enough : max_event_nodes ≤ b.visited + f)
      (also_enough : max_event_nodes ≤ b.visited + g) where
    -- Sanitising a value does the same, result and budget, with any two numbers of levels that are
    -- more than the nodes left: the recursion ends by itself, whatever the objects hold or contain.
    pub calls_within_enough :
        (calls_within world (suc f)).value address depth nesting b
        ≡ (calls_within world (suc g)).value address depth nesting b
    calls_within_enough =
        ((levels_agree f g b.visited enough also_enough).values address depth nesting).same b
          (omega arith)

  module _ (f address depth nesting : ℕ) (b : Budget)
      (enough : max_event_nodes ≤ b.visited + f) where
    -- Sanitising a value with more levels than there are nodes left, whether it returns or raises,
    -- only takes nodes and characters and never raises the output that is left, and it leaves the
    -- set of containers being expanded as it was.
    pub calls_within_budget :
        (b.visited ≤ ((calls_within world (suc f)).value address depth nesting b).1.visited)
        × (b.scanned ≤ ((calls_within world (suc f)).value address depth nesting b).1.scanned)
        × (((calls_within world (suc f)).value address depth nesting b).1.output ≤ b.output)
        × (((calls_within world (suc f)).value address depth nesting b).1.active ≡ b.active)
    calls_within_budget =
        let grown =
          ((levels_agree f f b.visited enough enough).values address depth nesting).grows b
            (omega arith) in
        (grown.nodes, grown.characters, grown.output_left, grown.same_active)
