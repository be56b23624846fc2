-- ===== src/Redaction/Described/Agreement.antt =====
-- redaction.py: what is emitted, and the description of an exception, with sanitisers that agree.
use ai_voice_agent.Prelude.{
  ℕ, zero, suc, ◌+◌, ◌-◌, ◌≤◌, ◌<◌, ◌≡◌, refl, inl, inr, true, Option, none, some, List, [], ◌∷◌,
  arith, ltb, leb, Bool-cases,
}
use ai_voice_agent.Redaction.Agreement.{
  Grows-refl, Agrees-pure, Agrees-bind, Agrees-later, Agrees-guarded, Grows, Agrees, agreement,
}
use ai_voice_agent.Redaction.Budgets.{Call, pure, charge_cost, charge, Budget}
use ai_voice_agent.Redaction.Described.{
  emit_charged, emit, marker, summary_part, location_part, location_parts, problem_line,
  problem_lines, validation_summary, message_or, exception_message, described_members, with_members,
  describe_exception,
}
use ai_voice_agent.Redaction.Json.{Sanitize}
use ai_voice_agent.Redaction.Json.Agreement.{AgreeFrom}
use ai_voice_agent.Redaction.Layers.Agreement.{scrub-Agrees}
use ai_voice_agent.Redaction.Markers.{truncated, max_event_nodes, separator_cost}
use ai_voice_agent.Redaction.Objects.{
  Part, ValidationError, Errors, Exception, World, number_part, text_part, other_part, no_errors,
  errors_raise, errors_listed,
}
use ai_voice_agent.Text.{Text}

output-Grows : (b : Budget) (left : ℕ) → left ≤ b.output → Grows b (record b { output = left })
output-Grows b left le = record {
  nodes = omega arith;
  characters = omega arith;
  output_left = le;
  same_active = refl;
}

spend-Grows : (cost : ℕ) (b : Budget) → Grows b (charge_cost cost b).1
unfolding charge_cost
spend-Grows cost b = elim (Bool-cases (ltb b.output cost)) [
  | inl h ↦ rw h (output-Grows b 0 (omega arith))
  | inr h ↦ rw h (output-Grows b (b.output - cost) (omega arith))
]

charge-Grows :
    (rendered_length nesting : ℕ) (b : Budget) → Grows b (charge rendered_length nesting b).1
unfolding charge
charge-Grows rendered_length zero b = spend-Grows (rendered_length + separator_cost) b
charge-Grows rendered_length (suc nesting) b =
    let nested : ltb 0 (suc nesting) ≡ true = ground arith in rw nested (Grows-refl b)

pub charge-Agrees :
    {k : ℕ} (rendered_length nesting : ℕ)
    → Agrees k (charge rendered_length nesting) (charge rendered_length nesting)
charge-Agrees rendered_length nesting = record {
  same = λ b le. refl;
  grows = λ b le. charge-Grows rendered_length nesting b;
}

emit_charged-Grows :
    (world : World) (text : Text) (b : Budget) → Grows b (emit_charged world text b).1
unfolding emit_charged
emit_charged-Grows world text b =
    elim (Bool-cases (leb (world.dumps_length text + separator_cost) b.output)) [
      | inl h ↦ rw h (output-Grows b _ (omega arith))
      | inr h ↦ rw h (output-Grows b 0 (omega arith))
    ]

emit_charged-Agrees :
    {k : ℕ} (world : World) (text : Text)
    → Agrees k (emit_charged world text) (emit_charged world text)
unfolding emit_charged
emit_charged-Agrees world text = record {
  same = λ b le. refl;
  grows = λ b le. emit_charged-Grows world text b;
}

pub emit-Agrees :
    {k : ℕ} (world : World) (text : Text) (nesting : ℕ)
    → Agrees k (emit world text nesting) (emit world text nesting)
unfolding emit
emit-Agrees world text nesting = search (agreement, emit_charged-Agrees)

pub marker-Agrees :
    {k : ℕ} (text : Text) (nesting : ℕ) → Agrees k (marker text nesting) (marker text nesting)
unfolding marker
marker-Agrees text nesting = search (agreement, charge-Agrees)

module _ {k : ℕ} (world : World) {s t : Sanitize} (h : AgreeFrom k s t) where
  summary_part-Agrees :
      (limit : ℕ) (part : Part)
      → Agrees k (summary_part world s limit part) (summary_part world t limit part)
  unfolding summary_part
  summary_part-Agrees limit (number_part text) = search agreement
  summary_part-Agrees limit (text_part text) = search (agreement, scrub-Agrees world h)
  summary_part-Agrees limit other_part = search agreement

  location_part-Agrees :
      (part : Part) → Agrees k (location_part world s part) (location_part world t part)
  unfolding location_part
  location_part-Agrees (number_part text) = search agreement
  location_part-Agrees (text_part text) = summary_part-Agrees 64 (text_part text)
  location_part-Agrees other_part = search agreement

  location_parts-Agrees :
      (parts : List Part) → Agrees k (location_parts world s parts) (location_parts world t parts)
  unfolding location_parts
  location_parts-Agrees [] = search agreement
  location_parts-Agrees (part ∷ parts) = Agrees-bind _ _ _ _ (location_part-Agrees part) (λ text.
      Agrees-bind _ _ _ _ (location_parts-Agrees parts) (λ texts. Agrees-pure (text ∷ texts)))

  problem_line-Agrees :
      (error : ValidationError) → Agrees k (problem_line world s error) (problem_line world t error)
  unfolding problem_line
  problem_line-Agrees error = search (agreement, location_parts-Agrees, summary_part-Agrees)

  problem_lines-Agrees :
      (errors : List (Option ValidationError))
      → Agrees k (problem_lines world s errors) (problem_lines world t errors)
  unfolding problem_lines
  problem_lines-Agrees [] = search agreement
  problem_lines-Agrees (none ∷ errors) = problem_lines-Agrees errors
  problem_lines-Agrees (some error ∷ errors) =
      Agrees-bind _ _ _ _ (problem_line-Agrees error) (λ line.
        Agrees-bind _ _ _ _ (problem_lines-Agrees errors) (λ lines. Agrees-pure (line ∷ lines)))

  validation_summary-Agrees :
      (errors : Errors)
      → Agrees k (validation_summary world s errors) (validation_summary world t errors)
  unfolding validation_summary
  validation_summary-Agrees no_errors = search agreement
  validation_summary-Agrees errors_raise = search agreement
  validation_summary-Agrees (errors_listed errors) = search (agreement, problem_lines-Agrees)

  message_or-Agrees :
      (exc : Exception) (summary : Option Text)
      → Agrees k (message_or world s exc summary) (message_or world t exc summary)
  unfolding message_or
  message_or-Agrees exc none = scrub-Agrees world h 0 _
  message_or-Agrees exc (some summary) = search agreement

  exception_message-Agrees :
      (exc : Exception) → Agrees k (exception_message world s exc) (exception_message world t exc)
  unfolding exception_message
  exception_message-Agrees exc = search (agreement, validation_summary-Agrees, message_or-Agrees)

  module _ {describe describe' : ℕ → Call Text}
      (hd : k < max_event_nodes
        → (address : ℕ) → Agrees (suc k) (describe address) (describe' address)) where
    described_members-Agrees :
        (members : List ℕ)
        → Agrees k
            (described_members world s describe members)
            (described_members world t describe' members)
    unfolding described_members
    described_members-Agrees [] = Agrees-pure []
    described_members-Agrees (member ∷ members) =
        Agrees-guarded (λ b. leb max_event_nodes b.visited) (pure (truncated ∷ [])) _ _
          (λ b e. ground arith) (Agrees-pure (truncated ∷ []))
          (λ left. Agrees-bind _ _ _ _ (hd left member) (λ text.
            Agrees-bind _ _ _ _ (Agrees-later _ _ (omega arith) (described_members-Agrees members))
              (λ texts. Agrees-pure (text ∷ texts))))

    with_members-Agrees :
        (text : Text) (members : Option (List ℕ))
        → Agrees k
            (with_members world s describe text members)
            (with_members world t describe' text members)
    unfolding with_members
    with_members-Agrees text none = search agreement
    with_members-Agrees text (some members) = search (agreement, described_members-Agrees)

    pub describe_exception-Agrees :
        (exc : Exception)
        → Agrees k
            (describe_exception world s describe exc)
            (describe_exception world t describe' exc)
    unfolding describe_exception
    describe_exception-Agrees exc =
        search (agreement, exception_message-Agrees, with_members-Agrees)
