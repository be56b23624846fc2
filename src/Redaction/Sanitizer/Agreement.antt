-- ===== src/Redaction/Sanitizer/Agreement.antt =====
-- redaction.py: _sanitize_container and _sanitize, with levels below that agree.
use ai_voice_agent.Prelude.{
  Outcome, returned, raised, ℕ, zero, suc, ◌≤◌, ◌≡◌, refl, inl, inr, Bool, true, false, List, [],
  ◌∷◌, arith, leb, ◌==◌, Bool-cases,
}
use ai_voice_agent.Redaction.Agreement.{
  Grows-refl, Grows-trans, catch-Grows, Agrees-later, Grows, Agrees, agreement,
}
use ai_voice_agent.Redaction.Budgets.{
  ◌>>=◌, Call, pure, continue_with, ◌>>◌, lift, caught, with_budget, charge, Budget,
}
use ai_voice_agent.Redaction.Described.{describe_exception}
use ai_voice_agent.Redaction.Described.Agreement.{
  charge-Agrees, emit-Agrees, marker-Agrees, describe_exception-Agrees,
}
use ai_voice_agent.Redaction.Entries.Agreement.{text_value-Agrees, sanitize_entries-Agrees}
use ai_voice_agent.Redaction.Json.Agreement.{AgreeFrom}
use ai_voice_agent.Redaction.Library.{remove_if}
use ai_voice_agent.Redaction.Markers.{max_depth, separator_cost}
use ai_voice_agent.Redaction.Objects.{
  Items, Exception, Object, Json, World, text_object, mapping_object, sequence_object, set_object,
  none_object, boolean_object, integer_object, real_object, secret_object, exception_object,
  enum_object, duration_object, path_object, uuid_object, rendered_object, other_object, json_list,
  json_object, no_items, no_fields,
}
use ai_voice_agent.Redaction.Sanitizer.{
  charged, marked, enter, while_entered, expand, sanitize_container, sanitize_mapping,
  sanitize_object, Calls, leave_after,
}
use ai_voice_agent.Redaction.Sequences.{sanitize_sequence}
use ai_voice_agent.Redaction.Sequences.Agreement.{sanitize_sequence-Agrees}
use ai_voice_agent.Text.{Text, one_of}

-- The two calls do the same on one budget, which grows.
abbrev AgreeAt : {A : Type 0} → Budget → Call A → Call A → Type 0
AgreeAt b m n = (m b ≡ n b) × Grows b (m b).1

continue-AgreeAt :
    {A B : Type 0} (b : Budget) (r : Outcome A × Budget) (f g : A → Call B)
    → Grows b r.1
    → ((a : A) (c : Budget) → Grows b c → AgreeAt c (f a) (g a))
    → (continue_with r f ≡ continue_with r g) × Grows b (continue_with r f).1
continue-AgreeAt b (returned a, c) f g grown h =
    let (same, more) = h a c grown in (same, Grows-trans grown more)
continue-AgreeAt b (raised, c) f g grown h = (refl, grown)

remove_absent :
    (address : ℕ) (active : List ℕ)
    → one_of active address ≡ false
    → remove_if (λ other. other == address) active ≡ active
unfolding remove_if
remove_absent address [] h = refl
remove_absent address (other ∷ active) h =
    let absent : one_of active address ≡ false = ground arith in
    let different : (other == address) ≡ false = ground arith in
    rw (different, remove_absent address active absent) refl

remove_entered :
    (address : ℕ) (active : List ℕ)
    → one_of active address ≡ false
    → remove_if (λ other. other == address) (address ∷ active) ≡ active
unfolding remove_if
remove_entered address active h =
    let same : (address == address) ≡ true = ground arith in
    rw same (remove_absent address active h)

left-Grows :
    (address : ℕ) {b : Budget} {A : Type 0} (r : Outcome A × Budget)
    → one_of b.active address ≡ false
    → Grows (record b { active = address ∷ b.active; seen = address ∷ b.seen }) r.1
    → Grows b (leave_after address r).1
left-Grows address {b} (result, c) absent h = record {
  nodes = h.nodes;
  characters = h.characters;
  output_left = h.output_left;
  same_active = rw h.same_active (remove_entered address b.active absent);
}

while_entered-AgreeAt :
    {A : Type 0} {k : ℕ} (address : ℕ) (b : Budget) (m n : Call A)
    → k ≤ b.visited
    → one_of b.active address ≡ false
    → Agrees k m n
    → AgreeAt b (while_entered address m) (while_entered address n)
unfolding while_entered ◌>>◌ ◌>>=◌ enter
while_entered-AgreeAt address b m n le absent h =
    let inner = record b { active = address ∷ b.active; seen = address ∷ b.seen } in
    (rw (h.same inner le) refl, left-Grows address (m inner) absent (h.grows inner le))

caught-AgreeAt :
    (a : Json) (b : Budget) (m n : Call Json) → AgreeAt b m n → AgreeAt b (caught a m) (caught a n)
unfolding caught
caught-AgreeAt a b m n (same, grown) = (rw same refl, catch-Grows a b (m b) grown)

module _ {k : ℕ} (address : ℕ) (empty : Json) {read read' : Call Json}
    (h : Agrees k read read') where
  expand-AgreeAt :
      (size : ℕ) (b : Budget)
      → k ≤ b.visited
      → one_of b.active address ≡ false
      → AgreeAt b (expand address empty read size) (expand address empty read' size)
  unfolding expand with_budget pure
  expand-AgreeAt zero b le absent = (refl, Grows-refl b)
  expand-AgreeAt (suc size) b le absent = elim (Bool-cases (one_of b.seen address)) [
    | inl e ↦ rw e (refl, Grows-refl b)
    | inr e ↦ rw e (while_entered-AgreeAt address b read read' le absent h)
  ]

  charged-AgreeAt :
      (nesting : ℕ) (size : Outcome ℕ) (b : Budget)
      → k ≤ b.visited
      → one_of b.active address ≡ false
      → AgreeAt b
          (charge separator_cost nesting >> (lift size >>= expand address empty read))
          (charge separator_cost nesting >> (lift size >>= expand address empty read'))
  unfolding ◌>>◌ ◌>>=◌ lift
  charged-AgreeAt nesting raised b le absent =
      continue-AgreeAt b (charge separator_cost nesting b) _ _
        ((charge-Agrees separator_cost nesting).grows b le) (λ _ c grown. (refl, Grows-refl c))
  charged-AgreeAt nesting (returned size) b le absent =
      continue-AgreeAt b (charge separator_cost nesting b) _ _
        ((charge-Agrees separator_cost nesting).grows b le)
        (λ _ c grown.
          expand-AgreeAt size c (omega (arith, grown.nodes)) (rw grown.same_active absent))

  container-AgreeAt :
      (nesting depth : ℕ) (size : Outcome ℕ) (b : Budget)
      → k ≤ b.visited
      → AgreeAt b
          (sanitize_container nesting address depth size empty read)
          (sanitize_container nesting address depth size empty read')
  unfolding sanitize_container with_budget pure
  container-AgreeAt nesting depth size b le = elim (Bool-cases (one_of b.active address)) [
    | inl e ↦ rw e (refl, Grows-refl b)
    | inr e ↦ elim (Bool-cases (leb max_depth depth)) [
      | inl d ↦ rw (e, d) (refl, Grows-refl b)
      | inr d ↦ rw (e, d) (caught-AgreeAt _ b _ _ (charged-AgreeAt nesting size b le e))
    ]
  ]

  container-Agrees :
      (nesting depth : ℕ) (size : Outcome ℕ)
      → Agrees k
          (sanitize_container nesting address depth size empty read)
          (sanitize_container nesting address depth size empty read')
  container-Agrees nesting depth size = record {
    same = λ b le. (container-AgreeAt nesting depth size b le).0;
    grows = λ b le. (container-AgreeAt nesting depth size b le).1;
  }

charged-Agrees :
    {k : ℕ} (cost nesting : ℕ) (value : Json)
    → Agrees k (charged cost nesting value) (charged cost nesting value)
unfolding charged
charged-Agrees cost nesting value = search (agreement, charge-Agrees)

marked-Agrees :
    {k : ℕ} (text : Text) (nesting : ℕ) → Agrees k (marked text nesting) (marked text nesting)
unfolding marked
marked-Agrees text nesting = search (agreement, marker-Agrees)

module _ {k : ℕ} (world : World) (below below' : Calls)
    (values : AgreeFrom k below.value below'.value)
    (descriptions : (address : ℕ)
      → Agrees k (below.description address) (below'.description address))
    (nesting : ℕ) where
  sequence-Agrees :
      (address depth : ℕ) (is_set : Bool) (size : Outcome ℕ) (found : Items ℕ)
      → Agrees k
          (sanitize_container nesting address depth size
            (json_list no_items)
            (sanitize_sequence world below.value nesting depth is_set size found))
          (sanitize_container nesting address depth size
            (json_list no_items)
            (sanitize_sequence world below'.value nesting depth is_set size found))
  sequence-Agrees address depth is_set size found =
      container-Agrees address (json_list no_items)
        (sanitize_sequence-Agrees world values nesting depth is_set size found) nesting depth size

  mapping-Agrees :
      (depth : ℕ) (size : Outcome ℕ) (found : Items (ℕ × ℕ))
      → Agrees k
          (sanitize_mapping world below nesting depth size found)
          (sanitize_mapping world below' nesting depth size found)
  unfolding sanitize_mapping
  mapping-Agrees depth size found =
      search (agreement, sanitize_entries-Agrees world values nesting depth)

  exception-Agrees :
      (exc : Exception)
      → Agrees k
          (describe_exception world below.value below.description exc)
          (describe_exception world below'.value below'.description exc)
  exception-Agrees exc =
      describe_exception-Agrees world values
        (λ left address. Agrees-later _ _ (omega arith) (descriptions address)) exc

  pub sanitize_object-Agrees :
      (address depth : ℕ) (object : Object)
      → Agrees k
          (sanitize_object world below nesting address depth object)
          (sanitize_object world below' nesting address depth object)
  unfolding sanitize_object
  sanitize_object-Agrees address depth (text_object exact text) =
      text_value-Agrees world values nesting text
  sanitize_object-Agrees address depth (mapping_object size found) =
      container-Agrees address (json_object no_fields) (mapping-Agrees depth size found) nesting
        depth size
  sanitize_object-Agrees address depth (sequence_object size found) =
      sequence-Agrees address depth false size found
  sanitize_object-Agrees address depth (set_object size found) =
      sequence-Agrees address depth true size found
  sanitize_object-Agrees address depth (exception_object exc) =
      search (agreement, exception-Agrees, emit-Agrees)
  sanitize_object-Agrees address depth (enum_object stored) = values stored depth nesting
  sanitize_object-Agrees address depth (path_object text) =
      text_value-Agrees world values nesting text
  sanitize_object-Agrees address depth (rendered_object raised) = search agreement
  sanitize_object-Agrees address depth (rendered_object (returned text)) =
      marked-Agrees text nesting
  sanitize_object-Agrees address depth (integer_object negative n) =
      search (agreement, charged-Agrees, marked-Agrees)
  sanitize_object-Agrees address depth (uuid_object number) = marked-Agrees _ nesting
  sanitize_object-Agrees address depth secret_object = marked-Agrees _ nesting
  sanitize_object-Agrees address depth other_object = marked-Agrees _ nesting
  sanitize_object-Agrees address depth none_object = charged-Agrees _ nesting _
  sanitize_object-Agrees address depth (boolean_object b) = charged-Agrees _ nesting _
  sanitize_object-Agrees address depth (real_object text) = charged-Agrees _ nesting _
  sanitize_object-Agrees address depth (duration_object text) = charged-Agrees _ nesting _
