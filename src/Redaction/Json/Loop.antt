-- ===== src/Redaction/Json/Loop.antt =====
-- redaction.py: the loop of _scrub_json_fragments ends.
use ai_voice_agent.Prelude.{
  returned, ℕ, zero, suc, ◌+◌, ◌≤◌, ◌<◌, ◌≡◌, refl, sym, ◌∙◌, ◌⊎◌, inl, inr, true, not, arith, leb,
  ◌==◌, Option-cases, length,
}
use ai_voice_agent.Redaction.Budgets.{Budget}
use ai_voice_agent.Redaction.Json.{
  Sanitize, max_json_nesting, holds_entries, json_value, json_decoded, json_round, json_found,
  json_loop, json_start, JsonScan,
}
use ai_voice_agent.Redaction.Objects.{Decoded, World, decoded_value, not_json}
use ai_voice_agent.Redaction.Results.{Ensures-pure, Ensures-if, Ensures-bind, Ensures-last, Ensures}
use ai_voice_agent.Text.{Text, codes, find_in, one_of}
use ai_voice_agent.Text.Search.{find_in-Found}

module _ (world : World) (sanitize : Sanitize) (text : Text) (nesting : ℕ) where
  -- A round moves the position on, or is the last one.
  Moved : ℕ → JsonScan → Type 0
  Moved start s = (s.finished ≡ true) ⊎ (start < s.position)

  json_value-Moved :
      (s : JsonScan) (start stop address : ℕ)
      → start < stop
      → Ensures (Moved start) (json_value world sanitize text nesting s start stop address)
  unfolding json_value Moved
  json_value-Moved s start stop address lt =
      Ensures-if (not (holds_entries (world.heap address))) _ _ (λ _. Ensures-pure _ (inr lt))
        (λ _.
          Ensures-if (leb max_json_nesting nesting) _ _ (λ _. Ensures-pure _ (inr lt))
            (λ _. Ensures-last _ _ (λ clean. Ensures-pure _ (inr lt))))

  json_decoded-Moved :
      (s : JsonScan) (start : ℕ) (decoded : Decoded)
      → Ensures (Moved start) (json_decoded world sanitize text nesting s start decoded)
  unfolding json_decoded Moved
  json_decoded-Moved s start (not_json failed_at) = Ensures-pure _ (inr (omega arith))
  json_decoded-Moved s start (decoded_value address more) =
      json_value-Moved s start (suc start + more) address (omega arith)

  json_round-Moved :
      (s : JsonScan) (start : ℕ)
      → Ensures (Moved start) (json_round world sanitize text nesting s start)
  unfolding json_round Moved
  json_round-Moved s start =
      Ensures-if (s.work == 0) _ _ (λ _. Ensures-pure _ (inl refl))
        (λ _. Ensures-last _ _ (json_decoded-Moved s start))

  Finished : JsonScan → Type 0
  Finished s = s.finished ≡ true

  position_advanced :
      (fuel position start : ℕ) (next : JsonScan)
      → position ≤ start
      → length text < position + suc fuel
      → Moved start next
      → (next.finished ≡ true) ⊎ (length text < next.position + fuel)
  unfolding Moved
  position_advanced fuel position start next le lt (inl e) = inl e
  position_advanced fuel position start next le lt (inr more) = inr (omega arith)

  json_loop-Finished :
      (fuel : ℕ) (s : JsonScan)
      → (s.finished ≡ true) ⊎ (length text < s.position + fuel)
      → Ensures Finished (json_loop world sanitize text nesting (suc fuel) s)
  unfolding json_loop json_found Finished
  json_loop-Finished fuel s (inl e) =
      Ensures-if s.finished _ _ (λ _. Ensures-pure s e) (λ no. absurd (let both = sym e ∙ no in cc))
  json_loop-Finished zero s (inr lt) =
      Ensures-if s.finished _ _ (λ e. Ensures-pure s e)
        (λ _. elim (Option-cases (find_in (one_of (codes "{[")) text s.position (length text))) [
          | inl none_left ↦ rw none_left (Ensures-pure (record s { finished = true }) refl)
          | inr (start, e) ↦
              let (low, high, _, _) =
                find_in-Found (one_of (codes "{[")) text s.position (length text) start e in
              absurd (omega arith)
        ])
  json_loop-Finished (suc fuel) s (inr lt) =
      Ensures-if s.finished _ _ (λ e. Ensures-pure s e)
        (λ _. elim (Option-cases (find_in (one_of (codes "{[")) text s.position (length text))) [
          | inl none_left ↦ rw none_left (Ensures-pure (record s { finished = true }) refl)
          | inr (start, e) ↦
              let (low, high, _, _) =
                find_in-Found (one_of (codes "{[")) text s.position (length text) start e in
              rw e (
                Ensures-bind (Moved start) _ _ (json_round-Moved s start) (λ next moved.
                  json_loop-Finished fuel next
                    (position_advanced fuel s.position start next low lt moved)))
        ])

  -- The loop over the brackets of a text ends by itself: with as many rounds as the model gives it,
  -- two more than the text has characters, a scan that returns has come to its end, whatever the
  -- decoder finds and however far it reads.
  pub json_loop_ends :
      (b : Budget) (s : JsonScan)
      → (json_loop world sanitize text nesting
          (length text + 2)
          (json_start world sanitize text nesting)
          b).0
        ≡ returned s
      → s.finished ≡ true
  unfolding json_start Finished
  json_loop_ends b s e =
      let fuel : length text + 2 ≡ suc (length text + 1) = omega arith in
      (json_loop-Finished (length text + 1) (json_start world sanitize text nesting)
          (inr (omega arith))).at
        b s (rw fuel at e)
