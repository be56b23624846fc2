-- ===== src/Redaction/Pairs/Endings.antt =====
-- Lemmas on the loops of _swallows_a_value and _scrub_pairs.
use ai_voice_agent.Prelude.{
  loop_inv, Outcome, returned, raised, ℕ, suc, ◌+◌, ◌-◌, ◌≤◌, ◌<◌, ◌≡◌, refl, inl, inr, Bool, true,
  false, ◌||◌, Option, none, some, arith, leb, if◌then◌else◌, Bool-cases, length,
}
use ai_voice_agent.Redaction.Library.{Library}
use ai_voice_agent.Redaction.Pairs.{
  next_run, pair_span, swallow_running, swallow_scan, pairs_running, pairs_scan, SwallowScan,
  PairScan, swallow_pair, scrub_pair, scrub_run, mask_value, swallow_round, pairs_round, unanswered,
  swallow_run,
}
use ai_voice_agent.Redaction.Pairs.Rounds.{next_run_bounds, pair_span_bounds}
use ai_voice_agent.Redaction.Values.{ValueSpan}
use ai_voice_agent.Redaction.Values.Spanned.{Bounded}
use ai_voice_agent.Text.{Text}

module _ (lib : Library) (text : Text) where
  abbrev swallow_left : ℕ → SwallowScan → ℕ
  swallow_left stop s = if unanswered s.answer then suc (stop - s.position) else 0

  swallow_pair_falls :
      (stop key_end : ℕ) (s : SwallowScan) (found : Outcome (Option ValueSpan))
      → s.answer ≡ none
      → s.position < key_end
      → key_end ≤ stop
      → swallow_left stop (swallow_pair lib text stop key_end s found) < swallow_left stop s
  unfolding swallow_pair
  swallow_pair_falls stop key_end s raised open' moves fits = ground arith
  swallow_pair_falls stop key_end s (returned none) open' moves fits = ground arith
  swallow_pair_falls stop key_end s (returned (some inner)) open' moves fits = ground arith

  swallow_run_falls :
      (stop : ℕ) (s : SwallowScan) (found : Option (ℕ × ℕ))
      → s.answer ≡ none
      → ((a b : ℕ) → found ≡ some (a, b) → (s.position < b) × (b ≤ stop))
      → swallow_left stop (swallow_run lib text stop s found) < swallow_left stop s
  unfolding swallow_run
  swallow_run_falls stop s none open' where_found = ground arith
  swallow_run_falls stop s (some (a, b)) open' where_found =
      let (moves, fits) = where_found a b refl in
      swallow_pair_falls stop b s (pair_span lib text a b) open' moves fits

  -- The examination of the keys inside a span always comes to an answer.
  pub swallow_scan_ends :
      (start stop : ℕ)
      → stop ≤ length text
      → swallow_running lib text (swallow_scan lib text start stop) ≡ false
  unfolding swallow_scan swallow_round swallow_running
  swallow_scan_ends start stop fits =
      (loop_inv (λ s. Unit {0}) (swallow_left stop) (swallow_running lib text)
        (swallow_round lib text stop)
        (λ s h go. (
          tt,
          swallow_run_falls stop s (next_run lib text s.position stop) (ground arith) (λ a b e.
              let (low, some', high) = next_run_bounds lib text s.position stop a b fits e in
              (omega arith, high)),
        ))
        (length text + 2) (record { position = start; examined = 0; answer = none }) (omega arith)
        tt).1

  -- The loop of _scrub_pairs stands inside the text, with everything before it copied.
  record IsPairScan (s : PairScan) : Type 0 where
    in_order : s.copied ≤ s.position
    in_text : s.position ≤ length text

  abbrev pub pairs_left : PairScan → ℕ
  pairs_left s = if s.finished || s.failed then 0 else suc (length text - s.position)

  abbrev Advances : PairScan → PairScan → Type 0
  Advances s t = IsPairScan t × (pairs_left t < pairs_left s)

  mask_value-Advances :
      (s : PairScan) (span : ValueSpan) (swallows : Outcome Bool)
      → s.finished ≡ false
      → s.failed ≡ false
      → s.copied ≤ s.position
      → s.position < span.stop
      → span.stop ≤ length text
      → Advances s (mask_value lib text s span swallows)
  unfolding mask_value
  mask_value-Advances s span raised going fine copied moves fits =
      (record { in_order = copied; in_text = omega arith }, ground arith)
  mask_value-Advances s span (returned true) going fine copied moves fits =
      (record { in_order = omega arith; in_text = omega arith }, ground arith)
  mask_value-Advances s span (returned false) going fine copied moves fits =
      (record { in_order = omega arith; in_text = omega arith }, ground arith)

  scrub_pair-Advances :
      (key_end : ℕ) (s : PairScan) (found : Outcome (Option ValueSpan))
      → s.finished ≡ false
      → s.failed ≡ false
      → s.copied ≤ s.position
      → s.position < key_end
      → key_end ≤ length text
      → ((span : ValueSpan) → found ≡ returned (some span) → Bounded text key_end span)
      → Advances s (scrub_pair lib text key_end s found)
  unfolding scrub_pair
  scrub_pair-Advances key_end s raised going fine copied moves fits where_found =
      (record { in_order = copied; in_text = omega arith }, ground arith)
  scrub_pair-Advances key_end s (returned none) going fine copied moves fits where_found =
      (record { in_order = omega arith; in_text = omega arith }, ground arith)
  scrub_pair-Advances key_end s (returned (some span)) going fine copied moves fits where_found =
      let (a, b, c) = where_found span refl in
      elim (Bool-cases (leb span.stop span.start)) [
        | inl empty ↦
            rw empty (record { in_order = omega arith; in_text = omega arith }, ground arith)
        | inr proper ↦
            let later : s.position < span.stop = ground arith in
            rw proper (mask_value-Advances s span _ going fine copied later c)
      ]

  scrub_run-Advances :
      (s : PairScan) (found : Option (ℕ × ℕ))
      → IsPairScan s
      → s.finished ≡ false
      → s.failed ≡ false
      → ((a b : ℕ) → found ≡ some (a, b) → (s.position < b) × (b ≤ length text))
      → Advances s (scrub_run lib text s found)
  unfolding scrub_run
  scrub_run-Advances s none h going fine where_found =
      (record { in_order = h.in_order; in_text = h.in_text }, ground arith)
  scrub_run-Advances s (some (a, b)) h going fine where_found =
      let (moves, fits) = where_found a b refl in
      scrub_pair-Advances b s (pair_span lib text a b) going fine h.in_order moves fits
        (λ span e. pair_span_bounds lib text a b {span = span} fits e)

  pairs_running_lem :
      (s : PairScan) → pairs_running lib text s ≡ true → (s.finished ≡ false) × (s.failed ≡ false)
  unfolding pairs_running
  pairs_running_lem s go = ground arith

  -- Masking the pairs of a text ends: the loop has read the whole text, or a value has raised.
  pub pairs_scan_ends : pairs_running lib text (pairs_scan lib text) ≡ false
  unfolding pairs_scan pairs_round
  pairs_scan_ends =
      (loop_inv IsPairScan pairs_left (pairs_running lib text) (pairs_round lib text)
        (λ s h go.
          let (going, fine) = pairs_running_lem s go in
          scrub_run-Advances s (next_run lib text s.position (length text)) h going fine (λ a b e.
            let (low, some', high) =
              next_run_bounds lib text s.position (length text) a b (omega arith) e in
            (omega arith, high)))
        (length text + 2) _ (omega arith)
        (record { in_order = omega arith; in_text = omega arith })).1
