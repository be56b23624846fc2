-- ===== src/Redaction/Pairs/Harmless.antt =====
-- _scrub_pairs on texts that name nothing sensitive.
use ai_voice_agent.Prelude.{
  loop_inv, returned, ℕ, ◌+◌, ◌≤◌, ◌<◌, ◌≡◌, refl, false, Option, none, some, [], arith, length,
}
use ai_voice_agent.Redaction.Keys.{is_sensitive_text_key}
use ai_voice_agent.Redaction.Library.{Library}
use ai_voice_agent.Redaction.Pairs.{
  next_run, pair_span, pairs_running, pairs_scan, scrub_pairs, PairScan, scrub_pair, pairs_round,
  scrub_run,
}
use ai_voice_agent.Redaction.Pairs.Endings.{pairs_left}
use ai_voice_agent.Redaction.Pairs.Rounds.{next_run_bounds}
use ai_voice_agent.Text.{Text, slice}

module _ (lib : Library) (text : Text)
    (harmless : (position a b : ℕ)
      → next_run lib text position (length text) ≡ some (a, b)
      → is_sensitive_text_key lib (slice text a b) ≡ false) where
  -- Nothing has been written, and nothing has raised.
  abbrev IsIdle : PairScan → Type 0
  IsIdle s = (s.parts ≡ []) × (s.copied ≡ 0) × (s.failed ≡ false)

  pair_span_harmless :
      (a b : ℕ)
      → is_sensitive_text_key lib (slice text a b) ≡ false
      → pair_span lib text a b ≡ returned none
  unfolding pair_span
  pair_span_harmless a b e = rw e

  scrub_run-IsIdle :
      (s : PairScan) (found : Option (ℕ × ℕ))
      → IsIdle s
      → s.finished ≡ false
      → ((a b : ℕ)
          → found ≡ some (a, b)
          → (pair_span lib text a b ≡ returned none) × (s.position < b) × (b ≤ length text))
      → IsIdle (scrub_run lib text s found)
        × (pairs_left lib text (scrub_run lib text s found) < pairs_left lib text s)
  unfolding scrub_run scrub_pair
  scrub_run-IsIdle s none (p, c, f) going where_found = ((p, c, f), ground arith)
  scrub_run-IsIdle s (some (a, b)) (p, c, f) going where_found =
      let (e, moves, fits) = where_found a b refl in rw e ((p, c, f), ground arith)

  pairs_scan-IsIdle : IsIdle (pairs_scan lib text)
  unfolding pairs_scan pairs_round pairs_running
  pairs_scan-IsIdle =
      (loop_inv IsIdle (pairs_left lib text) (pairs_running lib text) (pairs_round lib text)
        (λ s h go.
          scrub_run-IsIdle s (next_run lib text s.position (length text)) h (ground arith) (λ a b e.
            let (low, some', high) =
              next_run_bounds lib text s.position (length text) a b (omega arith) e in
            (pair_span_harmless a b (harmless s.position a b e), omega arith, high)))
        (length text + 2) _ (omega arith) (refl, refl, refl)).0

  -- If no run of key characters of the text names sensitive data, the text comes back unchanged.
  pub scrub_pairs_harmless : scrub_pairs lib text ≡ returned text
  unfolding scrub_pairs
  scrub_pairs_harmless = let (p, c, f) = pairs_scan-IsIdle in rw (f, p, c)
