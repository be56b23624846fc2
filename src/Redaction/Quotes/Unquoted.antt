-- ===== src/Redaction/Quotes/Unquoted.antt =====
-- Lemmas on the loop and the result of _unquoted_end.
use ai_voice_agent.Prelude.{
  loop_inv, ℕ, suc, ◌+◌, ◌-◌, ◌≤◌, ◌<◌, ◌≡◌, refl, inl, inr, true, false, Option, none, some, arith,
  if◌then◌else◌, Option-cases, length,
}
use ai_voice_agent.Redaction.Markers.{line_ends}
use ai_voice_agent.Redaction.Quotes.{
  end_running, end_scan, unquoted_end, EndScan, EndBranch, Reading, ends_here, skip_escape,
  quoted_in_text, quoted_in_line, end_round, is_backslash, after_quote, end_branch, end_step,
  line_end, end_of,
}
use ai_voice_agent.Redaction.Quotes.Closing.{closing_quote_bounds}
use ai_voice_agent.Text.{Text, one_of}
use ai_voice_agent.Text.Search.{skip_while_ge, or_end_bounds}

abbrev remaining : ℕ → EndScan → ℕ
remaining size s =
    if s.stopped then 0 else elim s.answer [ none ↦ suc (size - s.index) | some k ↦ 0 ]

module _ (text : Text) (start : ℕ) (how : Reading) (inside : start < length text) where
  -- The loop stands at or after the start, and what it answered lies between the start and the end.
  record IsEndScan (s : EndScan) : Type 0 where
    behind : start ≤ s.index
    answered : (k : ℕ) → s.answer ≡ some k → (start ≤ k) × (k ≤ length text)

  line_end_bounds : (start ≤ line_end text start how) × (line_end text start how ≤ length text)
  unfolding line_end
  line_end_bounds = or_end_bounds (one_of line_ends) text start (length text) (omega arith)

  after_quote_lem :
      (s : EndScan) (limit : ℕ) (found : Option ℕ)
      → IsEndScan s
      → s.answer ≡ none
      → s.stopped ≡ false
      → s.index < length text
      → start ≤ limit
      → limit ≤ length text
      → ((k : ℕ) → found ≡ some k → s.index < k)
      → IsEndScan (after_quote s limit found)
        × (remaining (length text) (after_quote s limit found) < remaining (length text) s)
  unfolding after_quote
  after_quote_lem s limit none h open' going below low high past =
      (record { behind = h.behind; answered = λ k e. ground arith }, ground arith)
  after_quote_lem s limit (some k) h open' going below low high past =
      let behind = h.behind in
      let further = past k refl in
      (record { behind = omega arith; answered = h.answered }, ground arith)

  end_step_lem :
      (b : EndBranch) (s : EndScan)
      → IsEndScan s
      → s.answer ≡ none
      → s.stopped ≡ false
      → s.index < length text
      → IsEndScan (end_step text start how b s)
        × (remaining (length text) (end_step text start how b s) < remaining (length text) s)
  unfolding end_step
  end_step_lem ends_here s h open' going below =
      (record { behind = h.behind; answered = h.answered }, ground arith)
  end_step_lem skip_escape s h open' going below =
      let behind = h.behind in
      let onward' = skip_while_ge is_backslash text s.index (length text) in
      (record { behind = omega arith; answered = h.answered }, ground arith)
  end_step_lem quoted_in_text s h open' going below =
      after_quote_lem s (length text) _ h open' going below (omega arith) (omega arith)
        (λ k e. (closing_quote_bounds text s.index (length text) k e).0)
  end_step_lem quoted_in_line s h open' going below =
      after_quote_lem s (line_end text start how) _ h open' going below line_end_bounds.0
        line_end_bounds.1
        (λ k e. (closing_quote_bounds text s.index (line_end text start how) k e).0)
  end_step_lem _ s h open' going below =
      let behind = h.behind in
      (record { behind = omega arith; answered = h.answered }, ground arith)

  end_running_lem :
      (s : EndScan)
      → end_running text start how s ≡ true
      → (s.answer ≡ none) × (s.stopped ≡ false) × (s.index < length text)
  unfolding end_running
  end_running_lem s go = ground arith

  end_scan_lem :
      IsEndScan (end_scan text start how)
      × (end_running text start how (end_scan text start how) ≡ false)
  unfolding end_scan end_round
  end_scan_lem =
      loop_inv IsEndScan (remaining (length text)) (end_running text start how)
        (end_round text start how)
        (λ s h go.
          let (a, b, c) = end_running_lem s go in
          end_step_lem (end_branch text start how s) s h a b c)
        (length text + 2) _ (omega arith) (record { behind = omega arith; answered = λ k e. cc })

  -- The scan for the end of an unquoted value ends by its own test.
  pub end_scan_ends : end_running text start how (end_scan text start how) ≡ false
  end_scan_ends = end_scan_lem.1

  end_of_bounds :
      (s : EndScan)
      → IsEndScan s
      → (start ≤ end_of (length text) s) × (end_of (length text) s ≤ length text)
  unfolding end_of
  end_of_bounds s h = elim (Option-cases s.answer) [
    | inl e ↦ let behind = h.behind in rw e (omega arith, omega arith)
    | inr (k, e) ↦ rw e (h.answered k e)
  ]

  -- The end of an unquoted value that starts inside the text lies between its start and the end of the text.
  pub unquoted_end_bounds :
      (start ≤ unquoted_end text start how) × (unquoted_end text start how ≤ length text)
  unfolding unquoted_end
  unquoted_end_bounds = end_of_bounds (end_scan text start how) end_scan_lem.0
