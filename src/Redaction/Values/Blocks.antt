-- ===== src/Redaction/Values/Blocks.antt =====
-- Lemmas on the loop and the result of _block_span.
use ai_voice_agent.Prelude.{
  loop_inv, ℕ, suc, ◌+◌, ◌-◌, ◌≤◌, ◌<◌, max, ◌≡◌, inl, inr, true, false, [], ◌∷◌, arith, leb,
  if◌then◌else◌, Bool-cases, length, drop,
}
use ai_voice_agent.Redaction.Library.{is_space}
use ai_voice_agent.Redaction.Markers.{line_ends}
use ai_voice_agent.Redaction.Values.{
  block_span, BlockScan, after_found, block_running, block_stop, blanks, block_round,
}
use ai_voice_agent.Text.{Text, skip_while, find_in, rfind_in, or_end, starts_with, one_of}
use ai_voice_agent.Text.Search.{skip_while_bounds, skip_while_ge, or_end_bounds}

module _ (text : Text) (key_indent low : ℕ) where
  IsBlockScan : BlockScan → Type 0
  IsBlockScan s = (low ≤ s.stop) × (s.stop ≤ length text)

  abbrev left : BlockScan → ℕ
  left s = if s.finished then 0 else suc (length text - s.stop)

  block_round_lem :
      (s : BlockScan)
      → IsBlockScan s
      → block_running text key_indent s ≡ true
      → IsBlockScan (block_round text key_indent s)
        × (left (block_round text key_indent s) < left s)
  unfolding IsBlockScan block_running block_round
  block_round_lem s h go =
      let following : ℕ =
        if starts_with (13 ∷ 10 ∷ []) (drop s.stop text) then s.stop + 2 else s.stop + 1 in
      let indent = skip_while (one_of blanks) text following (length text) in
      ground (
        arith,
        skip_while_ge (one_of blanks) text following (length text),
        or_end_bounds (one_of line_ends) text indent (length text),
      )

  block_stop_bounds :
      (stop : ℕ)
      → low ≤ stop
      → stop ≤ length text
      → (low ≤ block_stop text key_indent stop) × (block_stop text key_indent stop ≤ length text)
  unfolding block_stop IsBlockScan
  block_stop_bounds stop le inside =
      (loop_inv IsBlockScan left (block_running text key_indent) (block_round text key_indent)
        block_round_lem (length text + 2) (record { stop = stop; finished = false }) (omega arith)
        (le, inside)).0

-- The lines below a key lie behind it, inside the text.
pub block_span_bounds :
    (text : Text) (newline_at key_start : ℕ)
    → newline_at ≤ length text
    → let (start, stop) = block_span text newline_at key_start in
      (newline_at ≤ start) × (start ≤ stop) × (stop ≤ length text)
unfolding block_span
block_span_bounds text newline_at key_start inside =
    let line_start =
      max (after_found (rfind_in (one_of (10 ∷ [])) text 0 key_start))
        (after_found (rfind_in (one_of (13 ∷ [])) text 0 key_start)) in
    let key_indent = skip_while (one_of blanks) text line_start key_start - line_start in
    let start = skip_while is_space text newline_at (length text) in
    let (low, high) = skip_while_bounds is_space text newline_at (length text) inside in
    let (low', high') = or_end_bounds (one_of line_ends) text start (length text) high in
    let ends =
      block_stop_bounds text key_indent start
        (or_end (find_in (one_of line_ends) text start (length text)) (length text)) low' high' in
    elim (Bool-cases (leb (length text) start)) [
      | inl past ↦ rw past (low, omega arith, high)
      | inr within ↦ rw within (low, ends.0, ends.1)
    ]
