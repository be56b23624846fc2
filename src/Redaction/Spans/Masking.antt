-- ===== src/Redaction/Spans/Masking.antt =====
-- _replace_spans against what Spans/Covering.antt asks.
use ai_voice_agent.Prelude.{
  ℕ, suc, ◌+◌, ◌-◌, ◌≤◌, ◌<◌, ◌≡◌, refl, sym, ◌∙◌, Bool, true, false, List, [], ◌∷◌, ◌++◌, arith,
  length, drop, length-drop,
}
use ai_voice_agent.Redaction.Markers.{redacted}
use ai_voice_agent.Redaction.Spans.{Span, sort_spans, merge_spans, render_spans, replace_spans}
use ai_voice_agent.Redaction.Spans.Covering.{
  covered, masked, Fits, masked_ext, masked_shown, masked_run, masked_outside, masked_nothing,
  SameShown, masked-SameShown, SameShown-length,
}
use ai_voice_agent.Redaction.Spans.Merging.{Apart, merged-Apart, merged-covered, merged-Fits}
use ai_voice_agent.Text.{Text, slice}
use ai_voice_agent.Text.Search.{drop-drop}
use mathlib.Core.Path.{subst}

-- Spans that start later cover nothing before.
uncovered_before :
    (low : ℕ) (spans : List Span) (i : ℕ) → Apart low spans → i < low → covered spans i ≡ false
uncovered_before low [] i h lt = refl
uncovered_before low ((s, e) ∷ spans) i h lt =
    ground (arith, uncovered_before (suc e) spans i h.2 (omega arith))

Apart-weaken : (low high : ℕ) (spans : List Span) → low ≤ high → Apart high spans → Apart low spans
Apart-weaken low high [] le h = tt
Apart-weaken low high ((s, e) ∷ spans) le h = (omega arith, h.1, h.2)

module _ (hidden : ℕ → Bool) (text : Text) (i j : ℕ) where
  -- The text up to a hidden run is copied.
  copy_up_to :
      i ≤ j
      → ((k : ℕ) → i ≤ k → k < j → hidden k ≡ false)
      → masked hidden i false (drop i text) ≡ slice text i j ++ masked hidden j false (drop j text)
  unfolding slice
  copy_up_to le clear =
      let sum : i + (j - i) ≡ j = omega arith in
      rw (drop-drop i (j - i) j text sum, sum) at
        (masked_shown hidden (j - i) i (drop i text) (λ k low high. clear k low (omega arith)))

  -- A hidden run, and what follows it, is one mask.
  mask_up_to :
      i < j
      → j ≤ length text
      → ((k : ℕ) → i ≤ k → k < j → hidden k ≡ true)
      → hidden j ≡ false
      → masked hidden i false (drop i text) ≡ redacted ++ masked hidden j false (drop j text)
  mask_up_to lt fits blocked ends =
      let sum : i + (j - i) ≡ j = omega arith in
      rw (drop-drop i (j - i) j text sum, sum, masked_outside hidden j (drop j text) ends) at
        (masked_run hidden (j - i) i (drop i text) (omega arith) (omega (arith, length-drop i text))
          (λ k low high. blocked k low (omega arith)))

render_spans_lem :
    (text : Text) (copied : ℕ) (spans : List Span)
    → Apart copied spans
    → Fits (length text) spans
    → render_spans text copied spans ≡ masked (covered spans) copied false (drop copied text)
unfolding render_spans
render_spans_lem text copied [] h fits = sym (masked_nothing copied (drop copied text))
render_spans_lem text copied ((s, e) ∷ spans) h fits =
    let hidden : ℕ → Bool = covered ((s, e) ∷ spans) in
    let before : (j : ℕ) → j < suc e → covered spans j ≡ false =
      λ j lt. uncovered_before (suc e) spans j h.2 lt in
    rw (
      copy_up_to hidden text copied s h.0 (λ j le lt. ground (arith, before j (omega arith))),
      mask_up_to hidden text s e h.1 fits.0 (λ j le lt. ground arith)
          (ground (arith, before e (omega arith))),
      masked_ext hidden (covered spans) e false (drop e text) (λ j le. ground arith),
      render_spans_lem text e spans (Apart-weaken e (suc e) spans (omega arith) h.2) fits.1,
    )

-- Whatever their order, and however they overlap or touch, spans that do not reach past the end of
-- the text are replaced so that exactly the positions that no span holds are kept, in their order, and each longest run of
-- positions that some span holds is one mask.
pub replace_spans-masked :
    (text : Text) (spans : List Span)
    → Fits (length text) spans
    → replace_spans text spans ≡ masked (covered spans) 0 false text
unfolding replace_spans
replace_spans-masked text [] fits = sym (masked_nothing 0 text)
replace_spans-masked text (span ∷ spans) fits =
    let given : List Span = span ∷ spans in
    render_spans_lem text 0 (merge_spans (sort_spans given)) (merged-Apart given)
      (merged-Fits given (length text) fits)
    ∙ masked_ext (covered (merge_spans (sort_spans given))) (covered given) 0 false text
        (λ j le. merged-covered given j)

-- If no span reaches past the end of the text, nothing that one covers can be told from the result: two texts of one length that differ only
-- at covered positions come out alike.
pub replace_spans_hides :
    (text other : Text) (spans : List Span)
    → Fits (length text) spans
    → SameShown (covered spans) 0 text other
    → replace_spans text spans ≡ replace_spans other spans
replace_spans_hides text other spans fits same =
    replace_spans-masked text spans fits
    ∙ (masked-SameShown (covered spans) 0 false text other same
        ∙ sym (
            replace_spans-masked other spans (
              subst (λ n. Fits n spans) (SameShown-length (covered spans) 0 text other same) fits)))
