-- ===== src/Redaction/Spans.antt =====
-- _replace_spans: the one place where masked stretches of a text are cut out and the mask put in.
pub mod Covering
pub mod Merging
pub mod Masking
use ai_voice_agent.Prelude.{
  ℕ, max, Bool, ◌&&◌, ◌||◌, List, [], ◌∷◌, ◌++◌, ltb, leb, ◌==◌, if◌then◌else◌, drop,
}
use ai_voice_agent.Redaction.Markers.{redacted}
use ai_voice_agent.Text.{Text, slice}

-- (start, end): the positions from start up to, and without, end.
abbrev pub Span : Type 0
Span = ℕ × ℕ

-- Python's order of tuples: by start, then by end.
span_le : Span → Span → Bool
span_le (s, e) (s', e') = ltb s s' || (s == s' && leb e e')

insert_span : Span → List Span → List Span
insert_span x [] = x ∷ []
insert_span x (y ∷ spans) =
    let later = y ∷ insert_span x spans in if span_le x y then x ∷ y ∷ spans else later

-- spans.sort()
pub sort_spans : List Span → List Span
unfolding insert_span span_le
sort_spans [] = []
sort_spans (x ∷ spans) = insert_span x (sort_spans spans)

-- The loop over the sorted spans once `merged` is not empty. Only merged[-1] is ever changed, so it
-- is carried along, and what stands before it is final.
merge_after : Span → List Span → List Span
merge_after last [] = last ∷ []
merge_after (a, b) ((s, e) ∷ spans) =
    let skipped = merge_after (a, b) spans in
    let widened = merge_after (a, max b e) spans in
    let apart = (a, b) ∷ merge_after (s, e) spans in
    if leb e s then skipped else if leb s b then widened else apart

pub merge_spans : List Span → List Span
unfolding merge_after
merge_spans [] = []
merge_spans ((s, e) ∷ spans) =
    let skipped = merge_spans spans in if leb e s then skipped else merge_after (s, e) spans

-- The text from `copied` on, with the mask in place of each merged span.
pub render_spans : Text → ℕ → List Span → Text
render_spans text copied [] = drop copied text
render_spans text copied ((start, end) ∷ merged) =
    slice text copied start ++ (redacted ++ render_spans text end merged)

unfoldable pub replace_spans : Text → List Span → Text
unfolding sort_spans merge_spans render_spans slice
replace_spans text [] = text
replace_spans text (span ∷ spans) = render_spans text 0 (merge_spans (sort_spans (span ∷ spans)))
