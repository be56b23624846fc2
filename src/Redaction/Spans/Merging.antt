-- ===== src/Redaction/Spans/Merging.antt =====
-- Lemmas on the sort and the merge of _replace_spans.
use ai_voice_agent.Prelude.{
  ℕ, suc, ◌≤◌, ◌<◌, max, ◌≡◌, refl, ◌∙◌, inl, inr, Bool, true, false, ◌||◌, List, [], ◌∷◌, arith,
  leb, Bool-cases,
}
use ai_voice_agent.Redaction.Spans.{
  Span, sort_spans, merge_spans, merge_after, span_le, insert_span,
}
use ai_voice_agent.Redaction.Spans.Covering.{holds, covered, Fits}

-- The spans start at `low` or later, each no earlier than the one before.
abbrev pub StartsFrom : ℕ → List Span → Type 0
StartsFrom low [] = Unit
StartsFrom low ((s, e) ∷ spans) = (low ≤ s) × StartsFrom s spans

-- The spans are not empty, start at `low` or later, and leave a gap between one and the next.
abbrev pub Apart : ℕ → List Span → Type 0
Apart low [] = Unit
Apart low ((s, e) ∷ spans) = (low ≤ s) × (s < e) × Apart (suc e) spans

covered-insert_span :
    (x : Span) (spans : List Span) (i : ℕ)
    → covered (insert_span x spans) i ≡ (holds x i || covered spans i)
unfolding insert_span
covered-insert_span x [] i = refl
covered-insert_span x (y ∷ spans) i = ground (arith, covered-insert_span x spans i)

pub covered-sort_spans :
    (spans : List Span) (i : ℕ) → covered (sort_spans spans) i ≡ covered spans i
unfolding sort_spans
covered-sort_spans [] i = refl
covered-sort_spans (x ∷ spans) i = rw (covered-insert_span, covered-sort_spans spans i)

insert_span-StartsFrom :
    (x : Span) (spans : List Span) (low : ℕ)
    → low ≤ x.0
    → StartsFrom low spans
    → StartsFrom low (insert_span x spans)
unfolding insert_span span_le
insert_span-StartsFrom (s, e) [] low le h = (le, tt)
insert_span-StartsFrom (s, e) ((s', e') ∷ spans) low le h =
    ground (arith, insert_span-StartsFrom (s, e) spans s')

pub sort_spans-StartsFrom : (spans : List Span) → StartsFrom 0 (sort_spans spans)
unfolding sort_spans
sort_spans-StartsFrom [] = tt
sort_spans-StartsFrom (x ∷ spans) =
    insert_span-StartsFrom x (sort_spans spans) 0 (omega arith) (sort_spans-StartsFrom spans)

insert_span-Fits :
    (n : ℕ) (x : Span) (spans : List Span) → x.1 ≤ n → Fits n spans → Fits n (insert_span x spans)
unfolding insert_span
insert_span-Fits n x [] le h = (le, tt)
insert_span-Fits n x (y ∷ spans) le h = ground (arith, insert_span-Fits n x spans le h.1)

pub sort_spans-Fits : (n : ℕ) (spans : List Span) → Fits n spans → Fits n (sort_spans spans)
unfolding sort_spans
sort_spans-Fits n [] h = tt
sort_spans-Fits n (x ∷ spans) h =
    insert_span-Fits n x (sort_spans spans) h.0 (sort_spans-Fits n spans h.1)

StartsFrom-weaken :
    (low high : ℕ) (spans : List Span) → low ≤ high → StartsFrom high spans → StartsFrom low spans
StartsFrom-weaken low high [] le h = tt
StartsFrom-weaken low high ((s, e) ∷ spans) le h = (omega arith, h.1)

or_regroup : (x y z : Bool) → ((x || y) || z) ≡ (x || (y || z))
or_regroup true y z = refl
or_regroup false y z = refl

holds_empty : (s e i : ℕ) → leb e s ≡ true → holds (s, e) i ≡ false
holds_empty s e i h = ground arith

holds_widen :
    (a b s e i : ℕ)
    → a ≤ s
    → a < b
    → leb s b ≡ true
    → holds (a, max b e) i ≡ (holds (a, b) i || holds (s, e) i)
holds_widen a b s e i le lt joins = ground arith

covered-merge_after :
    (a b : ℕ) (spans : List Span) (i : ℕ)
    → a < b
    → StartsFrom a spans
    → covered (merge_after (a, b) spans) i ≡ (holds (a, b) i || covered spans i)
unfolding merge_after
covered-merge_after a b [] i lt h = refl
covered-merge_after a b ((s, e) ∷ spans) i lt h =
    let wide : StartsFrom a spans = StartsFrom-weaken a s spans h.0 h.1 in
    elim (Bool-cases (leb e s)) [
      | inl empty ↦
          rw (empty, covered-merge_after a b spans i lt wide, holds_empty s e i empty) refl
      | inr proper ↦ elim (Bool-cases (leb s b)) [
        | inl joins ↦
            rw
              (
                proper,
                joins,
                covered-merge_after a (max b e) spans i (omega arith) wide,
                holds_widen a b s e i h.0 lt joins,
              )
              (or_regroup (holds (a, b) i) (holds (s, e) i) (covered spans i))
        | inr beyond ↦ rw (proper, beyond, covered-merge_after s e spans i (ground arith) h.1)
      ]
    ]

merge_after-Apart :
    (a b low : ℕ) (spans : List Span)
    → low ≤ a
    → a < b
    → StartsFrom a spans
    → Apart low (merge_after (a, b) spans)
unfolding merge_after
merge_after-Apart a b low [] gap lt h = (gap, lt, tt)
merge_after-Apart a b low ((s, e) ∷ spans) gap lt h =
    let wide : StartsFrom a spans = StartsFrom-weaken a s spans h.0 h.1 in
    elim (Bool-cases (leb e s)) [
      | inl empty ↦ rw empty (merge_after-Apart a b low spans gap lt wide)
      | inr proper ↦ elim (Bool-cases (leb s b)) [
        | inl joins ↦
            rw (proper, joins) (merge_after-Apart a (max b e) low spans gap (omega arith) wide)
        | inr beyond ↦
            rw (proper, beyond)
              (gap, lt, merge_after-Apart s e (suc b) spans (ground arith) (ground arith) h.1)
      ]
    ]

merge_after-Fits :
    (n a b : ℕ) (spans : List Span) → b ≤ n → Fits n spans → Fits n (merge_after (a, b) spans)
unfolding merge_after
merge_after-Fits n a b [] le h = (le, tt)
merge_after-Fits n a b ((s, e) ∷ spans) le h = ground (
  arith,
  merge_after-Fits n a b spans le h.1,
  merge_after-Fits n a (max b e) spans (omega arith) h.1,
  merge_after-Fits n s e spans h.0 h.1,
)

covered-merge_spans :
    (low : ℕ) (spans : List Span) (i : ℕ)
    → StartsFrom low spans
    → covered (merge_spans spans) i ≡ covered spans i
unfolding merge_spans
covered-merge_spans low [] i h = refl
covered-merge_spans low ((s, e) ∷ spans) i h =
    ground (arith, covered-merge_spans s spans i h.1, covered-merge_after s e spans i)

merge_spans-Apart :
    (low : ℕ) (spans : List Span) → StartsFrom low spans → Apart low (merge_spans spans)
unfolding merge_spans
merge_spans-Apart low [] h = tt
merge_spans-Apart low ((s, e) ∷ spans) h =
    let wide : StartsFrom low spans = StartsFrom-weaken low s spans h.0 h.1 in
    ground (arith, merge_spans-Apart low spans wide, merge_after-Apart s e low spans)

merge_spans-Fits : (n : ℕ) (spans : List Span) → Fits n spans → Fits n (merge_spans spans)
unfolding merge_spans
merge_spans-Fits n [] h = tt
merge_spans-Fits n ((s, e) ∷ spans) h =
    ground (arith, merge_spans-Fits n spans h.1, merge_after-Fits n s e spans h.0 h.1)

module _ (spans : List Span) where
  -- The merged spans are not empty, in order, and no two of them touch.
  pub merged-Apart : Apart 0 (merge_spans (sort_spans spans))
  merged-Apart = merge_spans-Apart 0 (sort_spans spans) (sort_spans-StartsFrom spans)

  pub merged-covered : (i : ℕ) → covered (merge_spans (sort_spans spans)) i ≡ covered spans i
  merged-covered i =
      covered-merge_spans 0 (sort_spans spans) i (sort_spans-StartsFrom spans)
      ∙ covered-sort_spans spans i

  pub merged-Fits : (n : ℕ) → Fits n spans → Fits n (merge_spans (sort_spans spans))
  merged-Fits n h = merge_spans-Fits n (sort_spans spans) (sort_spans-Fits n spans h)
