-- ===== src/Redaction/Spans/Covering.antt =====
-- What is asked of _replace_spans, without its sort and its merge: a position is hidden when some
-- span holds it, and every longest run of hidden positions is written as one mask.
use ai_voice_agent.Prelude.{
  ℕ, zero, suc, ◌+◌, ◌≤◌, ◌<◌, ◌≡◌, refl, ap, Bool, true, false, ◌&&◌, ◌||◌, List, [], ◌∷◌, ◌++◌,
  arith, ltb, leb, if◌then◌else◌, length, take, drop, All,
}
use ai_voice_agent.Redaction.Markers.{redacted}
use ai_voice_agent.Redaction.Spans.{Span}
use ai_voice_agent.Text.{Text}

-- The span holds the position.
abbrev pub holds : Span → ℕ → Bool
holds (s, e) i = leb s i && ltb i e

abbrev pub covered : List Span → ℕ → Bool
covered [] i = false
covered (span ∷ spans) i = holds span i || covered spans i

-- `inside` says that the position before was hidden, so that its run has its mask already.
pub masked : (ℕ → Bool) → ℕ → Bool → Text → Text
masked hidden i inside [] = []
masked hidden i inside (c ∷ text) =
    let hide = masked hidden (suc i) true text in
    let show = c ∷ masked hidden (suc i) false text in
    if hidden i then (if inside then hide else redacted ++ hide) else show

-- No span reaches past the end of a text of this length.
abbrev pub Fits : ℕ → List Span → Type 0
Fits n = All (λ span. span.1 ≤ n)

pub masked_ext :
    (f g : ℕ → Bool) (i : ℕ) (inside : Bool) (text : Text)
    → ((j : ℕ) → i ≤ j → f j ≡ g j)
    → masked f i inside text ≡ masked g i inside text
unfolding masked
masked_ext f g i inside [] same = refl
masked_ext f g i inside (c ∷ text) same = ground (
  arith,
  same i (omega arith),
  masked_ext f g (suc i) true text (λ j le. same j (omega arith)),
  masked_ext f g (suc i) false text (λ j le. same j (omega arith)),
)

-- Positions that are shown are copied.
pub masked_shown :
    (hidden : ℕ → Bool) (k i : ℕ) (text : Text)
    → ((j : ℕ) → i ≤ j → j < i + k → hidden j ≡ false)
    → masked hidden i false text ≡ take k text ++ masked hidden (i + k) false (drop k text)
unfolding masked
masked_shown hidden zero i text none_hidden = ground arith
masked_shown hidden (suc k) i [] none_hidden = refl
masked_shown hidden (suc k) i (c ∷ text) none_hidden = ground (
  arith,
  none_hidden i (omega arith) (omega arith),
  masked_shown hidden k (suc i) text (λ j low high. none_hidden j (omega arith) (omega arith)),
)

-- Positions that are hidden, in a run that has its mask, are dropped.
pub masked_hidden :
    (hidden : ℕ → Bool) (k i : ℕ) (text : Text)
    → ((j : ℕ) → i ≤ j → j < i + k → hidden j ≡ true)
    → masked hidden i true text ≡ masked hidden (i + k) true (drop k text)
unfolding masked
masked_hidden hidden zero i text all_hidden = ground arith
masked_hidden hidden (suc k) i [] all_hidden = refl
masked_hidden hidden (suc k) i (c ∷ text) all_hidden = ground (
  arith,
  all_hidden i (omega arith) (omega arith),
  masked_hidden hidden k (suc i) text (λ j low high. all_hidden j (omega arith) (omega arith)),
)

-- A run of hidden positions that begins in view is one mask.
pub masked_run :
    (hidden : ℕ → Bool) (k i : ℕ) (text : Text)
    → 0 < k
    → k ≤ length text
    → ((j : ℕ) → i ≤ j → j < i + k → hidden j ≡ true)
    → masked hidden i false text ≡ redacted ++ masked hidden (i + k) true (drop k text)
unfolding masked
masked_run hidden zero i text some_hidden fits all_hidden = absurd (omega arith)
masked_run hidden (suc k) i [] some_hidden fits all_hidden = absurd (omega arith)
masked_run hidden (suc k) i (c ∷ text) some_hidden fits all_hidden = ground (
  arith,
  all_hidden i (omega arith) (omega arith),
  masked_hidden hidden k (suc i) text (λ j low high. all_hidden j (omega arith) (omega arith)),
)

-- After a run has ended it does not matter that it was there.
pub masked_outside :
    (hidden : ℕ → Bool) (i : ℕ) (text : Text)
    → hidden i ≡ false
    → masked hidden i true text ≡ masked hidden i false text
unfolding masked
masked_outside hidden i [] shown = refl
masked_outside hidden i (c ∷ text) shown = ground arith

pub masked_nothing : (i : ℕ) (text : Text) → masked (covered []) i false text ≡ text
unfolding masked
masked_nothing i [] = refl
masked_nothing i (c ∷ text) = ap (λ rest. c ∷ rest) (masked_nothing (suc i) text)

-- Two texts of one length that differ at hidden positions only.
abbrev pub SameShown : (ℕ → Bool) → ℕ → Text → Text → Type 0
SameShown hidden i [] [] = Unit
SameShown hidden i [] (d ∷ ds) = ⊥
SameShown hidden i (c ∷ cs) [] = ⊥
SameShown hidden i (c ∷ cs) (d ∷ ds) = (hidden i ≡ false → c ≡ d) × SameShown hidden (suc i) cs ds

pub masked-SameShown :
    (hidden : ℕ → Bool) (i : ℕ) (inside : Bool) (text other : Text)
    → SameShown hidden i text other
    → masked hidden i inside text ≡ masked hidden i inside other
unfolding masked
masked-SameShown hidden i inside [] [] same = refl
masked-SameShown hidden i inside [] (d ∷ ds) same = absurd same
masked-SameShown hidden i inside (c ∷ cs) [] same = absurd same
masked-SameShown hidden i inside (c ∷ cs) (d ∷ ds) same = ground (
  arith,
  masked-SameShown hidden (suc i) true cs ds same.1,
  masked-SameShown hidden (suc i) false cs ds same.1,
)

pub SameShown-length :
    (hidden : ℕ → Bool) (i : ℕ) (text other : Text)
    → SameShown hidden i text other
    → length text ≡ length other
SameShown-length hidden i [] [] same = refl
SameShown-length hidden i [] (d ∷ ds) same = absurd same
SameShown-length hidden i (c ∷ cs) [] same = absurd same
SameShown-length hidden i (c ∷ cs) (d ∷ ds) same =
    ap suc (SameShown-length hidden (suc i) cs ds same.1)

pub covered-append :
    (spans others : List Span) (i : ℕ)
    → covered (spans ++ others) i ≡ covered spans i || covered others i
covered-append [] others i = refl
covered-append (span ∷ spans) others i = ground (arith, covered-append spans others i)
