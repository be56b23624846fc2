-- ===== src/Text/Search.antt =====
-- Where the searches of Text.antt can end: inside the window that they were given, at a character
-- that satisfies the test.
use ai_voice_agent.Prelude.{
  ℕ, zero, suc, ◌+◌, ◌-◌, ◌≤◌, ◌<◌, min, ◌≡◌, refl, inl, inr, Bool, true, false, none, some, [],
  ◌∷◌, arith, Bool-cases, Option-cases, length, get_elem?, get_or, take, drop, length-take,
  length-drop,
}
use ai_voice_agent.Text.{
  Text, slice, prefix_length, skip_while, find_in, rfind_in, or_end, first_index, last_index,
}

pub length-slice :
    (text : Text) (start stop : ℕ)
    → length (slice text start stop) ≡ min (stop - start) (length text - start)
unfolding slice
length-slice text start stop =
    omega (arith, length-take (stop - start) (drop start text), length-drop start text)

pub get_elem?-drop :
    (n : ℕ) (text : Text) (k : ℕ) → get_elem? (drop n text) k ≡ get_elem? text (n + k)
get_elem?-drop zero text k = ground arith
get_elem?-drop (suc n) [] k = ground arith
get_elem?-drop (suc n) (c ∷ text) k = ground (arith, get_elem?-drop n text k)

pub get_elem?-take :
    (n : ℕ) (text : Text) (k : ℕ) (c : ℕ)
    → get_elem? (take n text) k ≡ some c
    → get_elem? text k ≡ some c
get_elem?-take zero text k c h = cc
get_elem?-take (suc n) [] k c h = cc
get_elem?-take (suc n) (d ∷ text) zero c h = h
get_elem?-take (suc n) (d ∷ text) (suc k) c h = get_elem?-take n text k c h

pub get_elem?-lt : (text : Text) (k : ℕ) {c : ℕ} → get_elem? text k ≡ some c → k < length text
get_elem?-lt [] k h = cc
get_elem?-lt (d ∷ text) zero h = omega arith
get_elem?-lt (d ∷ text) (suc k) h = omega (arith, get_elem?-lt text k h)

pub get_elem?-inside :
    (text : Text) (k : ℕ) → k < length text → (c : ℕ) × (get_elem? text k ≡ some c)
get_elem?-inside [] k h = absurd (omega arith)
get_elem?-inside (d ∷ text) zero h = (d, refl)
get_elem?-inside (d ∷ text) (suc k) h = get_elem?-inside text k (omega arith)

pub prefix_length-le : (p : ℕ → Bool) (text : Text) → prefix_length p text ≤ length text
unfolding prefix_length
prefix_length-le p [] = omega arith
prefix_length-le p (c ∷ text) = ground (arith, prefix_length-le p text)

-- The run stops at the end of the text or at a character that fails the test.
pub prefix_length_stop :
    (p : ℕ → Bool) (text : Text) {c : ℕ}
    → get_elem? text (prefix_length p text) ≡ some c
    → p c ≡ false
unfolding prefix_length
prefix_length_stop p [] h = cc
prefix_length_stop p (d ∷ text) {c} h = elim (Bool-cases (p d)) [
  | inl more ↦ prefix_length_stop p text (rw more at h)
  | inr stop ↦ ground arith
]

pub skip_while_bounds :
    (p : ℕ → Bool) (text : Text) (index stop : ℕ)
    → index ≤ stop
    → (index ≤ skip_while p text index stop) × (skip_while p text index stop ≤ stop)
unfolding skip_while
skip_while_bounds p text index stop h =
    omega (arith, prefix_length-le p (slice text index stop), length-slice text index stop)

pub skip_while_ge :
    (p : ℕ → Bool) (text : Text) (index stop : ℕ) → index ≤ skip_while p text index stop
unfolding skip_while
skip_while_ge p text index stop = omega arith

first_index_lem :
    (p : ℕ → Bool) (text : Text) (k : ℕ)
    → first_index p text ≡ some k
    → (c : ℕ) × (get_elem? text k ≡ some c) × (p c ≡ true)
unfolding first_index
first_index_lem p [] k h = cc
first_index_lem p (d ∷ text) k h = elim (Bool-cases (p d)) [
  | inl now ↦ (d, ground arith, now)
  | inr later ↦ elim (Option-cases (first_index p text)) [
    | inl missing ↦ absurd (ground arith)
    | inr (j, found) ↦
        let (c, there, passes) = first_index_lem p text j found in (c, ground arith, passes)
  ]
]

last_index_lem :
    (p : ℕ → Bool) (text : Text) (k : ℕ)
    → last_index p text ≡ some k
    → (c : ℕ) × (get_elem? text k ≡ some c) × (p c ≡ true)
unfolding last_index
last_index_lem p [] k h = cc
last_index_lem p (d ∷ text) k h = elim (Option-cases (last_index p text)) [
  | inl missing ↦ (d, ground arith, ground arith)
  | inr (j, found) ↦
      let (c, there, passes) = last_index_lem p text j found in (c, ground arith, passes)
]

pub get_elem?-slice :
    (text : Text) (start stop k : ℕ) {c : ℕ}
    → get_elem? (slice text start stop) k ≡ some c
    → (start + k < stop) × (start + k < length text) × (get_elem? text (start + k) ≡ some c)
unfolding slice
get_elem?-slice text start stop k {c} h =
    let there : get_elem? (drop start text) k ≡ some c =
      get_elem?-take (stop - start) (drop start text) k c h in
    let whole : get_elem? text (start + k) ≡ some c = rw (get_elem?-drop start text k) at there in
    (
      omega (
        arith,
        get_elem?-lt (take (stop - start) (drop start text)) k h,
        length-take (stop - start) (drop start text),
      ),
      get_elem?-lt text (start + k) whole,
      whole,
    )

-- What a successful search found: a position in the window, and its character passes the test.
abbrev pub Found : (ℕ → Bool) → Text → ℕ → ℕ → ℕ → Type 0
Found p text start stop k =
    (start ≤ k)
    × (k < stop)
    × (k < length text)
    × ((c : ℕ) × (get_elem? text k ≡ some c) × (p c ≡ true))

pub find_in-Found :
    (p : ℕ → Bool) (text : Text) (start stop k : ℕ)
    → find_in p text start stop ≡ some k
    → Found p text start stop k
unfolding find_in
find_in-Found p text start stop k h = elim (Option-cases (first_index p (slice text start stop))) [
  | inl missing ↦ absurd (ground arith)
  | inr (j, found) ↦
      let (c, there, passes) = first_index_lem p (slice text start stop) j found in
      let at_k : start + j ≡ k = ground arith in
      let (below, inside, whole) = get_elem?-slice text start stop j there in
      (omega arith, omega arith, omega arith, (c, rw at_k at whole, passes))
]

pub rfind_in-Found :
    (p : ℕ → Bool) (text : Text) (start stop k : ℕ)
    → rfind_in p text start stop ≡ some k
    → Found p text start stop k
unfolding rfind_in
rfind_in-Found p text start stop k h = elim (Option-cases (last_index p (slice text start stop))) [
  | inl missing ↦ absurd (ground arith)
  | inr (j, found) ↦
      let (c, there, passes) = last_index_lem p (slice text start stop) j found in
      let at_k : start + j ≡ k = ground arith in
      let (below, inside, whole) = get_elem?-slice text start stop j there in
      (omega arith, omega arith, omega arith, (c, rw at_k at whole, passes))
]

pub or_end_bounds :
    (p : ℕ → Bool) (text : Text) (start stop : ℕ)
    → start ≤ stop
    → (start ≤ or_end (find_in p text start stop) stop)
      × (or_end (find_in p text start stop) stop ≤ stop)
or_end_bounds p text start stop h = elim (Option-cases (find_in p text start stop)) [
  | inl missing ↦ rw missing (h, omega arith)
  | inr (k, found) ↦
      let (low, high, _, _) = find_in-Found p text start stop k found in rw found (low, omega arith)
]

pub get_or-inside :
    (text : Text) (k : ℕ) → k < length text → get_elem? text k ≡ some (get_or text k 0)
get_or-inside [] k h = absurd (omega arith)
get_or-inside (d ∷ text) zero h = refl
get_or-inside (d ∷ text) (suc k) h = get_or-inside text k (omega arith)

prefix_length_pos :
    (p : ℕ → Bool) (text : Text)
    → 0 < length text
    → p (get_or text 0 0) ≡ true
    → 0 < prefix_length p text
unfolding prefix_length
prefix_length_pos p [] h e = absurd (omega arith)
prefix_length_pos p (c ∷ text) h e = ground arith

get_or-slice :
    (text : Text) (start stop : ℕ)
    → start < stop
    → start < length text
    → get_or (slice text start stop) 0 0 ≡ get_or text start 0
unfolding slice
get_or-slice [] start stop lt inside = absurd (omega arith)
get_or-slice (d ∷ text) zero stop lt inside =
    let e : stop - 0 ≡ suc (stop - 1) = omega arith in rw e
get_or-slice (d ∷ text) (suc start) stop lt inside =
    let e : stop - suc start ≡ (stop - 1) - start = omega arith in
    rw e (get_or-slice text start (stop - 1) (omega arith) (omega arith))

-- The loop moves on from a character that satisfies the test.
pub skip_while_gt :
    (p : ℕ → Bool) (text : Text) (index stop : ℕ)
    → index < stop
    → index < length text
    → p (get_or text index 0) ≡ true
    → index < skip_while p text index stop
unfolding skip_while
skip_while_gt p text index stop lt inside passes = omega (
  arith,
  prefix_length_pos p (slice text index stop) (omega (arith, length-slice text index stop))
      (rw (get_or-slice text index stop lt inside) passes),
)

pub get_elem?-past : (text : Text) (k : ℕ) → length text ≤ k → get_elem? text k ≡ none
get_elem?-past [] k h = refl
get_elem?-past (d ∷ text) zero h = absurd (omega arith)
get_elem?-past (d ∷ text) (suc k) h = get_elem?-past text k (omega arith)

pub past-get_elem? : (text : Text) (k : ℕ) → get_elem? text k ≡ none → length text ≤ k
past-get_elem? [] k h = omega arith
past-get_elem? (d ∷ text) zero h = cc
past-get_elem? (d ∷ text) (suc k) h = omega (arith, past-get_elem? text k h)

pub drop-drop : (n m k : ℕ) (text : Text) → n + m ≡ k → drop m (drop n text) ≡ drop k text
drop-drop zero m k text sum = let same : m ≡ k = omega arith in rw same
drop-drop (suc n) zero zero [] sum = refl
drop-drop (suc n) zero (suc k) [] sum = refl
drop-drop (suc n) (suc m) zero [] sum = refl
drop-drop (suc n) (suc m) (suc k) [] sum = refl
drop-drop (suc n) m zero (c ∷ text) sum = absurd (omega arith)
drop-drop (suc n) m (suc k) (c ∷ text) sum = drop-drop n m k text (omega arith)
