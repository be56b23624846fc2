-- ===== src/Text/Find.antt =====
-- Searches that find the first, or the last, occurrence.
use ai_voice_agent.Database.Sessions.Scopes.{later}
use ai_voice_agent.Prelude.{
  ℕ, zero, suc, ◌+◌, ◌-◌, ◌≤◌, ◌<◌, ◌≡◌, refl, ◌∙◌, inl, inr, Bool, true, false, some, [], ◌∷◌,
  arith, Bool-cases, Option-cases, length, get_elem?, take, drop, any, length-drop,
}
use ai_voice_agent.Text.{
  Text, slice, find_in, rfind_in, starts_with, find_text, first_index, last_index, first_sub,
}
use ai_voice_agent.Text.Search.{get_elem?-drop, drop-drop}

first_sub_lem :
    (needle text : Text) (k : ℕ)
    → first_sub needle text ≡ some k
    → (starts_with needle (drop k text) ≡ true) × (k ≤ length text)
unfolding first_sub
first_sub_lem needle [] k h = elim (Bool-cases (starts_with needle [])) [
  | inl here ↦ let e : 0 ≡ k = ground arith in rw (← e) (here, omega arith)
  | inr absent ↦ absurd (ground arith)
]
first_sub_lem needle (c ∷ text) k h = elim (Bool-cases (starts_with needle (c ∷ text))) [
  | inl here ↦ let e : 0 ≡ k = ground arith in rw (← e) (here, omega arith)
  | inr later ↦ elim (Option-cases (first_sub needle text)) [
    | inl missing ↦ absurd (ground arith)
    | inr (j, found) ↦
        let e : suc j ≡ k = ground arith in
        let (there, inside) = first_sub_lem needle text j found in rw (← e) (there, omega arith)
  ]
]

-- An occurrence is found, or one before it is.
first_sub_le :
    (needle text : Text) (m : ℕ)
    → starts_with needle (drop m text) ≡ true
    → (k : ℕ) × (first_sub needle text ≡ some k) × (k ≤ m)
unfolding first_sub
first_sub_le needle [] zero h = (0, rw h, omega arith)
first_sub_le needle [] (suc m) h = (0, rw h, omega arith)
first_sub_le needle (c ∷ text) zero h = (0, rw h, omega arith)
first_sub_le needle (c ∷ text) (suc m) h = elim (Bool-cases (starts_with needle (c ∷ text))) [
  | inl here ↦ (0, rw here, omega arith)
  | inr later ↦
      let (k, found, le) = first_sub_le needle text m h in (suc k, rw (later, found), omega arith)
]

pub find_text_lem :
    (needle text : Text) (start k : ℕ)
    → start ≤ length text
    → find_text needle text start ≡ some k
    → (start ≤ k) × (k ≤ length text) × (starts_with needle (drop k text) ≡ true)
unfolding find_text
find_text_lem needle text start k fits h =
    elim (Option-cases (first_sub needle (drop start text))) [
      | inl missing ↦ absurd (ground arith)
      | inr (j, found) ↦
          let e : start + j ≡ k = ground arith in
          let (there, inside) = first_sub_lem needle (drop start text) j found in
          (
            omega arith,
            omega (arith, length-drop start text),
            rw (drop-drop start j k text e) at there,
          )
    ]

pub find_text_le :
    (needle text : Text) (start m : ℕ)
    → start ≤ m
    → starts_with needle (drop m text) ≡ true
    → (k : ℕ) × (find_text needle text start ≡ some k) × (k ≤ m)
unfolding find_text
find_text_le needle text start m le h =
    let sum : start + (m - start) ≡ m = omega arith in
    let (k, found, le') =
      first_sub_le needle (drop start text) (m - start)
        (rw (drop-drop start (m - start) m text sum) h) in
    (start + k, rw found, omega arith)

last_index_ge :
    (p : ℕ → Bool) (text : Text) (m : ℕ) {c : ℕ}
    → get_elem? text m ≡ some c
    → p c ≡ true
    → (k : ℕ) × (last_index p text ≡ some k) × (m ≤ k)
unfolding last_index
last_index_ge p [] m h passes = cc
last_index_ge p (d ∷ text) zero {c} h passes = elim (Option-cases (last_index p text)) [
  | inl missing ↦ let e : p d ≡ true = ground arith in (0, rw (missing, e), omega arith)
  | inr (k, found) ↦ (suc k, rw found, omega arith)
]
last_index_ge p (d ∷ text) (suc m) h passes =
    let (k, found, le) = last_index_ge p text m h passes in (suc k, rw found, omega arith)

get_elem?-take_lt :
    (n : ℕ) (text : Text) (k : ℕ) → k < n → get_elem? (take n text) k ≡ get_elem? text k
get_elem?-take_lt zero text k lt = absurd (omega arith)
get_elem?-take_lt (suc n) [] k lt = refl
get_elem?-take_lt (suc n) (d ∷ text) zero lt = refl
get_elem?-take_lt (suc n) (d ∷ text) (suc k) lt = get_elem?-take_lt n text k (omega arith)

-- `rfind` finds the last: nothing in the window behind what it found satisfies the test.
pub rfind_in_ge :
    (p : ℕ → Bool) (text : Text) (start stop m : ℕ) {c : ℕ}
    → start ≤ m
    → m < stop
    → get_elem? text m ≡ some c
    → p c ≡ true
    → (k : ℕ) × (rfind_in p text start stop ≡ some k) × (m ≤ k)
unfolding rfind_in slice
rfind_in_ge p text start stop m {c} low high h passes =
    let sum : start + (m - start) ≡ m = omega arith in
    let there : get_elem? (take (stop - start) (drop start text)) (m - start) ≡ some c =
      rw
        (
          get_elem?-take_lt (stop - start) (drop start text) (m - start) (omega arith),
          get_elem?-drop start text (m - start),
          sum,
        )
        h in
    let (k, found, le) =
      last_index_ge p (take (stop - start) (drop start text)) (m - start) there passes in
    (start + k, rw found, omega arith)

first_index_le :
    (p : ℕ → Bool) (text : Text) (m : ℕ) {c : ℕ}
    → get_elem? text m ≡ some c
    → p c ≡ true
    → (k : ℕ) × (first_index p text ≡ some k) × (k ≤ m)
unfolding first_index
first_index_le p [] m h passes = cc
first_index_le p (d ∷ text) zero {c} h passes =
    let e : p d ≡ true = ground arith in (0, rw e refl, omega arith)
first_index_le p (d ∷ text) (suc m) h passes =
    let (k, found, le) = first_index_le p text m h passes in
    elim (Bool-cases (p d)) [
      | inl e ↦ (0, rw e refl, omega arith)
      | inr e ↦ (suc k, rw (e, found) refl, omega arith)
    ]

-- A place of the window, as a place of the slice.
get_elem?-slice :
    (text : Text) (start stop m : ℕ)
    → start ≤ m
    → m < stop
    → get_elem? (slice text start stop) (m - start) ≡ get_elem? text m
unfolding slice
get_elem?-slice text start stop m low high =
    let sum : start + (m - start) ≡ m = omega arith in
    rw
      (
        get_elem?-take_lt (stop - start) (drop start text) (m - start) (omega arith),
        get_elem?-drop start text (m - start),
        sum,
      )
      refl

-- `find` finds the first: what satisfies the test is not before what it found.
pub find_in_first :
    (p : ℕ → Bool) (text : Text) (start stop m : ℕ) {c : ℕ}
    → start ≤ m
    → m < stop
    → get_elem? text m ≡ some c
    → p c ≡ true
    → (k : ℕ) × (find_in p text start stop ≡ some k) × (k ≤ m)
unfolding find_in
find_in_first p text start stop m low high h passes =
    let there = get_elem?-slice text start stop m low high ∙ h in
    let (k, found, le) = first_index_le p (slice text start stop) (m - start) there passes in
    (start + k, rw found refl, omega arith)

any_at :
    (p : ℕ → Bool) (text : Text) (m : ℕ) {c : ℕ}
    → get_elem? text m ≡ some c
    → p c ≡ true
    → any p text ≡ true
any_at p [] m h passes = cc
any_at p (d ∷ text) zero h passes = let e : p d ≡ true = ground arith in rw e refl
any_at p (d ∷ text) (suc m) h passes = let rest = any_at p text m h passes in ground arith

-- A slice without the characters of a test has none of them at any of its places.
pub none_in_slice :
    (p : ℕ → Bool) (text : Text) (start stop m : ℕ) {c : ℕ}
    → any p (slice text start stop) ≡ false
    → start ≤ m
    → m < stop
    → get_elem? text m ≡ some c
    → p c ≡ false
none_in_slice p text start stop m {c} empty low high h = elim (Bool-cases (p c)) [
  | inr e ↦ e
  | inl e ↦
      let some_there =
        any_at p (slice text start stop) (m - start)
          (get_elem?-slice text start stop m low high ∙ h) e in
      cc
]
