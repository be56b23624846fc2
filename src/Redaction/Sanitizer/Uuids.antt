-- ===== src/Redaction/Sanitizer/Uuids.antt =====
-- redaction.py: the form of _uuid_text, and the number that it is read back as.
use ai_voice_agent.Prelude.{
  ℕ, zero, suc, ◌+◌, ◌-◌, ◌/◌, ◌%◌, ◌≤◌, ◌<◌, ◌≡◌, refl, sym, ap, ◌∙◌, inl, inr, true, false, some,
  [], ◌∷◌, ◌++◌, arith, ◌==◌, ==_iff, Bool-cases, length, get_elem?, take, drop, length-append,
  length-take, length-drop, All, All-append,
}
use ai_voice_agent.Redaction.Library.{hex_from, hex_number, remove_if}
use ai_voice_agent.Redaction.Sanitizer.{hex_character, hex_digits, group_digits, uuid_text}
use ai_voice_agent.Redaction.Sanitizer.Digits.{hex_from-hex_digits, length-hex_digits}
use ai_voice_agent.Text.{Text, slice}
use ai_voice_agent.Text.Search.{drop-drop}

-- Without its dashes.
pub without_dashes : Text → Text
without_dashes = remove_if (λ c. c == b'-')

hex_character_kept : (d : ℕ) → d < 16 → (hex_character d == b'-') ≡ false
unfolding hex_character
hex_character_kept d h = ground arith

without_dashes-append :
    (front back : Text)
    → without_dashes (front ++ back) ≡ without_dashes front ++ without_dashes back
unfolding without_dashes remove_if
without_dashes-append [] back = refl
without_dashes-append (c ∷ front) back = elim (Bool-cases (c == b'-')) [
  | inl e ↦ rw e (without_dashes-append front back)
  | inr e ↦ rw e (ap (λ rest. c ∷ rest) (without_dashes-append front back))
]

-- Texts without a dash in them.
Dashless : Text → Type 0
Dashless = All (λ c. (c == b'-') ≡ false)

without_dashes-Dashless : (text : Text) → Dashless text → without_dashes text ≡ text
unfolding without_dashes remove_if Dashless
without_dashes-Dashless [] h = refl
without_dashes-Dashless (c ∷ text) (hc, h) =
    rw hc (ap (λ rest. c ∷ rest) (without_dashes-Dashless text h))

hex_digits-Dashless : (width n : ℕ) → Dashless (hex_digits width n)
unfolding hex_digits Dashless
hex_digits-Dashless zero n = tt
hex_digits-Dashless (suc width) n =
    All-append _ (hex_digits width (n / 16)) _ (hex_digits-Dashless width (n / 16))
      (hex_character_kept (n % 16) (omega arith), tt)

take-Dashless : (n : ℕ) (text : Text) → Dashless text → Dashless (take n text)
unfolding Dashless
take-Dashless zero text h = tt
take-Dashless (suc n) [] h = tt
take-Dashless (suc n) (c ∷ text) (hc, h) = (hc, take-Dashless n text h)

drop-Dashless : (n : ℕ) (text : Text) → Dashless text → Dashless (drop n text)
unfolding Dashless
drop-Dashless zero text h = h
drop-Dashless (suc n) [] h = tt
drop-Dashless (suc n) (c ∷ text) (hc, h) = drop-Dashless n text h

take_all : (n : ℕ) (text : Text) → length text ≡ n → take n text ≡ text
take_all zero [] h = refl
take_all zero (c ∷ text) h = absurd (omega arith)
take_all (suc n) [] h = refl
take_all (suc n) (c ∷ text) h = ap (λ rest. c ∷ rest) (take_all n text (omega arith))

take_then_drop : (n : ℕ) (text : Text) → take n text ++ drop n text ≡ text
take_then_drop zero text = refl
take_then_drop (suc n) [] = refl
take_then_drop (suc n) (c ∷ text) = ap (λ rest. c ∷ rest) (take_then_drop n text)

without_dashes_dash : (rest : Text) → without_dashes (b'-' ∷ rest) ≡ without_dashes rest
unfolding without_dashes remove_if
without_dashes_dash rest = refl

-- One group and its dash are taken off.
without_dashes_group :
    (text : Text) (start stop : ℕ) (rest : Text)
    → start ≤ stop
    → Dashless text
    → without_dashes rest ≡ drop stop text
    → without_dashes (slice text start stop ++ (b'-' ∷ rest)) ≡ drop start text
unfolding slice
without_dashes_group text start stop rest le h e =
    let back = drop start text in
    let group = take (stop - start) back in
    without_dashes-append group (b'-' ∷ rest)
    ∙ ap (λ front. front ++ without_dashes (b'-' ∷ rest))
        (without_dashes-Dashless group
          (take-Dashless (stop - start) back (drop-Dashless start text h)))
    ∙ ap (λ end. group ++ end)
        (without_dashes_dash rest
          ∙ e
          ∙ sym (drop-drop start (stop - start) stop text (omega arith)))
    ∙ take_then_drop (stop - start) back

without_dashes-group_digits :
    (digits : Text) → Dashless digits → without_dashes (group_digits digits) ≡ digits
unfolding group_digits
without_dashes-group_digits digits h = without_dashes_group digits 0 8 _ (omega arith) h (
    without_dashes_group digits 8 12 _ (omega arith) h (
      without_dashes_group digits 12 16 _ (omega arith) h (
        without_dashes_group digits 16 20 _ (omega arith) h
          (without_dashes-Dashless (drop 20 digits) (drop-Dashless 20 digits h)))))

hex_number_read :
    (width : ℕ) (text digits : Text) (n : ℕ)
    → text ≡ digits
    → length digits ≡ width
    → hex_from 0 digits ≡ some n
    → hex_number width text ≡ some n
unfolding hex_number
hex_number_read width text digits n same size h =
    let whole = take_all width digits size in
    let long : (length digits == width) ≡ true = (==_iff (length digits) width).1 size in
    rw (same, whole, long) h

length-slice :
    (text : Text) (start stop : ℕ)
    → start ≤ stop
    → stop ≤ length text
    → length (slice text start stop) ≡ stop - start
unfolding slice
length-slice text start stop low high =
    omega (arith, length-take (stop - start) (drop start text), length-drop start text)

-- A group's dash stands right behind it, and what follows the dash is shifted by both.
dash_behind :
    (group rest : Text) (k : ℕ)
    → length group ≡ k
    → get_elem? (group ++ (b'-' ∷ rest)) k ≡ some b'-'
dash_behind [] rest zero h = refl
dash_behind [] rest (suc k) h = absurd (omega arith)
dash_behind (c ∷ group) rest zero h = absurd (omega arith)
dash_behind (c ∷ group) rest (suc k) h = dash_behind group rest k (omega arith)

behind_dash :
    (group rest : Text) (j k : ℕ)
    → length group + suc j ≡ k
    → get_elem? (group ++ (b'-' ∷ rest)) k ≡ get_elem? rest j
behind_dash [] rest j zero h = absurd (omega arith)
behind_dash [] rest j (suc k) h = let same : k ≡ j = omega arith in rw same refl
behind_dash (c ∷ group) rest j zero h = absurd (omega arith)
behind_dash (c ∷ group) rest j (suc k) h = behind_dash group rest j k (omega arith)

-- The form of a UUID: groups of 8, 4, 4, 4 and 12 characters with a dash between two of them.
pub Grouped : Text → Type 0
Grouped text =
    (length text ≡ 36)
    × (get_elem? text 8 ≡ some b'-')
    × (get_elem? text 13 ≡ some b'-')
    × (get_elem? text 18 ≡ some b'-')
    × (get_elem? text 23 ≡ some b'-')

group_digits-Grouped : (digits : Text) → length digits ≡ 32 → Grouped (group_digits digits)
unfolding group_digits Grouped
group_digits-Grouped digits h =
    let first = length-slice digits 0 8 (omega arith) (omega arith) in
    let second = length-slice digits 8 12 (omega arith) (omega arith) in
    let third = length-slice digits 12 16 (omega arith) (omega arith) in
    let fourth = length-slice digits 16 20 (omega arith) (omega arith) in
    let after_fourth = drop 20 digits in
    let after_third = slice digits 16 20 ++ (b'-' ∷ after_fourth) in
    let after_second = slice digits 12 16 ++ (b'-' ∷ after_third) in
    let after_first = slice digits 8 12 ++ (b'-' ∷ after_second) in
    (
      omega (
        arith,
        length-append (slice digits 0 8) (b'-' ∷ after_first),
        length-append (slice digits 8 12) (b'-' ∷ after_second),
        length-append (slice digits 12 16) (b'-' ∷ after_third),
        length-append (slice digits 16 20) (b'-' ∷ after_fourth),
        length-drop 20 digits,
      ),
      dash_behind (slice digits 0 8) after_first 8 first,
      behind_dash (slice digits 0 8) after_first 4 13 (omega arith)
          ∙ dash_behind (slice digits 8 12) after_second 4 second,
      behind_dash (slice digits 0 8) after_first 9 18 (omega arith)
          ∙ behind_dash (slice digits 8 12) after_second 4 9 (omega arith)
          ∙ dash_behind (slice digits 12 16) after_third 4 third,
      behind_dash (slice digits 0 8) after_first 14 23 (omega arith)
          ∙ behind_dash (slice digits 8 12) after_second 9 14 (omega arith)
          ∙ behind_dash (slice digits 12 16) after_third 4 9 (omega arith)
          ∙ dash_behind (slice digits 16 20) after_fourth 4 fourth,
    )

-- The text of a UUID, whatever its 128-bit number, has 36 characters, of which the 9th, 14th, 19th
-- and 24th are dashes, and reads back as that number: without its dashes it is 32 characters, all
-- hexadecimal digits, whose value is the number.
pub hex_number-uuid_text :
    (number : ℕ)
    → number < 340282366920938463463374607431768211456
    → Grouped (uuid_text (some number))
      × (length (without_dashes (uuid_text (some number))) ≡ 32)
      × (hex_number 32 (without_dashes (uuid_text (some number))) ≡ some number)
unfolding uuid_text
hex_number-uuid_text number h =
    let digits = hex_digits 32 number in
    let plain = without_dashes-group_digits digits (hex_digits-Dashless 32 number) in
    let size = length-hex_digits 32 number in
    (
      group_digits-Grouped digits size,
      ap length plain ∙ size,
      hex_number_read 32 _ digits number plain size (hex_from-hex_digits 32 number h),
    )
