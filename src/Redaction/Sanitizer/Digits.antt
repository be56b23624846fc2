-- ===== src/Redaction/Sanitizer/Digits.antt =====
-- redaction.py: the hexadecimal digits of _uuid_text, read back.
use ai_voice_agent.Prelude.{
  ℕ, zero, suc, ◌+◌, ◌*◌, ◌/◌, ◌%◌, ◌<◌, ◌≡◌, refl, sym, ap, ◌∙◌, inl, inr, none, some, [], ◌∷◌,
  ◌++◌, arith, Option-cases, length, length-append,
}
use ai_voice_agent.Redaction.Library.{hex_digit, hex_from}
use ai_voice_agent.Redaction.Sanitizer.{hex_character, hex_digits}
use ai_voice_agent.Text.{Text}

abbrev pub sixteen_to : ℕ → ℕ
sixteen_to zero = 1
sixteen_to (suc width) = 16 * sixteen_to width

pub hex_digit-hex_character : (d : ℕ) → d < 16 → hex_digit (hex_character d) ≡ some d
unfolding hex_digit hex_character
hex_digit-hex_character d h = ground arith

some-injective : {a b : ℕ} → some a ≡ some b → a ≡ b
some-injective h = cc

hex_from_end : (value : ℕ) → hex_from value [] ≡ some value
unfolding hex_from
hex_from_end value = refl

hex_from_digit :
    (value c d : ℕ) (digits : Text)
    → hex_digit c ≡ some d
    → hex_from value (c ∷ digits) ≡ hex_from (16 * value + d) digits
unfolding hex_from
hex_from_digit value c d digits h = cc

hex_from_other :
    (value c : ℕ) (digits : Text) → hex_digit c ≡ none → hex_from value (c ∷ digits) ≡ none
unfolding hex_from
hex_from_other value c digits h = cc

hex_from-append :
    (value : ℕ) (digits : Text) (c read d : ℕ)
    → hex_from value digits ≡ some read
    → hex_digit c ≡ some d
    → hex_from value (digits ++ c ∷ []) ≡ some (16 * read + d)
hex_from-append value [] c read d hr hd =
    let same : value ≡ read = some-injective (sym (hex_from_end value) ∙ hr) in
    hex_from_digit value c d [] hd
    ∙ hex_from_end (16 * value + d)
    ∙ ap (λ v. some (16 * v + d)) same
hex_from-append value (first ∷ digits) c read d hr hd = elim (Option-cases (hex_digit first)) [
  | inl e ↦ absurd (let no = hex_from_other value first digits e in cc)
  | inr (v, e) ↦
      hex_from_digit value first v (digits ++ c ∷ []) e
      ∙ hex_from-append (16 * value + v) digits c read d
          (sym (hex_from_digit value first v digits e) ∙ hr) hd
]

pub hex_from-hex_digits :
    (width n : ℕ) → n < sixteen_to width → hex_from 0 (hex_digits width n) ≡ some n
unfolding hex_digits hex_from
hex_from-hex_digits zero n h = let same : n ≡ 0 = omega arith in rw same refl
hex_from-hex_digits (suc width) n h =
    let front = hex_from-hex_digits width (n / 16) (omega arith) in
    let last = hex_digit-hex_character (n % 16) (omega arith) in
    let whole : 16 * (n / 16) + n % 16 ≡ n = omega arith in
    rw
      (
        hex_from-append 0 (hex_digits width (n / 16)) (hex_character (n % 16)) (n / 16) (n % 16)
            front last,
        whole,
      )
      refl

pub length-hex_digits : (width n : ℕ) → length (hex_digits width n) ≡ width
unfolding hex_digits
length-hex_digits zero n = refl
length-hex_digits (suc width) n = omega (
  arith,
  length-append (hex_digits width (n / 16)) (hex_character (n % 16) ∷ []),
  length-hex_digits width (n / 16),
)
