-- ===== src/Redaction/Identifiers/Printable.antt =====
-- redaction.py: what an identifier that fits its grammar is made of.
use ai_voice_agent.Prelude.{
  ℕ, ◌≤◌, ◌<◌, ◌≡◌, refl, sym, ◌∙◌, inl, inr, Bool, true, false, ◌&&◌, ◌||◌, [], ◌∷◌, arith, ltb,
  leb, ◌==◌, if◌then◌else◌, ==_iff, Bool-cases, and_split, or_split, length, drop, all, All,
}
use ai_voice_agent.Redaction.Identifiers.{
  is_word, is_dotted, is_plain_id, is_numbered_level, is_level, fits_mask, is_zone, is_clock_char,
  is_clock, is_timestamp, fits_grammar, IdentifierKind, logger_name, service_name, environment_name,
  level_name, timestamp_text, request_id_text,
}
use ai_voice_agent.Redaction.Library.{is_digit, is_letter}
use ai_voice_agent.Text.{Text, codes, prefix_length, starts_with, one_of}

-- Printable ASCII, with the space.
unfoldable pub IsPrintable : ℕ → Type 0
IsPrintable c = (32 ≤ c) × (c < 127)

all-All :
    (p : ℕ → Bool) (P : ℕ → Type 0) (text : Text)
    → ((c : ℕ) → p c ≡ true → P c)
    → all p text ≡ true
    → All P text
all-All p P [] hp h = tt
all-All p P (c ∷ text) hp h =
    let (first, rest) = and_split (p c) (all p text) h in (hp c first, all-All p P text hp rest)

char-IsPrintable : (c d : ℕ) → (c == d) ≡ true → (32 ≤ d) × (d < 127) → IsPrintable c
unfolding IsPrintable
char-IsPrintable c d e h = let same = (==_iff c d).0 e in (omega (arith, h.0), omega (arith, h.1))

abbrev printable : ℕ → Bool
printable c = leb 32 c && ltb c 127

printable-bounds : (c : ℕ) → printable c ≡ true → (32 ≤ c) × (c < 127)
printable-bounds c h = ground arith

plain-All : (set : Text) → all printable set ≡ true → All (λ d. (32 ≤ d) × (d < 127)) set
plain-All set h = all-All printable _ set printable-bounds h

listed-IsPrintable :
    (c : ℕ) (set : Text) → one_of set c ≡ true → All (λ d. (32 ≤ d) × (d < 127)) set → IsPrintable c
listed-IsPrintable c [] e h = cc
listed-IsPrintable c (d ∷ set) e (hd, h) = elim (Bool-cases (c == d)) [
  | inl same ↦ char-IsPrintable c d same hd
  | inr other ↦ listed-IsPrintable c set (sym (rw other refl) ∙ e) h
]

letter-IsPrintable : (c : ℕ) → is_letter c ≡ true → IsPrintable c
unfolding is_letter IsPrintable
letter-IsPrintable c h = ground arith

digit-IsPrintable : (c : ℕ) → is_digit c ≡ true → IsPrintable c
unfolding is_digit IsPrintable
digit-IsPrintable c h = ground arith

word-IsPrintable : (c : ℕ) → is_word c ≡ true → IsPrintable c
unfolding is_word is_letter is_digit IsPrintable
word-IsPrintable c h = ground arith

name_start-IsPrintable : (c : ℕ) → (is_letter c || c == b'_') ≡ true → IsPrintable c
name_start-IsPrintable c h = elim (or_split (is_letter c) (c == b'_') h) [
  | inl e ↦ letter-IsPrintable c e
  | inr e ↦ char-IsPrintable c b'_' e (omega arith, omega arith)
]

letter_or_digit-IsPrintable : (c : ℕ) → (is_letter c || is_digit c) ≡ true → IsPrintable c
letter_or_digit-IsPrintable c h = elim (or_split (is_letter c) _ h) [
  | inl e ↦ letter-IsPrintable c e
  | inr e ↦ digit-IsPrintable c e
]

prefixed-IsPrintable :
    (word text : Text)
    → starts_with word text ≡ true
    → All (λ d. (32 ≤ d) × (d < 127)) word
    → All IsPrintable (drop (length word) text)
    → All IsPrintable text
unfolding starts_with
prefixed-IsPrintable [] text h hw rest = rest
prefixed-IsPrintable (d ∷ word) [] h hw rest = cc
prefixed-IsPrintable (d ∷ word) (c ∷ text) h (hd, hw) rest =
    let (same, others) = and_split (d == c) (starts_with word text) h in
    let flipped : (c == d) ≡ true = ground arith in
    (char-IsPrintable c d flipped hd, prefixed-IsPrintable word text others hw rest)

dotted-IsPrintable :
    (started : Bool) (text : Text) → is_dotted started text ≡ true → All IsPrintable text
unfolding is_dotted
dotted-IsPrintable started [] h = tt
dotted-IsPrintable true (c ∷ text) h = elim (Bool-cases (c == b'.')) [
  | inl e ↦
      let rest : is_dotted false text ≡ true = sym (rw e refl) ∙ h in
      (char-IsPrintable c b'.' e (omega arith, omega arith), dotted-IsPrintable false text rest)
  | inr e ↦
      let rest : (is_word c && is_dotted true text) ≡ true = sym (rw e refl) ∙ h in
      let (first, others) = and_split (is_word c) _ rest in
      (word-IsPrintable c first, dotted-IsPrintable true text others)
]
dotted-IsPrintable false (c ∷ text) h =
    let (first, rest) = and_split (is_letter c || c == b'_') _ h in
    (name_start-IsPrintable c first, dotted-IsPrintable true text rest)

plain_char-IsPrintable : (c : ℕ) → (is_word c || one_of (codes ".-") c) ≡ true → IsPrintable c
plain_char-IsPrintable c h = elim (or_split (is_word c) _ h) [
  | inl e ↦ word-IsPrintable c e
  | inr e ↦ listed-IsPrintable c (codes ".-") e (plain-All (codes ".-") refl)
]

plain_id-IsPrintable : (text : Text) → is_plain_id text ≡ true → All IsPrintable text
unfolding is_plain_id
plain_id-IsPrintable [] h = cc
plain_id-IsPrintable (c ∷ text) h =
    let (first, rest) = and_split (is_letter c || is_digit c) _ h in
    (letter_or_digit-IsPrintable c first, all-All _ IsPrintable text plain_char-IsPrintable rest)

numbered_level-IsPrintable : (text : Text) → is_numbered_level text ≡ true → All IsPrintable text
unfolding is_numbered_level
numbered_level-IsPrintable [] h = cc
numbered_level-IsPrintable (c ∷ text) h =
    let (first, rest) = and_split (one_of (codes "Ll") c) _ h in
    let (word, digits) = and_split (starts_with (codes "evel ") text) _ rest in
    let (number, _) = and_split (all is_digit (drop 5 text)) _ digits in
    (
      listed-IsPrintable c (codes "Ll") first (plain-All (codes "Ll") refl),
      prefixed-IsPrintable (codes "evel ") text word (plain-All (codes "evel ") refl)
          (all-All is_digit IsPrintable (drop 5 text) digit-IsPrintable number),
    )

level-IsPrintable : (text : Text) → is_level text ≡ true → All IsPrintable text
unfolding is_level
level-IsPrintable text h = elim (or_split (ltb 0 (length text) && all is_letter text) _ h) [
  | inl e ↦
      all-All is_letter IsPrintable text letter-IsPrintable (and_split (ltb 0 (length text)) _ e).1
  | inr e ↦ numbered_level-IsPrintable text e
]

zone_char-IsPrintable : (c : ℕ) → (is_digit c || c == b':') ≡ true → IsPrintable c
zone_char-IsPrintable c h = elim (or_split (is_digit c) _ h) [
  | inl e ↦ digit-IsPrintable c e
  | inr e ↦ char-IsPrintable c b':' e (omega arith, omega arith)
]

clock_char-IsPrintable : (c : ℕ) → is_clock_char c ≡ true → IsPrintable c
unfolding is_clock_char
clock_char-IsPrintable c h = elim (or_split (is_digit c) _ h) [
  | inl e ↦ digit-IsPrintable c e
  | inr e ↦ listed-IsPrintable c (codes ":.") e (plain-All (codes ":.") refl)
]

empty-IsPrintable : (text : Text) → (length text == 0) ≡ true → All IsPrintable text
empty-IsPrintable [] h = tt
empty-IsPrintable (c ∷ text) h = absurd (ground arith)

zone-IsPrintable : (text : Text) → is_zone text ≡ true → All IsPrintable text
unfolding is_zone
zone-IsPrintable [] h = tt
zone-IsPrintable (c ∷ text) h = elim (or_split (c == b'Z' && length text == 0) _ h) [
  | inl e ↦
      let (letter, ends) = and_split (c == b'Z') _ e in
      (char-IsPrintable c b'Z' letter (omega arith, omega arith), empty-IsPrintable text ends)
  | inr e ↦
      let (sign, rest) = and_split (one_of (codes "+-") c) _ e in
      (
        listed-IsPrintable c (codes "+-") sign (plain-All (codes "+-") refl),
        all-All _ IsPrintable text zone_char-IsPrintable (and_split (all _ text) _ rest).0,
      )
]

-- A run of printable characters, and what follows it.
run-IsPrintable :
    (p : ℕ → Bool) (text : Text)
    → ((c : ℕ) → p c ≡ true → IsPrintable c)
    → All IsPrintable (drop (prefix_length p text) text)
    → All IsPrintable text
unfolding prefix_length
run-IsPrintable p [] hp h = tt
run-IsPrintable p (c ∷ text) hp h = elim (Bool-cases (p c)) [
  | inl e ↦ (hp c e, run-IsPrintable p text hp (rw e at h))
  | inr e ↦ rw e at h
]

clock-IsPrintable : (text : Text) → is_clock text ≡ true → All IsPrintable text
unfolding is_clock
clock-IsPrintable text h =
    let (_, bounded) = and_split (leb 5 (prefix_length is_clock_char text)) _ h in
    let (_, zone) = and_split (leb (prefix_length is_clock_char text) 15) _ bounded in
    run-IsPrintable is_clock_char text clock_char-IsPrintable (zone-IsPrintable _ zone)

mask_char-IsPrintable :
    (m c : ℕ)
    → (32 ≤ m) × (m < 127)
    → (if m == b'0' then is_digit c else if m == b'T' then one_of (codes "T ") c else c == m) ≡ true
    → IsPrintable c
mask_char-IsPrintable m c hm h = elim (Bool-cases (m == b'0')) [
  | inl e ↦ digit-IsPrintable c (rw e at h)
  | inr e ↦ elim (Bool-cases (m == b'T')) [
    | inl t ↦ listed-IsPrintable c (codes "T ") (rw (e, t) at h) (plain-All (codes "T ") refl)
    | inr t ↦ char-IsPrintable c m (rw (e, t) at h) hm
  ]
]

mask-IsPrintable :
    (mask text : Text)
    → fits_mask mask text ≡ true
    → All (λ d. (32 ≤ d) × (d < 127)) mask
    → All IsPrintable (drop (length mask) text)
    → All IsPrintable text
unfolding fits_mask
mask-IsPrintable [] text h hm rest = rest
mask-IsPrintable (m ∷ mask) [] h hm rest = cc
mask-IsPrintable (m ∷ mask) (c ∷ text) h (hc, hm) rest =
    let (first, others) =
      and_split
        (if m == b'0' then is_digit c else if m == b'T' then one_of (codes "T ") c else c == m) _
        h in
    (mask_char-IsPrintable m c hc first, mask-IsPrintable mask text others hm rest)

timestamp-IsPrintable : (text : Text) → is_timestamp text ≡ true → All IsPrintable text
unfolding is_timestamp
timestamp-IsPrintable text h =
    let (date, clock) = and_split (fits_mask (codes "0000-00-00T") text) _ h in
    mask-IsPrintable (codes "0000-00-00T") text date (plain-All (codes "0000-00-00T") refl)
      (clock-IsPrintable (drop 11 text) clock)

-- A text that fits the grammar of a kind of identifier is printable ASCII throughout: no line break
-- or control character is in it.
pub fits_grammar-IsPrintable :
    (kind : IdentifierKind) (text : Text) → fits_grammar kind text ≡ true → All IsPrintable text
unfolding fits_grammar
fits_grammar-IsPrintable logger_name text h = dotted-IsPrintable false text h
fits_grammar-IsPrintable service_name text h = plain_id-IsPrintable text h
fits_grammar-IsPrintable environment_name text h = plain_id-IsPrintable text h
fits_grammar-IsPrintable level_name text h = level-IsPrintable text h
fits_grammar-IsPrintable timestamp_text text h = timestamp-IsPrintable text h
fits_grammar-IsPrintable request_id_text text h = plain_id-IsPrintable text h
