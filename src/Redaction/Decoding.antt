-- ===== src/Redaction/Decoding.antt =====
-- redaction.py, "decoding": backslash, percent, character-reference and compatibility forms, round
-- by round.
use Prim.Native.Char.{code}
use ai_voice_agent.Prelude.{
  ℕ, zero, suc, ◌+◌, Bool, true, false, not, ◌&&◌, ◌||◌, Option, none, some, List, [], ◌∷◌, map,
  ltb, leb, ◌==◌, if◌then◌else◌, length, get_elem?, take,
}
use ai_voice_agent.Redaction.Library.{
  is_invisible, is_ascii, is_digit, is_letter, hex_digit, hex_number, sub, remove_if, Library,
}
use ai_voice_agent.Redaction.Markers.{backslash}
use ai_voice_agent.Text.{Text, codes, skip_while, one_of, char_in, text_eq}

abbrev pub max_decode_rounds : ℕ
max_decode_rounds = 3

abbrev pub max_view_length : ℕ
max_view_length = 65536

-- One code point in place of a numeric escape of this width; past U+10FFFF the escape stays.
numeric_escape : Text → ℕ → Option ℕ → Option (ℕ × Text)
numeric_escape text width none = none
numeric_escape text width (some code) =
    some (width, if leb code 1114111 then code ∷ [] else take width text)

-- _SIMPLE_ESCAPES.get(simple, simple)
simple_escape : ℕ → ℕ
simple_escape c =
    if c == b'n'
    then 10
    else if c == b't'
    then 9
    else if c == b'r'
    then 13
    else if c == b'f'
    then 12
    else if c == b'v'
    then 11
    else c

-- _BACKSLASH_ESCAPE at the front of the text, with _unescape
escape_at : Text → Option (ℕ × Text)
unfolding numeric_escape simple_escape
escape_at [] = none
escape_at (c ∷ []) = none
escape_at (c ∷ d ∷ text) =
    if not (c == backslash)
    then none
    else if d == b'u'
    then numeric_escape (c ∷ d ∷ text) 6 (hex_number 4 text)
    else if d == b'x'
    then numeric_escape (c ∷ d ∷ text) 4 (hex_number 2 text)
    else if d == b'U'
    then numeric_escape (c ∷ d ∷ text) 10 (hex_number 8 text)
    else if one_of (codes "\\/ntrfv") d
    then some (2, simple_escape d ∷ [])
    else none

-- A run of `low` to `high` such characters from `start` on, closed by a semicolon.
reference_from : (ℕ → Bool) → ℕ → ℕ → ℕ → Text → Option ℕ
reference_from p low high start text =
    let stop = skip_while p text start (length text) in
    if leb (start + low) stop && (leb stop (start + high) && char_in (b';' ∷ []) text stop)
    then some (stop + 1)
    else none

is_hex : ℕ → Bool
is_hex c = elim (hex_digit c) [ none ↦ false | some _ ↦ true ]

-- _ENTITY at the front of the text: how many characters the reference has
entity_width : Text → Option ℕ
unfolding reference_from is_hex
entity_width [] = none
entity_width (c ∷ text) =
    if not (c == b'&')
    then none
    else if char_in (b'#' ∷ []) (c ∷ text) 1
    then (if char_in (codes "xX") (c ∷ text) 2
        then reference_from is_hex 1 6 3 (c ∷ text)
        else reference_from is_digit 1 7 2 (c ∷ text))
    else if elim (get_elem? text 0) [ none ↦ false | some d ↦ is_letter d ]
    then reference_from (λ d. is_letter d || is_digit d) 1 31 2 (c ∷ text)
    else none

module _ (lib : Library) where
  entity_at : Text → Option (ℕ × Text)
  unfolding entity_width
  entity_at text = elim (entity_width text) [
    | none ↦ none
    | some width ↦ some (width, lib.html_unescape (take width text))
  ]

  -- _decode_once
  pub decode_once : Text → Text
  unfolding escape_at entity_at
  decode_once text =
      let t1 = if one_of text backslash then sub escape_at text else text in
      let t2 = if one_of t1 b'%' then lib.unquote t1 else t1 in
      let t3 = if one_of t2 b'&' then sub entity_at t2 else t2 in
      if is_ascii t3 then t3 else remove_if is_invisible (lib.nfkc t3)

  decoded_forms_from : ℕ → Text → List Text × Bool
  decoded_forms_from zero text = ([], text_eq (decode_once text) text)
  decoded_forms_from (suc rounds) text =
      let decoded = decode_once text in
      let (forms, stable) = decoded_forms_from rounds decoded in
      if text_eq decoded text
      then ([], true)
      else if ltb max_view_length (length decoded)
      then ([], false)
      else (decoded ∷ forms, stable)

  -- _decoded_forms
  unfoldable pub decoded_forms : Text → List Text × Bool
  unfolding decoded_forms_from decode_once
  decoded_forms text = decoded_forms_from max_decode_rounds text

  -- unquote_plus
  unfoldable pub unquote_plus : Text → Text
  unquote_plus text = lib.unquote (map (λ c. if c == b'+' then b' ' else c) text)

-- _has_escapes
unfoldable pub has_escapes : Text → Bool
has_escapes text =
    one_of text b'%' || (one_of text backslash || (one_of text b'&' || not (is_ascii text)))
