-- ===== src/Redaction/Library.antt =====
-- What redaction.py takes from Python's Unicode tables and decoding libraries. These tables are not
-- in the repository, so they are parameters of the model.
use ai_voice_agent.Prelude.{
  ℕ, zero, suc, ◌+◌, ◌-◌, ◌*◌, Bool, ◌&&◌, ◌||◌, Option, none, some, List, [], ◌∷◌, ◌++◌, ltb, leb,
  ◌==◌, if◌then◌else◌, length, take, all,
}
use ai_voice_agent.Text.{Text, skip_while, find_in}
use mathlib.Core.List.{reverse}

pub record Library : Type 0 where
  -- `\w` of `re`
  pub is_word : ℕ → Bool
  -- `\d` of `re`
  pub is_decimal : ℕ → Bool
  -- urllib.parse.unquote
  pub unquote : Text → Text
  -- html.unescape, of one complete character reference
  pub html_unescape : Text → Text
  -- unicodedata.normalize("NFKC", ...)
  pub nfkc : Text → Text

abbrev between : ℕ → ℕ → ℕ → Bool
between low high c = leb low c && leb c high

-- str.isspace of one character, which is also `\s` of `re`.
unfoldable pub is_space : ℕ → Bool
is_space c =
    between 9 13 c
    || (between 28 32 c
        || (c == 133
            || (c == 160
                || (c == 5760
                    || (between 8192 8202 c
                        || (c == 8232
                            || (c == 8233 || (c == 8239 || (c == 8287 || c == 12288)))))))))

-- _AMBIGUOUS: controls, non-ASCII whitespace, separators and invisible format characters.
unfoldable pub is_ambiguous : ℕ → Bool
is_ambiguous c =
    between 0 31 c
    || (between 127 160 c
        || (c == 173
            || (c == 5760
                || (c == 6158
                    || (between 8192 8207 c
                        || (between 8232 8239 c
                            || (between 8287 8292 c || (c == 12288 || c == 65279))))))))

-- _INVISIBLE
unfoldable pub is_invisible : ℕ → Bool
is_invisible c =
    c == 173
    || (between 8203 8207 c || (between 8234 8238 c || (between 8288 8292 c || c == 65279)))

unfoldable pub is_ascii : Text → Bool
is_ascii = all (λ c. ltb c 128)

unfoldable pub is_digit : ℕ → Bool
is_digit c = between b'0' b'9' c

unfoldable pub is_letter : ℕ → Bool
is_letter c = between b'a' b'z' c || between b'A' b'Z' c

-- The value of a hexadecimal digit.
unfoldable pub hex_digit : ℕ → Option ℕ
hex_digit c =
    if between b'0' b'9' c
    then some (c - b'0')
    else if between b'a' b'f' c
    then some (c - 87)
    else if between b'A' b'F' c
    then some (c - 55)
    else none

-- int(digits, 16), `none` where a character is no hexadecimal digit.
unfoldable pub hex_from : ℕ → Text → Option ℕ
hex_from value [] = some value
hex_from value (c ∷ digits) = elim (hex_digit c) [
  | none ↦ none
  | some d ↦ hex_from (16 * value + d) digits
]

-- The number that exactly `width` hexadecimal digits at the front of the text stand for.
unfoldable pub hex_number : ℕ → Text → Option ℕ
unfolding hex_from hex_digit
hex_number width text =
    if length (take width text) == width then hex_from 0 (take width text) else none

-- pattern.sub: the matcher says how many characters match here, and what they become.
sub_from : (Text → Option (ℕ × Text)) → ℕ → Text → Text
sub_from matcher skip [] = []
sub_from matcher (suc skip) (c ∷ text) = sub_from matcher skip text
sub_from matcher zero (c ∷ text) = elim (matcher (c ∷ text)) [
  | none ↦ c ∷ sub_from matcher 0 text
  | some (width, replacement) ↦ replacement ++ sub_from matcher (width - 1) text
]

unfoldable pub sub : (Text → Option (ℕ × Text)) → Text → Text
unfolding sub_from
sub matcher text = sub_from matcher 0 text

unfoldable pub remove_if : (ℕ → Bool) → Text → Text
remove_if p [] = []
remove_if p (c ∷ text) = let rest = remove_if p text in if p c then rest else c ∷ rest

runs_from : (ℕ → Bool) → Text → ℕ → ℕ → List (ℕ × ℕ)
runs_from p text zero position = []
runs_from p text (suc fuel) position = elim (find_in p text position (length text)) [
  | none ↦ []
  | some start ↦
      let stop = skip_while p text start (length text) in (start, stop) ∷ runs_from p text fuel stop
]

-- The longest runs of characters of one class, in order: `re.compile("[...]+").finditer(text)`.
unfoldable pub runs : (ℕ → Bool) → Text → List (ℕ × ℕ)
unfolding runs_from
runs p text = runs_from p text (length text + 1) 0

sub_runs_from : (ℕ → Bool) → (Text → Text) → Text → Text → Text
sub_runs_from p f [] run = if leb (length run) 0 then [] else f (reverse run)
sub_runs_from p f (c ∷ text) run =
    let inside = sub_runs_from p f text (c ∷ run) in
    let outside = c ∷ sub_runs_from p f text [] in
    if p c then inside else if leb (length run) 0 then outside else f (reverse run) ++ outside

-- `re.compile("[...]+").sub(...)`: every longest run is replaced.
unfoldable pub sub_runs : (ℕ → Bool) → (Text → Text) → Text → Text
unfolding sub_runs_from
sub_runs p f text = sub_runs_from p f text []
