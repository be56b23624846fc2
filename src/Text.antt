-- ===== src/Text.antt =====
-- Python's `str` as the sequence of its code points, and the methods of it that the redaction
-- rules call. A search looks at a window [start, stop) of the text and answers with a position of
-- the whole text; a window that reaches past the end is cut off there, as a Python slice is.
pub mod Search
pub mod Find
pub mod Sorting
use Prim.Native.Char.{code}
use Prim.Native.String.{String}
use ai_voice_agent.Prelude.{
  ℕ, suc, ◌+◌, ◌-◌, Bool, true, false, ◌&&◌, Option, none, some, List, [], ◌∷◌, ◌++◌, ◌==◌,
  if◌then◌else◌, get_elem?, take, drop, any,
}

abbrev pub Text : Type 0
Text = List ℕ

-- A literal of the source as its code points.
abbrev pub codes : String → Text
codes String.[] = []
codes (String.◌∷◌ c s) = code c ∷ codes s

-- text[start:stop]
unfoldable pub slice : Text → ℕ → ℕ → Text
slice text start stop = take (stop - start) (drop start text)

-- How many leading characters satisfy the test.
unfoldable pub prefix_length : (ℕ → Bool) → Text → ℕ
prefix_length p [] = 0
prefix_length p (c ∷ text) = let rest = suc (prefix_length p text) in if p c then rest else 0

-- `while index < stop and p(text[index]): index += 1`
unfoldable pub skip_while : (ℕ → Bool) → Text → ℕ → ℕ → ℕ
unfolding slice prefix_length
skip_while p text index stop = index + prefix_length p (slice text index stop)

first_index : (ℕ → Bool) → Text → Option ℕ
first_index p [] = none
first_index p (c ∷ text) =
    let later : Option ℕ = elim (first_index p text) [ none ↦ none | some k ↦ some (suc k) ] in
    if p c then some 0 else later

last_index : (ℕ → Bool) → Text → Option ℕ
last_index p [] = none
last_index p (c ∷ text) =
    let here : Option ℕ = if p c then some 0 else none in
    elim (last_index p text) [ none ↦ here | some k ↦ some (suc k) ]

abbrev shift : ℕ → Option ℕ → Option ℕ
shift n none = none
shift n (some k) = some (n + k)

-- The first position in the window whose character satisfies the test: `text.find(c, start, stop)`
-- and `re.compile("[...]").search(text, start, stop)`.
unfoldable pub find_in : (ℕ → Bool) → Text → ℕ → ℕ → Option ℕ
unfolding slice first_index
find_in p text start stop = shift start (first_index p (slice text start stop))

-- The last position in the window: `text.rfind(c, start, stop)`.
unfoldable pub rfind_in : (ℕ → Bool) → Text → ℕ → ℕ → Option ℕ
unfolding slice last_index
rfind_in p text start stop = shift start (last_index p (slice text start stop))

-- `match.start() if match else stop`
abbrev pub or_end : Option ℕ → ℕ → ℕ
or_end none stop = stop
or_end (some k) stop = k

-- text.startswith(prefix)
unfoldable pub starts_with : Text → Text → Bool
starts_with [] text = true
starts_with (c ∷ cs) [] = false
starts_with (c ∷ cs) (d ∷ ds) = c == d && starts_with cs ds

first_sub : Text → Text → Option ℕ
unfolding starts_with
first_sub needle [] = if starts_with needle [] then some 0 else none
first_sub needle (c ∷ text) =
    let later : Option ℕ = elim (first_sub needle text) [ none ↦ none | some k ↦ some (suc k) ] in
    if starts_with needle (c ∷ text) then some 0 else later

-- text.find(needle, start) for a start inside the text
unfoldable pub find_text : Text → Text → ℕ → Option ℕ
unfolding first_sub
find_text needle text start = shift start (first_sub needle (drop start text))

-- needle in text
unfoldable pub contains : Text → Text → Bool
unfolding find_text
contains needle text = elim (find_text needle text 0) [ none ↦ false | some _ ↦ true ]

abbrev pub one_of : Text → ℕ → Bool
one_of set c = any (λ d. c == d) set

-- `text[index] in set`, for an index that may lie past the end
unfoldable pub char_in : Text → Text → ℕ → Bool
char_in set text index = elim (get_elem? text index) [ none ↦ false | some c ↦ one_of set c ]

unfoldable pub text_eq : Text → Text → Bool
text_eq [] [] = true
text_eq [] (d ∷ ds) = false
text_eq (c ∷ cs) [] = false
text_eq (c ∷ cs) (d ∷ ds) = c == d && text_eq cs ds

-- separator.join(parts)
unfoldable pub join : Text → List Text → Text
join separator [] = []
join separator (part ∷ []) = part
join separator (part ∷ next ∷ parts) = part ++ (separator ++ join separator (next ∷ parts))
