-- ===== src/Redaction/Tokens.antt =====
-- redaction.py: _scrub_tokens and _scrub_bare_authorities, the rules that read one token at a time.
use ai_voice_agent.Prelude.{
  Outcome, returned, raised, ℕ, zero, suc, ◌+◌, ◌-◌, Bool, true, false, not, ◌&&◌, ◌||◌, Option,
  none, some, [], ◌∷◌, ◌++◌, ltb, leb, ◌==◌, if◌then◌else◌, length, get_elem?, take, drop,
}
use ai_voice_agent.Redaction.Keys.{fold_case, starts_folded}
use ai_voice_agent.Redaction.Library.{is_space, is_digit, is_letter, sub, sub_runs, Library}
use ai_voice_agent.Redaction.Markers.{redacted, line_ends}
use ai_voice_agent.Redaction.Pairs.{scrub_pairs}
use ai_voice_agent.Redaction.Urls.{scrub_signed_references, scrub_urls}
use ai_voice_agent.Text.{
  Text, codes, skip_while, find_in, rfind_in, starts_with, contains, one_of, char_in, text_eq,
}

-- Whether the text starts with one of at most `room` characters of the class and then the suffix;
-- the answer is where the suffix ends.
class_then : (ℕ → Bool) → ℕ → Text → Text → Option ℕ
class_then p room suffix [] = if starts_with suffix [] then some (length suffix) else none
class_then p zero suffix (c ∷ text) =
    if starts_with suffix (c ∷ text) then some (length suffix) else none
class_then p (suc room) suffix (c ∷ text) =
    let later : Option ℕ = elim (class_then p room suffix text) [
      | none ↦ none
      | some k ↦ some (suc k)
    ] in
    if starts_with suffix (c ∷ text) then some (length suffix) else if p c then later else none

is_label : ℕ → Bool
is_label c = (leb b'A' c && leb c b'Z') || c == b' '

abbrev key_label : Text
key_label = codes "PRIVATE KEY-----"

-- A marker line of a PEM block at the front of the text, and where it ends.
pem_marker : Text → Text → Option ℕ
unfolding class_then is_label
pem_marker opening text =
    if starts_with opening text
    then elim (class_then is_label 40 key_label (drop (length opening) text)) [
      | none ↦ none
      | some k ↦ some (length opening + k)
    ]
    else none

-- `$` of `re`: the end of the text, or its last newline.
at_end_of_text : Text → Bool
at_end_of_text [] = true
at_end_of_text (c ∷ []) = c == 10
at_end_of_text (c ∷ d ∷ text) = false

-- Where the block ends that has been entered.
pem_rest : Text → ℕ
unfolding pem_marker at_end_of_text
pem_rest [] = 0
pem_rest (c ∷ text) =
    let later = suc (pem_rest text) in
    elim (pem_marker (codes "-----END ") (c ∷ text)) [
      | some k ↦ k
      | none ↦ if at_end_of_text (c ∷ text) then 0 else later
    ]

-- _PEM at the front of the text, and the mask for it
pem_at : Text → Option (ℕ × Text)
unfolding pem_rest
pem_at text = elim (pem_marker (codes "-----BEGIN ") text) [
  | none ↦ none
  | some k ↦ some (k + pem_rest (drop k text), redacted)
]

-- pattern.sub for a pattern that starts with `\b` and a word character: it is tried only where no
-- word character stands before.
sub_words_from : (ℕ → Bool) → (Text → Option (ℕ × Text)) → ℕ → Bool → Text → Text
sub_words_from is_word matcher skip inside [] = []
sub_words_from is_word matcher (suc skip) inside (c ∷ text) =
    sub_words_from is_word matcher skip (is_word c) text
sub_words_from is_word matcher zero inside (c ∷ text) =
    let plain = c ∷ sub_words_from is_word matcher 0 (is_word c) text in
    elim (if inside then none else matcher (c ∷ text)) [
      | none ↦ plain
      | some (width, replacement) ↦
          replacement ++ sub_words_from is_word matcher (width - 1) (is_word c) text
    ]

sub_words : (ℕ → Bool) → (Text → Option (ℕ × Text)) → Text → Text
unfolding sub_words_from
sub_words is_word matcher text = sub_words_from is_word matcher 0 false text

-- A scheme word and the whitespace behind it: where the rest starts.
after_scheme : Text → Text → Option ℕ
after_scheme word text =
    let start = length word in
    let stop = skip_while is_space text start (length text) in
    if starts_folded word text && ltb start stop then some stop else none

keep_scheme : Text → Text → ℕ → Option (ℕ × Text)
keep_scheme word text stop = some (stop, take (length word) text ++ (b' ' ∷ redacted))

-- _BEARER
bearer_at : Text → Option (ℕ × Text)
unfolding after_scheme keep_scheme
bearer_at text = elim (after_scheme (codes "bearer") text) [
  | none ↦ none
  | some start ↦
      let stop = skip_while (λ c. not (is_space c)) text start (length text) in
      if ltb start stop then keep_scheme (codes "bearer") text stop else none
]

-- A letter of either case under `re.IGNORECASE`.
is_folded_letter : ℕ → Bool
is_folded_letter c = is_letter (fold_case c)

-- _DIGEST: letters and "=" must follow; the rest of the line goes.
digest_at : Text → Option (ℕ × Text)
unfolding after_scheme keep_scheme is_folded_letter
digest_at text = elim (after_scheme (codes "digest") text) [
  | none ↦ none
  | some start ↦
      let letters = skip_while is_folded_letter text start (length text) in
      let sign = skip_while is_space text letters (length text) in
      let stop = skip_while (λ c. not (one_of line_ends c)) text start (length text) in
      if ltb start letters && char_in (b'=' ∷ []) text sign
      then keep_scheme (codes "digest") text stop
      else none
]

is_token_char : ℕ → Bool
unfolding is_folded_letter
is_token_char c = is_folded_letter c || (is_digit c || one_of (codes "-._~+/") c)

-- The lookahead of _TOKEN_VALUE: at most `room` such characters, then a decimal digit.
digit_ahead : (ℕ → Bool) → ℕ → Text → Bool
digit_ahead is_decimal room [] = false
digit_ahead is_decimal zero (c ∷ text) = is_decimal c
digit_ahead is_decimal (suc room) (c ∷ text) =
    let later = digit_ahead is_decimal room text in
    if is_decimal c then true else if is_token_char c then later else false

-- _TOKEN_VALUE
token_value_at : (ℕ → Bool) → Text → Option (ℕ × Text)
unfolding after_scheme keep_scheme digit_ahead is_token_char
token_value_at is_decimal text = elim (after_scheme (codes "token") text) [
  | none ↦ none
  | some start ↦
      let stop = skip_while is_token_char text start (length text) in
      let padded = skip_while (λ c. c == b'=') text stop (length text) in
      if digit_ahead is_decimal 256 (drop start text) && leb (start + 16) stop
      then keep_scheme (codes "token") text padded
      else none
]

count_char : ℕ → Text → ℕ
count_char c [] = 0
count_char c (d ∷ text) = let rest = count_char c text in if c == d then suc rest else rest

-- mask_jwt, from a position of the run on; `opens` says that a segment may start here.
mask_jwt_from : Bool → Text → Text
unfolding count_char
mask_jwt_from opens [] = []
mask_jwt_from opens (c ∷ run) =
    let later = c ∷ mask_jwt_from (one_of (codes "-.") c) run in
    if opens && starts_with (codes "eyJ") (c ∷ run)
    then (if ltb (count_char b'.' (c ∷ run)) 2 then c ∷ run else redacted)
    else later

is_jwt_char : ℕ → Bool
is_jwt_char c = is_letter c || (is_digit c || one_of (codes "_.-") c)

-- _scrub_tokens
unfoldable pub scrub_tokens : Library → Text → Text
unfolding pem_at sub_words bearer_at digest_at token_value_at mask_jwt_from is_jwt_char
scrub_tokens lib text =
    let t1 = if contains key_label text then sub pem_at text else text in
    let t2 = sub_words lib.is_word bearer_at t1 in
    let t3 = sub_words lib.is_word digest_at t2 in
    let t4 = sub_words lib.is_word (token_value_at lib.is_decimal) t3 in
    if contains (codes "eyJ") t4 then sub_runs is_jwt_char (mask_jwt_from true) t4 else t4

-- _DRIVE_PATH at the front of the token
is_drive_path : Text → Bool
is_drive_path token =
    let start = skip_while (one_of (codes "\"'([")) token 0 (length token) in
    elim (get_elem? token start) [ none ↦ false | some c ↦ is_letter c ]
    && (char_in (codes ":") token (start + 1) && char_in (codes "\\/") token (start + 2))

-- `replace` of _scrub_bare_authorities, at the last "@" and the first colon of the token.
replace_authority : Text → Option ℕ → Option ℕ → Text
unfolding is_drive_path count_char
replace_authority token none colon_at = token
replace_authority token (some at) none = token
replace_authority token (some at) (some colon_at) =
    if at == 0 || contains (codes "://") token
    then token
    else if not (ltb 0 colon_at && ltb (colon_at + 1) at) || text_eq (take at token) redacted
    then token
    else if is_drive_path token && count_char b':' (take at token) == 1
    then token
    else redacted ++ drop at token

-- _scrub_bare_authorities
unfoldable pub scrub_bare_authorities : Text → Text
unfolding replace_authority
scrub_bare_authorities text =
    if not (one_of text b'@')
    then text
    else sub_runs (λ c. not (is_space c))
        (λ token.
          replace_authority token (rfind_in (λ c. c == b'@') token 0 (length token))
            (find_in (λ c. c == b':') token 0 (length token)))
        text

-- _scrub_free_text
unfoldable pub scrub_free_text : Library → Bool → Text → Outcome Text
scrub_free_text lib cut text =
    let t1 = scrub_tokens lib text in
    let t2 = scrub_signed_references lib t1 in
    let t3 = scrub_urls lib t2 cut in
    elim (scrub_pairs lib t3) [
      | raised ↦ raised
      | returned t4 ↦ returned (scrub_bare_authorities t4)
    ]
