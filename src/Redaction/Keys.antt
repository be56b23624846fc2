-- ===== src/Redaction/Keys.antt =====
-- redaction.py: which names are the names of sensitive data.
use Prim.Native.String.{String}
use ai_voice_agent.Prelude.{
  ℕ, suc, ◌+◌, Bool, true, false, not, ◌&&◌, ◌||◌, none, some, List, [], ◌∷◌, map, leb, ◌==◌,
  if◌then◌else◌, length, take, drop, all, any,
}
use ai_voice_agent.Redaction.Decoding.{decoded_forms, unquote_plus, has_escapes}
use ai_voice_agent.Redaction.Library.{Library}
use ai_voice_agent.Redaction.Markers.{value_delimiters}
use ai_voice_agent.Text.{Text, codes, rfind_in, one_of}
use mathlib.Core.List.{reverse}

-- The characters that `re.IGNORECASE` takes for one ASCII letter.
unfoldable pub fold_case : ℕ → ℕ
fold_case c =
    if leb b'A' c && leb c b'Z'
    then c + 32
    else if c == 304 || c == 305
    then b'i'
    else if c == 383
    then b's'
    else if c == 8490
    then b'k'
    else c

unfoldable pub starts_folded : Text → Text → Bool
unfolding fold_case
starts_folded [] text = true
starts_folded (c ∷ cs) [] = false
starts_folded (c ∷ cs) (d ∷ ds) = c == fold_case d && starts_folded cs ds

-- One alternative of a key pattern: words with an optional "_" or "-" between them, that do not
-- stand behind a given word.
pub record Phrase : Type 0 where
  pub not_after : Text
  pub words : List Text

-- The words, from the front of the text.
matches_words : List Text → Text → Bool
unfolding starts_folded
matches_words [] text = true
matches_words (w ∷ ws) text =
    let rest = drop (length w) text in
    let joined = matches_words ws rest in
    let spaced = one_of (take 1 rest) b'_' || one_of (take 1 rest) b'-' in
    let apart = spaced && matches_words ws (drop 1 rest) in
    starts_folded w text && (joined || apart)

-- `before` is what precedes the position, nearest first, as a lookbehind reads it.
phrase_at : Text → Text → Phrase → Bool
unfolding starts_folded matches_words
phrase_at before text phrase =
    let follows = elim phrase.not_after as (λ _. Bool) [
      | [] ↦ false
      | c ∷ cs ↦ starts_folded (reverse (c ∷ cs)) before
    ] in
    not follows && matches_words phrase.words text

search_from : List Phrase → Text → Text → Bool
unfolding phrase_at
search_from phrases before [] = any (phrase_at before []) phrases
search_from phrases before (c ∷ text) =
    any (phrase_at before (c ∷ text)) phrases || search_from phrases (c ∷ before) text

-- pattern.search(key) is not None
unfoldable pub search_phrases : List Phrase → Text → Bool
unfolding search_from
search_phrases phrases text = search_from phrases [] text

abbrev phrase : List String → Phrase
phrase words = record { not_after = []; words = map codes words }

abbrev one_word : String → Phrase
one_word w = phrase (w ∷ [])

abbrev two_words : String → String → Phrase
two_words v w = phrase (v ∷ w ∷ [])

-- What may follow a media or storage noun: (?:ur[li]|link|href)
abbrev reference_phrases : List String → List Phrase
reference_phrases [] = []
reference_phrases (noun ∷ nouns) =
    two_words noun "url"
    ∷ two_words noun "uri"
    ∷ two_words noun "link"
    ∷ two_words noun "href"
    ∷ reference_phrases nouns

abbrev file_phrase : String → Phrase
file_phrase w = record { not_after = codes "pro"; words = codes "file" ∷ codes w ∷ [] }

-- _CAPABILITY_KEY
abbrev capability_key : List Phrase
capability_key =
    two_words "pre" "sign"
    ∷ two_words "signed" "request"
    ∷ two_words "sas" "url"
    ∷ two_words "sas" "uri"
    ∷ two_words "result" "ref"
    ∷ file_phrase "url"
    ∷ file_phrase "uri"
    ∷ file_phrase "link"
    ∷ file_phrase "href"
    ∷ reference_phrases (
        "signed" ∷ "download" ∷ "upload" ∷ "recording" ∷ "media" ∷ "playback" ∷ "stream" ∷ "audio"
        ∷ "voicemail" ∷ "transcript" ∷ "export" ∷ "storage" ∷ "object" ∷ "blob" ∷ "bucket"
        ∷ "attachment" ∷ "artifact" ∷ [])

-- What the two key patterns have in common.
abbrev credential_key : List Phrase
credential_key =
    one_word "passwd"
    ∷ one_word "password"
    ∷ one_word "passphrase"
    ∷ one_word "pwd"
    ∷ one_word "secret"
    ∷ one_word "token"
    ∷ one_word "authorisation"
    ∷ one_word "authorization"
    ∷ one_word "cookie"
    ∷ two_words "api" "key"
    ∷ one_word "credential"
    ∷ two_words "private" "key"
    ∷ one_word "signature"
    ∷ two_words "session" "id"
    ∷ two_words "session" "key"
    ∷ two_words "access" "key"
    ∷ phrase ("key" ∷ "pair" ∷ "id" ∷ [])
    ∷ phrase ("google" ∷ "access" ∷ "id" ∷ [])
    ∷ capability_key

-- _SENSITIVE_KEY
abbrev pub sensitive_key : List Phrase
sensitive_key =
    one_word "dsn"
    ∷ one_word "conninfo"
    ∷ two_words "connection" "string"
    ∷ one_word "phone"
    ∷ one_word "email"
    ∷ credential_key

-- _SENSITIVE_TEXT_KEY; its "apikey" is "api[_-]?key" without the separator.
abbrev pub sensitive_text_key : List Phrase
sensitive_text_key = credential_key

-- _HEADER_KEY
abbrev pub header_key : List Phrase
header_key = one_word "authorisation" ∷ one_word "authorization" ∷ one_word "cookie" ∷ []

fold_eq : Text → Text → Bool
unfolding starts_folded
fold_eq word text = starts_folded word text && length word == length text

abbrev signing_names : List Text
signing_names =
    codes "sig"
    ∷ codes "signature"
    ∷ codes "key-pair-id"
    ∷ codes "security-token"
    ∷ codes "awsaccesskeyid"
    ∷ codes "ossaccesskeyid"
    ∷ codes "googleaccessid"
    ∷ codes "q-signature"
    ∷ codes "q-sign-algorithm"
    ∷ codes "q-sign-time"
    ∷ codes "q-key-time"
    ∷ codes "q-ak"
    ∷ []

abbrev signing_prefixes : List Text
signing_prefixes = codes "x-amz-" ∷ codes "x-goog-" ∷ codes "x-oss-" ∷ []

module _ (lib : Library) where
  -- _SIGNING_PARAMETER.fullmatch(key) is not None
  unfoldable pub is_signing_name : Text → Bool
  unfolding fold_eq
  is_signing_name key =
      any (λ word. fold_eq word key) signing_names
      || any
          (λ word.
            starts_folded word key
            && all (λ c. lib.is_word c || c == b'-') (drop (length word) key))
          signing_prefixes

  -- _names_sensitive_data
  unfoldable pub names_sensitive_data : Text → List Phrase → Bool
  names_sensitive_data key pattern' =
      if search_phrases pattern' key
      then true
      else if not (has_escapes key)
      then false
      else (let (forms, stable) = decoded_forms lib key in
          not stable || any (λ form. search_phrases pattern' form) forms)

  -- is_sensitive_key
  unfoldable pub is_sensitive_key : Text → Bool
  unfolding names_sensitive_data
  is_sensitive_key key = names_sensitive_data key sensitive_key

  -- _is_sensitive_text_key
  unfoldable pub is_sensitive_text_key : Text → Bool
  unfolding names_sensitive_data
  is_sensitive_text_key key = names_sensitive_data key sensitive_text_key

  -- _is_sensitive_parameter
  unfoldable pub is_sensitive_parameter : Text → Bool
  is_sensitive_parameter key =
      any (λ form. is_sensitive_key form || is_signing_name form) (key ∷ unquote_plus lib key ∷ [])

  -- _is_signing_parameter: the key is read after the last ASCII whitespace in it.
  unfoldable pub is_signing_parameter : Text → Bool
  is_signing_parameter key =
      let name =
        drop
          (elim (rfind_in (one_of value_delimiters) key 0 (length key)) [
            | none ↦ 0
            | some k ↦ suc k
          ])
          key in
      any is_signing_name (name ∷ unquote_plus lib name ∷ [])
