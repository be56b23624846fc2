-- ===== src/Redaction/Tests.antt =====
-- Runs of redaction.py's functions on small texts.
mod Sanitizing
mod Tracing
use ai_voice_agent.Prelude.{
  loop, returned, raised, ◌≤◌, ◌<◌, ◌≡◌, refl, ◌↔◌, inl, true, false, ◌||◌, some, List, [], ◌∷◌,
  arith, ◌==◌, length, get_elem?, get_or,
}
use ai_voice_agent.Redaction.Decoding.{decoded_forms, has_escapes}
use ai_voice_agent.Redaction.Identifiers.{is_word}
use ai_voice_agent.Redaction.Keys.{
  search_phrases, is_sensitive_text_key, is_sensitive_key, is_signing_name, is_sensitive_parameter,
  is_signing_parameter,
}
use ai_voice_agent.Redaction.Library.{is_space, is_ascii, is_digit, is_letter, hex_number, Library}
use ai_voice_agent.Redaction.Markers.{string_prefixes}
use ai_voice_agent.Redaction.Pairs.{
  next_run, pair_span, swallows_a_value, pairs_running, pairs_scan, scrub_pairs,
}
use ai_voice_agent.Redaction.Pairs.Endings.{pairs_scan_ends}
use ai_voice_agent.Redaction.Quotes.{
  closing_quote, unquoted_end, escaped_space, slice_in, opens_quote,
}
use ai_voice_agent.Redaction.Quotes.Closing.{closing_quote_bounds}
use ai_voice_agent.Redaction.Quotes.Unquoted.{unquoted_end_bounds}
use ai_voice_agent.Redaction.Spans.{Span, replace_spans}
use ai_voice_agent.Redaction.Spans.Covering.{covered, masked, Fits, SameShown}
use ai_voice_agent.Redaction.Spans.Masking.{replace_spans-masked, replace_spans_hides}
use ai_voice_agent.Redaction.Urls.{is_at, netloc_end, userinfo_end, url_scan}
use ai_voice_agent.Redaction.Urls.Hiding.{InSecretParameter, InSignedUrl}
use ai_voice_agent.Redaction.Urls.Parameters.{InParameter}
use ai_voice_agent.Redaction.Urls.Signed.{IsSigned}
use ai_voice_agent.Redaction.Urls.Userinfo.{userinfo_end_covers}
use ai_voice_agent.Redaction.Values.{
  block_span, in_query_string, locate_value, value_from, value_span, KeyFacts,
}
use ai_voice_agent.Redaction.Values.Raising.{value_from_raises}
use ai_voice_agent.Text.{
  Text, codes, slice, skip_while, find_in, rfind_in, starts_with, find_text, contains, char_in,
}

-- A library for the tests: the word characters are ASCII letters, digits and the underscore, and
-- nothing is encoded.
abbrev pub plain_library : Library
plain_library = record {
  is_word = λ c. is_letter c || (is_digit c || c == b'_');
  is_decimal = is_digit;
  unquote = λ text. text;
  html_unescape = λ text. text;
  nfkc = λ text. text;
}

masks_a_pair :
    scrub_pairs plain_library (codes "a password=hunter2 b")
    ≡ returned (codes "a password=[REDACTED] b")
unfolding scrub_pairs pair_span next_run swallows_a_value value_span locate_value closing_quote
    unquoted_end escaped_space opens_quote slice_in block_span in_query_string is_sensitive_text_key
    search_phrases has_escapes decoded_forms find_in rfind_in skip_while slice char_in starts_with
    find_text contains is_space is_letter is_digit is_ascii hex_number loop
masks_a_pair = refl

last_prefix_letter : scrub_pairs plain_library (codes "token=b") ≡ raised
unfolding scrub_pairs pair_span next_run swallows_a_value value_span locate_value closing_quote
    unquoted_end escaped_space opens_quote slice_in block_span in_query_string is_sensitive_text_key
    search_phrases has_escapes decoded_forms find_in rfind_in skip_while slice char_in starts_with
    find_text contains is_space is_letter is_digit is_ascii hex_number loop
last_prefix_letter = refl

abbrev sample : Text
sample = 97 ∷ 98 ∷ 99 ∷ 100 ∷ 101 ∷ []

abbrev other_sample : Text
other_sample = 120 ∷ 98 ∷ 99 ∷ 121 ∷ 122 ∷ []

-- Out of order, and two of them overlap.
abbrev sample_spans : List Span
sample_spans = (4, 5) ∷ (3, 5) ∷ (0, 1) ∷ []

sample-Fits : Fits (length sample) sample_spans
sample-Fits = (omega arith, (omega arith, (omega arith, tt)))

replace_spans_example :
    replace_spans sample sample_spans ≡ masked (covered sample_spans) 0 false sample
replace_spans_example = replace_spans-masked sample sample_spans sample-Fits

sample-SameShown : SameShown (covered sample_spans) 0 sample other_sample
sample-SameShown = (λ h. cc, (λ h. refl, (λ h. refl, (λ h. cc, (λ h. cc, tt)))))

replace_spans_hides_example :
    replace_spans sample sample_spans ≡ replace_spans other_sample sample_spans
replace_spans_hides_example =
    replace_spans_hides sample other_sample sample_spans sample-Fits sample-SameShown

abbrev pair_text : Text
pair_text = codes "user: b"

abbrev pair_facts : KeyFacts
pair_facts = record {
  key_start = 0;
  header = false;
  reading = record { to_end_of_line = true; in_query = false };
}

value_from_raises_example :
    (value_from pair_text pair_facts 6 ≡ raised)
    ↔ ((7 ≡ length pair_text) × (char_in string_prefixes pair_text 6 ≡ true))
value_from_raises_example = value_from_raises pair_text pair_facts 6 (omega arith)

pairs_scan_ends_example :
    pairs_running plain_library pair_text (pairs_scan plain_library pair_text) ≡ false
pairs_scan_ends_example = pairs_scan_ends plain_library pair_text

abbrev quoted_text : Text
quoted_text = codes "'a''b' c"

closing_quote_example : (0 < 5) × (5 < 8) × (get_or quoted_text 5 0 ≡ get_or quoted_text 0 0)
unfolding closing_quote loop char_in
closing_quote_example = closing_quote_bounds quoted_text 0 8 5 refl

unquoted_end_example :
    (6 ≤ unquoted_end quoted_text 6 pair_facts.reading)
    × (unquoted_end quoted_text 6 pair_facts.reading ≤ length quoted_text)
unquoted_end_example = unquoted_end_bounds quoted_text 6 pair_facts.reading (omega arith)

abbrev authority_text : Text
authority_text = codes "u:p@q@h/x@y"

authority_text-netloc : 3 < netloc_end plain_library authority_text 0
unfolding netloc_end find_in slice
authority_text-netloc = omega arith

userinfo_end_example :
    (3
      ≤ userinfo_end plain_library authority_text 0 11
          (rfind_in is_at authority_text 0 (length authority_text))
          false)
    × (userinfo_end plain_library authority_text 0 11
          (rfind_in is_at authority_text 0 (length authority_text))
          false
        < netloc_end plain_library authority_text 0)
    × (get_elem? authority_text (
          userinfo_end plain_library authority_text 0 11
            (rfind_in is_at authority_text 0 (length authority_text))
            false)
        ≡ some b'@')
userinfo_end_example =
    userinfo_end_covers plain_library authority_text 0 11 false 3 (omega arith)
      authority_text-netloc refl

abbrev url_text : Text
url_text = codes "x://u:p@h/?a=b"

-- A signed URL: its "sig" is a parameter that is sensitive, and one that signs.
abbrev signed_text : Text
signed_text = codes "x://h?sig=b"

signed_text-InSecretParameter : InSecretParameter plain_library signed_text false 10
unfolding InSecretParameter InParameter url_scan userinfo_end find_text starts_with find_in rfind_in
    slice netloc_end is_sensitive_parameter is_sensitive_key search_phrases is_signing_name loop
    char_in has_escapes is_ascii
signed_text-InSecretParameter =
    (6, 6, 9, refl, (inl refl, omega arith, refl, refl, refl, omega arith, omega arith, refl))

signed_text-InSignedUrl : InSignedUrl plain_library signed_text false 4
unfolding InSignedUrl IsSigned url_scan userinfo_end find_text starts_with find_in rfind_in slice
    netloc_end is_signing_parameter is_signing_name loop char_in has_escapes is_ascii is_space
signed_text-InSignedUrl = (
  [],
  [],
  1,
  4,
  11,
  5,
  6,
  9,
  10,
  refl,
  refl,
  (inl refl, omega arith, refl, refl, refl, omega arith, omega arith, refl),
  omega arith,
  omega arith,
)
