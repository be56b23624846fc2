-- ===== src/Redaction/Identifiers.antt =====
-- redaction.py: _IDENTIFIER_GRAMMARS, each a fullmatch of its pattern.
pub mod Printable
use ai_voice_agent.Prelude.{
  ℕ, Bool, true, false, ◌&&◌, ◌||◌, [], ◌∷◌, ltb, leb, ◌==◌, if◌then◌else◌, length, drop, all,
}
use ai_voice_agent.Redaction.Library.{is_digit, is_letter}
use ai_voice_agent.Text.{Text, codes, prefix_length, starts_with, one_of}

pub data IdentifierKind : Type 0 where
  logger_name : IdentifierKind
  service_name : IdentifierKind
  environment_name : IdentifierKind
  level_name : IdentifierKind
  timestamp_text : IdentifierKind
  request_id_text : IdentifierKind

pub is_word : ℕ → Bool
is_word c = is_letter c || (is_digit c || c == b'_')

-- `started` where a character of the current part of the name has been read
pub is_dotted : Bool → Text → Bool
unfolding is_word
is_dotted started [] = started
is_dotted true (c ∷ text) =
    let next = is_dotted false text in
    let inside = is_dotted true text in if c == b'.' then next else is_word c && inside
is_dotted false (c ∷ text) =
    let inside = is_dotted true text in (is_letter c || c == b'_') && inside

pub is_plain_id : Text → Bool
unfolding is_word
is_plain_id [] = false
is_plain_id (c ∷ text) =
    (is_letter c || is_digit c) && all (λ d. is_word d || one_of (codes ".-") d) text

pub is_numbered_level : Text → Bool
is_numbered_level [] = false
is_numbered_level (c ∷ text) =
    one_of (codes "Ll") c
    && (starts_with (codes "evel ") text
        && (all is_digit (drop 5 text)
            && (leb 1 (length (drop 5 text)) && leb (length (drop 5 text)) 4)))

pub is_level : Text → Bool
unfolding is_numbered_level
is_level text = (ltb 0 (length text) && all is_letter text) || is_numbered_level text

-- A class of characters by position: "0" for a digit, "T" for "T" or a space, else itself.
pub fits_mask : Text → Text → Bool
fits_mask [] text = true
fits_mask (m ∷ mask) [] = false
fits_mask (m ∷ mask) (c ∷ text) =
    let rest = fits_mask mask text in
    (if m == b'0' then is_digit c else if m == b'T' then one_of (codes "T ") c else c == m) && rest

-- (?:Z|[+\-][0-9:]{2,5})? at the end
pub is_zone : Text → Bool
is_zone [] = true
is_zone (c ∷ zone) =
    (c == b'Z' && length zone == 0)
    || (one_of (codes "+-") c
        && (all (λ d. is_digit d || d == b':') zone
            && (leb 2 (length zone) && leb (length zone) 5)))

pub is_clock_char : ℕ → Bool
is_clock_char c = is_digit c || one_of (codes ":.") c

-- [0-9:.]{5,15} and the zone; what follows the run is none of its characters
pub is_clock : Text → Bool
unfolding is_zone is_clock_char
is_clock text =
    let stop = prefix_length is_clock_char text in
    leb 5 stop && (leb stop 15 && is_zone (drop stop text))

pub is_timestamp : Text → Bool
unfolding fits_mask is_clock
is_timestamp text = fits_mask (codes "0000-00-00T") text && is_clock (drop 11 text)

-- _IDENTIFIER_GRAMMARS[kind].fullmatch
unfoldable pub fits_grammar : IdentifierKind → Text → Bool
unfolding is_dotted is_plain_id is_level is_timestamp
fits_grammar logger_name text = is_dotted false text
fits_grammar service_name text = is_plain_id text
fits_grammar environment_name text = is_plain_id text
fits_grammar level_name text = is_level text
fits_grammar timestamp_text text = is_timestamp text
fits_grammar request_id_text text = is_plain_id text
