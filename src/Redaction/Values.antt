-- ===== src/Redaction/Values.antt =====
-- redaction.py: _block_span, _in_query_string, _locate_value and _value_span, which find the value
-- that belongs to a key of free text.
pub mod Located
pub mod Blocks
pub mod Spanned
pub mod Raising
use ai_voice_agent.Prelude.{
  loop, Outcome, returned, raised, ◌>>=◌, ℕ, suc, ◌+◌, ◌-◌, max, Bool, true, false, not, ◌&&◌, ◌||◌,
  Option, none, some, [], ◌∷◌, ◌++◌, ltb, leb, ◌==◌, if◌then◌else◌, length, get_elem?, get_or, drop,
}
use ai_voice_agent.Redaction.Library.{is_space}
use ai_voice_agent.Redaction.Markers.{
  redacted, quotes, key_trailers, string_prefixes, backslash, line_ends, fragment_open,
  fragment_close,
}
use ai_voice_agent.Redaction.Quotes.{
  closing_quote, unquoted_end, escaped_space, slice_in, opens_quote, Reading,
}
use ai_voice_agent.Text.{
  Text, codes, slice, skip_while, find_in, rfind_in, or_end, starts_with, contains, one_of, char_in,
}

abbrev is_backslash : ℕ → Bool
is_backslash c = c == backslash

-- " \t"
abbrev blanks : Text
blanks = 32 ∷ 9 ∷ []

abbrev after_found : Option ℕ → ℕ
after_found none = 0
after_found (some k) = suc k

pub record BlockScan : Type 0 where
  pub stop : ℕ
  pub finished : Bool

-- What `_block_span` does with the line behind `stop`: it belongs to the value while it is indented
-- further than the key.
module _ (text : Text) (key_indent : ℕ) where
  block_running : BlockScan → Bool
  block_running s = not s.finished && ltb s.stop (length text)

  block_round : BlockScan → BlockScan
  block_round s =
      let following : ℕ =
        if starts_with (13 ∷ 10 ∷ []) (drop s.stop text) then s.stop + 2 else s.stop + 1 in
      let indent = skip_while (one_of blanks) text following (length text) in
      if leb (length text) indent
        || (char_in line_ends text indent || leb (indent - following) key_indent)
      then record s { finished = true }
      else record s {
        stop = or_end (find_in (one_of line_ends) text indent (length text)) (length text);
      }

  block_stop : ℕ → ℕ
  unfolding block_running block_round
  block_stop stop =
      (loop (length text + 2) block_running block_round
        (record { stop = stop; finished = false })).stop

-- _block_span
unfoldable pub block_span : Text → ℕ → ℕ → ℕ × ℕ
unfolding block_stop
block_span text newline_at key_start =
    let line_start =
      max (after_found (rfind_in (one_of (10 ∷ [])) text 0 key_start))
        (after_found (rfind_in (one_of (13 ∷ [])) text 0 key_start)) in
    let key_indent = skip_while (one_of blanks) text line_start key_start - line_start in
    let start = skip_while is_space text newline_at (length text) in
    let stop = or_end (find_in (one_of line_ends) text start (length text)) (length text) in
    if leb (length text) start then (start, start) else (start, block_stop text key_indent stop)

abbrev pub query_lookback : ℕ
query_lookback = 4096

-- _in_query_string
unfoldable pub in_query_string : Text → ℕ → Bool
in_query_string text key_start =
    let window_start = key_start - query_lookback in
    let token_start =
      after_found (rfind_in (one_of (32 ∷ 9 ∷ 13 ∷ 10 ∷ [])) text window_start key_start) in
    if ltb 0 key_start && char_in (codes "&?") text (key_start - 1)
    then true
    else contains (codes "?") (slice text (max token_start window_start) key_start)

-- What introduces a value: "=", ":", ">" or a quote.
pub data Introduction : Type 0 where
  equals colon angle quoted : Introduction

-- The branches of the loop that reads from a key to its separator.
pub data TailBranch : Type 0 where
  no_tail escapes : TailBranch
  trailer : Bool → TailBranch
  subscript : ℕ → TailBranch

pub record KeyTail : Type 0 where
  pub index : ℕ
  pub closed_quote : Bool
  pub finished : Bool

pub record BlankScan : Type 0 where
  pub index : ℕ
  pub first_escape : Option ℕ

abbrev first_of : Option ℕ → ℕ → Option ℕ
first_of none index = some index
first_of (some first) index = some first

abbrev max_subscript_length : ℕ
max_subscript_length = 64

after_subscript : KeyTail → Option ℕ → KeyTail
after_subscript s none = record s { finished = true }
after_subscript s (some closing) = record s { index = closing + 1 }

module _ (text : Text) where
  tail_running : KeyTail → Bool
  tail_running s = not s.finished && ltb s.index (length text)

  -- The first loop of _locate_value: closing quotes and brackets, backslashes, subscripts.
  tail_branch : KeyTail → TailBranch
  tail_branch s =
      let char = get_or text s.index 0 in
      if char == backslash
      then (if ltb 0 (escaped_space text s.index) then no_tail else escapes)
      else if one_of key_trailers char
      then trailer (one_of quotes char)
      else if char == b'['
      then subscript b']'
      else if char == fragment_open
      then subscript fragment_close
      else no_tail

  tail_step : TailBranch → KeyTail → KeyTail
  unfolding after_subscript
  tail_step no_tail s = record s { finished = true }
  tail_step escapes s = record s { index = skip_while is_backslash text s.index (length text) }
  tail_step (trailer quote) s = record s {
    index = s.index + 1;
    closed_quote = s.closed_quote || quote;
  }
  tail_step (subscript closer) s =
      after_subscript s
        (find_in (λ c. c == closer) text (s.index + 1) (s.index + 1 + max_subscript_length))

  tail_round : KeyTail → KeyTail
  unfolding tail_branch tail_step
  tail_round s = tail_step (tail_branch s) s

  pub key_tail : ℕ → KeyTail
  unfolding tail_running tail_round
  key_tail key_end =
      loop (length text + 2) tail_running tail_round
        (record { index = key_end; closed_quote = false; finished = false })

  -- How far the whitespace at the index reaches in one step, plain or escaped; 0 if there is none.
  blank_width : ℕ → ℕ
  blank_width i = if is_space (get_or text i 0) then 1 else escaped_space text i

  skip_running : ℕ → Bool
  skip_running i = ltb i (length text) && ltb 0 (blank_width i)

  -- `while after < length`: past whitespace, plain or escaped
  pub skip_blanks : ℕ → ℕ
  unfolding skip_running blank_width
  skip_blanks index = loop (length text + 1) skip_running (λ i. i + blank_width i) index

  -- The whitespace before a value that "=" introduces, and where the first escape in it stands.
  blanks_running : BlankScan → Bool
  blanks_running s = ltb s.index (length text) && ltb 0 (blank_width s.index)

  blanks_round : BlankScan → BlankScan
  unfolding blank_width
  blanks_round s =
      if is_space (get_or text s.index 0) then record s { index = s.index + 1 } else record s {
        index = s.index + escaped_space text s.index;
        first_escape = first_of s.first_escape s.index;
      }

  pub value_blanks : ℕ → BlankScan
  unfolding blanks_running blanks_round
  value_blanks start =
      loop (length text + 1) blanks_running blanks_round
        (record { index = start; first_escape = none })

-- What stands at `after`, where the whitespace behind the key's tail ends at `index`.
introduction : Text → ℕ → Bool → ℕ → ℕ → Option (ℕ × Introduction)
introduction text key_start closed_quote index after =
    let char = get_or text after 0 in
    let value = skip_while is_space text (after + 1) (length text) in
    if leb (length text) after
    then none
    else if char == b'='
    then some (if char_in (codes ">") text (after + 1) then after + 2 else after + 1, equals)
    else if char == b':'
    then (if char_in (codes "=") text (after + 1)
        then some (after + 2, equals)
        else some (after + 1, colon))
    else if char == b'>' && after == index
    then some (after + 1, angle)
    else if char == b',' && closed_quote
    then (if opens_quote text value then some (value, quoted) else none)
    else if ltb index after
    then (if opens_quote text after
        then some (after, quoted)
        else if char_in (codes "-") text key_start
        then some (after, equals)
        else none)
    else none

-- _locate_value
unfoldable pub locate_value : Text → ℕ → ℕ → Option (ℕ × Introduction)
unfolding key_tail skip_blanks introduction
locate_value text key_start key_end =
    let tail' = key_tail text key_end in
    introduction text key_start tail'.closed_quote tail'.index (skip_blanks text tail'.index)

pub record ValueSpan : Type 0 where
  pub start : ℕ
  pub stop : ℕ
  pub replacement : Text

-- What _pair_span tells _value_span about the key.
pub record KeyFacts : Type 0 where
  pub key_start : ℕ
  pub header : Bool
  pub reading : Reading

module _ (text : Text) (facts : KeyFacts) where
  -- Whether more of the value follows a quoted part that ends before `after`.
  more_follows : ℕ → Bool
  more_follows after =
      let following = skip_while (one_of blanks) text after (length text) in
      let delimiters : Text = if facts.header then codes "\r\n,)]}" else codes "\r\n,)]};&" in
      not (leb (length text) following || char_in delimiters text following)
      && (following == after || facts.reading.to_end_of_line)

  -- A value that opens with `quote` at `quote_at`, and the quote that closes it.
  quoted_value : ℕ → ℕ → Option ℕ → ValueSpan
  unfolding more_follows
  quoted_value quote quote_at none = record {
    start = quote_at;
    stop = length text;
    replacement = quote ∷ redacted;
  }
  quoted_value quote quote_at (some closing) =
      let after = closing + 1 in
      let delimited : ValueSpan = record {
        start = quote_at;
        stop = after;
        replacement = quote ∷ (redacted ++ quote ∷ []);
      } in
      let further : ValueSpan = record {
        start = quote_at;
        stop = unquoted_end text after facts.reading;
        replacement = redacted;
      } in
      if more_follows after then further else delimited

  bare_value : ℕ → ValueSpan
  bare_value index =
      let escapes = skip_while is_backslash text index (length text) in
      if char_in (backslash ∷ []) text index && char_in quotes text escapes
      then record { start = index; stop = length text; replacement = redacted }
      else record {
        start = index;
        stop = unquoted_end text index facts.reading;
        replacement = redacted;
      }

  -- `text[quote_at]`, which raises past the end
  value_opening : ℕ → ℕ → Option ℕ → Outcome ValueSpan
  unfolding quoted_value bare_value
  value_opening index quote_at none = raised
  value_opening index quote_at (some quote) =
      if one_of quotes quote
      then returned (quoted_value quote quote_at (closing_quote text quote_at (length text)))
      else returned (bare_value index)

  -- A string prefix (b'...') stands before the quote.
  quote_position : ℕ → ℕ
  quote_position index =
      if char_in string_prefixes text index && slice_in quotes text (index + 1)
      then index + 1
      else index

  -- _value_span from the first character of the value on.
  pub value_from : ℕ → Outcome ValueSpan
  unfolding value_opening quote_position
  value_from index =
      if leb (length text) index
      then returned (record { start = index; stop = index; replacement = [] })
      else value_opening index (quote_position index) (get_elem? text (quote_position index))

  -- The span from an escape on. The source calls itself at `index` here, where no whitespace is
  -- left to skip.
  escaped_value : ℕ → Option ℕ → Outcome ValueSpan
  escaped_value index none = value_from index
  escaped_value index (some first) =
      if leb (length text) index
      then returned (record { start = first; stop = length text; replacement = redacted })
      else value_from index >>= λ span.
          returned (record { start = first; stop = max span.stop index; replacement = redacted })

  block_value : ℕ × ℕ → ValueSpan
  block_value (start, stop) = record { start = start; stop = stop; replacement = redacted }

  -- _value_span
  unfoldable pub value_span : ℕ → Introduction → Outcome ValueSpan
  unfolding value_from escaped_value block_value value_blanks
  value_span start angle = returned (record {
    start = start;
    stop = or_end (find_in (λ c. c == b'<') text start (length text)) (length text);
    replacement = redacted;
  })
  value_span start colon =
      let index =
        skip_while (λ c. is_space c && not (one_of line_ends c)) text start (length text) in
      if char_in line_ends text index
      then returned (block_value (block_span text index facts.key_start))
      else value_from index
  value_span start _ =
      let skipped = value_blanks text start in escaped_value skipped.index skipped.first_escape
