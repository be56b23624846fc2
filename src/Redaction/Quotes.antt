-- ===== src/Redaction/Quotes.antt =====
-- redaction.py: _closing_quote, _unquoted_end, _escaped_space and _opens_quote, the scanners that
-- find where a value ends. Each `while` loop is a `loop` over its variables.
pub mod Closing
pub mod Unquoted
pub mod Escapes
use ai_voice_agent.Prelude.{
  loop, ℕ, ◌+◌, ◌-◌, min, Bool, true, false, not, ◌&&◌, ◌||◌, Option, none, some, [], ◌∷◌, ltb, leb,
  ◌==◌, if◌then◌else◌, length, get_elem?, get_or, drop,
}
use ai_voice_agent.Redaction.Library.{is_space, hex_number}
use ai_voice_agent.Redaction.Markers.{
  quotes, openers, closers, string_prefixes, value_delimiters, backslash, line_ends,
}
use ai_voice_agent.Text.{Text, codes, skip_while, find_in, or_end, one_of, char_in}

abbrev is_backslash : ℕ → Bool
is_backslash c = c == backslash

-- The variables of _closing_quote, and what it has returned, if it has.
pub data Verdict : Type 0 where
  scanning : Verdict
  closed : ℕ → Verdict
  undelimited : Verdict

pub record QuoteScan : Type 0 where
  pub index : ℕ
  pub verdict : Verdict

abbrev in_progress : Verdict → Bool
in_progress scanning = true
in_progress (closed k) = false
in_progress undelimited = false

abbrev closing_of : Verdict → Option ℕ
closing_of scanning = none
closing_of (closed k) = some k
closing_of undelimited = none

module _ (text : Text) (opening_at limit : ℕ) where
  pub quote_running : QuoteScan → Bool
  quote_running s = in_progress s.verdict && ltb s.index limit

  -- One round of the loop, at the quote that the value opened with.
  quote_round : ℕ → QuoteScan → QuoteScan
  quote_round quote s =
      let i = s.index in
      let char = get_or text i 0 in
      let after = skip_while is_backslash text i limit in
      if char == backslash
      then (if ltb 1 (after - i) && char_in (quote ∷ []) text after
          then record s { verdict = undelimited }
          else record s { index = after + 1 })
      else if char == quote
      then (if ltb (opening_at + 1) i && char_in (quote ∷ []) text (i + 1)
          then record s { index = i + 2 }
          else record s { verdict = closed i })
      else record s { index = i + 1 }

  pub quote_scan : ℕ → QuoteScan
  quote_scan quote =
      loop (limit + 2) quote_running (quote_round quote)
        (record { index = opening_at + 1; verdict = scanning })

  -- _closing_quote; `none` is the source's -1
  unfoldable pub closing_quote : Option ℕ
  unfolding quote_scan quote_running quote_round
  closing_quote = closing_of (quote_scan (get_or text opening_at 0)).verdict

-- The variables of _unquoted_end. `answer` is what it returned inside the loop, `stopped` a break.
pub record EndScan : Type 0 where
  pub index : ℕ
  pub depth : ℕ
  pub stopped : Bool
  pub answer : Option ℕ

abbrev is_none : Option ℕ → Bool
is_none none = true
is_none (some k) = false

-- A quoted section inside the value is passed over; if it is not closed the value ends at its limit.
after_quote : EndScan → ℕ → Option ℕ → EndScan
after_quote s limit none = record s { answer = some limit }
after_quote s limit (some closing) = record s { index = closing + 1 }

-- What the function returns once the loop has ended.
end_of : ℕ → EndScan → ℕ
end_of size s = elim s.answer [ none ↦ min s.index size | some answer ↦ answer ]

-- The branches of the body of the loop of _unquoted_end.
pub data EndBranch : Type 0 where
  ends_here skip_escape quoted_in_text quoted_in_line deeper shallower onward : EndBranch

-- How a value is read: as the rest of its line, as a URL query's.
pub record Reading : Type 0 where
  pub to_end_of_line : Bool
  pub in_query : Bool

module _ (text : Text) (start : ℕ) (how : Reading) where
  pub end_running : EndScan → Bool
  end_running s = not s.stopped && (is_none s.answer && ltb s.index (length text))

  -- The end of the line that the value starts on.
  line_end : ℕ
  line_end = or_end (find_in (one_of line_ends) text start (length text)) (length text)

  spans_lines : Bool
  spans_lines = char_in openers text start

  -- Which branch of the loop's body the next character takes.
  end_branch : EndScan → EndBranch
  unfolding spans_lines
  end_branch s =
      let char = get_or text s.index 0 in
      let bracketed = spans_lines && ltb 0 s.depth in
      if one_of line_ends char && not bracketed
      then ends_here
      else if char == backslash
      then skip_escape
      else if one_of quotes char && (ltb 0 s.depth || not how.to_end_of_line)
      then (if bracketed then quoted_in_text else quoted_in_line)
      else if one_of openers char
      then deeper
      else if one_of closers char
      then shallower
      else if s.depth == 0
          && (not how.to_end_of_line
              && (one_of value_delimiters char || (how.in_query && char == b'&')))
      then ends_here
      else onward

  end_step : EndBranch → EndScan → EndScan
  unfolding after_quote
  end_step ends_here s = record s { stopped = true }
  end_step skip_escape s = record s {
    index = skip_while is_backslash text s.index (length text) + 1;
  }
  end_step quoted_in_text s = after_quote s (length text) (closing_quote text s.index (length text))
  end_step quoted_in_line s = after_quote s line_end (closing_quote text s.index line_end)
  end_step deeper s = record s { depth = s.depth + 1; index = s.index + 1 }
  end_step shallower s = record s { depth = s.depth - 1; index = s.index + 1 }
  end_step onward s = record s { index = s.index + 1 }

  end_round : EndScan → EndScan
  unfolding end_branch end_step
  end_round s = end_step (end_branch s) s

  pub end_scan : EndScan
  end_scan =
      loop (length text + 2) end_running end_round
        (record { index = start; depth = 0; stopped = false; answer = none })

  -- _unquoted_end, of a start inside the text
  unfoldable pub unquoted_end : ℕ
  unfolding end_scan end_running end_round line_end end_of
  unquoted_end = end_of (length text) end_scan

-- \xNN and \uNNNN, of a character that is whitespace: where the escape ends.
hex_escape_end : ℕ → ℕ → Option ℕ → Option ℕ
hex_escape_end stop digits none = none
hex_escape_end stop digits (some value) =
    if ltb 0 digits && is_space value then some (stop + 1 + digits) else none

-- Where an escaped whitespace ends whose backslashes end at `stop`.
escape_end : Text → ℕ → Option ℕ
unfolding hex_escape_end
escape_end text stop =
    let char = get_or text stop 0 in
    let digits : ℕ = if char == b'x' then 2 else if char == b'u' then 4 else 0 in
    if one_of (codes "ntrfv") char
    then some (stop + 1)
    else hex_escape_end stop digits (hex_number digits (drop (stop + 1) text))

width_to : ℕ → Option ℕ → ℕ
width_to index none = 0
width_to index (some stop) = stop - index

-- _escaped_space: how long an escaped whitespace at the index is, 0 if there is none
unfoldable pub escaped_space : Text → ℕ → ℕ
unfolding escape_end width_to
escaped_space text index =
    let stop = skip_while is_backslash text index (length text) in
    if stop == index || leb (length text) stop then 0 else width_to index (escape_end text stop)

-- `text[index : index + 1] in set`. Past the end the slice is empty, and the empty text is in every
-- text, so the test holds there.
unfoldable pub slice_in : Text → Text → ℕ → Bool
slice_in set text index = elim (get_elem? text index) [ none ↦ true | some c ↦ one_of set c ]

-- _opens_quote
unfoldable pub opens_quote : Text → ℕ → Bool
opens_quote text index =
    if slice_in string_prefixes text index && slice_in quotes text (index + 1)
    then true
    else char_in quotes text (skip_while is_backslash text index (length text))
