-- ===== src/Redaction/Pairs.antt =====
-- redaction.py: _pair_span, _swallows_a_value and _scrub_pairs, which mask the value that follows
-- every sensitive key of free text.
pub mod Rounds
pub mod Endings
pub mod Harmless
use ai_voice_agent.Prelude.{
  loop, Outcome, returned, raised, ◌>>=◌, ℕ, ◌+◌, Bool, true, false, not, ◌&&◌, ◌||◌, Option, none,
  some, [], ◌++◌, ltb, leb, if◌then◌else◌, length, drop,
}
use ai_voice_agent.Redaction.Keys.{search_phrases, header_key, is_sensitive_text_key}
use ai_voice_agent.Redaction.Library.{Library}
use ai_voice_agent.Redaction.Markers.{redacted}
use ai_voice_agent.Redaction.Values.{
  in_query_string, locate_value, value_span, Introduction, ValueSpan, KeyFacts, equals, colon,
}
use ai_voice_agent.Text.{Text, codes, slice, skip_while, find_in, one_of}

abbrev max_swallowed_keys : ℕ
max_swallowed_keys = 8

-- What _swallows_a_value keeps from one key to the next, and its answer once it has one.
pub record SwallowScan : Type 0 where
  pub position : ℕ
  pub examined : ℕ
  pub answer : Option (Outcome Bool)

-- What _scrub_pairs keeps: the joined parts, how far the text is copied and read.
pub record PairScan : Type 0 where
  pub parts : Text
  pub copied : ℕ
  pub position : ℕ
  pub finished : Bool
  pub failed : Bool

abbrev unanswered : Option (Outcome Bool) → Bool
unanswered none = true
unanswered (some answer) = false

abbrev answer_or_raise : Option (Outcome Bool) → Outcome Bool
answer_or_raise none = raised
answer_or_raise (some answer) = answer

module _ (lib : Library) (text : Text) where
  -- [\w.\-%]
  is_key_char : ℕ → Bool
  is_key_char c = lib.is_word c || one_of (codes ".-%") c

  run_from : ℕ → Option ℕ → Option (ℕ × ℕ)
  run_from stop none = none
  run_from stop (some start) = some (start, skip_while is_key_char text start stop)

  -- _KEY_RUN.search(text, position, stop): where the next run of key characters starts and ends.
  unfoldable pub next_run : ℕ → ℕ → Option (ℕ × ℕ)
  unfolding is_key_char run_from
  next_run position stop = run_from stop (find_in is_key_char text position stop)

  key_facts : ℕ → Text → Introduction → KeyFacts
  key_facts key_start key kind =
      let header = search_phrases header_key key in
      let is_colon : Bool = elim kind [ colon ↦ true | _ ↦ false ] in
      let is_equals : Bool = elim kind [ equals ↦ true | _ ↦ false ] in
      record {
        key_start = key_start;
        header = header;
        reading = record {
          to_end_of_line = is_colon || (header && is_equals);
          in_query = is_equals && in_query_string text key_start;
        };
      }

  located_span : ℕ → Text → Option (ℕ × Introduction) → Outcome (Option ValueSpan)
  unfolding key_facts
  located_span key_start key none = returned none
  located_span key_start key (some (value_start, kind)) =
      value_span text (key_facts key_start key kind) value_start kind >>= λ span.
      returned (some span)

  -- _pair_span, of the key run from key_start to key_end
  unfoldable pub pair_span : ℕ → ℕ → Outcome (Option ValueSpan)
  unfolding located_span
  pair_span key_start key_end =
      let key = slice text key_start key_end in
      if is_sensitive_text_key lib key
      then located_span key_start key (locate_value text key_start key_end)
      else returned none

  swallow_pair : ℕ → ℕ → SwallowScan → Outcome (Option ValueSpan) → SwallowScan
  swallow_pair stop key_end s raised = record s { answer = some raised }
  swallow_pair stop key_end s (returned none) = record s { position = key_end }
  swallow_pair stop key_end s (returned (some inner)) =
      if ltb max_swallowed_keys (s.examined + 1) || ltb stop inner.stop
      then record s { answer = some (returned true) }
      else record s { position = key_end; examined = s.examined + 1 }

  swallow_run : ℕ → SwallowScan → Option (ℕ × ℕ) → SwallowScan
  unfolding swallow_pair
  swallow_run stop s none = record s { answer = some (returned false) }
  swallow_run stop s (some (key_start, key_end)) =
      swallow_pair stop key_end s (pair_span key_start key_end)

  pub swallow_running : SwallowScan → Bool
  swallow_running s = unanswered s.answer

  swallow_round : ℕ → SwallowScan → SwallowScan
  unfolding swallow_run
  swallow_round stop s = swallow_run stop s (next_run s.position stop)

  pub swallow_scan : ℕ → ℕ → SwallowScan
  unfolding swallow_running swallow_round
  swallow_scan start stop =
      loop (length text + 2) swallow_running (swallow_round stop)
        (record { position = start; examined = 0; answer = none })

  -- _swallows_a_value
  unfoldable pub swallows_a_value : ℕ → ℕ → Outcome Bool
  unfolding swallow_scan
  swallows_a_value start stop = answer_or_raise (swallow_scan start stop).answer

  -- The mask is written, and reading goes on behind the value, or, where the value swallowed
  -- another key, at the end of the text.
  mask_value : PairScan → ValueSpan → Outcome Bool → PairScan
  mask_value s span raised = record s { failed = true }
  mask_value s span (returned true) = record s {
    parts = s.parts ++ (slice text s.copied span.start ++ redacted);
    copied = length text;
    position = length text;
  }
  mask_value s span (returned false) = record s {
    parts = s.parts ++ (slice text s.copied span.start ++ span.replacement);
    copied = span.stop;
    position = span.stop;
  }

  scrub_pair : ℕ → PairScan → Outcome (Option ValueSpan) → PairScan
  unfolding mask_value
  scrub_pair key_end s raised = record s { failed = true }
  scrub_pair key_end s (returned none) = record s { position = key_end }
  scrub_pair key_end s (returned (some span)) =
      if leb span.stop span.start
      then record s { position = key_end }
      else mask_value s span (
          if ltb span.stop (length text)
          then swallows_a_value span.start span.stop
          else returned false)

  scrub_run : PairScan → Option (ℕ × ℕ) → PairScan
  unfolding scrub_pair
  scrub_run s none = record s { finished = true }
  scrub_run s (some (key_start, key_end)) = scrub_pair key_end s (pair_span key_start key_end)

  pub pairs_running : PairScan → Bool
  pairs_running s = not s.finished && not s.failed

  pairs_round : PairScan → PairScan
  unfolding scrub_run
  pairs_round s = scrub_run s (next_run s.position (length text))

  pub pairs_scan : PairScan
  unfolding pairs_running pairs_round
  pairs_scan =
      loop (length text + 2) pairs_running pairs_round
        (record { parts = []; copied = 0; position = 0; finished = false; failed = false })

  -- _scrub_pairs
  unfoldable pub scrub_pairs : Outcome Text
  unfolding pairs_scan
  scrub_pairs =
      if pairs_scan.failed
      then raised
      else returned (pairs_scan.parts ++ drop pairs_scan.copied text)
