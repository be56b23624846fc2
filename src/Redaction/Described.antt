-- ===== src/Redaction/Described.antt =====
-- redaction.py: _emit and _marker, which charge the output, and _describe_exception.
pub mod Agreement
pub mod Emitting
use ai_voice_agent.Prelude.{
  Outcome, returned, raised, ℕ, ◌+◌, ◌-◌, ◌/◌, Bool, false, ◌&&◌, ◌||◌, Option, none, some, List,
  [], ◌∷◌, ◌++◌, ltb, leb, ◌==◌, if◌then◌else◌, length, take, all,
}
use ai_voice_agent.Redaction.Budgets.{
  ◌>>=◌, Call, pure, raise, ◌>>◌, caught, with_budget, take_node, charge,
}
use ai_voice_agent.Redaction.Json.{Sanitize}
use ai_voice_agent.Redaction.Layers.{scrub}
use ai_voice_agent.Redaction.Library.{is_ascii, is_digit, is_letter}
use ai_voice_agent.Redaction.Markers.{
  truncated, unsupported, max_depth, max_string_length, max_event_nodes, separator_cost,
}
use ai_voice_agent.Redaction.Objects.{
  decimal, Part, ValidationError, Errors, Exception, World, number_part, text_part, other_part,
  no_errors, errors_raise, errors_listed,
}
use ai_voice_agent.Text.{Text, codes, one_of, join}

-- How many characters of a text that does not fit are kept.
pub kept_length : ℕ → Text → ℕ
kept_length output text = (output - length truncated - 5) / (if is_ascii text then 6 else 12)

pub shortened : ℕ → Text → Text
shortened keep text = if keep == 0 then truncated else take keep text ++ (b' ' ∷ truncated)

-- _emit, at the top of a nesting
pub emit_charged : World → Text → Call Text
unfolding kept_length shortened
emit_charged world text b =
    if leb (world.dumps_length text + separator_cost) b.output
    then (
      returned text,
      record b { output = b.output - (world.dumps_length text + separator_cost) },
    )
    else (returned (shortened (kept_length b.output text) text), record b { output = 0 })

-- _emit
unfoldable pub emit : World → Text → ℕ → Call Text
unfolding emit_charged
emit world text nesting = if ltb 0 nesting then pure text else emit_charged world text

-- _marker
unfoldable pub marker : Text → ℕ → Call Text
marker text nesting =
    charge (length text + 2) nesting >>= λ paid. pure (if paid then text else truncated)

is_name_char : ℕ → Bool
is_name_char c = is_letter c || (is_digit c || one_of (codes "_.<>") c)

-- _TYPE_NAME.fullmatch and _FRAME_NAME.fullmatch, by what else may come first
is_code_name : Text → Text → Bool
unfolding is_name_char
is_code_name first [] = false
is_code_name first (c ∷ text) =
    (is_letter c || one_of first c) && (all is_name_char text && leb (length text) 127)

-- _type_name
unfoldable pub type_name : Exception → Text
unfolding is_code_name
type_name exc = elim exc.qualname [
  | none ↦ codes "object"
  | some name ↦ if is_code_name (b'_' ∷ []) name then name else codes "object"
]

-- _FRAME_NAME.fullmatch
unfoldable pub is_frame_name : Text → Bool
unfolding is_code_name
is_frame_name name = is_code_name (codes "_<") name

-- f"{text[:limit]} {TRUNCATED}" where the text is longer
abbrev pub within : ℕ → Text → Text
within limit text = if leb (length text) limit then text else take limit text ++ (b' ' ∷ truncated)

module _ (world : World) (sanitize : Sanitize) where
  -- _summary_part
  pub summary_part : ℕ → Part → Call Text
  summary_part limit (number_part text) = pure unsupported
  summary_part limit other_part = pure unsupported
  summary_part limit (text_part text) =
      scrub world sanitize 0 text >>= λ scrubbed. pure (within limit scrubbed)

  -- One part of a location, where an int stands for itself.
  pub location_part : Part → Call Text
  unfolding summary_part
  location_part (number_part text) = pure text
  location_part (text_part text) = summary_part 64 (text_part text)
  location_part other_part = pure unsupported

  pub location_parts : List Part → Call (List Text)
  unfolding location_part
  location_parts [] = pure []
  location_parts (part ∷ parts) =
      location_part part >>= λ text. location_parts parts >>= λ texts. pure (text ∷ texts)

  or_root : Text → Text
  or_root [] = codes "<root>"
  or_root (c ∷ text) = c ∷ text

  pub problem_line : ValidationError → Call Text
  unfolding location_parts summary_part or_root
  problem_line error = location_parts (take max_depth error.location) >>= λ location.
      summary_part 256 error.message >>= λ message. summary_part 64 error.kind >>= λ kind. pure (
        or_root (join (codes ".") location)
        ++ (codes ": " ++ (message ++ (codes " [" ++ (kind ++ codes "]")))))

  pub problem_lines : List (Option ValidationError) → Call (List Text)
  unfolding problem_line
  problem_lines [] = pure []
  problem_lines (none ∷ errors) = problem_lines errors
  problem_lines (some error ∷ errors) =
      problem_line error >>= λ line. problem_lines errors >>= λ lines. pure (line ∷ lines)

  -- _validation_summary
  pub validation_summary : Errors → Call (Option Text)
  unfolding problem_lines
  validation_summary no_errors = pure none
  validation_summary errors_raise = raise
  validation_summary (errors_listed errors) = problem_lines (take 20 errors) >>= λ problems. pure (
      some
        (decimal (length errors) ++ (codes " validation error(s): " ++ join (codes "; ") problems)))

  plain_message : Outcome Text → Text
  plain_message raised = codes "<unprintable message>"
  plain_message (returned text) = take (max_string_length + 1) text

  pub message_or : Exception → Option Text → Call Text
  unfolding plain_message
  message_or exc none = scrub world sanitize 0 (plain_message exc.message)
  message_or exc (some summary) = pure summary

  -- _exception_message
  pub exception_message : Exception → Call Text
  unfolding validation_summary message_or
  exception_message exc = caught none (validation_summary exc.errors) >>= λ summary.
      message_or exc summary >>= λ scrubbed. pure (within 2048 scrubbed)

  module _ (describe : ℕ → Call Text) where
    -- The members of a group, of which each takes a node.
    pub described_members : List ℕ → Call (List Text)
    described_members [] = pure []
    described_members (member ∷ members) = with_budget λ b.
        if leb max_event_nodes b.visited
        then pure (truncated ∷ [])
        else (take_node
            >> (describe member >>= λ text.
                described_members members >>= λ texts. pure (text ∷ texts)))

    pub with_members : Text → Option (List ℕ) → Call Text
    unfolding described_members
    with_members text none = pure text
    with_members text (some members) = described_members (take 5 members) >>= λ texts.
        pure (text ++ (codes " [" ++ (join (codes "; ") texts ++ codes "]")))

    -- _describe_exception
    unfoldable pub describe_exception : Exception → Call Text
    unfolding exception_message with_members
    describe_exception exc = exception_message exc >>= λ message.
        with_members (type_name exc ++ (codes ": " ++ message)) exc.members
