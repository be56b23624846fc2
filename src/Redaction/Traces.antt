-- ===== src/Redaction/Traces.antt =====
-- redaction.py: the units of a traceback, built along a chain of exceptions.
pub mod Texts
pub mod Bounds
use ai_voice_agent.Prelude.{
  ℕ, zero, suc, ◌+◌, ◌-◌, Bool, true, false, ◌||◌, Option, none, some, List, [], ◌∷◌, ◌++◌, map,
  ltb, if◌then◌else◌, length,
}
use ai_voice_agent.Redaction.Budgets.{◌>>=◌, Call, pure, raise}
use ai_voice_agent.Redaction.Described.{type_name, within}
use ai_voice_agent.Redaction.Events.{event_levels}
use ai_voice_agent.Redaction.Frames.{traceback_frames}
use ai_voice_agent.Redaction.Markers.{redacted, truncated, max_string_length}
use ai_voice_agent.Redaction.Objects.{Frame, Exception, Object, World, exception_object}
use ai_voice_agent.Redaction.Sanitizer.{calls_within}
use ai_voice_agent.Text.{Text, codes, one_of}

abbrev pub max_traceback_lines : ℕ
max_traceback_lines = 192

abbrev pub max_traceback_length : ℕ
max_traceback_length = max_string_length - 64

abbrev max_description_length : ℕ
max_description_length = 8192

abbrev pub max_exception_chain : ℕ
max_exception_chain = 10

-- How an exception was reached from the newer one.
pub data Link : Type 0 where
  raised_first : Link
  as_cause : Link
  as_context : Link

-- A line, and what replaces it if its message is withheld.
abbrev pub TraceUnit : Type 0
TraceUnit = Text × Option Text

link_line : Link → Text
link_line as_cause = codes "The above exception was the direct cause of the following exception:"
link_line link = codes "During handling of the above exception, another exception occurred:"

next_link : Exception → Option (ℕ × Link)
next_link exc = elim exc.cause [
  | some address ↦ some (address, as_cause)
  | none ↦ elim exc.context [
    | none ↦ none
    | some address ↦ if exc.suppress_context then none else some (address, as_context)
  ]
]

pub link_of : Object → Option (ℕ × Link)
unfolding next_link
link_of (exception_object exc) = next_link exc
link_of object = none

module _ (heap : ℕ → Object) where
  -- The first loop of _traceback_units, with how many exceptions may still be added.
  pub chain_from : ℕ → List ℕ → Option (ℕ × Link) → List (ℕ × Link)
  unfolding link_of
  chain_from zero seen current = []
  chain_from (suc room) seen none = []
  chain_from (suc room) seen (some (address, link)) =
      let rest = chain_from room (address ∷ seen) (link_of (heap address)) in
      if one_of seen address then [] else (address, link) ∷ rest

  unfoldable pub exception_chain : ℕ → List (ℕ × Link)
  unfolding chain_from
  exception_chain address = chain_from max_exception_chain [] (some (address, raised_first))

-- The blank line, the link and the blank line before a newer exception.
link_block : List (ℕ × Link) → List TraceUnit
unfolding link_line
link_block [] = []
link_block ((address, link) ∷ chain) = ([], none) ∷ (link_line link, none) ∷ ([], none) ∷ []

fixed_lines : List Text → List TraceUnit
fixed_lines lines = map (λ line. (line, none)) lines

-- The lines and characters that may still come, the blocks so far with the newest last, and
-- whether the loop was left.
pub record Blocks : Type 0 where
  pub lines_left : ℕ
  pub length_left : ℕ
  pub units : List TraceUnit
  pub complete : Bool

-- sum(len(line) for line, _ in block)
unfoldable pub text_length : List TraceUnit → ℕ
text_length [] = 0
text_length (unit ∷ units) = length unit.0 + text_length units

unfoldable pub add_block : Blocks → List TraceUnit → Blocks
unfolding text_length
add_block s block =
    let size = text_length block + length block in
    if ltb s.lines_left (length block) || ltb s.length_left size
    then record s { complete = false }
    else (record s {
      lines_left = s.lines_left - length block;
      length_left = s.length_left - size;
      units = block ++ s.units;
    })

unfoldable pub no_blocks : Blocks
no_blocks = record {
  lines_left = max_traceback_lines;
  length_left = max_traceback_length;
  units = [];
  complete = true;
}

pub closed_blocks : Blocks → List TraceUnit
closed_blocks s = if s.complete then s.units else (truncated, none) ∷ s.units

module _ (world : World) (is_printable : ℕ → Bool) where
  trace_block : Option (List Frame) → Call (List TraceUnit)
  unfolding traceback_frames fixed_lines
  trace_block none = pure []
  trace_block (some frames) = traceback_frames world is_printable frames >>= λ lines.
      pure ((codes "Traceback (most recent call last):", none) ∷ fixed_lines lines)

  message_unit : Exception → Text → TraceUnit
  message_unit exc description =
      (within max_description_length description, some (type_name exc ++ (codes ": " ++ redacted)))

  -- The lines of one exception of the chain.
  pub exception_block : ℕ → List (ℕ × Link) → Object → Call (List TraceUnit)
  unfolding trace_block message_unit link_block
  exception_block address newer_first (exception_object exc) =
      trace_block exc.traceback >>= λ trace.
      (calls_within world event_levels).description address >>= λ description.
      pure (link_block newer_first ++ (trace ++ message_unit exc description ∷ []))
  exception_block address newer_first object = raise

  -- The second loop of _traceback_units.
  pub blocks_from : List (ℕ × Link) → Blocks → Call Blocks
  unfolding exception_block
  blocks_from [] s = pure s
  blocks_from ((address, link) ∷ chain) s =
      if s.complete
      then (exception_block address chain (world.heap address) >>= λ block.
          blocks_from chain (add_block s block))
      else pure s

  -- _traceback_units
  unfoldable pub traceback_units : ℕ → Call (List TraceUnit)
  unfolding blocks_from closed_blocks
  traceback_units address =
      blocks_from (exception_chain world.heap address) no_blocks >>= λ s. pure (closed_blocks s)
