-- ===== src/Redaction/Frames.antt =====
-- redaction.py: the lines of a traceback's frames, from validated metadata.
use ai_voice_agent.Prelude.{
  ℕ, ◌-◌, Bool, not, ◌||◌, Option, none, some, List, [], ◌∷◌, ◌++◌, ltb, ◌==◌, if◌then◌else◌,
  length, take, drop, all, any,
}
use ai_voice_agent.Redaction.Budgets.{◌>>=◌, Call, pure}
use ai_voice_agent.Redaction.Described.{is_frame_name}
use ai_voice_agent.Redaction.Events.{event_levels}
use ai_voice_agent.Redaction.Layers.{scrub}
use ai_voice_agent.Redaction.Library.{is_ambiguous}
use ai_voice_agent.Redaction.Markers.{truncated}
use ai_voice_agent.Redaction.Objects.{decimal, Frame, World}
use ai_voice_agent.Redaction.Sanitizer.{calls_within}
use ai_voice_agent.Text.{Text, codes, one_of, text_eq}

abbrev max_filename_length : ℕ
max_filename_length = 512

abbrev pub max_traceback_frames : ℕ
max_traceback_frames = 32

abbrev max_traceback_walk : ℕ
max_traceback_walk = 4096

abbrev unknown_file : Text
unknown_file = codes "<unknown file>"

abbrev unsafe_file : Text
unsafe_file = codes "<unsafe filename>"

abbrev unknown_name : Text
unknown_name = codes "<unknown>"

-- The number of a frame's line, where it is an int below 1,000,000,000.
line_text : Option ℕ → Text
line_text none = codes "?"
line_text (some n) = if ltb n 1000000000 then decimal n else codes "?"

frame_text : Text → Text → Text → Text
frame_text filename number name =
    codes "  File \"" ++ (filename ++ (codes "\", line " ++ (number ++ (codes ", in " ++ name))))

-- The name of a code object, if it is one that the interpreter writes.
shown_name : Option Text → Text
shown_name none = unknown_name
shown_name (some name) = if is_frame_name name then name else unknown_name

module _ (world : World) (is_printable : ℕ → Bool) where
  scrub_here : Text → Call Text
  scrub_here text = scrub world (calls_within world event_levels).value 0 text

  -- _frame_filename
  frame_filename : Option Text → Call Text
  unfolding scrub_here
  frame_filename none = pure unknown_file
  frame_filename (some text) =
      if ltb max_filename_length (length text)
      then pure (codes "<filename too long>")
      else if length text == 0
          || (not (all is_printable text) || (one_of text 34 || any is_ambiguous text))
      then pure unsafe_file
      else (scrub_here text >>= λ scrubbed.
          pure (if text_eq scrubbed text then text else unsafe_file))

  -- A frame's line, where the text rules leave it as it is above another line.
  checked_line : Text → Text → Call Text
  unfolding scrub_here
  checked_line fallback line =
      let stacked = line ++ (10 ∷ line) in
      scrub_here stacked >>= λ scrubbed. pure (if text_eq scrubbed stacked then line else fallback)

  -- _frame_line
  unfoldable pub frame_line : Frame → Call Text
  unfolding frame_filename checked_line frame_text line_text shown_name
  frame_line frame = elim frame.code [
    | none ↦ pure (frame_text unsafe_file (line_text frame.line_number) unknown_name)
    | some names ↦ frame_filename names.filename >>= λ filename.
        checked_line (frame_text unsafe_file (line_text frame.line_number) unknown_name)
          (frame_text filename (line_text frame.line_number) (shown_name names.name))
  ]

  unfoldable pub frame_lines : List Frame → Call (List Text)
  unfolding frame_line
  frame_lines [] = pure []
  frame_lines (frame ∷ frames) =
      frame_line frame >>= λ line. frame_lines frames >>= λ lines. pure (line ∷ lines)

  -- _traceback_frames: the last 32 of the first 4,096 frames.
  unfoldable pub traceback_frames : List Frame → Call (List Text)
  unfolding frame_lines
  traceback_frames frames =
      let walked = take max_traceback_walk frames in
      frame_lines (drop (length walked - max_traceback_frames) walked) >>= λ lines. pure (
        if ltb max_traceback_walk (length frames)
        then lines ++ (codes "  " ++ truncated) ∷ []
        else lines)
