-- ===== src/Redaction/Quotes/Escapes.antt =====
-- Lemmas on _escaped_space.
use ai_voice_agent.Prelude.{
  ℕ, ◌+◌, ◌≤◌, ◌<◌, ◌≡◌, inl, inr, some, arith, ◌==◌, if◌then◌else◌, Bool-cases, Option-cases,
  length, get_or, drop, length-take, length-drop,
}
use ai_voice_agent.Redaction.Library.{hex_number}
use ai_voice_agent.Redaction.Quotes.{
  escaped_space, is_backslash, width_to, hex_escape_end, escape_end,
}
use ai_voice_agent.Text.{Text, codes, skip_while, one_of}

hex_number_inside :
    (width k : ℕ) (text : Text) {value : ℕ}
    → 0 < width
    → hex_number width (drop k text) ≡ some value
    → k + width ≤ length text
unfolding hex_number
hex_number_inside width k text some_width h =
    ground (arith, length-take width (drop k text), length-drop k text)

hex_escape_end_inside :
    (text : Text) (stop digits : ℕ) {k : ℕ}
    → hex_escape_end stop digits (hex_number digits (drop (stop + 1) text)) ≡ some k
    → k ≤ length text
unfolding hex_escape_end
hex_escape_end_inside text stop digits h =
    elim (Option-cases (hex_number digits (drop (stop + 1) text))) [
      | inl missing ↦ absurd (ground arith)
      | inr (value, e) ↦ ground (arith, hex_number_inside digits (stop + 1) text {value = value})
    ]

escape_end_inside :
    (text : Text) (stop : ℕ) {k : ℕ}
    → stop < length text
    → escape_end text stop ≡ some k
    → k ≤ length text
unfolding escape_end
escape_end_inside text stop lt h =
    let char = get_or text stop 0 in
    let digits : ℕ = if char == b'x' then 2 else if char == b'u' then 4 else 0 in
    elim (Bool-cases (one_of (codes "ntrfv") char)) [
      | inl simple ↦ let e = rw simple at h in ground arith
      | inr numeric ↦ hex_escape_end_inside text stop digits (rw numeric at h)
    ]

-- An escaped whitespace that starts inside the text ends inside it.
pub escaped_space_inside :
    (text : Text) (i : ℕ) → i ≤ length text → i + escaped_space text i ≤ length text
unfolding escaped_space width_to
escaped_space_inside text i le =
    elim (Option-cases (escape_end text (skip_while is_backslash text i (length text)))) [
      | inl missing ↦ rw missing (ground arith)
      | inr (k, e) ↦ rw e (
          ground
            (arith, escape_end_inside text (skip_while is_backslash text i (length text)) {k = k}))
    ]
