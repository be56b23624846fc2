-- ===== src/Redaction/Values/Raising.antt =====
-- When _value_span raises.
use ai_voice_agent.Prelude.{
  raised, ℕ, suc, ◌+◌, ◌≤◌, ◌<◌, ◌≡◌, refl, ◌≢◌, ◌↔◌, inl, inr, true, false, none, some, arith, leb,
  Option-cases, length, get_elem?,
}
use ai_voice_agent.Redaction.Markers.{quotes, string_prefixes}
use ai_voice_agent.Redaction.Quotes.{slice_in}
use ai_voice_agent.Redaction.Values.{value_from, KeyFacts, quote_position, value_opening}
use ai_voice_agent.Text.{Text, char_in}
use ai_voice_agent.Text.Search.{get_elem?-past, past-get_elem?}

module _ (text : Text) (facts : KeyFacts) where
  value_opening-some :
      (index quote_at c : ℕ) → value_opening text facts index quote_at (some c) ≢ raised
  unfolding value_opening
  value_opening-some index quote_at c = ground arith

  value_opening-none : (index quote_at : ℕ) → value_opening text facts index quote_at none ≡ raised
  unfolding value_opening
  value_opening-none index quote_at = refl

  slice_in_past : (set : Text) (k : ℕ) → length text ≤ k → slice_in set text k ≡ true
  unfolding slice_in
  slice_in_past set k past = rw (get_elem?-past text k past, slice_in)

  quote_position_past :
      (index : ℕ)
      → index < length text
      → length text ≤ quote_position text facts index
      → (suc index ≡ length text) × (char_in string_prefixes text index ≡ true)
  unfolding quote_position
  quote_position_past index lt past = ground arith

  quote_position_end :
      (index : ℕ)
      → suc index ≡ length text
      → char_in string_prefixes text index ≡ true
      → length text ≤ quote_position text facts index
  unfolding quote_position
  quote_position_end index e prefix =
      rw (prefix, slice_in_past quotes (index + 1) (omega arith)) (omega arith)

  value_from_within :
      (index : ℕ)
      → index < length text
      → value_from text facts index
        ≡ value_opening text facts index
            (quote_position text facts index)
            (get_elem? text (quote_position text facts index))
  unfolding value_from
  value_from_within index lt =
      let within : leb (length text) index ≡ false = ground arith in rw within

-- Reading a value that starts inside the text raises at one input only: the text ends with a letter that may prefix a string
-- literal, and the value starts there. (`"" in quotes` holds, so the letter is taken for a prefix,
-- and the quote is read past the end.)
pub value_from_raises :
    (text : Text) (facts : KeyFacts) (index : ℕ)
    → index < length text
    → (value_from text facts index ≡ raised)
      ↔ ((suc index ≡ length text) × (char_in string_prefixes text index ≡ true))
value_from_raises text facts index lt = (
  λ h. elim (Option-cases (get_elem? text (quote_position text facts index))) [
    | inl missing ↦
        quote_position_past text facts index lt
          (past-get_elem? text (quote_position text facts index) missing)
    | inr (c, e) ↦ absurd (
        value_opening-some text facts index (quote_position text facts index) c
          (rw (value_from_within text facts index lt, e) at h))
  ],
  λ (last, prefix).
      rw
        (
          value_from_within text facts index lt,
          get_elem?-past text (quote_position text facts index)
              (quote_position_end text facts index last prefix),
        )
        (value_opening-none text facts index (quote_position text facts index)),
)
