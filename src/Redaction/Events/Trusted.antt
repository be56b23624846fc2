-- ===== src/Redaction/Events/Trusted.antt =====
-- redaction.py: what trusted_identifier lets through.
use ai_voice_agent.Prelude.{
  Outcome, returned, raised, or_else, ◌≤◌, ◌<◌, ◌≡◌, refl, ◌⊎◌, inl, inr, true, ◌&&◌, ltb, leb,
  ltb→lt, leb→le, Bool-cases, and_split, length, All,
}
use ai_voice_agent.Redaction.Events.{
  max_identifier_length, scrubbed_alone, scrub_text, unchanged, trusted_identifier,
}
use ai_voice_agent.Redaction.Identifiers.{fits_grammar, IdentifierKind}
use ai_voice_agent.Redaction.Identifiers.Printable.{IsPrintable, fits_grammar-IsPrintable}
use ai_voice_agent.Redaction.Markers.{unreadable}
use ai_voice_agent.Redaction.Objects.{Object, World, text_object}
use ai_voice_agent.Text.{Text, text_eq}
use ai_voice_agent.Text.Sorting.{text_eq-≡}

module _ (world : World) where
  -- What a trusted identifier is, where it is not the fallback: an exact text that is not empty and
  -- not longer than 128 characters, and that the text rules leave as it is.
  pub record Accepted (object : Object) (kind : IdentifierKind) (shown : Text) : Type 0 where
    pub is_exact : object ≡ text_object true shown
    pub not_empty : 0 < length shown
    pub bounded : length shown ≤ max_identifier_length
    pub one_line : All IsPrintable shown
    pub is_clean : scrub_text world shown ≡ shown

  unchanged-cases :
      (value fallback : Text) (scrubbed : Outcome Text)
      → (unchanged world value fallback scrubbed ≡ fallback)
        ⊎ ((unchanged world value fallback scrubbed ≡ value)
            × (or_else scrubbed unreadable ≡ value))
  unfolding unchanged
  unchanged-cases value fallback raised = inl refl
  unchanged-cases value fallback (returned text) = elim (Bool-cases (text_eq text value)) [
    | inl e ↦ rw e (inr (refl, text_eq-≡ text value e))
    | inr e ↦ rw e (inl refl)
  ]

  accept :
      (value : Text) (kind : IdentifierKind)
      → (ltb 0 (length value)
          && leb (length value) max_identifier_length
          && fits_grammar kind value)
        ≡ true
      → or_else (scrubbed_alone world value) unreadable ≡ value
      → Accepted (text_object true value) kind value
  unfolding scrub_text
  accept value kind e clean =
      let (sized, fits) = and_split _ _ e in
      let (some_text, short) = and_split (ltb 0 (length value)) _ sized in
      record {
        is_exact = refl;
        not_empty = ltb→lt 0 (length value) some_text;
        bounded = leb→le (length value) max_identifier_length short;
        one_line = fits_grammar-IsPrintable kind value fits;
        is_clean = clean;
      }

  -- What trusted_identifier returns is the fallback, or else the value itself: it was an exact str of
  -- 1 to 128 characters, all of them printable ASCII, and scrubbing it changes nothing of it.
  pub trusted_identifier-cases :
      (object : Object) (kind : IdentifierKind) (fallback : Text)
      → (trusted_identifier world object kind fallback ≡ fallback)
        ⊎ Accepted object kind (trusted_identifier world object kind fallback)
  unfolding trusted_identifier scrub_text
  trusted_identifier-cases (text_object true value) kind fallback =
      elim (Bool-cases (
        ltb 0 (length value)
        && leb (length value) max_identifier_length
        && fits_grammar kind value)) [
          | inl e ↦ elim (unchanged-cases value fallback (scrubbed_alone world value)) [
            | inl same ↦ rw e (inl same)
            | inr (same, clean) ↦ rw (e, same) (inr (accept value kind e clean))
          ]
          | inr e ↦ rw e (inl refl)
        ]
  trusted_identifier-cases object kind fallback = inl refl
