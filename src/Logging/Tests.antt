-- ===== src/Logging/Tests.antt =====
-- logging.py: the admission of fields at concrete inputs.
use ai_voice_agent.Logging.{
  uncounted, is_uncounted, set_entry, update_entries, find_entry, entries_of, with_limit_note,
  admitted,
}
use ai_voice_agent.Logging.Admission.{DistinctKeys, admitted_keeps_uncounted}
use ai_voice_agent.Prelude.{ℕ, suc, ◌+◌, ◌≤◌, ◌≡◌, refl, true, some, List, [], ◌∷◌, length}
use ai_voice_agent.Redaction.Markers.{truncated}
use ai_voice_agent.Text.{Text, codes, text_eq}

-- Six fields, of which "event" and "exc_info" are uncounted.
abbrev six_fields : List (Text × ℕ)
six_fields =
    (codes "a", 1)
    ∷ (codes "b", 2)
    ∷ (codes "event", 3)
    ∷ (codes "c", 4)
    ∷ (codes "d", 5)
    ∷ (codes "exc_info", 6)
    ∷ []

-- Two places: two fields, the note, and the two uncounted fields.
test_admitted :
    admitted 9 six_fields 2
    ≡ (codes "a", 1)
      ∷ (codes "b", 2)
      ∷ (truncated, 9)
      ∷ (codes "event", 3)
      ∷ (codes "exc_info", 6)
      ∷ []
unfolding admitted with_limit_note update_entries set_entry entries_of is_uncounted uncounted
    text_eq
test_admitted = refl

-- A dict that fits is kept as it is.
test_admitted_whole : admitted 9 six_fields 6 ≡ six_fields
unfolding admitted
test_admitted_whole = refl

six_fields-DistinctKeys : DistinctKeys six_fields
unfolding DistinctKeys find_entry text_eq
six_fields-DistinctKeys = (refl, (refl, (refl, (refl, (refl, (refl, tt))))))

admitted_keeps_uncounted_example :
    (length (admitted 9 six_fields 2) ≤ suc (2 + length (entries_of true six_fields)))
    × ((key : Text) (value : ℕ)
        → is_uncounted key ≡ true
        → find_entry key six_fields ≡ some value
        → find_entry key (admitted 9 six_fields 2) ≡ some value)
admitted_keeps_uncounted_example = admitted_keeps_uncounted 9 six_fields 2 six_fields-DistinctKeys
