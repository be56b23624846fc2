-- ===== src/Logging/Admission.antt =====
-- logging.py: how many fields _admitted keeps, and which.
use ai_voice_agent.Logging.{
  uncounted, is_uncounted, set_entry, update_entries, find_entry, entries_of, with_limit_note,
  admitted,
}
use ai_voice_agent.Prelude.{
  ℕ, suc, ◌+◌, ◌≤◌, ◌≡◌, refl, ◌∙◌, inl, inr, Bool, true, false, none, some, List, [], ◌∷◌, arith,
  ltb, leb, Bool-cases, length, take, length-take,
}
use ai_voice_agent.Redaction.Markers.{truncated}
use ai_voice_agent.Text.{Text, text_eq}
use ai_voice_agent.Text.Sorting.{text_eq_refl, text_eq-≡}
use mathlib.Core.Path.{subst}

module _ {V : Type 0} where
  length-set_entry :
      (fields : List (Text × V)) (key : Text) (value : V)
      → length (set_entry fields key value) ≤ suc (length fields)
  unfolding set_entry
  length-set_entry [] key value = ground arith
  length-set_entry ((name, found) ∷ fields) key value =
      let rest = length-set_entry fields key value in ground arith

  length-update_entries :
      (others fields : List (Text × V))
      → length (update_entries fields others) ≤ length fields + length others
  unfolding update_entries
  length-update_entries [] fields = ground arith
  length-update_entries ((key, value) ∷ others) fields =
      let rest = length-update_entries others (set_entry fields key value) in
      ground (arith, length-set_entry fields key value)

  length-with_limit_note :
      (note : V) (b : Bool) (fields : List (Text × V))
      → length (with_limit_note note b fields) ≤ suc (length fields)
  unfolding with_limit_note
  length-with_limit_note note true fields = length-set_entry fields truncated note
  length-with_limit_note note false fields = ground arith

  find_entry-set_entry :
      (fields : List (Text × V)) (key : Text) (value : V)
      → find_entry key (set_entry fields key value) ≡ some value
  unfolding find_entry set_entry
  find_entry-set_entry [] key value = rw (text_eq_refl key) refl
  find_entry-set_entry ((name, found) ∷ fields) key value = elim (Bool-cases (text_eq name key)) [
    | inl e ↦ rw (e, e) refl
    | inr e ↦ rw (e, e) (find_entry-set_entry fields key value)
  ]

  -- Setting one key leaves the other keys as they are.
  find_entry-set_entry_other :
      (fields : List (Text × V)) (key other : Text) (value : V)
      → text_eq key other ≡ false
      → find_entry other (set_entry fields key value) ≡ find_entry other fields
  unfolding find_entry set_entry
  find_entry-set_entry_other [] key other value h = rw h refl
  find_entry-set_entry_other ((name, found) ∷ fields) key other value h =
      let rest = find_entry-set_entry_other fields key other value h in
      elim (Bool-cases (text_eq name key)) [
        | inl e ↦
            let same = text_eq-≡ name key e in
            let different : text_eq name other ≡ false = rw same h in rw (e, different) refl
        | inr e ↦ rw (e, rest) refl
      ]

  -- The keys of a dict are distinct.
  unfoldable pub DistinctKeys : List (Text × V) → Type 0
  DistinctKeys [] = Unit
  DistinctKeys ((key, value) ∷ fields) = (find_entry key fields ≡ none) × DistinctKeys fields

  find_entry-update_entries_absent :
      (others fields : List (Text × V)) (key : Text)
      → find_entry key others ≡ none
      → find_entry key (update_entries fields others) ≡ find_entry key fields
  unfolding update_entries find_entry
  find_entry-update_entries_absent [] fields key h = refl
  find_entry-update_entries_absent ((name, value) ∷ others) fields key h =
      elim (Bool-cases (text_eq name key)) [
        | inl e ↦ let h' = rw e at h in cc
        | inr e ↦
            let h' = rw e at h in
            let later =
              find_entry-update_entries_absent others (set_entry fields name value) key h' in
            let here = find_entry-set_entry_other fields name key value e in cc
      ]

  find_entry-update_entries :
      (others fields : List (Text × V)) (key : Text) (value : V)
      → DistinctKeys others
      → find_entry key others ≡ some value
      → find_entry key (update_entries fields others) ≡ some value
  unfolding update_entries find_entry DistinctKeys
  find_entry-update_entries [] fields key value d h = cc
  find_entry-update_entries ((name, found) ∷ others) fields key value (absent, d) h =
      elim (Bool-cases (text_eq name key)) [
        | inl e ↦
            let same : name ≡ key = text_eq-≡ name key e in
            let h' : some found ≡ some value = rw e at h in
            let later =
              find_entry-update_entries_absent others (set_entry fields name found) name absent in
            let here = find_entry-set_entry fields name found in
            let kept_there : find_entry name (update_entries (set_entry fields name found) others)
                ≡ some value =
              cc in
            subst
              (λ k. find_entry k (update_entries (set_entry fields name found) others) ≡ some value)
              same kept_there
        | inr e ↦
            let h' = rw e at h in
            find_entry-update_entries others (set_entry fields name found) key value d h'
      ]

  find_entry-entries_of_absent :
      (fields : List (Text × V)) (kept : Bool) (key : Text)
      → find_entry key fields ≡ none
      → find_entry key (entries_of kept fields) ≡ none
  unfolding find_entry entries_of
  find_entry-entries_of_absent [] kept key h = refl
  find_entry-entries_of_absent ((name, value) ∷ fields) kept key h =
      elim (Bool-cases (text_eq name key)) [
        | inl e ↦ let h' = rw e at h in cc
        | inr e ↦
            let rest = find_entry-entries_of_absent fields kept key (rw e at h) in ground arith
      ]

  -- The uncounted entries of a dict have distinct keys.
  entries_of-DistinctKeys :
      (fields : List (Text × V)) → DistinctKeys fields → DistinctKeys (entries_of true fields)
  unfolding DistinctKeys entries_of
  entries_of-DistinctKeys [] d = tt
  entries_of-DistinctKeys ((name, value) ∷ fields) (absent, d) =
      let rest = entries_of-DistinctKeys fields d in
      elim (Bool-cases (is_uncounted name)) [
        | inl e ↦ rw e (find_entry-entries_of_absent fields true name absent, rest)
        | inr e ↦ rw e rest
      ]

  find_entry-entries_of :
      (fields : List (Text × V)) (key : Text)
      → is_uncounted key ≡ true
      → find_entry key (entries_of true fields) ≡ find_entry key fields
  unfolding find_entry entries_of
  find_entry-entries_of [] key h = refl
  find_entry-entries_of ((name, value) ∷ fields) key h =
      let rest = find_entry-entries_of fields key h in
      elim (Bool-cases (text_eq name key)) [
        | inl e ↦
            let same = text_eq-≡ name key e in
            let kept : is_uncounted name ≡ true = rw same h in rw (kept, e) refl
        | inr e ↦ elim (Bool-cases (is_uncounted name)) [
          | inl kept ↦ rw (kept, e) rest
          | inr kept ↦ rw (kept, e) rest
        ]
      ]

  -- At most room fields, the note, and the uncounted fields that the event has.
  length-admitted :
      (note : V) (fields : List (Text × V)) (room : ℕ)
      → length (admitted note fields room) ≤ suc (room + length (entries_of true fields))
  unfolding admitted
  length-admitted note fields room =
      let apart = entries_of true fields in
      let first = take room (entries_of false fields) in
      let b = ltb (length first + length apart) (length fields) in
      let noted = length-with_limit_note note b first in
      let joined = length-update_entries apart (with_limit_note note b first) in
      let cut = length-take room (entries_of false fields) in ground arith

  -- Whatever is cut off, an uncounted field of the event keeps its value.
  find_entry-admitted :
      (note : V) (fields : List (Text × V)) (room : ℕ) (key : Text) (value : V)
      → DistinctKeys fields
      → is_uncounted key ≡ true
      → find_entry key fields ≡ some value
      → find_entry key (admitted note fields room) ≡ some value
  unfolding admitted
  find_entry-admitted note fields room key value d uncounted h =
      let apart = entries_of true fields in
      let first = take room (entries_of false fields) in
      let b = ltb (length first + length apart) (length fields) in
      let kept : find_entry key apart ≡ some value =
        find_entry-entries_of fields key uncounted ∙ h in
      elim (Bool-cases (leb (length fields) room)) [
        | inl e ↦ rw e h
        | inr e ↦ rw e (
            find_entry-update_entries apart (with_limit_note note b first) key value
              (entries_of-DistinctKeys fields d) kept)
      ]

  -- Of a dict, whose keys are distinct, _admitted keeps at most room fields, one note and the
  -- uncounted fields, and every uncounted field of the dict keeps its value.
  pub admitted_keeps_uncounted :
      (note : V) (fields : List (Text × V)) (room : ℕ)
      → DistinctKeys fields
      → (length (admitted note fields room) ≤ suc (room + length (entries_of true fields)))
        × ((key : Text) (value : V)
            → is_uncounted key ≡ true
            → find_entry key fields ≡ some value
            → find_entry key (admitted note fields room) ≡ some value)
  admitted_keeps_uncounted note fields room d = (
    length-admitted note fields room,
    λ key value uncounted h. find_entry-admitted note fields room key value d uncounted h,
  )
