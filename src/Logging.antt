-- ===== src/Logging.antt =====
-- backend/voice_agent/platform/infrastructure/observability/logging.py: the bounded admission of
-- fields. A dict is the list of its entries in order.
pub mod Admission
mod Tests
use ai_voice_agent.Prelude.{
  ℕ, ◌+◌, Bool, true, false, Option, none, some, List, [], ◌∷◌, ltb, leb, if◌then◌else◌, length,
  take, any,
}
use ai_voice_agent.Redaction.Markers.{truncated}
use ai_voice_agent.Text.{Text, codes, text_eq}

-- _UNCOUNTED
unfoldable pub uncounted : List Text
uncounted =
    codes "timestamp"
    ∷ codes "level"
    ∷ codes "logger"
    ∷ codes "service"
    ∷ codes "environment"
    ∷ codes "request_id"
    ∷ codes "_record"
    ∷ codes "_from_structlog"
    ∷ codes "event"
    ∷ codes "exception"
    ∷ codes "stack"
    ∷ codes "exc_info"
    ∷ codes "stack_info"
    ∷ []

unfoldable pub is_uncounted : Text → Bool
is_uncounted key = any (text_eq key) uncounted

module _ {V : Type 0} where
  -- fields[key] = value
  unfoldable pub set_entry : List (Text × V) → Text → V → List (Text × V)
  set_entry [] key value = (key, value) ∷ []
  set_entry ((name, found) ∷ fields) key value =
      let later = (name, found) ∷ set_entry fields key value in
      if text_eq name key then (name, value) ∷ fields else later

  -- fields.update(others)
  unfoldable pub update_entries : List (Text × V) → List (Text × V) → List (Text × V)
  update_entries fields [] = fields
  update_entries fields ((key, value) ∷ others) = update_entries (set_entry fields key value) others

  unfoldable pub find_entry : Text → List (Text × V) → Option V
  find_entry key [] = none
  find_entry key ((name, value) ∷ fields) =
      let later = find_entry key fields in if text_eq name key then some value else later

  -- The entries whose keys are uncounted, or are not.
  unfoldable pub entries_of : Bool → List (Text × V) → List (Text × V)
  entries_of kept [] = []
  entries_of kept ((key, value) ∷ fields) =
      let rest = entries_of kept fields in
      if is_uncounted key
      then (if kept then (key, value) ∷ rest else rest)
      else if kept
      then rest
      else (key, value) ∷ rest

  unfoldable pub with_limit_note : V → Bool → List (Text × V) → List (Text × V)
  with_limit_note note true fields = set_entry fields truncated note
  with_limit_note note false fields = fields

  -- _admitted; a room below 0 admits as many fields as 0 does. The uncounted entries come in the
  -- order of a frozenset, for which the model takes the order of the fields.
  unfoldable pub admitted : V → List (Text × V) → ℕ → List (Text × V)
  unfolding with_limit_note
  admitted note fields room =
      let apart = entries_of true fields in
      let first = take room (entries_of false fields) in
      if leb (length fields) room
      then fields
      else update_entries
          (with_limit_note note (ltb (length first + length apart) (length fields)) first) apart
