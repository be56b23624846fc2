-- ===== src/Redaction/Assembled.antt =====
-- redaction.py: _assembled_text, which lays a traceback or stack field out as one text before it is
-- sanitised.
use ai_voice_agent.Prelude.{
  Outcome, returned, raised, ℕ, zero, suc, ◌+◌, ◌-◌, Bool, true, ◌&&◌, ◌||◌, Option, none, some,
  List, [], ◌∷◌, ◌++◌, ltb, leb, ◌==◌, if◌then◌else◌, length, take,
}
use ai_voice_agent.Redaction.Markers.{
  truncated, unreadable, unsupported, max_depth, max_items, max_string_length,
}
use ai_voice_agent.Redaction.Objects.{Object, text_object, sequence_object}
use ai_voice_agent.Text.{Text, join}

-- The fragments so far, and the characters and values that may still come; the source lets the
-- characters fall to -1, which it treats as 0.
pub record Room : Type 0 where
  pub fragments : List Text
  pub characters : ℕ
  pub values : ℕ

-- text.removesuffix("\n")
without_newline : Text → Text
without_newline [] = []
without_newline (c ∷ []) = if c == 10 then [] else c ∷ []
without_newline (c ∷ d ∷ text) = c ∷ without_newline (d ∷ text)

add_fragment : Room → Text → Text → Room
add_fragment room measured text = record room {
  fragments = room.fragments ++ text ∷ [];
  characters = room.characters - suc (length measured);
}

is_open : Room → Bool
is_open room = ltb 0 room.characters && ltb 0 room.values

-- What follows the items that were read: the end of the list, or its exception.
when_read : Bool → Outcome Room → Outcome Room
when_read ends raised = raised
when_read ends (returned room) = if ends then returned room else raised

module _ (heap : ℕ → Object) where
  -- An item list under a collector of the level below.
  collect_items : (ℕ → Room → Outcome Room) → List ℕ → Room → Outcome Room
  collect_items collect [] room = returned room
  collect_items collect (item ∷ items) room = elim (collect item room) as (λ _. Outcome Room) [
    | raised ↦ raised
    | returned after_item ↦ collect_items collect items after_item
  ]

  collect_object : Option (ℕ → Room → Outcome Room) → Object → Room → Outcome Room
  unfolding collect_items without_newline add_fragment when_read
  collect_object below (text_object exact text) room =
      let leading = take room.characters text in
      returned (add_fragment room leading (without_newline leading))
  collect_object (some collect) (sequence_object size found) room =
      when_read (found.ends || leb max_items (length found.items))
        (collect_items collect (take max_items found.items) room)
  collect_object below object room = returned (add_fragment room unsupported unsupported)

  take_value : Room → Room
  take_value room = record room { values = room.values - 1 }

  -- _collect_fragments; the first argument is how many more levels of lists are read.
  collect_fragments : ℕ → ℕ → Room → Outcome Room
  unfolding collect_object is_open take_value
  collect_fragments zero address room =
      if is_open room then collect_object none (heap address) (take_value room) else returned room
  collect_fragments (suc levels) address room =
      if is_open room
      then collect_object (some (collect_fragments levels)) (heap address) (take_value room)
      else returned room

  joined_fragments : Outcome Room → Text
  joined_fragments raised = unreadable
  joined_fragments (returned room) =
      join (10 ∷ []) (room.fragments ++ (if room.values == 0 then truncated ∷ [] else []))

  as_one_text : ℕ → Object → Text
  unfolding collect_fragments joined_fragments
  as_one_text address (text_object true text) = text
  as_one_text address object = joined_fragments (
      collect_fragments max_depth address
        (record { fragments = []; characters = max_string_length + 1; values = max_items }))

  -- _assembled_text
  unfoldable pub assembled_text : ℕ → Text
  unfolding as_one_text
  assembled_text address = as_one_text address (heap address)
