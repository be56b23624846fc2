-- ===== src/Redaction/Json.antt =====
-- redaction.py: _hold_json and _scrub_json_fragments, which take embedded JSON out of a text.
pub mod Agreement
pub mod Loop
use ai_voice_agent.Prelude.{
  Outcome, returned, raised, ℕ, zero, suc, ◌+◌, ◌-◌, ◌*◌, max, Bool, true, false, not, ◌&&◌, ◌||◌,
  Option, none, some, List, [], ◌∷◌, ◌++◌, map, ltb, leb, ◌==◌, if◌then◌else◌, length, get_elem?,
  drop, any,
}
use ai_voice_agent.Redaction.Budgets.{◌>>=◌, Call, pure}
use ai_voice_agent.Redaction.Library.{is_digit}
use ai_voice_agent.Redaction.Markers.{redacted, fragment_open, fragment_close}
use ai_voice_agent.Redaction.Objects.{
  decimal, Object, Json, Decoded, World, mapping_object, sequence_object, decoded_value, not_json,
}
use ai_voice_agent.Text.{Text, codes, slice, find_in, one_of}

-- The sanitiser as its callers see it: an address, a depth and a nesting.
abbrev pub Sanitize : Type 0
Sanitize = ℕ → ℕ → ℕ → Call Json

abbrev pub max_json_nesting : ℕ
max_json_nesting = 16

-- text.translate(_NO_FRAGMENT_MARKS)
unfoldable pub without_marks : Text → Text
without_marks text = map (λ c. if c == fragment_open || c == fragment_close then 65533 else c) text

-- Whether a decoded value is a dict or list with something in it.
unfoldable pub holds_entries : Object → Bool
holds_entries (mapping_object (returned n) items) = ltb 0 n
holds_entries (mapping_object raised items) = false
holds_entries (sequence_object (returned n) items) = ltb 0 n
holds_entries (sequence_object raised items) = false
holds_entries object = false

-- The variables of the loop; `parts` is joined as it grows, and `work` counts what is left of it
-- down to 0, where the source may go below.
pub record JsonScan : Type 0 where
  pub position : ℕ
  pub copied : ℕ
  pub parts : Text
  pub fragments : List Text
  pub work : ℕ
  pub finished : Bool

-- _JSON.raw_decode
unfoldable pub decode_at : World → Text → ℕ → Call Decoded
decode_at world text start b =
    (returned (world.raw_decode b.decodes text start), record b { decodes = suc b.decodes })

abbrev pub placeholder : ℕ → Text
placeholder n = fragment_open ∷ (decimal n ++ (fragment_close ∷ []))

abbrev position_of : ℕ → Option ℕ → ℕ
position_of size none = size
position_of size (some k) = k

module _ (world : World) (sanitize : Sanitize) (text : Text) (nesting : ℕ) where
  -- A value that is kept out of the text.
  pub json_held : JsonScan → ℕ → ℕ → Json → JsonScan
  json_held s start stop clean = record {
    position = stop;
    copied = stop;
    parts = s.parts ++ (slice text s.copied start ++ placeholder (length s.fragments));
    fragments = s.fragments ++ world.dumps clean ∷ [];
    work = s.work - (stop - start);
    finished = false;
  }

  pub json_masked : JsonScan → ℕ → ℕ → JsonScan
  json_masked s start stop = record s {
    position = stop;
    copied = stop;
    parts = s.parts ++ (slice text s.copied start ++ redacted);
    work = s.work - (stop - start);
  }

  pub json_value : JsonScan → ℕ → ℕ → ℕ → Call JsonScan
  unfolding json_held json_masked
  json_value s start stop address =
      if not (holds_entries (world.heap address))
      then pure (record s { position = stop; work = s.work - (stop - start) })
      else if leb max_json_nesting nesting
      then pure (json_masked s start stop)
      else (sanitize address 0 (suc nesting) >>= λ clean. pure (json_held s start stop clean))

  pub json_decoded : JsonScan → ℕ → Decoded → Call JsonScan
  unfolding json_value
  json_decoded s start (not_json failed_at) = pure (record s {
    position = suc start;
    work = s.work - max 1 (position_of (length text) failed_at - start);
  })
  json_decoded s start (decoded_value address more) = json_value s start (suc start + more) address

  pub json_spent : JsonScan → ℕ → JsonScan
  json_spent s start = record s {
    copied = length text;
    parts = s.parts ++ (slice text s.copied start ++ redacted);
    finished = true;
  }

  pub json_round : JsonScan → ℕ → Call JsonScan
  unfolding json_decoded json_spent
  json_round s start =
      if s.work == 0
      then pure (json_spent s start)
      else (decode_at world text start >>= json_decoded s start)

  -- From where the next bracket was found, with the rounds that are left.
  pub json_found : (JsonScan → Call JsonScan) → JsonScan → Option ℕ → Call JsonScan
  unfolding json_round
  json_found rest s none = pure (record s { finished = true })
  json_found rest s (some start) = json_round s start >>= rest

  unfoldable pub json_loop : ℕ → JsonScan → Call JsonScan
  unfolding json_found
  json_loop zero s = pure s
  json_loop (suc fuel) s =
      if s.finished
      then pure s
      else json_found (json_loop fuel) s
          (find_in (one_of (codes "{[")) text s.position (length text))

  unfoldable pub json_start : JsonScan
  json_start = record {
    position = 0;
    copied = 0;
    parts = [];
    fragments = [];
    work = 8 * length text + 1024;
    finished = false;
  }

  pub json_end : JsonScan → Text × List Text
  json_end s = (s.parts ++ drop s.copied text, s.fragments)

  -- _scrub_json_fragments: the text with placeholders, and what they stand for.
  unfoldable pub scrub_json_fragments : Call (Text × List Text)
  unfolding json_loop json_start json_end
  scrub_json_fragments =
      if not (any (λ c. one_of (codes "{[") c) text)
      then pure (text, [])
      else (json_loop (length text + 2) json_start >>= λ s. pure (json_end s))

-- _hold_json
unfoldable pub hold_json : World → Sanitize → Text → ℕ → Call (Text × List Text)
hold_json world sanitize text nesting =
    scrub_json_fragments world sanitize
      (if one_of text fragment_open || one_of text fragment_close then without_marks text else text)
      nesting

digits_at : ℕ → Text → ℕ → Option (ℕ × Text)
digits_at value [] seen = none
digits_at value (c ∷ text) seen =
    let more = digits_at (10 * value + (c - b'0')) text (suc seen) in
    if is_digit c
    then more
    else if c == fragment_close && ltb 0 seen
    then some (value, text)
    else none

-- _FRAGMENT.sub with the fragments; an index past their end raises IndexError.
restore_from : List Text → ℕ → Text → Outcome Text
unfolding digits_at
restore_from fragments zero text = returned text
restore_from fragments (suc fuel) [] = returned []
restore_from fragments (suc fuel) (c ∷ text) =
    let plain = restore_from fragments fuel text in
    elim (if c == fragment_open then digits_at 0 text 0 else none) as (λ _. Outcome Text) [
      | none ↦ elim plain as (λ _. Outcome Text) [
        | raised ↦ raised
        | returned rest ↦ returned (c ∷ rest)
      ]
      | some (index, behind) ↦ elim (get_elem? fragments index) as (λ _. Outcome Text) [
        | none ↦ raised
        | some fragment ↦ elim (restore_from fragments fuel behind) as (λ _. Outcome Text) [
          | raised ↦ raised
          | returned rest ↦ returned (fragment ++ rest)
        ]
      ]
    ]

unfoldable pub restore_fragments : List Text → Text → Outcome Text
unfolding restore_from
restore_fragments [] text = returned text
restore_fragments (fragment ∷ fragments) text =
    restore_from (fragment ∷ fragments) (suc (length text)) text
