-- ===== src/Redaction/Layers.antt =====
-- redaction.py: _scrub and the layers that it applies, with the decoded views of a text.
pub mod Agreement
use ai_voice_agent.Prelude.{
  Outcome, returned, raised, ℕ, zero, suc, ◌+◌, ◌-◌, min, Bool, true, false, not, ◌||◌, Option,
  none, some, List, [], ◌∷◌, ◌++◌, map, ltb, ◌==◌, if◌then◌else◌, length, take, any,
}
use ai_voice_agent.Redaction.Budgets.{
  ◌>>=◌, Call, pure, ◌>>◌, lift, with_budget, take_scan, scan_left,
}
use ai_voice_agent.Redaction.Decoding.{
  max_decode_rounds, max_view_length, decode_once, decoded_forms, has_escapes,
}
use ai_voice_agent.Redaction.Json.{Sanitize, without_marks, hold_json, restore_fragments}
use ai_voice_agent.Redaction.Keys.{starts_folded}
use ai_voice_agent.Redaction.Library.{is_space, is_ambiguous, remove_if, sub_runs, Library}
use ai_voice_agent.Redaction.Markers.{
  redacted, truncated, truncated_sensitive, max_string_length, max_event_scan,
}
use ai_voice_agent.Redaction.Objects.{World}
use ai_voice_agent.Redaction.Tokens.{scrub_free_text}
use ai_voice_agent.Text.{Text, codes, rfind_in, or_end, starts_with, contains, text_eq}

-- text.split(separator); a separator is never empty.
split_from : Text → ℕ → Text → List Text
split_from separator skip [] = [] ∷ []
split_from separator (suc skip) (c ∷ text) = split_from separator skip text
split_from separator zero (c ∷ text) =
    let later = split_from separator 0 text in
    let cut = [] ∷ split_from separator (length separator - 1) text in
    if starts_with separator (c ∷ text)
    then cut
    else elim later as (λ _. List Text) [ [] ↦ (c ∷ []) ∷ [] | part ∷ parts ↦ (c ∷ part) ∷ parts ]

unfoldable pub split_text : Text → Text → List Text
unfolding split_from
split_text separator text = split_from separator 0 text

-- _decode_tokens_once
decode_tokens_once : Library → Text → Text
decode_tokens_once lib text =
    sub_runs (λ c. not (is_space c))
      (λ token. map (λ c. if is_space c then b'_' else c) (decode_once lib token)) text

cut_words : List Text
cut_words =
    codes "://"
    ∷ codes "@"
    ∷ codes "passw"
    ∷ codes "pwd"
    ∷ codes "secret"
    ∷ codes "token"
    ∷ codes "authori"
    ∷ codes "cookie"
    ∷ codes "credential"
    ∷ codes "key"
    ∷ codes "signature"
    ∷ codes "session"
    ∷ codes "bearer"
    ∷ codes "eyj"
    ∷ []

-- _CUT_INDICATOR.search
has_indicator : Text → Bool
unfolding cut_words
has_indicator [] = false
has_indicator (c ∷ text) =
    any (λ word. starts_folded word (c ∷ text)) cut_words || has_indicator text

-- The last lines of _scrub_held, on the text joined up.
held_joined : Text → Text → Outcome Text → Outcome Text
held_joined scrubbed joined raised = raised
held_joined scrubbed joined (returned again) =
    returned (if text_eq again joined then scrubbed else redacted)

pub held_scrubbed : Library → Bool → Text → Text → Call Text
unfolding held_joined
held_scrubbed lib cut held scrubbed =
    if not (any is_ambiguous held)
    then pure scrubbed
    else if not (text_eq scrubbed held)
    then pure redacted
    else (take_scan (length (remove_if is_ambiguous held))
        >> lift (
            held_joined scrubbed (remove_if is_ambiguous held)
              (scrub_free_text lib cut (remove_if is_ambiguous held))))

-- _scrub_held
unfoldable pub scrub_held : Library → Bool → Text → Call Text
unfolding held_scrubbed
scrub_held lib cut held = lift (scrub_free_text lib cut held) >>= held_scrubbed lib cut held

module _ (world : World) (sanitize : Sanitize) (nesting : ℕ) where
  -- _scrub_layers
  pub scrub_layers : Text → Call Text
  scrub_layers text =
      hold_json world sanitize text nesting >>= λ held. scrub_held world.library false held.0

  -- _view
  pub view : Text → Call (Option Text)
  unfolding scrub_layers
  view form = with_budget λ b.
      if ltb max_event_scan (b.scanned + length form)
      then pure none
      else (take_scan (length form) >> (scrub_layers form >>= λ seen. pure (some seen)))

  -- Whether a piece of what is shown is not in the view; `later` is the next round.
  pub compare_view : Text → Option Text → Call Bool → Call Bool
  compare_view shown none later = pure true
  compare_view shown (some seen) later =
      if any (λ piece. not (contains piece seen)) (split_text redacted shown)
      then pure true
      else later

  -- The rounds of one decoding.
  pub view_rounds : (Text → Text) → ℕ → Text → Text → Call Bool
  unfolding view compare_view
  view_rounds decode zero form shown = pure false
  view_rounds decode (suc rounds) form shown =
      let later = view_rounds decode rounds (decode form) (decode shown) in
      if text_eq (decode form) form
      then pure false
      else if ltb max_view_length (length (decode form))
      then pure true
      else (view (decode form) >>= λ seen. compare_view (decode shown) seen later)

  -- _shows_more_than_its_views
  pub shows_more_than_its_views : Text → Text → Call Bool
  unfolding view_rounds decode_tokens_once
  shows_more_than_its_views scrubbed original =
      if not (decoded_forms world.library original).1
      then pure true
      else (view_rounds (decode_once world.library) max_decode_rounds original
            (without_marks scrubbed)
          >>= λ more.
              if more
              then pure true
              else view_rounds (decode_tokens_once world.library) max_decode_rounds original
                  (without_marks scrubbed))

  -- _scrub_decoded_views
  pub scrub_decoded_views : Text → Text → Call Text
  unfolding shows_more_than_its_views
  scrub_decoded_views scrubbed original =
      if has_escapes original
      then (shows_more_than_its_views scrubbed original >>= λ more.
          pure (if more then redacted else scrubbed))
      else pure scrubbed

  -- The last lines of _scrub.
  pub scrub_finish : Bool → Text → List Text → Text → Outcome Text
  unfolding has_indicator
  scrub_finish cut held fragments scrubbed =
      if not cut
      then restore_fragments fragments scrubbed
      else if not (text_eq scrubbed held) || has_indicator held
      then returned truncated_sensitive
      else elim (restore_fragments fragments
            (take (or_end (rfind_in (λ c. c == b' ') held 0 (length held)) 0) held))
          as (λ _. Outcome Text) [
            | raised ↦ raised
            | returned [] ↦ returned truncated
            | returned (c ∷ text) ↦ returned (c ∷ text ++ (b' ' ∷ truncated))
          ]

  pub scrub_within : Bool → Text → Call Text
  unfolding scrub_decoded_views scrub_finish
  scrub_within cut text =
      take_scan (length text)
      >> (hold_json world sanitize text nesting >>= λ held.
          scrub_held world.library cut held.0 >>= λ scrubbed.
          scrub_decoded_views scrubbed held.0 >>= λ viewed.
          lift (scrub_finish cut held.0 held.1 viewed))

  -- _scrub
  unfoldable pub scrub : Text → Call Text
  unfolding scrub_within
  scrub text = with_budget λ b.
      let limit = min max_string_length (scan_left b) in
      if limit == 0
      then pure truncated
      else scrub_within (ltb limit (length text)) (take limit text)
