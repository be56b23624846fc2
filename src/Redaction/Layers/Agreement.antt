-- ===== src/Redaction/Layers/Agreement.antt =====
-- redaction.py: _scrub and its layers, with sanitisers that agree.
use ai_voice_agent.Prelude.{ℕ, zero, suc, Bool, true, false, Option, none, some, ltb, length}
use ai_voice_agent.Redaction.Agreement.{Agrees-pure, Agrees-if, Agrees-bind, Agrees, agreement}
use ai_voice_agent.Redaction.Budgets.{Call}
use ai_voice_agent.Redaction.Decoding.{max_view_length}
use ai_voice_agent.Redaction.Json.{Sanitize, hold_json}
use ai_voice_agent.Redaction.Json.Agreement.{AgreeFrom, hold_json-Agrees}
use ai_voice_agent.Redaction.Layers.{
  held_scrubbed, scrub_held, scrub_layers, view, compare_view, view_rounds,
  shows_more_than_its_views, scrub_decoded_views, scrub_within, scrub,
}
use ai_voice_agent.Redaction.Library.{Library}
use ai_voice_agent.Redaction.Objects.{World}
use ai_voice_agent.Text.{Text, text_eq}

held_scrubbed-Agrees :
    {k : ℕ} (lib : Library) (cut : Bool) (held scrubbed : Text)
    → Agrees k (held_scrubbed lib cut held scrubbed) (held_scrubbed lib cut held scrubbed)
unfolding held_scrubbed
held_scrubbed-Agrees lib cut held scrubbed = search agreement

scrub_held-Agrees :
    {k : ℕ} (lib : Library) (cut : Bool) (held : Text)
    → Agrees k (scrub_held lib cut held) (scrub_held lib cut held)
unfolding scrub_held
scrub_held-Agrees lib cut held = search (agreement, held_scrubbed-Agrees)

module _ {k : ℕ} (world : World) {s t : Sanitize} (h : AgreeFrom k s t) (nesting : ℕ) where
  held-Agrees :
      (text : Text) → Agrees k (hold_json world s text nesting) (hold_json world t text nesting)
  held-Agrees text = hold_json-Agrees world h text nesting

  scrub_layers-Agrees :
      (text : Text)
      → Agrees k (scrub_layers world s nesting text) (scrub_layers world t nesting text)
  unfolding scrub_layers
  scrub_layers-Agrees text = search (agreement, held-Agrees, scrub_held-Agrees)

  view-Agrees : (text : Text) → Agrees k (view world s nesting text) (view world t nesting text)
  unfolding view
  view-Agrees text = search (agreement, scrub_layers-Agrees)

  compare_view-Agrees :
      (shown : Text) (seen : Option Text) (later later' : Call Bool)
      → Agrees k later later'
      → Agrees k
          (compare_view world s nesting shown seen later)
          (compare_view world t nesting shown seen later')
  unfolding compare_view
  compare_view-Agrees shown none later later' same = search agreement
  compare_view-Agrees shown (some seen) later later' same = search agreement

  view_rounds-Agrees :
      (decode : Text → Text) (rounds : ℕ) (form shown : Text)
      → Agrees k
          (view_rounds world s nesting decode rounds form shown)
          (view_rounds world t nesting decode rounds form shown)
  unfolding view_rounds
  view_rounds-Agrees decode zero form shown = search agreement
  view_rounds-Agrees decode (suc rounds) form shown =
      let later = view_rounds-Agrees decode rounds (decode form) (decode shown) in
      let compared =
        Agrees-bind _ _ _ _ (view-Agrees (decode form))
          (λ seen. compare_view-Agrees (decode shown) seen _ _ later) in
      Agrees-if (text_eq (decode form) form) _ _ _ _ (Agrees-pure false)
        (Agrees-if (ltb max_view_length (length (decode form))) _ _ _ _ (Agrees-pure true) compared)

  shows_more-Agrees :
      (scrubbed original : Text)
      → Agrees k
          (shows_more_than_its_views world s nesting scrubbed original)
          (shows_more_than_its_views world t nesting scrubbed original)
  unfolding shows_more_than_its_views
  shows_more-Agrees scrubbed original = search (agreement, view_rounds-Agrees)

  scrub_decoded_views-Agrees :
      (scrubbed original : Text)
      → Agrees k
          (scrub_decoded_views world s nesting scrubbed original)
          (scrub_decoded_views world t nesting scrubbed original)
  unfolding scrub_decoded_views
  scrub_decoded_views-Agrees scrubbed original = search (agreement, shows_more-Agrees)

  scrub_within-Agrees :
      (cut : Bool) (text : Text)
      → Agrees k (scrub_within world s nesting cut text) (scrub_within world t nesting cut text)
  unfolding scrub_within
  scrub_within-Agrees cut text =
      search (agreement, held-Agrees, scrub_held-Agrees, scrub_decoded_views-Agrees)

  pub scrub-Agrees :
      (text : Text) → Agrees k (scrub world s nesting text) (scrub world t nesting text)
  unfolding scrub
  scrub-Agrees text = search (agreement, scrub_within-Agrees)
