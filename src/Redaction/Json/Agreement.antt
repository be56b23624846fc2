-- ===== src/Redaction/Json/Agreement.antt =====
-- redaction.py: the removal of embedded JSON, with sanitisers that agree.
use ai_voice_agent.Prelude.{ℕ, zero, suc, ◌+◌, refl, Option, none, some, arith}
use ai_voice_agent.Redaction.Agreement.{Agrees, agreement}
use ai_voice_agent.Redaction.Budgets.{Call}
use ai_voice_agent.Redaction.Json.{
  Sanitize, decode_at, json_value, json_decoded, json_round, json_found, json_loop,
  scrub_json_fragments, hold_json, JsonScan,
}
use ai_voice_agent.Redaction.Objects.{Decoded, World, decoded_value, not_json}
use ai_voice_agent.Text.{Text}

abbrev pub AgreeFrom : ℕ → Sanitize → Sanitize → Type 0
AgreeFrom k s t =
    (address depth nesting : ℕ) → Agrees k (s address depth nesting) (t address depth nesting)

decode_at-Agrees :
    {k : ℕ} (world : World) (text : Text) (start : ℕ)
    → Agrees k (decode_at world text start) (decode_at world text start)
unfolding decode_at
decode_at-Agrees world text start = record {
  same = λ b le. refl;
  grows = λ b le. record {
    nodes = omega arith;
    characters = omega arith;
    output_left = omega arith;
    same_active = refl;
  };
}

module _ {k : ℕ} (world : World) {s t : Sanitize} (h : AgreeFrom k s t) (text : Text)
    (nesting : ℕ) where
  json_value-Agrees :
      (state : JsonScan) (start stop address : ℕ)
      → Agrees k
          (json_value world s text nesting state start stop address)
          (json_value world t text nesting state start stop address)
  unfolding json_value
  json_value-Agrees state start stop address = search (agreement, h)

  json_decoded-Agrees :
      (state : JsonScan) (start : ℕ) (d : Decoded)
      → Agrees k
          (json_decoded world s text nesting state start d)
          (json_decoded world t text nesting state start d)
  unfolding json_decoded
  json_decoded-Agrees state start (not_json failed_at) = search agreement
  json_decoded-Agrees state start (decoded_value address more) =
      json_value-Agrees state start (suc start + more) address

  json_round-Agrees :
      (state : JsonScan) (start : ℕ)
      → Agrees k
          (json_round world s text nesting state start)
          (json_round world t text nesting state start)
  unfolding json_round
  json_round-Agrees state start = search (agreement, json_decoded-Agrees, decode_at-Agrees)

  json_found-Agrees :
      (rest rest' : JsonScan → Call JsonScan) (state : JsonScan) (found : Option ℕ)
      → ((next : JsonScan) → Agrees k (rest next) (rest' next))
      → Agrees k
          (json_found world s text nesting rest state found)
          (json_found world t text nesting rest' state found)
  unfolding json_found
  json_found-Agrees rest rest' state none same = search agreement
  json_found-Agrees rest rest' state (some start) same = search (agreement, json_round-Agrees)

  json_loop-Agrees :
      (fuel : ℕ) (state : JsonScan)
      → Agrees k
          (json_loop world s text nesting fuel state)
          (json_loop world t text nesting fuel state)
  unfolding json_loop
  json_loop-Agrees zero state = search agreement
  json_loop-Agrees (suc fuel) state =
      let rest = json_loop-Agrees fuel in search (agreement, json_found-Agrees, rest)

  scrub_json_fragments-Agrees :
      Agrees k
        (scrub_json_fragments world s text nesting)
        (scrub_json_fragments world t text nesting)
  unfolding scrub_json_fragments
  scrub_json_fragments-Agrees = search (agreement, json_loop-Agrees)

pub hold_json-Agrees :
    {k : ℕ} (world : World) {s t : Sanitize}
    → AgreeFrom k s t
    → (text : Text) (nesting : ℕ)
    → Agrees k (hold_json world s text nesting) (hold_json world t text nesting)
unfolding hold_json
hold_json-Agrees world h text nesting = scrub_json_fragments-Agrees world h _ nesting
