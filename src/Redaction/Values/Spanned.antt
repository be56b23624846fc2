-- ===== src/Redaction/Values/Spanned.antt =====
-- Lemmas on the span that _value_span gives.
use ai_voice_agent.Prelude.{
  loop_inv, returned, returned-injective, >>=-eq-returned, ℕ, ◌+◌, ◌-◌, ◌≤◌, ◌<◌, ◌≡◌, refl, inl,
  inr, Bool, true, not, ◌&&◌, Option, none, some, [], arith, leb, ◌==◌, Bool-cases, length,
  get_elem?, get_or,
}
use ai_voice_agent.Redaction.Library.{is_space}
use ai_voice_agent.Redaction.Markers.{redacted, quotes, line_ends}
use ai_voice_agent.Redaction.Quotes.{closing_quote, escaped_space}
use ai_voice_agent.Redaction.Quotes.Closing.{closing_quote_bounds}
use ai_voice_agent.Redaction.Quotes.Escapes.{escaped_space_inside}
use ai_voice_agent.Redaction.Quotes.Unquoted.{unquoted_end_bounds}
use ai_voice_agent.Redaction.Values.{
  block_span, value_blanks, value_from, value_span, Introduction, BlankScan, ValueSpan, KeyFacts,
  equals, colon, angle, quoted, bare_value, quote_position, block_value, first_of, blanks_running,
  blanks, value_opening, escaped_value, quoted_value, more_follows, blanks_round,
}
use ai_voice_agent.Redaction.Values.Blocks.{block_span_bounds}
use ai_voice_agent.Text.{Text, skip_while, one_of, char_in}
use ai_voice_agent.Text.Search.{get_elem?-lt, skip_while_bounds, skip_while_ge, or_end_bounds}
use mathlib.Core.Path.{subst}
use native.Mathlib.Nat.{le_trans}

abbrev pub Bounded : Text → ℕ → ValueSpan → Type 0
Bounded text start span =
    (start ≤ span.start) × (span.start ≤ span.stop) × (span.stop ≤ length text)

module _ (text : Text) (facts : KeyFacts) where
  more_follows_inside : (after : ℕ) → more_follows text facts after ≡ true → after < length text
  unfolding more_follows
  more_follows_inside after more =
      ground (arith, skip_while_ge (one_of blanks) text after (length text))

  quoted_value_bounds :
      (start quote quote_at : ℕ) (found : Option ℕ)
      → start ≤ quote_at
      → quote_at < length text
      → ((k : ℕ) → found ≡ some k → (quote_at < k) × (k < length text))
      → Bounded text start (quoted_value text facts quote quote_at found)
  unfolding quoted_value
  quoted_value_bounds start quote quote_at none le lt where_found = omega arith
  quoted_value_bounds start quote quote_at (some k) le lt where_found =
      let (past, below) = where_found k refl in
      elim (Bool-cases (more_follows text facts (k + 1))) [
        | inl more ↦ rw more (
            ground (
              arith,
              unquoted_end_bounds text (k + 1) facts.reading (more_follows_inside (k + 1) more),
            ))
        | inr done ↦ rw done (omega arith)
      ]

  bare_value_bounds :
      (start index : ℕ)
      → start ≤ index
      → index < length text
      → Bounded text start (bare_value text facts index)
  unfolding bare_value
  bare_value_bounds start index le lt =
      ground (arith, unquoted_end_bounds text index facts.reading lt)

  value_opening_bounds :
      (start index quote_at : ℕ) (opening : Option ℕ) {span : ValueSpan}
      → start ≤ index
      → index < length text
      → index ≤ quote_at
      → ((c : ℕ) → opening ≡ some c → quote_at < length text)
      → value_opening text facts index quote_at opening ≡ returned span
      → Bounded text start span
  unfolding value_opening
  value_opening_bounds start index quote_at none le lt on inside h = cc
  value_opening_bounds start index quote_at (some quote) {span} le lt on inside h =
      elim (Bool-cases (one_of quotes quote)) [
        | inl yes_quote ↦
            let e : returned (
                  quoted_value text facts quote quote_at
                    (closing_quote text quote_at (length text)))
                ≡ returned span =
              rw yes_quote at h in
            subst (Bounded text start) (returned-injective e) (
              quoted_value_bounds start quote quote_at _ (le_trans le on) (inside quote refl)
                (λ k c.
                  let (past, below, same) = closing_quote_bounds text quote_at (length text) k c in
                  (past, below)))
        | inr no_quote ↦
            let e : returned (bare_value text facts index) ≡ returned span = rw no_quote at h in
            subst (Bounded text start) (returned-injective e) (bare_value_bounds start index le lt)
      ]

  quote_position_ge : (index : ℕ) → index ≤ quote_position text facts index
  unfolding quote_position
  quote_position_ge index = ground arith

  value_from_bounds :
      (start index : ℕ) {span : ValueSpan}
      → start ≤ index
      → index ≤ length text
      → value_from text facts index ≡ returned span
      → Bounded text start span
  unfolding value_from
  value_from_bounds start index {span} le inside h = elim (Bool-cases (leb (length text) index)) [
    | inl past ↦
        let e : returned (record { start = index; stop = index; replacement = [] })
            ≡ returned span =
          rw past at h in
        subst (Bounded text start) (returned-injective e) (omega arith)
    | inr within ↦
        value_opening_bounds start index (quote_position text facts index)
          (get_elem? text (quote_position text facts index)) le (ground arith)
          (quote_position_ge index) (λ c e. get_elem?-lt text (quote_position text facts index) e)
          (rw within at h)
  ]

  escaped_value_bounds :
      (start index : ℕ) (first : Option ℕ) {span : ValueSpan}
      → start ≤ index
      → index ≤ length text
      → ((k : ℕ) → first ≡ some k → (start ≤ k) × (k ≤ index))
      → escaped_value text facts index first ≡ returned span
      → Bounded text start span
  unfolding escaped_value
  escaped_value_bounds start index none {span} le inside where_first h =
      value_from_bounds start index le inside h
  escaped_value_bounds start index (some first) {span} le inside where_first h =
      let (low, high) = where_first first refl in
      elim (Bool-cases (leb (length text) index)) [
        | inl past ↦
            let e : returned (record { start = first; stop = length text; replacement = redacted })
                ≡ returned span =
              rw past at h in
            subst (Bounded text start) (returned-injective e) (omega arith)
        | inr within ↦
            let (inner, found, e) =
              >>=-eq-returned (value_from text facts index) _ (rw within at h) in
            let (a, b, c) =
              value_from_bounds index index {span = inner} (omega arith) inside found in
            subst (Bounded text start) (returned-injective e) (omega arith)
      ]

module _ (text : Text) (start : ℕ) where
  -- The whitespace before a value ends inside the text, and its first escape is a part of it.
  record IsBlankScan (s : BlankScan) : Type 0 where
    low : start ≤ s.index
    high : s.index ≤ length text
    first : (k : ℕ) → s.first_escape ≡ some k → (start ≤ k) × (k ≤ s.index)

  first_of_lem :
      (seen : Option ℕ) (index k : ℕ)
      → start ≤ index
      → ((j : ℕ) → seen ≡ some j → (start ≤ j) × (j ≤ index))
      → first_of seen index ≡ some k
      → (start ≤ k) × (k ≤ index)
  first_of_lem none index k le before e = ground arith
  first_of_lem (some first) index k le before e = before k e

  blanks_round_lem :
      (s : BlankScan)
      → IsBlankScan s
      → blanks_running text s ≡ true
      → IsBlankScan (blanks_round text s)
        × (length text - (blanks_round text s).index < length text - s.index)
  unfolding blanks_running blanks_round
  blanks_round_lem s h go =
      let low = h.low in
      let high = h.high in
      let lt : s.index < length text = ground arith in
      elim (Bool-cases (is_space (get_or text s.index 0))) [
        | inl space ↦ rw space (
          record {
            low = omega arith;
            high = omega arith;
            first = λ k e. let before = h.first k e in omega arith;
          },
          omega arith,
        )
        | inr other ↦
            let moves : 0 < escaped_space text s.index = ground arith in
            let fits = escaped_space_inside text s.index high in
            rw other (
              record {
                low = omega arith;
                high = fits;
                first = λ k e.
                    let before = first_of_lem s.first_escape s.index k low h.first e in omega arith;
              },
              omega arith,
            )
      ]

  value_blanks_lem : start ≤ length text → IsBlankScan (value_blanks text start)
  unfolding value_blanks
  value_blanks_lem inside =
      (loop_inv IsBlankScan (λ s. length text - s.index) (blanks_running text) (blanks_round text)
        blanks_round_lem (length text + 1) (record { index = start; first_escape = none })
        (omega arith) (record { low = omega arith; high = inside; first = λ k e. cc })).0

-- A value that is found lies behind the place where its key introduced it, inside the text.
pub value_span_bounds :
    (text : Text) (facts : KeyFacts) (start : ℕ) (kind : Introduction) {span : ValueSpan}
    → start ≤ length text
    → value_span text facts start kind ≡ returned span
    → Bounded text start span
unfolding value_span
value_span_bounds text facts start equals {span} inside h =
    let blanks' = value_blanks_lem text start inside in
    escaped_value_bounds text facts start (value_blanks text start).index
      (value_blanks text start).first_escape blanks'.low blanks'.high blanks'.first h
value_span_bounds text facts start quoted {span} inside h =
    let blanks' = value_blanks_lem text start inside in
    escaped_value_bounds text facts start (value_blanks text start).index
      (value_blanks text start).first_escape blanks'.low blanks'.high blanks'.first h
value_span_bounds text facts start angle {span} inside h =
    subst (Bounded text start) (returned-injective h) (
      let ends = or_end_bounds (λ c. c == b'<') text start (length text) inside in
      (omega arith, ends.0, ends.1))
value_span_bounds text facts start colon {span} inside h =
    let p : ℕ → Bool = λ c. is_space c && not (one_of line_ends c) in
    let index = skip_while p text start (length text) in
    let (low, high) = skip_while_bounds p text start (length text) inside in
    elim (Bool-cases (char_in line_ends text index)) [
      | inl block ↦
          let e : returned (block_value text facts (block_span text index facts.key_start))
              ≡ returned span =
            rw block at h in
          let (a, b, c) = block_span_bounds text index facts.key_start high in
          subst (Bounded text start) (returned-injective e) (le_trans low a, b, c)
      | inr plain ↦ value_from_bounds text facts start index low high (rw plain at h)
    ]
