-- ===== src/Redaction/Pairs/Rounds.antt =====
-- Where the parts of _scrub_pairs lie: the key runs, and the values that belong to them.
use ai_voice_agent.Prelude.{
  returned, >>=-eq-returned, ℕ, ◌≤◌, ◌<◌, ◌≡◌, refl, inl, inr, Bool, true, Option, none, some,
  arith, Bool-cases, Option-cases, length, get_or,
}
use ai_voice_agent.Redaction.Keys.{is_sensitive_text_key}
use ai_voice_agent.Redaction.Library.{Library}
use ai_voice_agent.Redaction.Pairs.{
  next_run, pair_span, key_facts, located_span, is_key_char, run_from,
}
use ai_voice_agent.Redaction.Values.{locate_value, value_span, Introduction, ValueSpan}
use ai_voice_agent.Redaction.Values.Located.{locate_value_bounds}
use ai_voice_agent.Redaction.Values.Spanned.{Bounded, value_span_bounds}
use ai_voice_agent.Text.{Text, slice, skip_while, find_in}
use ai_voice_agent.Text.Search.{skip_while_bounds, find_in-Found, get_or-inside, skip_while_gt}
use mathlib.Core.Path.{subst}
use native.Mathlib.Nat.{le_trans}

module _ (lib : Library) (text : Text) where
  -- A run of key characters is not empty, and lies in its window and in the text.
  pub next_run_bounds :
      (position stop a b : ℕ)
      → stop ≤ length text
      → next_run lib text position stop ≡ some (a, b)
      → (position ≤ a) × (a < b) × (b ≤ stop)
  unfolding next_run run_from
  next_run_bounds position stop a b fits h =
      let p : ℕ → Bool = is_key_char lib text in
      elim (Option-cases (find_in p text position stop)) [
        | inl missing ↦ absurd (ground arith)
        | inr (k, e) ↦
            let (low, high, inside, found) = find_in-Found p text position stop k e in
            let starts : k ≡ a = ground arith in
            let ends : skip_while p text k stop ≡ b = ground arith in
            let bounds = skip_while_bounds p text k stop (omega arith) in
            let passes : p (get_or text k 0) ≡ true = ground (arith, get_or-inside text k inside) in
            let moves = skip_while_gt p text k stop high inside passes in omega arith
      ]

  located_span_bounds :
      (key_start key_end : ℕ) (key : Text) (found : Option (ℕ × Introduction)) {span : ValueSpan}
      → ((value : ℕ) (kind : Introduction)
          → found ≡ some (value, kind)
          → (key_end ≤ value) × (value ≤ length text))
      → located_span lib text key_start key found ≡ returned (some span)
      → Bounded text key_end span
  unfolding located_span
  located_span_bounds key_start key_end key none {span} where_found h = cc
  located_span_bounds key_start key_end key (some (value, kind)) {span} where_found h =
      let (low, high) = where_found value kind refl in
      let (inner, found, e) =
        >>=-eq-returned (value_span text (key_facts lib text key_start key kind) value kind) _ h in
      let (a, b, c) =
        value_span_bounds text (key_facts lib text key_start key kind) value kind {span = inner}
          high found in
      let whole : returned (some inner) ≡ returned (some span) = e in
      let same : inner ≡ span = cc in subst (Bounded text key_end) same (le_trans low a, b, c)

  -- The value of a key lies behind the key, inside the text.
  pub pair_span_bounds :
      (key_start key_end : ℕ) {span : ValueSpan}
      → key_end ≤ length text
      → pair_span lib text key_start key_end ≡ returned (some span)
      → Bounded text key_end span
  unfolding pair_span
  pair_span_bounds key_start key_end {span} inside h =
      let key = slice text key_start key_end in
      elim (Bool-cases (is_sensitive_text_key lib key)) [
        | inl sensitive ↦
            located_span_bounds key_start key_end key (locate_value text key_start key_end)
              (λ value kind e. locate_value_bounds text key_start key_end value kind inside e)
              (rw sensitive at h)
        | inr harmless ↦ absurd (ground arith)
      ]
