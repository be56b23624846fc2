-- ===== src/Redaction/Quotes/Closing.antt =====
-- Lemmas on the loop and the result of _closing_quote.
use ai_voice_agent.Prelude.{
  loop_inv, ℕ, suc, ◌+◌, ◌-◌, ◌<◌, ◌≡◌, true, false, some, arith, if◌then◌else◌, get_or,
}
use ai_voice_agent.Redaction.Quotes.{
  quote_running, quote_scan, closing_quote, Verdict, QuoteScan, scanning, closed, undelimited,
  quote_round, is_backslash, in_progress, closing_of,
}
use ai_voice_agent.Text.{Text}
use ai_voice_agent.Text.Search.{skip_while_ge}

abbrev remaining : ℕ → QuoteScan → ℕ
remaining limit s = if in_progress s.verdict then suc (limit - s.index) else 0

module _ (text : Text) (opening_at limit quote : ℕ) where
  -- The loop stands behind the opening quote, and a quote that it found is one, inside the limit.
  record IsQuoteScan (s : QuoteScan) : Type 0 where
    behind : opening_at < s.index
    found :
        (k : ℕ) → s.verdict ≡ closed k → (opening_at < k) × (k < limit) × (get_or text k 0 ≡ quote)

  abbrev round : QuoteScan → QuoteScan
  round = quote_round text opening_at limit quote

  round-IsQuoteScan :
      (s : QuoteScan)
      → IsQuoteScan s
      → quote_running text opening_at limit s ≡ true
      → IsQuoteScan (round s)
  unfolding quote_round quote_running
  round-IsQuoteScan s h go = record {
    behind = ground (arith, h.behind, skip_while_ge is_backslash text s.index limit);
    found = λ k e. ground (arith, h.behind, h.found k);
  }

  round_falls :
      (s : QuoteScan)
      → quote_running text opening_at limit s ≡ true
      → remaining limit (round s) < remaining limit s
  unfolding quote_round quote_running
  round_falls s go = ground (arith, skip_while_ge is_backslash text s.index limit)

  quote_scan_lem :
      IsQuoteScan (quote_scan text opening_at limit quote)
      × (quote_running text opening_at limit (quote_scan text opening_at limit quote) ≡ false)
  unfolding quote_scan
  quote_scan_lem =
      loop_inv IsQuoteScan (remaining limit) (quote_running text opening_at limit) round
        (λ s h go. (round-IsQuoteScan s h go, round_falls s go)) (limit + 2) _ (omega arith)
        (record { behind = omega arith; found = λ k e. cc })

-- The scan for a closing quote ends by its own test: it has found a quote or given up, or it has
-- reached its limit.
pub quote_scan_ends :
    (text : Text) (opening_at limit quote : ℕ)
    → quote_running text opening_at limit (quote_scan text opening_at limit quote) ≡ false
quote_scan_ends text opening_at limit quote = (quote_scan_lem text opening_at limit quote).1

closed_of : (v : Verdict) (k : ℕ) → closing_of v ≡ some k → v ≡ closed k
closed_of scanning k h = cc
closed_of (closed j) k h = cc
closed_of undelimited k h = cc

-- A closing quote that is found stands behind the opening one, inside the limit, and is the same
-- character.
pub closing_quote_bounds :
    (text : Text) (opening_at limit k : ℕ)
    → closing_quote text opening_at limit ≡ some k
    → (opening_at < k) × (k < limit) × (get_or text k 0 ≡ get_or text opening_at 0)
unfolding closing_quote
closing_quote_bounds text opening_at limit k h =
    (quote_scan_lem text opening_at limit (get_or text opening_at 0)).0.found k (closed_of _ k h)
