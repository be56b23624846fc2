-- ===== src/Redaction/Budgets.antt =====
-- redaction.py: _Budget, and the calls that use one. A call leaves the budget as it is when it
-- returns or raises. `nodes` and `scan` may fall below zero in the source, so the model counts what
-- has been taken from them: nodes is 2048 less `visited`, scan is 524288 less `scanned`.
use ai_voice_agent.Prelude.{
  Outcome, returned, raised, ℕ, suc, ◌+◌, ◌-◌, Bool, true, false, ◌||◌, List, [], ltb, leb, ◌==◌,
  if◌then◌else◌,
}
use ai_voice_agent.Redaction.Markers.{
  max_event_nodes, max_event_scan, max_event_output, separator_cost,
}

pub record Budget : Type 0 where
  pub visited : ℕ
  pub scanned : ℕ
  pub output : ℕ
  pub active : List ℕ
  pub seen : List ℕ
  -- How many JSON values have been decoded, which tells the objects of one decoding from another's.
  pub decodes : ℕ

-- _Budget.__init__
abbrev pub fresh_budget : Budget
fresh_budget = record {
  visited = 0;
  scanned = 0;
  output = max_event_output;
  active = [];
  seen = [];
  decodes = 0;
}

-- A call: what it returns, or that it raises, and the budget afterwards.
abbrev pub Call : Type 0 → Type 0
Call A = Budget → Outcome A × Budget

unfoldable pub pure : {A : Type 0} → A → Call A
pure a b = (returned a, b)

unfoldable pub raise : {A : Type 0} → Call A
raise b = (raised, b)

abbrev pub continue_with : {A B : Type 0} → Outcome A × Budget → (A → Call B) → Outcome B × Budget
continue_with (returned a, b) f = f a b
continue_with (raised, b) f = (raised, b)

infixl 5 ◌>>=◌ ◌>>◌
unfoldable pub ◌>>=◌ : {A B : Type 0} → Call A → (A → Call B) → Call B
(m >>= f) b = continue_with (m b) f

unfoldable pub ◌>>◌ : {A B : Type 0} → Call A → Call B → Call B
unfolding ◌>>=◌
m >> k = m >>= λ _. k

-- A pure function that may raise.
unfoldable pub lift : {A : Type 0} → Outcome A → Call A
lift m b = (m, b)

abbrev pub catch_as : {A : Type 0} → A → Outcome A × Budget → Outcome A × Budget
catch_as fallback (returned a, b) = (returned a, b)
catch_as fallback (raised, b) = (returned fallback, b)

-- `try: m / except Exception: fallback`
unfoldable pub caught : {A : Type 0} → A → Call A → Call A
caught fallback m b = catch_as fallback (m b)

-- A call that depends on the budget it is made with.
unfoldable pub with_budget : {A : Type 0} → (Budget → Call A) → Call A
with_budget f b = f b b

-- _Budget.exhausted
unfoldable pub exhausted : Budget → Bool
exhausted b = leb max_event_nodes b.visited || b.output == 0

-- budget.nodes -= 1
unfoldable pub take_node : Call (Unit {0})
take_node b = (returned tt, record b { visited = suc b.visited })

-- budget.scan -= n
unfoldable pub take_scan : ℕ → Call (Unit {0})
take_scan n b = (returned tt, record b { scanned = b.scanned + n })

-- max(0, budget.scan)
abbrev pub scan_left : Budget → ℕ
scan_left b = max_event_scan - b.scanned

unfoldable pub charge_cost : ℕ → Budget → Outcome Bool × Budget
charge_cost cost b =
    if ltb b.output cost
    then (returned false, record b { output = 0 })
    else (returned true, record b { output = b.output - cost })

-- _Budget.charge
unfoldable pub charge : ℕ → ℕ → Call Bool
unfolding charge_cost
charge rendered_length nesting b =
    if ltb 0 nesting then (returned true, b) else charge_cost (rendered_length + separator_cost) b
