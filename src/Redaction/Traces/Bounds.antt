-- ===== src/Redaction/Traces/Bounds.antt =====
-- redaction.py: how long a traceback and its chain of exceptions get.
use ai_voice_agent.Prelude.{
  returned, ℕ, zero, suc, ◌+◌, ◌≤◌, ◌≡◌, refl, inl, inr, Bool, false, Option, none, some, List, [],
  ◌∷◌, ◌++◌, arith, ltb, Bool-cases, length, length-append,
}
use ai_voice_agent.Redaction.Budgets.{Budget}
use ai_voice_agent.Redaction.Markers.{max_string_length}
use ai_voice_agent.Redaction.Objects.{Object, World}
use ai_voice_agent.Redaction.Results.{Ensures-pure, Ensures-if, Ensures-bind, Ensures-last, Ensures}
use ai_voice_agent.Redaction.Traces.{
  max_traceback_lines, max_traceback_length, max_exception_chain, TraceUnit, link_of, chain_from,
  exception_chain, text_length, add_block, no_blocks, closed_blocks, blocks_from, traceback_units,
  Link, Blocks, raised_first,
}
use ai_voice_agent.Text.{one_of}

-- The chain and the addresses before it have no repetition.
pub Distinct : List (ℕ × Link) → List ℕ → Type 0
Distinct [] seen = Unit
Distinct (entry ∷ chain) seen = (one_of seen entry.0 ≡ false) × Distinct chain (entry.0 ∷ seen)

module _ (heap : ℕ → Object) where
  chain_from-Distinct :
      (room : ℕ) (seen : List ℕ) (current : Option (ℕ × Link))
      → Distinct (chain_from heap room seen current) seen
  unfolding chain_from Distinct
  chain_from-Distinct zero seen current = tt
  chain_from-Distinct (suc room) seen none = tt
  chain_from-Distinct (suc room) seen (some (address, link)) =
      elim (Bool-cases (one_of seen address)) [
        | inl e ↦ rw e tt
        | inr e ↦ rw e (e, chain_from-Distinct room (address ∷ seen) (link_of (heap address)))
      ]

  length-chain_from :
      (room : ℕ) (seen : List ℕ) (current : Option (ℕ × Link))
      → length (chain_from heap room seen current) ≤ room
  unfolding chain_from
  length-chain_from zero seen current = omega arith
  length-chain_from (suc room) seen none = omega arith
  length-chain_from (suc room) seen (some (address, link)) =
      elim (Bool-cases (one_of seen address)) [
        | inl e ↦ rw e (omega arith)
        | inr e ↦
            rw e (omega (arith, length-chain_from room (address ∷ seen) (link_of (heap address))))
      ]

  -- The chain of causes and contexts that a traceback is built along has at most 10 exceptions and no
  -- exception twice, also where the exceptions are linked in a cycle.
  pub exception_chain_bounded :
      (address : ℕ)
      → (length (exception_chain heap address) ≤ max_exception_chain)
        × Distinct (exception_chain heap address) []
  unfolding exception_chain
  exception_chain_bounded address = (
    length-chain_from max_exception_chain [] (some (address, raised_first)),
    chain_from-Distinct max_exception_chain [] (some (address, raised_first)),
  )

-- Each block's lines and characters are taken from what is left.
record Kept (s : Blocks) : Type 0 where
  pub lines_kept : length s.units + s.lines_left ≡ max_traceback_lines
  pub length_kept : text_length s.units + length s.units + s.length_left ≡ max_traceback_length

text_length-append :
    (units others : List TraceUnit)
    → text_length (units ++ others) ≡ text_length units + text_length others
unfolding text_length
text_length-append [] others = omega arith
text_length-append (unit ∷ units) others = omega (arith, text_length-append units others)

no_blocks-Kept : Kept no_blocks
unfolding no_blocks text_length
no_blocks-Kept = record { lines_kept = refl; length_kept = refl }

add_block-Kept : (s : Blocks) (block : List TraceUnit) → Kept s → Kept (add_block s block)
unfolding add_block
add_block-Kept s block h =
    let size = text_length block + length block in
    elim (Bool-cases (ltb s.lines_left (length block))) [
      | inl e ↦ rw e (record { lines_kept = h.lines_kept; length_kept = h.length_kept })
      | inr e ↦ elim (Bool-cases (ltb s.length_left size)) [
        | inl d ↦ rw (e, d) (record { lines_kept = h.lines_kept; length_kept = h.length_kept })
        | inr d ↦
            let room : length block ≤ s.lines_left = ground arith in
            let space : size ≤ s.length_left = ground arith in
            rw (e, d)
              (record {
                lines_kept = omega (arith, h.lines_kept, length-append block s.units);
                length_kept = omega (
                  arith,
                  h.length_kept,
                  length-append block s.units,
                  text_length-append block s.units,
                );
              })
      ]
    ]

module _ (world : World) (is_printable : ℕ → Bool) where
  blocks_from-Kept :
      (chain : List (ℕ × Link)) (s : Blocks)
      → Kept s
      → Ensures Kept (blocks_from world is_printable chain s)
  unfolding blocks_from
  blocks_from-Kept [] s h = Ensures-pure s h
  blocks_from-Kept ((address, link) ∷ chain) s h =
      Ensures-if s.complete _ _
        (λ _.
          Ensures-last _ _
            (λ block. blocks_from-Kept chain (add_block s block) (add_block-Kept s block h)))
        (λ _. Ensures-pure s h)

  -- Within 193 lines, and within 16,384 characters when the lines are joined.
  abbrev pub Short : List TraceUnit → Type 0
  Short units =
      (length units ≤ max_traceback_lines + 1)
      × (text_length units + length units ≤ max_string_length)

  closed-Short : (s : Blocks) → Kept s → Short (closed_blocks s)
  unfolding closed_blocks text_length
  closed-Short s h = elim (Bool-cases s.complete) [
    | inl e ↦ rw e (omega (arith, h.lines_kept), omega (arith, h.length_kept))
    | inr e ↦ rw e (omega (arith, h.lines_kept), omega (arith, h.length_kept))
  ]

  -- The units of a traceback, if no exception stops their construction, are at most 193 lines, and its lines with
  -- one newline after each have at most 16,384 characters together: so the first form of the text is
  -- always one that the scrubber reads in full.
  pub traceback_units_bounded :
      (address : ℕ) (b : Budget) (units : List TraceUnit)
      → (traceback_units world is_printable address b).0 ≡ returned units
      → (length units ≤ max_traceback_lines + 1)
        × (text_length units + length units ≤ max_string_length)
  unfolding traceback_units
  traceback_units_bounded address b units e =
      (Ensures-bind {P = Short} Kept _ _
          (blocks_from-Kept (exception_chain world.heap address) no_blocks no_blocks-Kept)
          (λ s h. Ensures-pure (closed_blocks s) (closed-Short s h))).at
        b units e
