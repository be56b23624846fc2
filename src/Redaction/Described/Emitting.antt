-- ===== src/Redaction/Described/Emitting.antt =====
-- redaction.py: what _emit returns fits in the output that is left.
use ai_voice_agent.Prelude.{
  returned, returned-injective, ℕ, zero, suc, ◌+◌, ◌-◌, ◌*◌, ◌/◌, ◌≤◌, ◌≡◌, refl, ◌≢◌, ◌⊎◌, inl,
  inr, Bool, true, not, ◌&&◌, [], ◌∷◌, ◌++◌, arith, ltb, leb, ◌==◌, leb→le, Bool-cases, and_split,
  take, all,
}
use ai_voice_agent.Redaction.Budgets.{Budget}
use ai_voice_agent.Redaction.Described.{kept_length, shortened, emit_charged, emit}
use ai_voice_agent.Redaction.Library.{is_ascii}
use ai_voice_agent.Redaction.Markers.{truncated, separator_cost}
use ai_voice_agent.Redaction.Objects.{World}
use ai_voice_agent.Text.{Text}

unfoldable pub total : (ℕ → ℕ) → Text → ℕ
total width [] = 0
total width (c ∷ text) = width c + total width text

total-append :
    (width : ℕ → ℕ) (text other : Text)
    → total width (text ++ other) ≡ total width text + total width other
unfolding total
total-append width [] other = omega arith
total-append width (c ∷ text) other = omega (arith, total-append width text other)

all_product : (most n : ℕ) → most * suc n ≡ most + most * n
all_product most n = omega arith

-- Where no character is wider than a bound, nor are so many of them wider than their number times it.
total-take :
    (width : ℕ → ℕ) (most : ℕ) (p : ℕ → Bool) (n : ℕ) (text : Text)
    → ((c : ℕ) → p c ≡ true → width c ≤ most)
    → all p text ≡ true
    → total width (take n text) ≤ most * n
unfolding total
total-take width most p zero text h e = omega arith
total-take width most p (suc n) [] h e = omega arith
total-take width most p (suc n) (c ∷ text) h e =
    let (first, rest) = and_split (p c) (all p text) e in
    let wide = h c first in
    let others = total-take width most p n text h rest in grind (arith, all_product most n)

-- Printable ASCII, and neither the quote nor the backslash.
abbrev pub needs_no_escape : ℕ → Bool
needs_no_escape c = leb 32 c && (ltb c 127 && (not (c == 34) && not (c == 92)))

always-all : (text : Text) → all (λ _. true) text ≡ true
always-all [] = refl
always-all (c ∷ text) = always-all text

-- The length of a rendered JSON string, by the width of each character: a character outside ASCII
-- takes at most 12, another at most 6, and a printable one that needs no escape exactly 1.
module _ (world : World) (width : ℕ → ℕ)
    (rendered : (text : Text) → world.dumps_length text ≡ 2 + total width text)
    (wide : (c : ℕ) → width c ≤ 12) (narrow : (c : ℕ) → ltb c 128 ≡ true → width c ≤ 6)
    (plain : (c : ℕ) → needs_no_escape c ≡ true → width c ≡ 1) where
  note_width : total width (b' ' ∷ truncated) ≡ 12
  unfolding total
  note_width =
      rw
        (
          plain 32 refl,
          plain 91 refl,
          plain 84 refl,
          plain 82 refl,
          plain 85 refl,
          plain 78 refl,
          plain 67 refl,
          plain 65 refl,
          plain 69 refl,
          plain 68 refl,
          plain 93 refl,
        )
        refl

  kept_width :
      (output : ℕ) (text : Text)
      → kept_length output text ≢ 0
      → total width (take (kept_length output text) text) + 16 ≤ output
  unfolding kept_length is_ascii
  kept_width output text h = elim (Bool-cases (is_ascii text)) [
    | inl e ↦
        let some_kept : (output - 11 - 5) / 6 ≢ 0 = rw e at h in
        let bound = total-take width 6 (λ c. ltb c 128) ((output - 11 - 5) / 6) text narrow e in
        rw e (omega (arith, bound, some_kept))
    | inr e ↦
        let some_kept : (output - 11 - 5) / 12 ≢ 0 = rw e at h in
        let bound =
          total-take width 12 (λ _. true) ((output - 11 - 5) / 12) text (λ c _. wide c)
            (always-all text) in
        rw e (omega (arith, bound, some_kept))
  ]

  shortened-fits :
      (output : ℕ) (text : Text)
      → (shortened (kept_length output text) text ≡ truncated)
        ⊎ (world.dumps_length (shortened (kept_length output text) text) + separator_cost ≤ output)
  unfolding shortened
  shortened-fits output text = elim (Bool-cases (kept_length output text == 0)) [
    | inl e ↦ rw e (inl refl)
    | inr e ↦
        let kept = kept_length output text in
        let some_kept : kept ≢ 0 = λ zero_kept. absurd (ground arith) in
        let bound = kept_width output text some_kept in
        let cost = rendered (take kept text ++ (b' ' ∷ truncated)) in
        let sum = total-append width (take kept text) (b' ' ∷ truncated) in
        rw e (inr (omega (arith, bound, cost, sum, note_width)))
  ]

  -- If a rendered JSON string is two quotes and its characters, each at most 12 wide, in ASCII at
  -- most 6, and 1 where it needs no escape, then what is emitted outside nested JSON fits: its rendered length, the separator
  -- and the output left afterwards come to no more than the output that was left before; or it is the
  -- bare marker [TRUNCATED].
  pub emit-fits :
      (text : Text) (b : Budget) (shown : Text)
      → (emit world text 0 b).0 ≡ returned shown
      → (shown ≡ truncated)
        ⊎ (world.dumps_length shown + separator_cost + (emit world text 0 b).1.output ≤ b.output)
  unfolding emit emit_charged
  emit-fits text b shown e =
      elim (Bool-cases (leb (world.dumps_length text + separator_cost) b.output)) [
        | inl fits ↦
            let same : text ≡ shown = returned-injective (rw fits at e) in
            let room = leb→le (world.dumps_length text + separator_cost) b.output fits in
            rw (fits, ← same) (inr (omega (arith, room)))
        | inr long ↦
            let same : shortened (kept_length b.output text) text ≡ shown =
              returned-injective (rw long at e) in
            rw (long, ← same)
              (elim (shortened-fits b.output text) [
                | inl marker_only ↦ inl marker_only
                | inr fits ↦ inr (omega (arith, fits))
              ])
      ]
