-- ===== src/Redaction/Entries/Masking.antt =====
-- redaction.py: the values under sensitive keys, which _sanitize_entries never reads.
use ai_voice_agent.Prelude.{
  Outcome, returned, raised, ℕ, zero, suc, ◌+◌, ◌≡◌, refl, ap, ◌⊎◌, inl, inr, Bool, true, false,
  List, [], ◌∷◌, leb, Bool-cases, length, take,
}
use ai_voice_agent.Redaction.Budgets.{
  ◌>>=◌, Call, pure, continue_with, with_budget, exhausted, Budget,
}
use ai_voice_agent.Redaction.Decoding.{has_escapes}
use ai_voice_agent.Redaction.Entries.{
  affordable, is_named_in, is_own_marker, text_key, sanitize_object_key, sanitize_key, entry_value,
  admit, sanitize_entries, close_entries, entries_from,
}
use ai_voice_agent.Redaction.Json.{Sanitize}
use ai_voice_agent.Redaction.Keys.{search_phrases, is_sensitive_key}
use ai_voice_agent.Redaction.Library.{is_ascii, Library}
use ai_voice_agent.Redaction.Markers.{truncated}
use ai_voice_agent.Redaction.Objects.{set_field, Items, Object, JsonFields, World, text_object}
use ai_voice_agent.Redaction.Results.{
  Ensures-pure, Ensures-if, Ensures-with_budget, Ensures-last, Ensures-then, Ensures,
}
use ai_voice_agent.Text.{Text}
use ai_voice_agent.Text.Sorting.{text_eq-≡}

-- A key that names sensitive data.
unfoldable pub masks : Library → Object → Bool
masks lib (text_object exact key) = is_sensitive_key lib key
masks lib object = false

-- Entries with the same keys, and the same items except under keys that name sensitive data.
unfoldable pub Alike : World → List (ℕ × ℕ) → List (ℕ × ℕ) → Type 0
Alike world [] [] = Unit
Alike world [] (entry ∷ entries) = ⊥
Alike world (entry ∷ entries) [] = ⊥
Alike world (entry ∷ entries) (other ∷ others) =
    (entry.0 ≡ other.0)
    × ((entry.1 ≡ other.1) ⊎ (masks world.library (world.heap entry.0) ≡ true))
    × Alike world entries others

bind_alike :
    {A B : Type 0} (Q : A → Type 0) (r : Outcome A × Budget) (f g : A → Call B)
    → ((a : A) → r.0 ≡ returned a → Q a)
    → ((a : A) (b : Budget) → Q a → f a b ≡ g a b)
    → continue_with r f ≡ continue_with r g
bind_alike Q (returned a, b) f g hq h = h a b (hq a refl)
bind_alike Q (raised, b) f g hq h = refl

marker_is_plain : (lib : Library) → is_sensitive_key lib truncated ≡ false
unfolding is_sensitive_key search_phrases has_escapes is_ascii
marker_is_plain lib = refl

own_marker_is_plain :
    (lib : Library) (object : Object) → is_own_marker object ≡ true → masks lib object ≡ false
unfolding is_own_marker masks
own_marker_is_plain lib (text_object true key) h =
    let same = text_eq-≡ key truncated h in rw same (marker_is_plain lib)
own_marker_is_plain lib (text_object false key) h = cc
own_marker_is_plain lib object h = cc

module _ (world : World) (sanitize : Sanitize) (nesting : ℕ) where
  text_key-masks :
      (key : Text)
      → Ensures (λ (named : Bool × Text). named.0 ≡ true) (text_key world sanitize nesting key true)
  unfolding text_key
  text_key-masks key = Ensures-last _ _ (λ scrubbed. Ensures-last _ _ (λ safe. Ensures-pure _ refl))

  object_key-masks :
      (object : Object)
      → masks world.library object ≡ true
      → Ensures
          (λ (named : Bool × Text). named.0 ≡ true)
          (sanitize_object_key world sanitize nesting object)
  unfolding sanitize_object_key masks
  object_key-masks (text_object exact key) h = Ensures-with_budget _ λ b.
      Ensures-if (affordable key b) _ _ (λ _. Ensures-then _ _ (rw h (text_key-masks key)))
        (λ _. text_key-masks key)
  object_key-masks object h = cc

  sanitize_key-masks :
      (address : ℕ)
      → masks world.library (world.heap address) ≡ true
      → Ensures
          (λ (named : Bool × Text). named.0 ≡ true)
          (sanitize_key world sanitize nesting address)
  unfolding sanitize_key
  sanitize_key-masks address h = object_key-masks (world.heap address) h

  module _ (depth : ℕ) (assembled : List Text) where
    admit_alike :
        (key item other : ℕ) (result : JsonFields) (b : Budget)
        → (item ≡ other) ⊎ (masks world.library (world.heap key) ≡ true)
        → admit world sanitize nesting depth assembled (key, item) result b
          ≡ admit world sanitize nesting depth assembled (key, other) result b
    unfolding admit ◌>>=◌
    admit_alike key item other result b (inl same) = rw same refl
    admit_alike key item other result b (inr h) =
        bind_alike (λ (named : Bool × Text). named.0 ≡ true)
          (sanitize_key world sanitize nesting key b) _ _ ((sanitize_key-masks key h).at b)
          (λ named c secret. masked_alike named.0 named.1 c secret)
      where
        masked_alike :
            (sensitive : Bool) (name : Text) (c : Budget)
            → sensitive ≡ true
            → (entry_value world sanitize nesting depth assembled (key, item) sensitive >>= λ value.
                  pure (set_field result name value))
                c
              ≡ (entry_value world sanitize nesting depth assembled (key, other) sensitive
                    >>= λ value. pure (set_field result name value))
                  c
        masked_alike true name c h = refl
        masked_alike false name c h = cc

    module _ (limit : ℕ) (skip : List Text) (beyond : Outcome Text) where
      close_alike :
          (key item other : ℕ) (result : JsonFields) (b : Budget)
          → (item ≡ other) ⊎ (masks world.library (world.heap key) ≡ true)
          → close_entries world sanitize nesting depth assembled limit skip beyond
              (key, item)
              result
              b
            ≡ close_entries world sanitize nesting depth assembled limit skip beyond
                (key, other)
                result
                b
      unfolding close_entries
      close_alike key item other result b (inl same) = rw same refl
      close_alike key item other result b (inr h) =
          elim (Bool-cases (is_own_marker (world.heap key))) [
            | inl e ↦
                absurd (let plain = own_marker_is_plain world.library (world.heap key) e in cc)
            | inr e ↦ rw e refl
          ]

      admitted_alike :
          (key item other : ℕ)
          → (item ≡ other) ⊎ (masks world.library (world.heap key) ≡ true)
          → (result : JsonFields) (b : Budget) {f g : JsonFields → Call JsonFields}
          → ((next : JsonFields) (c : Budget) → f next c ≡ g next c)
          → (admit world sanitize nesting depth assembled (key, item) result >>= f) b
            ≡ (admit world sanitize nesting depth assembled (key, other) result >>= g) b
      unfolding ◌>>=◌
      admitted_alike key item other same result b {f} {g} h =
          rw (admit_alike key item other result b same) (
            bind_alike (λ _. Unit)
              (admit world sanitize nesting depth assembled (key, other) result b) f g (λ _ _. tt)
              (λ a c _. h a c))

      entries-Alike :
          (ends : Bool) (entries others : List (ℕ × ℕ)) (admitted : ℕ) (result : JsonFields)
          (b : Budget)
          → Alike world entries others
          → entries_from world sanitize nesting depth assembled limit skip beyond ends entries
              admitted result b
            ≡ entries_from world sanitize nesting depth assembled limit skip beyond ends others
                admitted result b
      unfolding entries_from Alike with_budget ◌>>=◌
      entries-Alike ends [] [] admitted result b h = refl
      entries-Alike ends [] (other ∷ others) admitted result b h = absurd h
      entries-Alike ends (entry ∷ entries) [] admitted result b h = absurd h
      entries-Alike ends ((key, item) ∷ entries) ((key', other) ∷ others) admitted result b
            (same_key, same, rest) =
          rw (← same_key) (elim (Bool-cases (is_named_in (world.heap key) skip)) [
            | inl named ↦ rw named (entries-Alike ends entries others admitted result b rest)
            | inr other_key ↦ elim (Bool-cases (leb limit admitted)) [
              | inl full ↦ rw (other_key, full) (close_alike key item other result b same)
              | inr open_left ↦ elim (Bool-cases (exhausted b)) [
                | inl spent ↦ rw (other_key, open_left, spent) refl
                | inr left ↦
                    rw (other_key, open_left, left)
                      (admitted_alike key item other same result b
                        (λ next c. entries-Alike ends entries others (suc admitted) next c rest))
              ]
            ]
          ])

      length-Alike :
          (entries others : List (ℕ × ℕ))
          → Alike world entries others
          → length entries ≡ length others
      unfolding Alike
      length-Alike [] [] h = refl
      length-Alike [] (other ∷ others) h = absurd h
      length-Alike (entry ∷ entries) [] h = absurd h
      length-Alike (entry ∷ entries) (other ∷ others) (_, _, h) =
          ap suc (length-Alike entries others h)

      take-Alike :
          (n : ℕ) (entries others : List (ℕ × ℕ))
          → Alike world entries others
          → Alike world (take n entries) (take n others)
      unfolding Alike
      take-Alike zero entries others h = tt
      take-Alike (suc n) [] [] h = tt
      take-Alike (suc n) [] (other ∷ others) h = absurd h
      take-Alike (suc n) (entry ∷ entries) [] h = absurd h
      take-Alike (suc n) (entry ∷ entries) (other ∷ others) (hk, hi, h) =
          (hk, hi, take-Alike n entries others h)

      -- What is under a key that names sensitive data, alone or in any decoded form, has no influence:
      -- two mappings with the same keys, whose items differ under such keys only, are sanitised
      -- alike, to the same fields or the same exception, and leave the same budget.
      pub sanitize_entries_masked :
          (found others : Items (ℕ × ℕ)) (result : JsonFields) (b : Budget)
          → Alike world found.items others.items
          → found.ends ≡ others.ends
          → sanitize_entries world sanitize nesting depth assembled limit skip beyond found result b
            ≡ sanitize_entries world sanitize nesting depth assembled limit skip beyond others
                result b
      unfolding sanitize_entries
      sanitize_entries_masked found others result b alike same_end =
          rw (length-Alike found.items others.items alike, same_end)
            (entries-Alike _ _ _ 0 result b
              (take-Alike (limit + length skip + 1) found.items others.items alike))
