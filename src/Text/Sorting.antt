-- ===== src/Text/Sorting.antt =====
-- sorted() on strings: by code points, each string as often as it was given.
use ai_voice_agent.Prelude.{
  suc, ◌≡◌, refl, ◌↔◌, Bool, true, false, List, [], ◌∷◌, arith, ltb, ◌==◌, if◌then◌else◌, length,
}
use ai_voice_agent.Text.{Text, text_eq}

pub text_before : Text → Text → Bool
text_before [] [] = false
text_before [] (d ∷ ds) = true
text_before (c ∷ cs) [] = false
text_before (c ∷ cs) (d ∷ ds) =
    let rest = text_before cs ds in if ltb c d then true else if c == d then rest else false

insert_text : Text → List Text → List Text
unfolding text_before
insert_text text [] = text ∷ []
insert_text text (other ∷ others) =
    let rest = other ∷ insert_text text others in
    if text_before other text then rest else text ∷ other ∷ others

unfoldable pub sort_texts : List Text → List Text
unfolding insert_text
sort_texts [] = []
sort_texts (text ∷ texts) = insert_text text (sort_texts texts)

length-insert_text :
    (text : Text) (texts : List Text) → length (insert_text text texts) ≡ suc (length texts)
unfolding insert_text
length-insert_text text [] = refl
length-insert_text text (other ∷ others) = ground (arith, length-insert_text text others)

pub length-sort_texts : (texts : List Text) → length (sort_texts texts) ≡ length texts
unfolding sort_texts
length-sort_texts [] = refl
length-sort_texts (text ∷ texts) =
    omega (arith, length-insert_text text (sort_texts texts), length-sort_texts texts)

-- A sorted list has one entry exactly if the list did, and then it is that one.
pub sort_texts_single :
    (texts : List Text) (text : Text) → sort_texts texts ≡ text ∷ [] ↔ texts ≡ text ∷ []
unfolding sort_texts insert_text
sort_texts_single [] text = (λ h. cc, λ h. cc)
sort_texts_single (first ∷ []) text = (λ h. h, λ h. h)
sort_texts_single (first ∷ next ∷ others) text = (
  λ h.
      let same : length (sort_texts (first ∷ next ∷ others)) ≡ 1 = rw h refl in
      absurd (omega (arith, length-sort_texts (first ∷ next ∷ others))),
  λ h. cc,
)

pub text_eq_refl : (text : Text) → text_eq text text ≡ true
unfolding text_eq
text_eq_refl [] = refl
text_eq_refl (c ∷ text) = ground (arith, text_eq_refl text)

pub text_eq-≡ : (text other : Text) → text_eq text other ≡ true → text ≡ other
unfolding text_eq
text_eq-≡ [] [] h = refl
text_eq-≡ [] (d ∷ other) h = cc
text_eq-≡ (c ∷ text) [] h = cc
text_eq-≡ (c ∷ text) (d ∷ other) h =
    let same : c ≡ d = ground arith in
    let rest : text ≡ other = text_eq-≡ text other (ground arith) in rw (same, rest) refl

-- `[text] == texts` on lists of strings.
unfoldable pub is_single : List Text → Text → Bool
is_single [] text = false
is_single (first ∷ []) text = text_eq first text
is_single (first ∷ next ∷ others) text = false

pub is_single_iff :
    (texts : List Text) (text : Text) → is_single texts text ≡ true ↔ texts ≡ text ∷ []
unfolding is_single
is_single_iff [] text = (λ h. cc, λ h. cc)
is_single_iff (first ∷ []) text = (
  λ h. rw (text_eq-≡ first text h) refl,
  λ h. let same : first ≡ text = cc in rw same (text_eq_refl text),
)
is_single_iff (first ∷ next ∷ others) text = (λ h. cc, λ h. cc)
