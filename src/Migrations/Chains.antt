-- ===== src/Migrations/Chains.antt =====
-- The walk from the root of a package whose revision ids are distinct.
use ai_voice_agent.Database.Failures.{text_in}
use ai_voice_agent.Migrations.{
  children_of, walk_from, walk_chain, roots_of, Revision, is_child_of, root_of, full_chain,
  has_two_children,
}
use ai_voice_agent.Prelude.{
  ℕ, zero, suc, ◌+◌, ◌≤◌, ◌<◌, ◌≡◌, refl, ap, ◌⊎◌, inl, inr, true, false, Option, none, some, List,
  [], ◌∷◌, arith, ltb, ◌==◌, if◌then◌else◌, Bool-cases, Option-cases, length, any,
}
use ai_voice_agent.Text.{Text, text_eq}
use ai_voice_agent.Text.Sorting.{sort_texts, sort_texts_single, text_eq_refl, text_eq-≡}

ids_of : List Revision → List Text
ids_of [] = []
ids_of (item ∷ revisions) = item.revision ∷ ids_of revisions

-- No two revisions have one id.
unfoldable pub DistinctIds : List Revision → Type 0
unfolding ids_of
DistinctIds [] = Unit {0}
DistinctIds (item ∷ revisions) =
    (text_in item.revision (ids_of revisions) ≡ false) × DistinctIds revisions

-- The parent of the first revision with this id.
parent_of : Text → List Revision → Option (Option Text)
parent_of id [] = none
parent_of id (item ∷ revisions) =
    let rest = parent_of id revisions in
    if text_eq id item.revision then some item.down_revision else rest

in_ids_≡ :
    (id other : Text) (texts : List Text)
    → text_eq id other ≡ true
    → text_in id texts ≡ text_in other texts
in_ids_≡ id other texts same = let e = text_eq-≡ id other same in rw e refl

is_child_lem :
    (parent : Text) (down : Option Text) → is_child_of parent down ≡ true → down ≡ some parent
unfolding is_child_of
is_child_lem parent none h = cc
is_child_lem parent (some down) h = let e = text_eq-≡ parent down h in rw e refl

children_parent :
    (parent child : Text) (revisions : List Revision)
    → DistinctIds revisions
    → text_in child (children_of parent revisions) ≡ true
    → (text_in child (ids_of revisions) ≡ true) × (parent_of child revisions ≡ some (some parent))
unfolding DistinctIds parent_of ids_of children_of text_in
children_parent parent child [] distinct h = cc
children_parent parent child (item ∷ revisions) distinct h =
    elim (Bool-cases (text_eq child item.revision)) [
      | inl same ↦ elim (Bool-cases (is_child_of parent item.down_revision)) [
        | inl here ↦
            let e = is_child_lem parent item.down_revision here in (rw same refl, rw (same, e) refl)
        | inr other ↦
            let (inside, _) = children_parent parent child revisions distinct.1 (rw other at h) in
            absurd
              (ground (arith, in_ids_≡ child item.revision (ids_of revisions) same, distinct.0))
      ]
      | inr differs ↦
          let there : text_in child (children_of parent revisions) ≡ true = ground arith in
          let (inside, found) = children_parent parent child revisions distinct.1 there in
          (ground arith, rw differs found)
    ]

-- The revision stands this many links above the root.
data Height (revisions : List Revision) : Text → ℕ → Type 0 where
  at_root : {id : Text} → parent_of id revisions ≡ some none → Height revisions id 0
  above :
      {id parent : Text} {n : ℕ}
      → parent_of id revisions ≡ some (some parent)
      → Height revisions parent n
      → Height revisions id (suc n)

climb : List Revision → ℕ → Text → ℕ
climb revisions zero id = 0
climb revisions (suc fuel) id = elim (parent_of id revisions) [
  | none ↦ 0
  | some none ↦ 0
  | some (some parent) ↦ suc (climb revisions fuel parent)
]

climb_lem :
    (revisions : List Revision) (fuel : ℕ) {id : Text} {n : ℕ}
    → Height revisions id n
    → n ≤ fuel
    → climb revisions fuel id ≡ n
unfolding climb
climb_lem revisions zero (at_root e) le = refl
climb_lem revisions zero (above e h) le = absurd (omega arith)
climb_lem revisions (suc fuel) (at_root e) le = rw (e, climb) refl
climb_lem revisions (suc fuel) (above e h) le =
    rw (e, climb) (ap (λ k. suc k) (climb_lem revisions fuel h (omega arith)))

-- How many of the ids have a value under the function that is below n, or n.
below_count : (Text → ℕ) → ℕ → List Text → ℕ
below_count f n [] = 0
below_count f n (id ∷ ids) =
    let rest = below_count f n ids in if ltb (f id) n then suc rest else rest

equal_count : (Text → ℕ) → ℕ → List Text → ℕ
equal_count f n [] = 0
equal_count f n (id ∷ ids) = let rest = equal_count f n ids in if f id == n then suc rest else rest

below_count-suc :
    (f : Text → ℕ) (n : ℕ) (ids : List Text)
    → below_count f (suc n) ids ≡ below_count f n ids + equal_count f n ids
unfolding below_count equal_count
below_count-suc f n [] = refl
below_count-suc f n (id ∷ ids) = ground (arith, below_count-suc f n ids)

below_count-length : (f : Text → ℕ) (n : ℕ) (ids : List Text) → below_count f n ids ≤ length ids
unfolding below_count
below_count-length f n [] = omega arith
below_count-length f n (id ∷ ids) = ground (arith, below_count-length f n ids)

equal_count_pos :
    (f : Text → ℕ) (n : ℕ) (id : Text) (ids : List Text)
    → text_in id ids ≡ true
    → f id ≡ n
    → 1 ≤ equal_count f n ids
unfolding equal_count text_in
equal_count_pos f n id [] h e = cc
equal_count_pos f n id (other ∷ ids) h e = elim (Bool-cases (text_eq id other)) [
  | inl same ↦
      let eq = text_eq-≡ id other same in let here : f other ≡ n = rw eq at e in ground arith
  | inr differs ↦ ground (arith, equal_count_pos f n id ids)
]

parent_of_in :
    (id : Text) (revisions : List Revision) {down : Option Text}
    → parent_of id revisions ≡ some down
    → text_in id (ids_of revisions) ≡ true
unfolding parent_of ids_of text_in
parent_of_in id [] h = cc
parent_of_in id (item ∷ revisions) {down} h = elim (Bool-cases (text_eq id item.revision)) [
  | inl same ↦ rw same refl
  | inr differs ↦ rw differs (parent_of_in id revisions (rw differs at h))
]

-- The ids below and at a height are as many as the height says, at least.
counted :
    (revisions : List Revision) (fuel : ℕ) {id : Text} {n : ℕ}
    → Height revisions id n
    → n ≤ fuel
    → suc n ≤ below_count (climb revisions fuel) (suc n) (ids_of revisions)
counted revisions fuel {id} (at_root e) le = omega (
  arith,
  below_count-suc (climb revisions fuel) 0 (ids_of revisions),
  equal_count_pos (climb revisions fuel) 0 id (ids_of revisions) (parent_of_in id revisions e)
      (climb_lem revisions fuel (at_root e) le),
)
counted revisions fuel {id} (above {n = n} e h) le = omega (
  arith,
  below_count-suc (climb revisions fuel) (suc n) (ids_of revisions),
  counted revisions fuel h (omega arith),
  equal_count_pos (climb revisions fuel) (suc n) id (ids_of revisions) (parent_of_in id revisions e)
      (climb_lem revisions fuel (above e h) le),
)

length-ids_of : (revisions : List Revision) → length (ids_of revisions) ≡ length revisions
unfolding ids_of
length-ids_of [] = refl
length-ids_of (item ∷ revisions) = omega (arith, length-ids_of revisions)

Height-lt :
    (revisions : List Revision) {id : Text} {n : ℕ} → Height revisions id n → n < length revisions
Height-lt revisions {n = n} h = omega (
  arith,
  counted revisions n h (omega arith),
  below_count-length (climb revisions n) (suc n) (ids_of revisions),
  length-ids_of revisions,
)

list_cases : {A : Type 0} (xs : List A) → (xs ≡ []) ⊎ ((x : A) × (rest : List A) × (xs ≡ x ∷ rest))
list_cases [] = inl refl
list_cases (x ∷ xs) = inr (x, xs, refl)

child_first : (child : Text) (others : List Text) → text_in child (child ∷ others) ≡ true
unfolding text_in
child_first child others = rw (text_eq_refl child) refl

walk_from_total :
    (revisions : List Revision) (fuel : ℕ) (id : Text) {n : ℕ}
    → DistinctIds revisions
    → Height revisions id n
    → length revisions ≤ fuel + n
    → (chain : List Text) × (walk_from revisions fuel id ≡ some chain)
unfolding walk_from
walk_from_total revisions zero id distinct h enough = absurd (omega (arith, Height-lt revisions h))
walk_from_total revisions (suc fuel) id distinct h enough =
    elim (list_cases (children_of id revisions)) [
      | inl e ↦ (id ∷ [], rw (e, walk_from) refl)
      | inr (child, others, e) ↦
          let there : text_in child (children_of id revisions) ≡ true =
            rw e (child_first child others) in
          let (_, found) = children_parent id child revisions distinct there in
          let (chain, walked) =
            walk_from_total revisions fuel child distinct (above found h) (omega arith) in
          (id ∷ chain, rw (e, walk_from, walked) refl)
    ]

root_parent :
    (root : Text) (revisions : List Revision)
    → DistinctIds revisions
    → text_in root (roots_of revisions) ≡ true
    → (text_in root (ids_of revisions) ≡ true) × (parent_of root revisions ≡ some none)
unfolding DistinctIds parent_of ids_of roots_of root_of text_in
root_parent root [] distinct h = cc
root_parent root (item ∷ revisions) distinct h = elim (Option-cases item.down_revision) [
  | inr (down, e) ↦
      let (inside, found) = root_parent root revisions distinct.1 (rw e at h) in
      elim (Bool-cases (text_eq root item.revision)) [
        | inl same ↦
            absurd (ground (arith, in_ids_≡ root item.revision (ids_of revisions) same, distinct.0))
        | inr differs ↦ (ground arith, rw differs found)
      ]
  | inl e ↦ elim (Bool-cases (text_eq root item.revision)) [
    | inl same ↦ (rw same refl, rw (same, e) refl)
    | inr differs ↦
        let (inside, found) = root_parent root revisions distinct.1 (rw (e, differs) at h) in
        (ground arith, rw differs found)
  ]
]

walk_chain_total :
    (revisions : List Revision) (roots : List Text)
    → DistinctIds revisions
    → sort_texts (roots_of revisions) ≡ roots
    → (chain : List Text) × (walk_chain revisions roots ≡ some chain)
unfolding walk_chain full_chain
walk_chain_total revisions [] distinct e = ([], refl)
walk_chain_total revisions (root ∷ next ∷ roots) distinct e = ([], refl)
walk_chain_total revisions (root ∷ []) distinct e =
    let sole : roots_of revisions ≡ root ∷ [] = (sort_texts_single (roots_of revisions) root).0 e in
    let there : text_in root (roots_of revisions) ≡ true = rw sole (child_first root []) in
    let (_, found) = root_parent root revisions distinct there in
    let (chain, walked) =
      walk_from_total revisions (length revisions + 1) root distinct (at_root found)
        (omega arith) in
    elim (Bool-cases (any (λ item. has_two_children revisions item.down_revision) revisions)) [
      | inl branched ↦ ([], rw branched refl)
      | inr linear ↦
          (if length chain == length revisions then chain else [], rw (linear, walked) refl)
    ]

-- With distinct revision ids the walk of the chain comes to an end, and it does so with one round for
-- each revision and one more: whatever the links between the revisions are, whatever roots they
-- have, and whether or not they form one chain.
pub walk_chain_ends :
    (revisions : List Revision)
    → DistinctIds revisions
    → (chain : List Text) × (walk_chain revisions (sort_texts (roots_of revisions)) ≡ some chain)
walk_chain_ends revisions distinct =
    walk_chain_total revisions (sort_texts (roots_of revisions)) distinct refl
