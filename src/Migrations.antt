-- ===== src/Migrations.antt =====
-- db/migration_graph.py: the static validation of the migration package. The files of the package,
-- what Python reads from each of them, and the digest are arguments; f-strings of defects are
-- constructors with the parts that vary.
pub mod Baseline
pub mod Frozen
pub mod Chains
mod Tests
use ai_voice_agent.Database.Failures.{text_in}
use ai_voice_agent.Prelude.{
  ℕ, zero, suc, ◌+◌, ◌*◌, Bool, true, false, not, ◌&&◌, Option, none, some, List, [], ◌∷◌, ◌++◌,
  map, ltb, ◌==◌, if◌then◌else◌, length, any,
}
use ai_voice_agent.Text.{Text, codes, text_eq}
use ai_voice_agent.Text.Sorting.{sort_texts}

pub record Revision : Type 0 where
  pub revision : Text
  pub down_revision : Option Text
  pub sql_file : Option Text

-- The value of a constant of a revision module, where None and absence are one.
pub data Constant : Type 0 where
  no_constant : Constant
  text_constant : Text → Constant
  other_constant : Constant

-- A file of alembic/versions: its stem, and what _module_constants reads from it.
pub record RevisionFile : Type 0 where
  pub stem : Text
  pub revision : Constant
  pub down_revision : Constant
  pub sql_file : Constant

pub data Defect : Type 0 where
  no_identifier : Text → Defect
  name_mismatch : Text → Text → Defect
  not_single_parent : Text → Defect
  defined_twice : Text → Defect
  unknown_parent : Text → Text → Defect
  wrong_wrapper : Text → Defect
  missing_sql : Text → Defect
  orphan_sql : Text → Defect
  not_linear : Defect
  wrong_ordinals : Defect

pub record MigrationGraphReport : Type 0 where
  pub revision_count : ℕ
  pub sql_file_count : ℕ
  pub roots : List Text
  pub heads : List Text
  pub chain : List Text
  pub package_sha256 : Text
  pub defects : List Defect

constant_text : Constant → Option Text
constant_text no_constant = none
constant_text (text_constant text) = some text
constant_text other_constant = none

revision_of : RevisionFile → Text → Option Text → List Revision
unfolding constant_text
revision_of file revision down =
    record { revision = revision; down_revision = down; sql_file = constant_text file.sql_file }
    ∷ []

abbrev ReadResult : Type 0
ReadResult = List Revision × List Defect

-- The tail of the loop body of read_revisions, from the check of down_revision on.
read_parent : RevisionFile → Text → Constant → ReadResult
unfolding revision_of
read_parent file revision no_constant = (revision_of file revision none, [])
read_parent file revision (text_constant down) = (revision_of file revision (some down), [])
read_parent file revision other_constant = ([], not_single_parent file.stem ∷ [])

read_file : RevisionFile → Constant → ReadResult
unfolding read_parent
read_file file no_constant = ([], no_identifier file.stem ∷ [])
read_file file other_constant = ([], no_identifier file.stem ∷ [])
read_file file (text_constant revision) =
    let (revisions, defects) = read_parent file revision file.down_revision in
    let mismatch : List Defect =
      if text_eq revision file.stem then [] else name_mismatch file.stem revision ∷ [] in
    (revisions, mismatch ++ defects)

-- read_revisions, for the files in the order that sorted() gives them.
unfoldable pub read_revisions : List RevisionFile → List Revision × List Defect
unfolding read_file
read_revisions [] = ([], [])
read_revisions (file ∷ files) =
    let (revisions, defects) = read_file file file.revision in
    let (others, later) = read_revisions files in (revisions ++ others, defects ++ later)

is_child_of : Text → Option Text → Bool
is_child_of parent none = false
is_child_of parent (some down) = text_eq parent down

-- `children[parent]`, in the order of the revisions; [] when there is no such key.
unfoldable pub children_of : Text → List Revision → List Text
unfolding is_child_of
children_of parent [] = []
children_of parent (item ∷ revisions) =
    let rest = children_of parent revisions in
    if is_child_of parent item.down_revision then item.revision ∷ rest else rest

-- `any(len(found) > 1 for found in children.values())`
has_two_children : List Revision → Option Text → Bool
has_two_children revisions none = false
has_two_children revisions (some parent) = ltb 1 (length (children_of parent revisions))

-- The loop of _walk_chain; `none` when the fuel does not reach its end.
unfoldable pub walk_from : List Revision → ℕ → Text → Option (List Text)
walk_from revisions zero id = none
walk_from revisions (suc fuel) id = elim (children_of id revisions) as (λ _. Option (List Text)) [
  | [] ↦ some (id ∷ [])
  | child ∷ others ↦ elim (walk_from revisions fuel child) as (λ _. Option (List Text)) [
    | none ↦ none
    | some chain ↦ some (id ∷ chain)
  ]
]

full_chain : List Revision → Option (List Text) → Option (List Text)
full_chain revisions none = none
full_chain revisions (some chain) = some (if length chain == length revisions then chain else [])

-- _walk_chain
unfoldable pub walk_chain : List Revision → List Text → Option (List Text)
unfolding full_chain has_two_children
walk_chain revisions [] = some []
walk_chain revisions (root ∷ next ∷ roots) = some []
walk_chain revisions (root ∷ []) =
    let walked = full_chain revisions (walk_from revisions (length revisions + 1) root) in
    if any (λ item. has_two_children revisions item.down_revision) revisions
    then some []
    else walked

-- A set of strings, sorted.
without_repeats : List Text → List Text
without_repeats [] = []
without_repeats (text ∷ texts) =
    let rest = without_repeats texts in if text_in text texts then rest else text ∷ rest

sorted_set : List Text → List Text
unfolding without_repeats
sorted_set texts = sort_texts (without_repeats texts)

not_in : List Text → List Text → List Text
not_in others [] = []
not_in others (text ∷ texts) =
    let rest = not_in others texts in if text_in text others then rest else text ∷ rest

count_text : Text → List Text → ℕ
count_text text [] = 0
count_text text (other ∷ texts) =
    let rest = count_text text texts in if text_eq text other then suc rest else rest

repeated : List Text → List Text → List Text
unfolding count_text
repeated ids [] = []
repeated ids (id ∷ rest_ids) =
    let rest = repeated ids rest_ids in if ltb 1 (count_text id ids) then id ∷ rest else rest

abbrev sql_name : Text → Text
sql_name id = id ++ codes ".sql"

parent_defects : List Text → Text → Option Text → List Defect
parent_defects known id none = []
parent_defects known id (some down) = if text_in down known then [] else unknown_parent id down ∷ []

wraps_own : Text → Option Text → Bool
wraps_own id none = false
wraps_own id (some name) = text_eq name (sql_name id)

revision_defects : List Text → List Revision → List Defect
unfolding parent_defects wraps_own
revision_defects known [] = []
revision_defects known (item ∷ revisions) =
    parent_defects known item.revision item.down_revision
    ++ ((if wraps_own item.revision item.sql_file then [] else wrong_wrapper item.revision ∷ [])
        ++ revision_defects known revisions)

root_of : Revision → List Text
root_of item = elim item.down_revision [ none ↦ item.revision ∷ [] | some down ↦ [] ]

pub roots_of : List Revision → List Text
unfolding root_of
roots_of [] = []
roots_of (item ∷ revisions) = root_of item ++ roots_of revisions

parents_of : List Revision → List Text
parents_of [] = []
parents_of (item ∷ revisions) =
    let rest = parents_of revisions in
    elim item.down_revision as (λ _. List Text) [ none ↦ rest | some down ↦ down ∷ rest ]

-- `_ORDINAL.match(rid)` and int of its three digits; `digit` gives the value of a Unicode decimal.
ordinal : (ℕ → Option ℕ) → Text → Option ℕ
ordinal digit (a ∷ b ∷ c ∷ d ∷ text) = elim (digit a) as (λ _. Option ℕ) [
  | none ↦ none
  | some x ↦ elim (digit b) as (λ _. Option ℕ) [
    | none ↦ none
    | some y ↦ elim (digit c) as (λ _. Option ℕ) [
      | none ↦ none
      | some z ↦ if d == b'_' then some (100 * x + (10 * y + z)) else none
    ]
  ]
]
ordinal digit text = none

in_order : (ℕ → Option ℕ) → ℕ → List Text → Bool
unfolding ordinal
in_order digit k [] = true
in_order digit k (id ∷ chain) =
    let rest = in_order digit (suc k) chain in
    elim (ordinal digit id) [ none ↦ false | some n ↦ n == k && rest ]

chain_defects : (ℕ → Option ℕ) → List Text → List Defect
unfolding in_order
chain_defects digit [] = not_linear ∷ []
chain_defects digit (id ∷ chain) = if in_order digit 1 (id ∷ chain) then [] else wrong_ordinals ∷ []

-- A package on disk; `directories` says that both of its directories exist.
pub record Package : Type 0 where
  pub directories : Bool
  pub files : List RevisionFile
  pub sql_files : List Text
  pub digest : Text

-- How an inspection ends: with a report, with MigrationGraphError, or not at all.
pub data Inspection : Type 0 where
  reported : MigrationGraphReport → Inspection
  not_found : Inspection
  hangs : Inspection

module _ (digit : ℕ → Option ℕ) where
  inspect_chain : Package → List Revision → List Defect → Option (List Text) → Inspection
  unfolding sorted_set not_in repeated revision_defects roots_of parents_of chain_defects
  inspect_chain found revisions defects none = hangs
  inspect_chain found revisions defects (some chain) =
      let ids = map (λ item. item.revision) revisions in
      reported (record {
        revision_count = length revisions;
        sql_file_count = length found.sql_files;
        roots = sort_texts (roots_of revisions);
        heads = sorted_set (not_in (parents_of revisions) ids);
        chain = chain;
        package_sha256 = found.digest;
        defects =
            defects
            ++ (map (λ id. defined_twice id) (sorted_set (repeated ids ids))
                ++ (revision_defects ids revisions
                    ++ (map (λ name. missing_sql name)
                          (sorted_set (not_in found.sql_files (map (λ id. sql_name id) ids)))
                        ++ (map (λ name. orphan_sql name)
                              (sorted_set (not_in (map (λ id. sql_name id) ids) found.sql_files))
                            ++ chain_defects digit chain))));
      })

  -- inspect_migration_package
  unfoldable pub inspect_migration_package : Package → Inspection
  unfolding inspect_chain roots_of
  inspect_migration_package found =
      let (revisions, defects) = read_revisions found.files in
      if not found.directories
      then not_found
      else inspect_chain found revisions defects
          (walk_chain revisions (sort_texts (roots_of revisions)))
