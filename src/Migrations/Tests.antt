-- ===== src/Migrations/Tests.antt =====
-- Reports and small packages, and the theorems at them.
use ai_voice_agent.Database.Failures.{text_in}
use ai_voice_agent.Migrations.{
  children_of, walk_from, walk_chain, roots_of, Revision, MigrationGraphReport,
}
use ai_voice_agent.Migrations.Baseline.{frozen_migration_package_sha256, find_baseline_violations}
use ai_voice_agent.Migrations.Chains.{DistinctIds, walk_chain_ends}
use ai_voice_agent.Migrations.Frozen.{Matches, find_baseline_violations_iff}
use ai_voice_agent.Prelude.{ℕ, zero, suc, ◌≡◌, refl, ◌↔◌, none, some, List, [], ◌∷◌}
use ai_voice_agent.Text.{Text, codes, text_eq}
use ai_voice_agent.Text.Sorting.{sort_texts}

-- The report of the frozen package.
abbrev frozen_report : MigrationGraphReport
frozen_report = record {
  revision_count = 112;
  sql_file_count = 112;
  roots = codes "001_5B" ∷ [];
  heads = codes "112_5H5" ∷ [];
  chain = codes "001_5B" ∷ [];
  package_sha256 = frozen_migration_package_sha256;
  defects = [];
}

find_baseline_violations_example :
    find_baseline_violations frozen_report ≡ [] ↔ Matches frozen_report
find_baseline_violations_example = find_baseline_violations_iff frozen_report

-- Two files with the id "A", the second of which has "A" as its parent: the walk from the root
-- finds "A" behind "A" for ever, so no amount of rounds ends it.
abbrev looping : List Revision
looping =
    record { revision = codes "A"; down_revision = none; sql_file = none }
    ∷ record { revision = codes "A"; down_revision = some (codes "A"); sql_file = none }
    ∷ []

looping_walk : (fuel : ℕ) → walk_from looping fuel (codes "A") ≡ none
unfolding walk_from children_of text_eq
looping_walk zero = refl
looping_walk (suc fuel) = rw (looping_walk fuel) refl

-- A root and its child, in the order in which the child comes first.
abbrev two_revisions : List Revision
two_revisions =
    record { revision = codes "002_B"; down_revision = some (codes "001_A"); sql_file = none }
    ∷ record { revision = codes "001_A"; down_revision = none; sql_file = none }
    ∷ []

two_revisions-DistinctIds : DistinctIds two_revisions
unfolding DistinctIds text_in text_eq
two_revisions-DistinctIds = (refl, (refl, tt))

walk_chain_ends_example :
    (chain : List Text) × (walk_chain two_revisions (sort_texts (roots_of two_revisions))
      ≡ some chain)
walk_chain_ends_example = walk_chain_ends two_revisions two_revisions-DistinctIds
