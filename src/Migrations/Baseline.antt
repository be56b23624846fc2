-- ===== src/Migrations/Baseline.antt =====
-- find_baseline_violations and validate_frozen_baseline of db/migration_graph.py.
use ai_voice_agent.Database.Baseline.{expected_schema_root, expected_schema_head}
use ai_voice_agent.Migrations.{
  inspect_migration_package, Defect, MigrationGraphReport, Package, Inspection, reported, not_found,
  hangs,
}
use ai_voice_agent.Prelude.{ℕ, Option, List, [], ◌∷◌, ◌++◌, map, ◌==◌, if◌then◌else◌}
use ai_voice_agent.Text.{Text, codes, text_eq}
use ai_voice_agent.Text.Sorting.{is_single}

abbrev pub expected_revision_count : ℕ
expected_revision_count = 112

abbrev pub frozen_migration_package_sha256 : Text
frozen_migration_package_sha256 =
    codes "a426138ed4a83c4cdfe892e281ffcd49823689345cc02198861ac3e9242be0b2"

pub data Violation : Type 0 where
  defect : Defect → Violation
  wrong_revision_count : ℕ → Violation
  wrong_sql_count : ℕ → Violation
  wrong_roots : List Text → Violation
  wrong_heads : List Text → Violation
  wrong_digest : Text → Violation

-- find_baseline_violations
unfoldable pub find_baseline_violations : MigrationGraphReport → List Violation
find_baseline_violations report =
    map (λ d. defect d) report.defects
    ++ ((if report.revision_count == expected_revision_count
          then []
          else wrong_revision_count report.revision_count ∷ [])
        ++ ((if report.sql_file_count == expected_revision_count
              then []
              else wrong_sql_count report.sql_file_count ∷ [])
            ++ ((if is_single report.roots expected_schema_root
                  then []
                  else wrong_roots report.roots ∷ [])
                ++ ((if is_single report.heads expected_schema_head
                      then []
                      else wrong_heads report.heads ∷ [])
                    ++ (if text_eq report.package_sha256 frozen_migration_package_sha256
                        then []
                        else wrong_digest report.package_sha256 ∷ [])))))

-- validate_frozen_baseline: the report, or the violations that the error carries.
pub data Validation : Type 0 where
  frozen : MigrationGraphReport → Validation
  violated : List Violation → Validation
  no_package : Validation
  validation_hangs : Validation

validate_report : MigrationGraphReport → List Violation → Validation
validate_report report [] = frozen report
validate_report report (violation ∷ violations) = violated (violation ∷ violations)

validate_inspection : Inspection → Validation
unfolding validate_report
validate_inspection (reported report) = validate_report report (find_baseline_violations report)
validate_inspection not_found = no_package
validate_inspection hangs = validation_hangs

unfoldable pub validate_frozen_baseline : (ℕ → Option ℕ) → Package → Validation
unfolding validate_inspection validate_report
validate_frozen_baseline digit found = validate_inspection (inspect_migration_package digit found)
