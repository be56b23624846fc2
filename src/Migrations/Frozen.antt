-- ===== src/Migrations/Frozen.antt =====
-- What an empty list of violations means, and what a chain is.
use ai_voice_agent.Database.Baseline.{expected_schema_root, expected_schema_head}
use ai_voice_agent.Migrations.{MigrationGraphReport}
use ai_voice_agent.Migrations.Baseline.{
  frozen_migration_package_sha256, find_baseline_violations, defect, wrong_revision_count,
  wrong_sql_count, wrong_roots, wrong_heads, wrong_digest,
}
use ai_voice_agent.Prelude.{
  ◌≡◌, refl, ◌↔◌, Bool, true, List, [], ◌∷◌, ◌++◌, map, arith, ◌==◌, if◌then◌else◌, ==_iff,
}
use ai_voice_agent.Text.{text_eq}
use ai_voice_agent.Text.Sorting.{text_eq_refl, text_eq-≡, is_single, is_single_iff}

-- A report that is exactly that of the frozen baseline.
pub Matches : MigrationGraphReport → Type 0
Matches report =
    (report.defects ≡ [])
    × (report.revision_count ≡ 112)
    × (report.sql_file_count ≡ 112)
    × (report.roots ≡ expected_schema_root ∷ [])
    × (report.heads ≡ expected_schema_head ∷ [])
    × (report.package_sha256 ≡ frozen_migration_package_sha256)

none_of :
    {A : Type 0} (xs : List A) (a b c d e : Bool) (va vb vc vd ve : A)
    → xs
          ++ ((if a then [] else va ∷ [])
              ++ ((if b then [] else vb ∷ [])
                  ++ ((if c then [] else vc ∷ [])
                      ++ ((if d then [] else vd ∷ []) ++ (if e then [] else ve ∷ [])))))
        ≡ []
      ↔ ((xs ≡ []) × (a ≡ true) × (b ≡ true) × (c ≡ true) × (d ≡ true) × (e ≡ true))
none_of [] a b c d e va vb vc vd ve = (λ h. ground arith, λ h. ground arith)
none_of (x ∷ xs) a b c d e va vb vc vd ve = (λ h. cc, λ h. cc)

map_nil : {A B : Type 0} (f : A → B) (xs : List A) → map f xs ≡ [] ↔ xs ≡ []
map_nil f [] = (λ h. refl, λ h. refl)
map_nil f (x ∷ xs) = (λ h. cc, λ h. cc)

-- A report has no violation exactly if it has no defect, 112 revisions and as many SQL files, the
-- expected root and head and no other, and the digest of the frozen package.
pub find_baseline_violations_iff :
    (report : MigrationGraphReport) → find_baseline_violations report ≡ [] ↔ Matches report
unfolding find_baseline_violations Matches
find_baseline_violations_iff report =
    let step =
      none_of (map (λ d. defect d) report.defects) (report.revision_count == 112)
        (report.sql_file_count == 112) (is_single report.roots expected_schema_root)
        (is_single report.heads expected_schema_head)
        (text_eq report.package_sha256 frozen_migration_package_sha256)
        (wrong_revision_count report.revision_count) (wrong_sql_count report.sql_file_count)
        (wrong_roots report.roots) (wrong_heads report.heads)
        (wrong_digest report.package_sha256) in
    let defects = map_nil (λ d. defect d) report.defects in
    let roots = is_single_iff report.roots expected_schema_root in
    let heads = is_single_iff report.heads expected_schema_head in
    (
      λ h.
          let (clean, revisions, files, root, head, digest) = step.0 h in
          (
            defects.0 clean,
            (==_iff report.revision_count 112).0 revisions,
            (==_iff report.sql_file_count 112).0 files,
            roots.0 root,
            heads.0 head,
            text_eq-≡ report.package_sha256 frozen_migration_package_sha256 digest,
          ),
      λ (clean, revisions, files, root, head, digest). step.1 (
        defects.1 clean,
        (==_iff report.revision_count 112).1 revisions,
        (==_iff report.sql_file_count 112).1 files,
        roots.1 root,
        heads.1 head,
        rw digest (text_eq_refl frozen_migration_package_sha256),
      ),
    )
