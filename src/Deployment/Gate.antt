-- ===== src/Deployment/Gate.antt =====
-- Lemmas on command_gate and revision_problem.
use ai_voice_agent.Database.Baseline.{expected_schema_head, required_extensions, missing_from}
use ai_voice_agent.Database.Failures.{text_in}
use ai_voice_agent.Deployment.{
  refuse, migration_url, migration_target, revision_problem, gate_problems, command_gate,
  LibpqTarget, Identity, Connection, Process, Effect, Run, Problem, connected, not_installed,
  runtime_roles, gate_identity, gate_graph, problem_list, gate_connection, is_runtime, gate_target,
  one_revision, succeed, gate_url,
}
use ai_voice_agent.Migrations.{MigrationGraphReport}
use ai_voice_agent.Migrations.Baseline.{
  validate_frozen_baseline, Validation, frozen, violated, no_package, validation_hangs,
}
use ai_voice_agent.Prelude.{
  ◌≡◌, refl, ◌↔◌, inl, inr, true, false, ◌||◌, Option, none, some, List, [], ◌∷◌, ◌++◌, map, arith,
  Bool-cases, Option-cases,
}
use ai_voice_agent.Settings.{Url}
use ai_voice_agent.Text.{Text, text_eq}
use ai_voice_agent.Text.Sorting.{text_eq_refl, text_eq-≡, is_single, is_single_iff}

-- The revisions are no problem exactly if the table exists and holds the expected one alone.
pub revision_problem_iff :
    (revisions : Option (List Text)) (expected : Text) (chain : List Text)
    → revision_problem revisions expected chain ≡ none ↔ revisions ≡ some (expected ∷ [])
unfolding revision_problem one_revision
revision_problem_iff none expected chain = (λ h. cc, λ h. cc)
revision_problem_iff (some []) expected chain = (λ h. cc, λ h. cc)
revision_problem_iff (some (found ∷ [])) expected chain =
    elim (Bool-cases (text_eq found expected)) [
      | inl same ↦ (λ h. rw (text_eq-≡ found expected same) refl, λ h. ground arith)
      | inr other ↦ (
        λ h. absurd (ground arith),
        λ h.
            let same : found ≡ expected = cc in
            let reflexive : text_eq found expected ≡ true = rw same (text_eq_refl expected) in cc,
      )
    ]
revision_problem_iff (some (found ∷ next ∷ others)) expected chain = (λ h. cc, λ h. cc)

-- A database at exactly the expected revision, with the required extensions installed.
pub Current : Text → Connection → Type 0
Current expected connection =
    (connection.revisions ≡ some (expected ∷ []))
    × (missing_from required_extensions connection.extensions ≡ [])

problem_list_nil :
    (problem : Option Problem) (others : List Problem)
    → problem_list problem ++ others ≡ []
    → (problem ≡ none) × (others ≡ [])
unfolding problem_list
problem_list_nil none others h = (refl, h)
problem_list_nil (some problem) others h = cc

not_installed_nil : (names : List Text) → map (λ name. not_installed name) names ≡ [] → names ≡ []
not_installed_nil [] h = refl
not_installed_nil (name ∷ names) h = cc

gate_problems_nil :
    (expected : Text) (chain : List Text) (connection : Connection)
    → gate_problems expected chain connection ≡ []
    → Current expected connection
unfolding gate_problems Current
gate_problems_nil expected chain connection h =
    let (none_found, none_missing) =
      problem_list_nil (revision_problem connection.revisions expected chain)
        (map (λ name. not_installed name) (missing_from required_extensions connection.extensions))
        h in
    (
      (revision_problem_iff connection.revisions expected chain).0 none_found,
      not_installed_nil (missing_from required_extensions connection.extensions) none_missing,
    )

-- A connection that is not a runtime role's, to the database that the target names, which is current.
pub Proven : Text → LibpqTarget → Connection → Type 0
Proven expected t connection =
    (identity : Identity) × (connection.identity ≡ some identity)
    × (text_in identity.session_user runtime_roles ≡ false)
    × (text_in identity.current_user runtime_roles ≡ false)
    × (identity.current_database ≡ t.dbname)
    × Current expected connection

-- What stands behind a gate that passed.
pub Gated : Process → Text → Run → Type 0
Gated process expected run =
    (report : MigrationGraphReport) × (url : Url) × (t : LibpqTarget) × (connection : Connection)
    × (validate_frozen_baseline process.digit process.migration_package ≡ frozen report)
    × (report.heads ≡ expected ∷ [])
    × (expected ≡ expected_schema_head)
    × (migration_url process ≡ some url)
    × (migration_target process url ≡ some t)
    × (process.connect url ≡ some connection)
    × Proven expected t connection
    × (run.effects ≡ connected url ∷ [])

problems_lem :
    (effects : List Effect) (problems : List Problem)
    → (elim problems as (λ _. Run) [
      | [] ↦ succeed effects
      | problem ∷ others ↦ refuse effects
    ]).succeeded
      ≡ true
    → problems ≡ []
problems_lem effects [] h = refl
problems_lem effects (problem ∷ problems) h = cc

problems_effects :
    (effects : List Effect) (problems : List Problem)
    → (elim problems as (λ _. Run) [
      | [] ↦ succeed effects
      | problem ∷ others ↦ refuse effects
    ]).effects
      ≡ effects
problems_effects effects [] = refl
problems_effects effects (problem ∷ problems) = refl

identity_lem :
    (expected : Text) (chain : List Text) (t : LibpqTarget) (effects : List Effect)
    (connection : Connection) (found : Option Identity)
    → connection.identity ≡ found
    → (gate_identity expected chain t effects connection found).succeeded ≡ true
    → Proven expected t connection
      × ((gate_identity expected chain t effects connection found).effects ≡ effects)
unfolding gate_identity is_runtime Proven
identity_lem expected chain t effects connection none e h = cc
identity_lem expected chain t effects connection (some identity) e h =
    elim (Bool-cases (
      text_in identity.session_user runtime_roles || text_in identity.current_user runtime_roles)) [
        | inl runtime ↦ absurd (ground arith)
        | inr other ↦ elim (Bool-cases (text_eq identity.current_database t.dbname)) [
          | inr elsewhere ↦ absurd (ground arith)
          | inl same ↦
              let none_left : gate_problems expected chain connection ≡ [] =
                problems_lem effects (gate_problems expected chain connection)
                  (rw (other, same) at h) in
              (
                (
                  identity,
                  e,
                  ground arith,
                  ground arith,
                  text_eq-≡ identity.current_database t.dbname same,
                  gate_problems_nil expected chain connection none_left,
                ),
                rw (other, same, none_left) refl,
              )
        ]
      ]

module _ (process : Process) (expected : Text) where
  connection_lem :
      (chain : List Text) (t : LibpqTarget) (url : Url) (found : Option Connection)
      → (gate_connection expected chain t url found).succeeded ≡ true
      → (connection : Connection) × (found ≡ some connection)
        × Proven expected t connection
        × ((gate_connection expected chain t url found).effects ≡ connected url ∷ [])
  unfolding gate_connection
  connection_lem chain t url none h = cc
  connection_lem chain t url (some connection) h =
      let (proven, effects) =
        identity_lem expected chain t (connected url ∷ []) connection connection.identity refl h in
      (connection, refl, proven, effects)

  graph_lem :
      (found : Validation)
      → (gate_graph process expected found).succeeded ≡ true
      → (report : MigrationGraphReport) × (found ≡ frozen report)
        × (report.heads ≡ expected ∷ [])
        × (expected ≡ expected_schema_head)
        × (gate_graph process expected found
            ≡ gate_url process expected report.chain (migration_url process))
  unfolding gate_graph
  graph_lem (violated violations) h = cc
  graph_lem no_package h = cc
  graph_lem validation_hangs h = cc
  graph_lem (frozen report) h = elim (Bool-cases (is_single report.heads expected)) [
    | inr other ↦ absurd (ground arith)
    | inl sole ↦ elim (Bool-cases (text_eq expected expected_schema_head)) [
      | inr other ↦ absurd (ground arith)
      | inl same ↦ (
        report,
        refl,
        (is_single_iff report.heads expected).0 sole,
        text_eq-≡ expected expected_schema_head same,
        rw (sole, same) refl,
      )
    ]
  ]

  url_lem :
      (chain : List Text) (parsed : Option Url)
      → (gate_url process expected chain parsed).succeeded ≡ true
      → (url : Url) × (parsed ≡ some url)
        × (t : LibpqTarget) × (migration_target process url ≡ some t)
        × (gate_url process expected chain parsed
            ≡ gate_connection expected chain t url (process.connect url))
  unfolding gate_url gate_target
  url_lem chain none h = cc
  url_lem chain (some url) h = elim (Option-cases (migration_target process url)) [
    | inl missing ↦ absurd (ground arith)
    | inr (t, found) ↦ (url, refl, t, found, rw found refl)
  ]

-- A gate that passes has proven all of this: the package on disk is the frozen baseline, whose sole
-- head is the expected one, which is the head of this build; a migration URL and a checked target
-- exist; and over the one connection that was made, to that URL, neither user was a runtime role,
-- the database was the target's, its revision table held the expected revision and nothing else,
-- and no required extension was missing.
pub command_gate-Gated :
    (process : Process) (expected : Text)
    → (command_gate process expected).succeeded ≡ true
    → Gated process expected (command_gate process expected)
unfolding command_gate Gated
command_gate-Gated process expected h =
    let found = validate_frozen_baseline process.digit process.migration_package in
    let (report, is_frozen, head, same_head, run) = graph_lem process expected found h in
    let (url, has_url, t, has_target, run_url) =
      url_lem process expected report.chain (migration_url process) (rw run at h) in
    let (connection, is_connected, proven, effects) =
      connection_lem process expected report.chain t url (process.connect url)
        (rw (run, run_url) at h) in
    (
      report,
      url,
      t,
      connection,
      is_frozen,
      head,
      same_head,
      has_url,
      has_target,
      is_connected,
      proven,
      rw (run, run_url) effects,
    )
