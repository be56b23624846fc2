-- ===== src/Deployment/Commands.antt =====
-- command_graph, command_upgrade and command_check of scripts/db_migrate.py.
use ai_voice_agent.Database.Baseline.{expected_schema_head, required_extensions, missing_from}
use ai_voice_agent.Deployment.{
  refuse, migration_url, migration_target, missing_prerequisites, LibpqTarget, Connection, Process,
  Effect, Run, Problem, connected, upgraded, not_installed, other_revision, succeed,
}
use ai_voice_agent.Migrations.Baseline.{
  validate_frozen_baseline, Validation, frozen, violated, no_package, validation_hangs,
}
use ai_voice_agent.Prelude.{
  Bool, true, false, not, ◌&&◌, Option, none, some, List, [], ◌∷◌, ◌++◌, map, ltb, ◌==◌,
  if◌then◌else◌, length,
}
use ai_voice_agent.Redaction.Library.{is_space}
use ai_voice_agent.Settings.{Url}
use ai_voice_agent.Text.{Text}
use ai_voice_agent.Text.Sorting.{is_single}

graph_passes : Validation → Bool
graph_passes (frozen report) = true
graph_passes (violated violations) = false
graph_passes no_package = false
graph_passes validation_hangs = false

-- command_graph: whether it returns.
unfoldable pub command_graph : Process → Bool
unfolding graph_passes
command_graph process =
    graph_passes (validate_frozen_baseline process.digit process.migration_package)

at_head : Option (List Text) → Bool
at_head none = false
at_head (some revisions) = is_single revisions expected_schema_head

-- After alembic has run.
upgrade_checked : List Effect → Option Connection → Run
unfolding at_head
upgrade_checked effects none = refuse effects
upgrade_checked effects (some connection) =
    if at_head connection.revisions then succeed effects else refuse effects

-- `revisions is None and sentinel is not None`, or several revisions.
must_not_upgrade : Option (List Text) → Bool → Bool
must_not_upgrade none has_sentinel = has_sentinel
must_not_upgrade (some revisions) has_sentinel = ltb 1 (length revisions)

upgrade_connected : Process → Url → Option Connection → Run
unfolding must_not_upgrade upgrade_checked
upgrade_connected process url none = refuse (connected url ∷ [])
upgrade_connected process url (some connection) =
    if must_not_upgrade connection.revisions connection.has_sentinel
    then refuse (connected url ∷ [])
    else if not (process.alembic_upgrade url expected_schema_head)
    then refuse (connected url ∷ upgraded expected_schema_head ∷ [])
    else upgrade_checked (connected url ∷ upgraded expected_schema_head ∷ connected url ∷ [])
        (process.connect_again url)

upgrade_target : Process → Url → Option LibpqTarget → Run
unfolding upgrade_connected
upgrade_target process url none = refuse []
upgrade_target process url (some t) = upgrade_connected process url (process.connect url)

upgrade_url : Process → Option Url → Run
unfolding upgrade_target
upgrade_url process none = refuse []
upgrade_url process (some url) = upgrade_target process url (migration_target process url)

-- command_upgrade
unfoldable pub command_upgrade : Process → Run
unfolding upgrade_url
command_upgrade process =
    if command_graph process then upgrade_url process (migration_url process) else refuse []

-- text.split(",")
split_commas : Text → List Text
split_commas [] = [] ∷ []
split_commas (c ∷ text) =
    let rest = split_commas text in
    if c == b','
    then [] ∷ rest
    else elim rest as (λ _. List Text) [ [] ↦ (c ∷ []) ∷ [] | part ∷ parts ↦ (c ∷ part) ∷ parts ]

strip_end : Text → Text
strip_end [] = []
strip_end (c ∷ text) = elim (strip_end text) as (λ _. Text) [
  | [] ↦ if is_space c then [] else c ∷ []
  | d ∷ rest ↦ c ∷ d ∷ rest
]

-- text.strip()
strip : Text → Text
unfolding strip_end
strip [] = []
strip (c ∷ text) = let rest = strip text in if is_space c then rest else strip_end (c ∷ text)

-- The problems that command_check reports.
unfoldable pub check_problems : Bool → Connection → List Problem
unfolding split_commas strip at_head
check_problems expect_head connection =
    let missing = missing_from required_extensions connection.extensions in
    missing_prerequisites connection.server_version_num connection.available
      (map (λ part. strip part) (split_commas connection.shared_preload_libraries))
    ++ ((if expect_head && not (at_head connection.revisions)
          then other_revision expected_schema_head ∷ []
          else [])
        ++ (if expect_head then map (λ name. not_installed name) missing else []))

check_connected : Bool → Url → Option Connection → Run
check_connected expect_head url none = refuse (connected url ∷ [])
check_connected expect_head url (some connection) =
    elim (check_problems expect_head connection) as (λ _. Run) [
      | [] ↦ succeed (connected url ∷ [])
      | problem ∷ problems ↦ refuse (connected url ∷ [])
    ]

check_target : Process → Bool → Url → Option LibpqTarget → Run
unfolding check_connected
check_target process expect_head url none = refuse []
check_target process expect_head url (some t) =
    check_connected expect_head url (process.connect url)

check_url_given : Process → Bool → Option Url → Run
unfolding check_target
check_url_given process expect_head none = refuse []
check_url_given process expect_head (some url) =
    check_target process expect_head url (migration_target process url)

-- command_check; `expect_head` is its option.
unfoldable pub command_check : Process → Bool → Run
unfolding check_url_given
command_check process expect_head = check_url_given process expect_head (migration_url process)
