-- ===== src/Deployment.antt =====
-- scripts/db_migrate.py: the operator's commands. Each command is a function of the process
-- environment, the package and what the servers answer, to its effects in order and its result; a
-- command that is refused has no effect after the refusal. Messages and printing are left out.
pub mod Gate
pub mod Commands
pub mod Passwords
mod Tests
use ai_voice_agent.Database.Baseline.{
  expected_schema_head, required_extensions, minimum_postgres_version_num, missing_from,
}
use ai_voice_agent.Database.Failures.{text_in}
use ai_voice_agent.Migrations.{Package}
use ai_voice_agent.Migrations.Baseline.{
  validate_frozen_baseline, Validation, frozen, violated, no_package, validation_hangs,
}
use ai_voice_agent.Prelude.{
  ℕ, suc, ◌-◌, Bool, true, false, not, ◌&&◌, ◌||◌, Option, none, some, List, [], ◌∷◌, ◌++◌, map,
  ltb, leb, if◌then◌else◌, length, any,
}
use ai_voice_agent.Settings.{is_single_host, is_blank, text_of, parameters_outside, Url}
use ai_voice_agent.Text.{Text, codes, text_eq}
use ai_voice_agent.Text.Sorting.{is_single}

abbrev safe_libpq_query_parameters : List Text
safe_libpq_query_parameters =
    codes "application_name"
    ∷ codes "channel_binding"
    ∷ codes "connect_timeout"
    ∷ codes "gssencmode"
    ∷ codes "ssl_max_protocol_version"
    ∷ codes "ssl_min_protocol_version"
    ∷ codes "sslcert"
    ∷ codes "sslcrl"
    ∷ codes "sslcrldir"
    ∷ codes "sslkey"
    ∷ codes "sslmode"
    ∷ codes "sslnegotiation"
    ∷ codes "sslrootcert"
    ∷ codes "sslsni"
    ∷ []

abbrev runtime_roles : List Text
runtime_roles = codes "app_api" ∷ codes "app_worker" ∷ codes "app_readonly" ∷ []

abbrev redirecting_environment : List Text
redirecting_environment = codes "PGHOSTADDR" ∷ codes "PGSERVICE" ∷ codes "PGSERVICEFILE" ∷ []

abbrev loopback_hosts : List Text
loopback_hosts = codes "127.0.0.1" ∷ codes "::1" ∷ codes "localhost" ∷ []

abbrev loopback_server_addresses : List Text
loopback_server_addresses = codes "127.0.0.1" ∷ codes "::1" ∷ []

abbrev password_environments : List Text
password_environments = codes "local" ∷ codes "test" ∷ []

pub record LibpqTarget : Type 0 where
  pub host : Text
  pub port : ℕ
  pub dbname : Text
  pub user : Text

-- The row of _connected_identity.
pub record Identity : Type 0 where
  pub session_user : Text
  pub current_user : Text
  pub current_database : Text
  pub address : Option Text
  pub server_port : Option ℕ

-- What a connection reads: none where the table or the row is missing.
pub record Connection : Type 0 where
  pub identity : Option Identity
  pub revisions : Option (List Text)
  pub extensions : List Text
  pub has_sentinel : Bool
  pub server_version_num : ℕ
  pub available : List Text
  pub shared_preload_libraries : Text

-- The process: its environment, the parsing of URLs, what a connection answers (none for a
-- psycopg.Error), whether `alembic upgrade` exits with 0, and what a connection answers after it.
pub record Process : Type 0 where
  pub environment : Text → Option Text
  pub make_url : Text → Option Url
  pub is_ip_address : Text → Bool
  pub digit : ℕ → Option ℕ
  pub migration_package : Package
  pub connect : Url → Option Connection
  pub alembic_upgrade : Url → Text → Bool
  pub connect_again : Url → Option Connection

pub data Effect : Type 0 where
  connected : Url → Effect
  upgraded : Text → Effect
  altered_role : Text → Text → Effect

-- What a command did, and whether it returned normally.
pub record Run : Type 0 where
  pub effects : List Effect
  pub succeeded : Bool

abbrev pub refuse : List Effect → Run
refuse effects = record { effects = effects; succeeded = false }

abbrev succeed : List Effect → Run
succeed effects = record { effects = effects; succeeded = true }

-- `os.environ.get(name)` is set and not empty.
is_set : Process → Text → Bool
is_set process name = not (is_blank (process.environment name))

parse_migration_url : Process → Option Text → Option Url
parse_migration_url process none = none
parse_migration_url process (some raw) = process.make_url raw

-- _migration_url; none for CommandError
unfoldable pub migration_url : Process → Option Url
unfolding parse_migration_url is_set
migration_url process =
    if not (is_set process (codes "MIGRATION_DATABASE_URL"))
    then none
    else elim (parse_migration_url process (process.environment (codes "MIGRATION_DATABASE_URL")))
        as (λ _. Option Url) [
          | none ↦ none
          | some url ↦
              if not (text_eq url.drivername (codes "postgresql+psycopg"))
              then none
              else if text_in (text_of url.username) runtime_roles
              then none
              else some url
        ]

explicit_port : Option ℕ → Bool
explicit_port none = false
explicit_port (some port) = leb 1 port && leb port 65535

port_of : Option ℕ → ℕ
port_of none = 0
port_of (some port) = port

-- migration_target; none for CommandError
unfoldable pub migration_target : Process → Url → Option LibpqTarget
unfolding is_set explicit_port port_of
migration_target process url =
    if ltb 0 (length (parameters_outside safe_libpq_query_parameters url.query))
    then none
    else if any (λ name. is_set process name) redirecting_environment
    then none
    else if is_blank url.host || not (is_single_host process.is_ip_address (text_of url.host))
    then none
    else if not (explicit_port url.port)
    then none
    else if is_blank url.database || is_blank url.username
    then none
    else some (record {
      host = text_of url.host;
      port = port_of url.port;
      dbname = text_of url.database;
      user = text_of url.username;
    })

pub data Problem : Type 0 where
  below_minimum : ℕ → Problem
  not_available : Text → Problem
  not_preloaded : Problem
  not_installed : Text → Problem
  never_migrated : Problem
  no_revision : Problem
  several_revisions : List Text → Problem
  unknown_revision : Text → Problem
  stale : Text → ℕ → Problem
  other_revision : Text → Problem

-- missing_prerequisites
unfoldable pub missing_prerequisites : ℕ → List Text → List Text → List Problem
missing_prerequisites server_version_num available preloaded =
    (if ltb server_version_num minimum_postgres_version_num
      then below_minimum server_version_num ∷ []
      else [])
    ++ (map (λ name. not_available name) (missing_from required_extensions available)
        ++ (if text_in (codes "pg_stat_statements") preloaded then [] else not_preloaded ∷ []))

-- chain.index(id), where it is in the chain
index_of : Text → List Text → ℕ
index_of id [] = 0
index_of id (other ∷ chain) =
    let rest = suc (index_of id chain) in if text_eq id other then 0 else rest

one_revision : Text → List Text → Text → Option Problem
unfolding index_of
one_revision expected chain found =
    if text_eq found expected
    then none
    else if not (text_in found chain)
    then some (unknown_revision found)
    else if text_in expected chain && ltb (index_of found chain) (index_of expected chain)
    then some (stale found (index_of expected chain - index_of found chain))
    else some (other_revision found)

-- revision_problem
unfoldable pub revision_problem : Option (List Text) → Text → List Text → Option Problem
unfolding one_revision
revision_problem none expected chain = some never_migrated
revision_problem (some []) expected chain = some no_revision
revision_problem (some (found ∷ [])) expected chain = one_revision expected chain found
revision_problem (some (found ∷ next ∷ others)) expected chain =
    some (several_revisions (found ∷ next ∷ others))

problem_list : Option Problem → List Problem
problem_list none = []
problem_list (some problem) = problem ∷ []

-- The problems of a target database that command_gate reports.
unfoldable pub gate_problems : Text → List Text → Connection → List Problem
unfolding problem_list
gate_problems expected chain connection =
    problem_list (revision_problem connection.revisions expected chain)
    ++ map (λ name. not_installed name) (missing_from required_extensions connection.extensions)

is_runtime : Identity → Bool
is_runtime identity =
    text_in identity.session_user runtime_roles || text_in identity.current_user runtime_roles

gate_identity : Text → List Text → LibpqTarget → List Effect → Connection → Option Identity → Run
unfolding is_runtime
gate_identity expected chain t effects connection none = refuse effects
gate_identity expected chain t effects connection (some identity) =
    if is_runtime identity
    then refuse effects
    else if not (text_eq identity.current_database t.dbname)
    then refuse effects
    else elim (gate_problems expected chain connection) as (λ _. Run) [
      | [] ↦ succeed effects
      | problem ∷ problems ↦ refuse effects
    ]

gate_connection : Text → List Text → LibpqTarget → Url → Option Connection → Run
unfolding gate_identity
gate_connection expected chain t url none = refuse (connected url ∷ [])
gate_connection expected chain t url (some connection) =
    gate_identity expected chain t (connected url ∷ []) connection connection.identity

gate_target : Process → Text → List Text → Url → Option LibpqTarget → Run
unfolding gate_connection gate_identity
gate_target process expected chain url none = refuse []
gate_target process expected chain url (some t) =
    gate_connection expected chain t url (process.connect url)

gate_url : Process → Text → List Text → Option Url → Run
unfolding gate_target gate_connection gate_identity
gate_url process expected chain none = refuse []
gate_url process expected chain (some url) =
    gate_target process expected chain url (migration_target process url)

-- From the validated graph on: its sole head is the expected one, as is that of this build.
gate_graph : Process → Text → Validation → Run
unfolding gate_url gate_target gate_connection gate_identity
gate_graph process expected (violated violations) = refuse []
gate_graph process expected no_package = refuse []
gate_graph process expected validation_hangs = refuse []
gate_graph process expected (frozen report) =
    if not (is_single report.heads expected)
    then refuse []
    else if not (text_eq expected expected_schema_head)
    then refuse []
    else gate_url process expected report.chain (migration_url process)

-- command_gate
unfoldable pub command_gate : Process → Text → Run
unfolding gate_graph gate_url gate_target gate_connection gate_identity
command_gate process expected =
    gate_graph process expected (validate_frozen_baseline process.digit process.migration_package)
