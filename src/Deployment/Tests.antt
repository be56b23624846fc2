-- ===== src/Deployment/Tests.antt =====
-- The gate on a package of the frozen shape, and the theorems at it.
use ai_voice_agent.Database.Baseline.{missing_from}
use ai_voice_agent.Database.Failures.{text_in}
use ai_voice_agent.Deployment.{
  migration_url, migration_target, revision_problem, gate_problems, command_gate, Identity,
  Connection, Process, connected, altered_role,
}
use ai_voice_agent.Deployment.Gate.{revision_problem_iff, Gated, command_gate-Gated}
use ai_voice_agent.Deployment.Passwords.{command_set_runtime_password}
use ai_voice_agent.Deployment.Passwords.Altered.{
  Altered, Untouched, command_set_runtime_password_local,
}
use ai_voice_agent.Migrations.{
  read_revisions, children_of, walk_from, walk_chain, inspect_migration_package, RevisionFile,
  Package, no_constant, text_constant,
}
use ai_voice_agent.Migrations.Baseline.{
  frozen_migration_package_sha256, find_baseline_violations, validate_frozen_baseline,
}
use ai_voice_agent.Prelude.{
  ℕ, zero, suc, ◌+◌, ◌-◌, ◌/◌, ◌%◌, ◌≡◌, refl, ◌↔◌, ◌⊎◌, true, false, ◌&&◌, Option, none, some,
  List, [], ◌∷◌, ◌++◌, map, leb, ◌==◌, if◌then◌else◌,
}
use ai_voice_agent.Settings.{
  is_single_host, is_blank, text_of, port_in_range, query_get, parameters_outside, validate_url,
  target, Url,
}
use ai_voice_agent.Text.{Text, codes, text_eq}
use ai_voice_agent.Text.Sorting.{sort_texts, is_single}

revision_problem_example :
    revision_problem
        (some (codes "111_5H4" ∷ []))
        (codes "112_5H5")
        (codes "111_5H4" ∷ codes "112_5H5" ∷ [])
      ≡ none
    ↔ some (codes "111_5H4" ∷ []) ≡ some (codes "112_5H5" ∷ [])
revision_problem_example =
    revision_problem_iff (some (codes "111_5H4" ∷ [])) (codes "112_5H5")
      (codes "111_5H4" ∷ codes "112_5H5" ∷ [])

abbrev digit_value : ℕ → Option ℕ
digit_value c = if leb 48 c && leb c 57 then some (c - 48) else none

-- The names of 112 revisions in order.
abbrev ordinal_text : ℕ → Text
ordinal_text n = (48 + n / 100) ∷ (48 + (n / 10) % 10) ∷ (48 + n % 10) ∷ b'_' ∷ []

abbrev revision_name : ℕ → Text
revision_name n = ordinal_text n ++ (if n == 112 then codes "5H5" else codes "5B")

abbrev revision_file : ℕ → RevisionFile
revision_file n = record {
  stem = revision_name n;
  revision = text_constant (revision_name n);
  down_revision = if n == 1 then no_constant else text_constant (revision_name (n - 1));
  sql_file = text_constant (revision_name n ++ codes ".sql");
}

abbrev numbers : ℕ → ℕ → List ℕ
numbers first zero = []
numbers first (suc count) = first ∷ numbers (suc first) count

abbrev frozen_package : Package
frozen_package = record {
  directories = true;
  files = map (λ n. revision_file n) (numbers 1 112);
  sql_files = map (λ n. revision_name n ++ codes ".sql") (numbers 1 112);
  digest = frozen_migration_package_sha256;
}

abbrev admin_url : Url
admin_url = record {
  drivername = codes "postgresql+psycopg";
  username = some (codes "migrator");
  password = some (codes "secret");
  host = some (codes "db");
  port = some 5432;
  database = some (codes "app");
  query = [];
}

abbrev current_connection : Connection
current_connection = record {
  identity = some (record {
    session_user = codes "migrator";
    current_user = codes "migrator";
    current_database = codes "app";
    address = some (codes "10.0.0.1");
    server_port = some 5432;
  });
  revisions = some (codes "112_5H5" ∷ []);
  extensions = codes "pg_stat_statements" ∷ codes "pgcrypto" ∷ codes "vector" ∷ [];
  has_sentinel = true;
  server_version_num = 180001;
  available = codes "pg_stat_statements" ∷ codes "pgcrypto" ∷ codes "vector" ∷ [];
  shared_preload_libraries = codes "auto_explain, pg_stat_statements";
}

abbrev operator : Process
operator = record {
  environment =
      λ name. if text_eq name (codes "MIGRATION_DATABASE_URL") then some (codes "url") else none;
  make_url = λ raw. some admin_url;
  is_ip_address = λ host. false;
  digit = digit_value;
  migration_package = frozen_package;
  connect = λ url. some current_connection;
  alembic_upgrade = λ url head. true;
  connect_again = λ url. some current_connection;
}

gate_passes : (command_gate operator (codes "112_5H5")).succeeded ≡ true
unfolding command_gate gate_problems migration_url migration_target validate_frozen_baseline
    inspect_migration_package find_baseline_violations read_revisions walk_chain walk_from
    children_of missing_from revision_problem is_blank text_of is_single_host parameters_outside
    text_eq text_in sort_texts is_single
gate_passes = refl

command_gate_example : Gated operator (codes "112_5H5") (command_gate operator (codes "112_5H5"))
command_gate_example = command_gate-Gated operator (codes "112_5H5") gate_passes

abbrev local_migration_url : Url
local_migration_url = record admin_url { host = some (codes "localhost") }

abbrev local_runtime_url : Url
local_runtime_url = record local_migration_url {
  drivername = codes "postgresql+asyncpg";
  username = some (codes "app_api");
  password = some (codes "hunter2");
}

abbrev local_identity : Identity
local_identity = record {
  session_user = codes "migrator";
  current_user = codes "migrator";
  current_database = codes "app";
  address = some (codes "127.0.0.1");
  server_port = some 5432;
}

-- A developer's process: "r" is the runtime URL and "m" the migration URL.
abbrev developer : Process
developer = record operator {
  environment = λ name.
      if text_eq name (codes "ENVIRONMENT")
      then some (codes "local")
      else if text_eq name (codes "DATABASE__URL")
      then some (codes "r")
      else if text_eq name (codes "MIGRATION_DATABASE_URL")
      then some (codes "m")
      else none;
  make_url =
      λ raw. some (if text_eq raw (codes "r") then local_runtime_url else local_migration_url);
  connect = λ url. some (record current_connection { identity = some local_identity });
}

password_is_set :
    (command_set_runtime_password developer).effects
    ≡ connected local_migration_url ∷ altered_role (codes "app_api") (codes "hunter2") ∷ []
unfolding command_set_runtime_password validate_url target migration_url migration_target is_blank
    text_of is_single_host port_in_range parameters_outside query_get text_eq text_in
password_is_set = refl

command_set_runtime_password_example :
    Untouched (command_set_runtime_password developer)
    ⊎ (((command_set_runtime_password developer).succeeded ≡ true)
        × Altered developer (command_set_runtime_password developer))
command_set_runtime_password_example = command_set_runtime_password_local developer
