-- ===== src/Deployment/Passwords.antt =====
-- command_set_runtime_password: the checks before the first connection, the check of the server that
-- was reached, and the one statement that changes a role.
pub mod Altered
use ai_voice_agent.Database.Failures.{text_in}
use ai_voice_agent.Deployment.{
  refuse, migration_url, migration_target, LibpqTarget, Identity, Connection, Process, Run,
  connected, altered_role, runtime_roles, loopback_server_addresses, loopback_hosts, succeed,
  password_environments,
}
use ai_voice_agent.Prelude.{
  Outcome, returned, raised, ℕ, Bool, true, false, not, ◌&&◌, Option, none, some, [], ◌∷◌, ◌==◌,
  if◌then◌else◌,
}
use ai_voice_agent.Settings.{
  is_blank, text_of, validate_url, target, Url, Checked, DatabaseTarget, valid, invalid,
}
use ai_voice_agent.Text.{Text, codes, text_eq}

is_loopback_address : Option Text → Bool
is_loopback_address none = false
is_loopback_address (some address) = text_in address loopback_server_addresses

is_port : Option ℕ → ℕ → Bool
is_port none port = false
is_port (some found) port = found == port

-- Whether the server that was reached is the local one that the target names.
reached_local : LibpqTarget → Identity → Bool
unfolding is_loopback_address is_port
reached_local t identity =
    is_loopback_address identity.address
    && (is_port identity.server_port t.port && text_eq identity.current_database t.dbname)

password_identity : Url → Text → Text → LibpqTarget → Option Identity → Run
unfolding reached_local
password_identity url user password t none = refuse (connected url ∷ [])
password_identity url user password t (some identity) =
    if reached_local t identity
    then succeed (connected url ∷ altered_role user password ∷ [])
    else refuse (connected url ∷ [])

password_connected : Url → Text → Text → LibpqTarget → Option Connection → Run
unfolding password_identity
password_connected url user password t none = refuse (connected url ∷ [])
password_connected url user password t (some connection) =
    password_identity url user password t connection.identity

-- The comparison of the two targets.
same_target : DatabaseTarget → LibpqTarget → Bool
same_target runtime migration =
    text_eq runtime.host migration.host
    && (runtime.port == migration.port && text_eq runtime.database migration.dbname)

has_port : Option ℕ → Bool
has_port none = false
has_port (some port) = true

password_targets : Process → Url → Url → DatabaseTarget → LibpqTarget → Run
unfolding password_connected same_target has_port
password_targets process runtime_url url runtime migration =
    if not (has_port runtime_url.port)
    then refuse []
    else if not (text_in runtime.host loopback_hosts && text_in migration.host loopback_hosts)
    then refuse []
    else if not (same_target runtime migration)
    then refuse []
    else if not (text_in runtime.user runtime_roles)
    then refuse []
    else if is_blank runtime_url.password
    then refuse []
    else password_connected url runtime.user (text_of runtime_url.password) migration
        (process.connect url)

password_migration : Process → Url → DatabaseTarget → Url → Option LibpqTarget → Run
unfolding password_targets
password_migration process runtime_url runtime url none = refuse []
password_migration process runtime_url runtime url (some migration) =
    password_targets process runtime_url url runtime migration

password_url : Process → Url → DatabaseTarget → Option Url → Run
unfolding password_migration
password_url process runtime_url runtime none = refuse []
password_url process runtime_url runtime (some url) =
    password_migration process runtime_url runtime url (migration_target process url)

password_runtime : Process → Url → Outcome DatabaseTarget → Run
unfolding password_url
password_runtime process runtime_url raised = refuse []
password_runtime process runtime_url (returned runtime) =
    password_url process runtime_url runtime (migration_url process)

password_checked : Process → Checked → Run
unfolding password_runtime
password_checked process (invalid problem) = refuse []
password_checked process (valid runtime_url) =
    password_runtime process runtime_url (target runtime_url)

-- command_set_runtime_password
unfoldable pub command_set_runtime_password : Process → Run
unfolding password_checked
command_set_runtime_password process =
    let runtime_raw = process.environment (codes "DATABASE__URL") in
    if not (text_in (text_of (process.environment (codes "ENVIRONMENT"))) password_environments)
    then refuse []
    else if is_blank runtime_raw
    then refuse []
    else password_checked process
        (validate_url process.is_ip_address (process.make_url (text_of runtime_raw)))
