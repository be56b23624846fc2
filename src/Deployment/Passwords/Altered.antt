-- ===== src/Deployment/Passwords/Altered.antt =====
-- Lemmas on command_set_runtime_password.
use ai_voice_agent.Database.Failures.{text_in}
use ai_voice_agent.Deployment.{
  refuse, migration_url, migration_target, LibpqTarget, Identity, Connection, Process, Run,
  connected, altered_role, password_environments, runtime_roles, loopback_hosts,
}
use ai_voice_agent.Deployment.Passwords.{
  command_set_runtime_password, has_port, same_target, password_migration, password_targets,
  password_identity, password_connected, password_url, password_runtime, password_checked,
  reached_local,
}
use ai_voice_agent.Prelude.{
  Outcome, returned, raised, ◌≡◌, refl, ◌⊎◌, inl, inr, Bool, true, false, ◌&&◌, Option, none, some,
  [], ◌∷◌, arith, Bool-cases,
}
use ai_voice_agent.Settings.{
  is_blank, text_of, validate_url, target, Url, Checked, DatabaseTarget, valid, invalid,
}
use ai_voice_agent.Text.{codes}

-- The runtime URL: the validated URL of DATABASE__URL, its port and password given, with its target.
pub RuntimeUrl : Process → Url → DatabaseTarget → Type 0
RuntimeUrl process runtime_url runtime =
    (validate_url process.is_ip_address
        (process.make_url (text_of (process.environment (codes "DATABASE__URL"))))
      ≡ valid runtime_url)
    × (target runtime_url ≡ returned runtime)
    × (has_port runtime_url.port ≡ true)
    × (is_blank runtime_url.password ≡ false)

-- The targets of both URLs: a runtime role on a loopback host, and the same database.
pub LocalTargets : Process → DatabaseTarget → Url → LibpqTarget → Type 0
LocalTargets process runtime url migration =
    (migration_url process ≡ some url)
    × (migration_target process url ≡ some migration)
    × (text_in runtime.user runtime_roles ≡ true)
    × (text_in runtime.host loopback_hosts ≡ true)
    × (text_in migration.host loopback_hosts ≡ true)
    × (same_target runtime migration ≡ true)

-- The server that a connection to the URL reaches says that it is the local one of the target.
pub Reached : Process → Url → LibpqTarget → Type 0
Reached process url migration =
    (connection : Connection) × (identity : Identity) × (process.connect url ≡ some connection)
    × (connection.identity ≡ some identity)
    × (reached_local migration identity ≡ true)

-- The role that was changed, and what had been checked before: the environment, both targets, and
-- the server that was reached.
pub Altered : Process → Run → Type 0
Altered process run =
    (runtime_url : Url) × (runtime : DatabaseTarget) × (url : Url) × (migration : LibpqTarget)
    × (text_in (text_of (process.environment (codes "ENVIRONMENT"))) password_environments ≡ true)
    × RuntimeUrl process runtime_url runtime
    × LocalTargets process runtime url migration
    × Reached process url migration
    × (run.effects ≡ connected url ∷ altered_role runtime.user (text_of runtime_url.password) ∷ [])

-- A command that failed made one connection at most, and changed nothing.
pub Untouched : Run → Type 0
Untouched run =
    (run.succeeded ≡ false)
    × ((run.effects ≡ []) ⊎ ((url : Url) × (run.effects ≡ connected url ∷ [])))

Local : Process → Run → Type 0
Local process run = Untouched run ⊎ ((run.succeeded ≡ true) × Altered process run)

both_hold : (a b : Bool) → a && b ≡ true → (a ≡ true) × (b ≡ true)
both_hold a b h = ground arith

module _ (process : Process)
    (local_environment : text_in
        (text_of (process.environment (codes "ENVIRONMENT")))
        password_environments
      ≡ true) where
  nothing : Local process (refuse [])
  unfolding Local Untouched
  nothing = inl (refl, inl refl)

  looked : (url : Url) → Local process (refuse (connected url ∷ []))
  unfolding Local Untouched
  looked url = inl (refl, inr (url, refl))

  -- The two URLs that the checks of the targets have let through.
  module _ (runtime_url : Url) (runtime : DatabaseTarget) (url : Url) (t : LibpqTarget)
      (from_runtime : RuntimeUrl process runtime_url runtime)
      (local_targets : LocalTargets process runtime url t) where
    identity-Local :
        (connection : Connection) (found : Option Identity)
        → process.connect url ≡ some connection
        → connection.identity ≡ found
        → Local process (password_identity url runtime.user (text_of runtime_url.password) t found)
    unfolding password_identity Local Altered Reached
    identity-Local connection none e e' = looked url
    identity-Local connection (some identity) e e' = elim (Bool-cases (reached_local t identity)) [
      | inr elsewhere ↦ rw elsewhere (looked url)
      | inl here ↦ rw here (
          inr (
            refl,
            (
              runtime_url,
              runtime,
              url,
              t,
              local_environment,
              from_runtime,
              local_targets,
              (connection, identity, e, e', here),
              refl,
            ),
          ))
    ]

    connected-Local :
        (found : Option Connection)
        → process.connect url ≡ found
        → Local process (password_connected url runtime.user (text_of runtime_url.password) t found)
    unfolding password_connected
    connected-Local none e = looked url
    connected-Local (some connection) e = identity-Local connection connection.identity e refl

  targets-Local :
      (runtime_url url : Url) (runtime : DatabaseTarget) (migration : LibpqTarget)
      → validate_url process.is_ip_address
          (process.make_url (text_of (process.environment (codes "DATABASE__URL"))))
        ≡ valid runtime_url
      → target runtime_url ≡ returned runtime
      → migration_url process ≡ some url
      → migration_target process url ≡ some migration
      → Local process (password_targets process runtime_url url runtime migration)
  unfolding password_targets RuntimeUrl LocalTargets
  targets-Local runtime_url url runtime migration a b c d =
      elim (Bool-cases (has_port runtime_url.port)) [
        | inr e ↦ rw e nothing
        | inl has ↦
            elim (Bool-cases
              (text_in runtime.host loopback_hosts && text_in migration.host loopback_hosts)) [
                | inr e ↦ rw (has, e) nothing
                | inl hosts ↦ elim (Bool-cases (same_target runtime migration)) [
                  | inr e ↦ rw (has, hosts, e) nothing
                  | inl same ↦ elim (Bool-cases (text_in runtime.user runtime_roles)) [
                    | inr e ↦ rw (has, hosts, same, e) nothing
                    | inl role ↦ elim (Bool-cases (is_blank runtime_url.password)) [
                      | inl e ↦ rw (has, hosts, same, role, e) nothing
                      | inr given ↦
                          let (first, second) =
                            both_hold (text_in runtime.host loopback_hosts)
                              (text_in migration.host loopback_hosts) hosts in
                          rw (has, hosts, same, role, given)
                            (connected-Local runtime_url runtime url migration (a, b, has, given)
                              (c, d, role, first, second, same) (process.connect url) refl)
                    ]
                  ]
                ]
              ]
      ]

  module _ (runtime_url : Url)
      (accepted_url : validate_url process.is_ip_address
          (process.make_url (text_of (process.environment (codes "DATABASE__URL"))))
        ≡ valid runtime_url) where
    migration-Local :
        (runtime : DatabaseTarget) (url : Url) (found : Option LibpqTarget)
        → target runtime_url ≡ returned runtime
        → migration_url process ≡ some url
        → migration_target process url ≡ found
        → Local process (password_migration process runtime_url runtime url found)
    unfolding password_migration
    migration-Local runtime url none b c e = nothing
    migration-Local runtime url (some migration) b c e =
        targets-Local runtime_url url runtime migration accepted_url b c e

    url-Local :
        (runtime : DatabaseTarget) (found : Option Url)
        → target runtime_url ≡ returned runtime
        → migration_url process ≡ found
        → Local process (password_url process runtime_url runtime found)
    unfolding password_url
    url-Local runtime none b e = nothing
    url-Local runtime (some url) b e =
        migration-Local runtime url (migration_target process url) b e refl

    runtime-Local :
        (found : Outcome DatabaseTarget)
        → target runtime_url ≡ found
        → Local process (password_runtime process runtime_url found)
    unfolding password_runtime
    runtime-Local raised e = nothing
    runtime-Local (returned runtime) e = url-Local runtime (migration_url process) e refl

  checked-Local :
      (found : Checked)
      → validate_url process.is_ip_address
          (process.make_url (text_of (process.environment (codes "DATABASE__URL"))))
        ≡ found
      → Local process (password_checked process found)
  unfolding password_checked
  checked-Local (invalid problem) e = nothing
  checked-Local (valid runtime_url) e = runtime-Local runtime_url e (target runtime_url) refl

-- Every run of set-runtime-password either fails after one connection at most, with no role changed,
-- or succeeds with one role changed over its one connection; and then the environment is local or
-- test; the role and its password, not blank, are those of the validated DATABASE__URL, which
-- gives a port; the role is one of the runtime roles; DATABASE__URL and the migration URL, which
-- is the one connected to, name the same port and database on a loopback host; and the server that
-- this connection reached has a loopback address and the port and database of the target.
pub command_set_runtime_password_local :
    (process : Process)
    → Untouched (command_set_runtime_password process)
      ⊎ (((command_set_runtime_password process).succeeded ≡ true)
          × Altered process (command_set_runtime_password process))
unfolding command_set_runtime_password Local Untouched
command_set_runtime_password_local process =
    let raw = process.environment (codes "DATABASE__URL") in
    elim (Bool-cases
      (text_in (text_of (process.environment (codes "ENVIRONMENT"))) password_environments)) [
        | inr e ↦ rw e (inl (refl, inl refl))
        | inl local_environment ↦ elim (Bool-cases (is_blank raw)) [
          | inl e ↦ rw (local_environment, e) (inl (refl, inl refl))
          | inr given ↦
              rw (local_environment, given)
                (checked-Local process local_environment
                  (validate_url process.is_ip_address (process.make_url (text_of raw))) refl)
        ]
      ]
