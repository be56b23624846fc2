-- ===== src/Database/Baseline.antt =====
-- db/schema_baseline.py: verify_database_baseline, the check of the connected database at startup.
pub mod Accepted
use ai_voice_agent.Database.Failures.{text_in}
use ai_voice_agent.Prelude.{
  ℕ, Bool, true, false, ◌||◌, Option, none, some, List, [], ◌∷◌, ltb, if◌then◌else◌,
}
use ai_voice_agent.Text.{Text, codes}
use ai_voice_agent.Text.Sorting.{sort_texts, is_single}
-- EXPECTED_SCHEMA_HEAD, REQUIRED_EXTENSIONS, MINIMUM_POSTGRES_VERSION_NUM
use ai_voice_agent.Database.Failures.{text_in}
use ai_voice_agent.Prelude.{
  ℕ, Bool, true, false, ◌||◌, Option, none, some, List, [], ◌∷◌, ltb, if◌then◌else◌,
}
use ai_voice_agent.Text.{Text, codes}
use ai_voice_agent.Text.Sorting.{sort_texts, is_single}

abbrev pub expected_schema_root : Text
expected_schema_root = codes "001_5B"

abbrev pub expected_schema_head : Text
expected_schema_head = codes "112_5H5"

abbrev pub required_extensions : List Text
required_extensions = codes "pg_stat_statements" ∷ codes "pgcrypto" ∷ codes "vector" ∷ []

abbrev pub minimum_postgres_version_num : ℕ
minimum_postgres_version_num = 160000

pub data SchemaRevisionStatus : Type 0 where
  verified_status : SchemaRevisionStatus
  deployment_gated : SchemaRevisionStatus

-- What a query raises: a DatabaseError, one of CONNECTIVITY_ERRORS, or anything else.
pub data QueryError : Type 0 where
  database_error : QueryError
  connectivity_error : QueryError
  unrelated_error : QueryError

pub data Answer (A : Type 0) : Type 0 where
  answer : A → Answer A
  query_fails : QueryError → Answer A

-- The row of pg_roles for current_user.
pub record Role : Type 0 where
  pub rolname : Text
  pub rolsuper : Bool
  pub rolbypassrls : Bool

-- What the server answers to each query of the check.
pub record ServerAnswers : Type 0 where
  pub server_version_num : Answer ℕ
  pub role : Answer Role
  pub installed : Answer (List Text)
  pub can_read_revision : Answer (Option Bool)
  pub version_nums : Answer (List Text)

pub data Reason : Type 0 where
  postgres_version_unsupported : Reason
  runtime_role_overprivileged : Reason
  required_extension_missing : List Text → Reason
  schema_not_migrated : Reason
  schema_revision_mismatch : List Text → Reason
  postgres_unreachable : Reason

-- The report, a DatabaseError with its reason, or an exception that passes unchanged.
pub data BaselineResult : Type 0 where
  accepted : ℕ → Text → SchemaRevisionStatus → BaselineResult
  refused : Reason → BaselineResult
  passed_unchanged : BaselineResult

-- `except DatabaseError: raise` and `except CONNECTIVITY_ERRORS`
on_error : QueryError → BaselineResult
on_error database_error = passed_unchanged
on_error connectivity_error = refused postgres_unreachable
on_error unrelated_error = passed_unchanged

-- `set(REQUIRED_EXTENSIONS) - installed`
unfoldable pub missing_from : List Text → List Text → List Text
missing_from [] installed = []
missing_from (extension ∷ extensions) installed =
    let rest = missing_from extensions installed in
    if text_in extension installed then rest else extension ∷ rest

check_revisions : ℕ → Text → Answer (List Text) → BaselineResult
unfolding on_error
check_revisions version role (query_fails e) = on_error e
check_revisions version role (answer version_nums) =
    let revisions = sort_texts version_nums in
    if is_single revisions expected_schema_head
    then accepted version role verified_status
    else refused (schema_revision_mismatch revisions)

check_readable : ServerAnswers → ℕ → Text → Answer (Option Bool) → BaselineResult
unfolding check_revisions on_error
check_readable server version role (query_fails e) = on_error e
check_readable server version role (answer none) = refused schema_not_migrated
check_readable server version role (answer (some false)) = accepted version role deployment_gated
check_readable server version role (answer (some true)) =
    check_revisions version role server.version_nums

check_missing : ServerAnswers → ℕ → Text → List Text → BaselineResult
unfolding check_readable
check_missing server version role [] = check_readable server version role server.can_read_revision
check_missing server version role (extension ∷ missing) =
    refused (required_extension_missing (extension ∷ missing))

check_installed : ServerAnswers → ℕ → Text → Answer (List Text) → BaselineResult
unfolding check_missing on_error
check_installed server version role (query_fails e) = on_error e
check_installed server version role (answer installed) =
    check_missing server version role (sort_texts (missing_from required_extensions installed))

check_role : ServerAnswers → ℕ → Answer Role → BaselineResult
unfolding check_installed on_error
check_role server version (query_fails e) = on_error e
check_role server version (answer role) =
    if role.rolsuper || role.rolbypassrls
    then refused runtime_role_overprivileged
    else check_installed server version role.rolname server.installed

check_version : ServerAnswers → Answer ℕ → BaselineResult
unfolding check_role on_error
check_version server (query_fails e) = on_error e
check_version server (answer version) =
    if ltb version minimum_postgres_version_num
    then refused postgres_version_unsupported
    else check_role server version server.role

-- What database.transaction() raises itself: when it is entered, when a block that ended normally is
-- left (its commit and the closing), and when one that raised is left (its rollback and the
-- closing), where it takes the place of what was raised.
pub record TransactionEnds : Type 0 where
  pub entering : Option QueryError
  pub committing : Option QueryError
  pub rolling_back : Option QueryError

raised_or : BaselineResult → Option QueryError → BaselineResult
unfolding on_error
raised_or result none = result
raised_or result (some e) = on_error e

-- The block ends with the report, or with an exception.
leave_transaction : TransactionEnds → BaselineResult → BaselineResult
unfolding raised_or
leave_transaction ends (accepted version role status) =
    raised_or (accepted version role status) ends.committing
leave_transaction ends (refused reason) = raised_or (refused reason) ends.rolling_back
leave_transaction ends passed_unchanged = raised_or passed_unchanged ends.rolling_back

enter_transaction : TransactionEnds → ServerAnswers → Option QueryError → BaselineResult
unfolding check_version on_error leave_transaction
enter_transaction ends server none =
    leave_transaction ends (check_version server server.server_version_num)
enter_transaction ends server (some e) = on_error e

-- verify_database_baseline
unfoldable pub verify_database_baseline : TransactionEnds → ServerAnswers → BaselineResult
unfolding enter_transaction
verify_database_baseline ends server = enter_transaction ends server ends.entering
