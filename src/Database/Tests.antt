-- ===== src/Database/Tests.antt =====
-- Failures, transactions and servers of one kind each, and the theorems at them.
use ai_voice_agent.Database.Baseline.{
  missing_from, verify_database_baseline, ServerAnswers, TransactionEnds, verified_status,
  connectivity_error, answer, postgres_unreachable, accepted, refused,
}
use ai_voice_agent.Database.Baseline.Accepted.{Meets, accepted_iff}
use ai_voice_agent.Database.Causes.{
  Linked, Distinct, causes_lem, Reaches, is_database_unavailable_iff,
  is_acquisition_unavailable_iff,
}
use ai_voice_agent.Database.Failures.{
  Heap, text_in, wraps, causes_from, causes, is_network_failure, is_outage, is_acquisition_refusal,
  scan, is_database_unavailable, is_connection_acquisition_unavailable, Failure,
}
use ai_voice_agent.Database.Sessions.{
  is_success, transaction, Exits, Database, succeeds, raises, connection_acquisition,
  transaction_phase, left_with, left_unreachable, left_disposed,
}
use ai_voice_agent.Database.Sessions.Scopes.{disposals, disposals_refuse}
use ai_voice_agent.Prelude.{
  ℕ, zero, suc, ◌≤◌, ◌≡◌, refl, ◌↔◌, ◌⊎◌, true, false, none, some, List, [], ◌∷◌, length, any,
}
use ai_voice_agent.Text.{codes, starts_with, text_eq}
use ai_voice_agent.Text.Sorting.{sort_texts, is_single}

-- No class, no attribute: an Exception of no further kind.
abbrev plain : Failure
plain = record {
  is_exception = true;
  is_database_error = false;
  is_dbapi = false;
  connection_invalidated = false;
  orig = none;
  cause = none;
  is_pool_timeout = false;
  is_connection_missing = false;
  sqlstate = none;
  is_os_error = false;
  is_connection_or_timeout = false;
  errno = none;
  message = [];
}

-- 0 wraps 1 and 1 wraps 0; 2 is a refusal to connect; the rest is plain.
abbrev failures : Heap
failures zero = record plain { is_dbapi = true; orig = some 1 }
failures (suc zero) = record plain { cause = some 0; sqlstate = some (codes "57P01") }
failures (suc (suc zero)) = record plain { sqlstate = some (codes "55000") }
failures (suc (suc (suc n))) = plain

causes_lem_example :
    (rest : List ℕ) × (causes failures 0 ≡ 0 ∷ rest)
    × (length (causes failures 0) ≤ 8)
    × Distinct (causes failures 0)
    × Linked failures 0 rest
causes_lem_example = causes_lem failures 0

is_database_unavailable_example :
    is_database_unavailable failures 0 ≡ true ↔ Reaches failures is_outage 0
is_database_unavailable_example = is_database_unavailable_iff failures 0

is_acquisition_unavailable_example :
    is_connection_acquisition_unavailable failures 2 ≡ true
    ↔ (Reaches failures is_outage 2 ⊎ Reaches failures is_acquisition_refusal 2)
is_acquisition_unavailable_example = is_acquisition_unavailable_iff failures 2

abbrev opened : Database
opened = record { disposing = false; disposed = false }

-- Commit, rollback and closing succeed; or the rollback raises 3.
abbrev good_exits : Exits
good_exits = record { commit = succeeds; rollback = succeeds; close = succeeds }

abbrev failed_rollback : Exits
failed_rollback = record good_exits { rollback = raises 3 }

outage_leaves :
    (transaction failures opened succeeds (succeeds ∷ []) (raises 0) good_exits).left
    ≡ left_unreachable transaction_phase 0
unfolding transaction is_database_unavailable causes causes_from wraps scan is_outage text_in
    starts_with text_eq
outage_leaves = refl

-- The rollback's exception takes the place of the outage.
rollback_leaves :
    (transaction failures opened succeeds [] (raises 0) failed_rollback).left ≡ left_with 3
unfolding transaction is_database_unavailable causes causes_from wraps scan is_outage text_in
    starts_with text_eq
rollback_leaves = refl

refusal_leaves :
    (transaction failures opened (raises 2) [] succeeds good_exits).left
    ≡ left_unreachable connection_acquisition 2
unfolding transaction is_database_unavailable is_connection_acquisition_unavailable causes
    causes_from wraps scan is_outage is_acquisition_refusal is_network_failure text_in starts_with
    text_eq
refusal_leaves = refl

disposals_example :
    ((transaction failures
        (disposals (raises 3 ∷ succeeds ∷ []) opened)
        succeeds
        []
        succeeds
        good_exits).left
      ≡ left_disposed)
    × ((disposals (raises 3 ∷ succeeds ∷ []) opened).disposed
        ≡ any is_success (raises 3 ∷ succeeds ∷ []))
disposals_example =
    disposals_refuse (raises 3) (succeeds ∷ []) failures succeeds [] succeeds good_exits

-- A server that is at the head, and whose role may read that.
abbrev current_server : ServerAnswers
current_server = record {
  server_version_num = answer 180001;
  role = answer (record { rolname = codes "app_api"; rolsuper = false; rolbypassrls = false });
  installed = answer (codes "vector" ∷ codes "pgcrypto" ∷ codes "pg_stat_statements" ∷ []);
  can_read_revision = answer (some true);
  version_nums = answer (codes "112_5H5" ∷ []);
}

-- Nothing fails when the transaction is entered and left; or its commit does.
abbrev good_ends : TransactionEnds
good_ends = record { entering = none; committing = none; rolling_back = none }

abbrev failed_commit : TransactionEnds
failed_commit = record good_ends { committing = some connectivity_error }

accepted_example :
    verify_database_baseline good_ends current_server
      ≡ accepted 180001 (codes "app_api") verified_status
    ↔ ((good_ends.entering ≡ none)
        × (good_ends.committing ≡ none)
        × Meets current_server 180001 (codes "app_api") verified_status)
accepted_example = accepted_iff good_ends current_server 180001 (codes "app_api") verified_status

server_accepted :
    verify_database_baseline good_ends current_server
    ≡ accepted 180001 (codes "app_api") verified_status
unfolding verify_database_baseline missing_from sort_texts text_in text_eq is_single
server_accepted = refl

commit_refused :
    verify_database_baseline failed_commit current_server ≡ refused postgres_unreachable
unfolding verify_database_baseline missing_from sort_texts text_in text_eq is_single
commit_refused = refl
