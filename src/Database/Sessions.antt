-- ===== src/Database/Sessions.antt =====
-- db/session.py: Database.transaction, ping and dispose; and cache/redis_client.py, RedisClient.
pub mod Scopes
use ai_voice_agent.Database.Failures.{
  Heap, is_database_unavailable, is_connection_acquisition_unavailable,
}
use ai_voice_agent.Prelude.{
  ℕ, Bool, true, false, not, ◌&&◌, ◌||◌, Option, none, some, List, [], ◌∷◌, ltb, ◌==◌,
  if◌then◌else◌,
}

-- How an awaited call ends: it returns, or it raises the exception with this id.
pub data Await : Type 0 where
  succeeds : Await
  raises : ℕ → Await

abbrev pub is_success : Await → Bool
is_success succeeds = true
is_success (raises e) = false

-- How the two context managers of a transaction are left: the commit of session.begin() after a
-- block that ended normally, or its rollback after one that raised, and then the closing of the
-- session.
pub record Exits : Type 0 where
  pub commit : Await
  pub rollback : Await
  pub close : Await

pub data Phase : Type 0 where
  connection_acquisition : Phase
  transaction_phase : Phase

-- How a transaction block is left: normally, with the very exception that was raised, with the
-- DatabaseError of _unreachable, or refused because the database is being disposed of.
pub data Left : Type 0 where
  left_normally : Left
  left_with : ℕ → Left
  left_unreachable : Phase → ℕ → Left
  left_disposed : Left

-- Whether the body ran, the commit succeeded, and the rollback was run.
pub record Scope : Type 0 where
  pub left : Left
  pub body_ran : Bool
  pub committed : Bool
  pub rolled_back : Bool

pub record Database : Type 0 where
  pub disposing : Bool
  pub disposed : Bool

-- What is raised inside the block, before the outer handler.
pub data Inside : Type 0 where
  exception : ℕ → Inside
  unreachable : Phase → ℕ → Inside

-- The outer `except Exception`: a DatabaseError, made here or before, is raised as it is.
outer : Heap → Inside → Left
outer heap (unreachable phase e) = left_unreachable phase e
outer heap (exception e) =
    if not (heap e).is_exception
    then left_with e
    else if (heap e).is_database_error || not (is_database_unavailable heap e)
    then left_with e
    else left_unreachable transaction_phase e

-- What an exit raises takes the place of what was raised before.
after_exit : Await → Option Inside → Option Inside
after_exit succeeds inside = inside
after_exit (raises e) inside = some (exception e)

left_of : Heap → Option Inside → Left
unfolding outer
left_of heap none = left_normally
left_of heap (some inside) = outer heap inside

-- An exception inside the block rolls it back.
rolled : Heap → Exits → Bool → Inside → Scope
unfolding left_of after_exit
rolled heap exits body_ran inside = record {
  left = left_of heap (after_exit exits.close (after_exit exits.rollback (some inside)));
  body_ran = body_ran;
  committed = false;
  rolled_back = true;
}

-- The block ends normally: it commits, and what the commit raises passes the same handler.
commit_scope : Heap → Exits → Scope
unfolding left_of after_exit
commit_scope heap exits = record {
  left = left_of heap (after_exit exits.close (after_exit exits.commit none));
  body_ran = true;
  committed = is_success exits.commit;
  rolled_back = false;
}

body_scope : Heap → Exits → Await → Scope
unfolding commit_scope rolled
body_scope heap exits succeeds = commit_scope heap exits
body_scope heap exits (raises e) = rolled heap exits true (exception e)

initialize_scope : Heap → Exits → List Await → Await → Scope
unfolding body_scope rolled
initialize_scope heap exits [] body = body_scope heap exits body
initialize_scope heap exits (succeeds ∷ initializers) body =
    initialize_scope heap exits initializers body
initialize_scope heap exits (raises e ∷ initializers) body = rolled heap exits false (exception e)

-- `except Exception` around session.connection()
acquire_scope : Heap → Exits → Await → List Await → Await → Scope
unfolding initialize_scope rolled
acquire_scope heap exits succeeds initializers body = initialize_scope heap exits initializers body
acquire_scope heap exits (raises e) initializers body = rolled heap exits false (
    if (heap e).is_exception && is_connection_acquisition_unavailable heap e
    then unreachable connection_acquisition e
    else exception e)

-- Database.transaction
unfoldable pub transaction : Heap → Database → Await → List Await → Await → Exits → Scope
unfolding acquire_scope
transaction heap database acquire initializers body exits =
    if database.disposing
    then record { left = left_disposed; body_ran = false; committed = false; rolled_back = false }
    else acquire_scope heap exits acquire initializers body

-- Database.dispose: how the engine's dispose ends is only asked when it is called.
unfoldable pub dispose : Await → Database → Database
dispose how database = if database.disposed then database else elim how as (λ _. Database) [
  | succeeds ↦ record { disposing = true; disposed = true }
  | raises e ↦ record database { disposing = true }
]

-- RedisClient
pub record RedisClient : Type 0 where
  pub closing : Bool
  pub closed : Bool

-- redis-py's reply to PING, or the exception of the call; `caught_error` is a RedisError, OSError or
-- TimeoutError.
pub data Reply : Type 0 where
  pong : Reply
  other_reply : Reply
  caught_error : Reply
  uncaught_error : Reply

pub data CacheResult : Type 0 where
  healthy : CacheResult
  refused_closed : CacheResult
  redis_unreachable : CacheResult
  unexpected_reply : CacheResult
  info_unavailable : CacheResult
  version_unsupported : CacheResult
  passed_on : CacheResult

ping_reply : Reply → CacheResult
ping_reply pong = healthy
ping_reply other_reply = unexpected_reply
ping_reply caught_error = redis_unreachable
ping_reply uncaught_error = passed_on

-- How the query of Database.ping ends.
pub data QueryReply : Type 0 where
  query_ran : QueryReply
  query_unreachable : QueryReply
  query_raised : QueryReply

pub data DatabasePing : Type 0 where
  database_reachable : DatabasePing
  ping_refused : DatabasePing
  database_unreachable : DatabasePing
  error_passed_on : DatabasePing

ping_query : QueryReply → DatabasePing
ping_query query_ran = database_reachable
ping_query query_unreachable = database_unreachable
ping_query query_raised = error_passed_on

-- Database.ping
unfoldable pub database_ping : QueryReply → Database → DatabasePing
unfolding ping_query
database_ping reply db = if db.disposing then ping_refused else ping_query reply

-- Database.checked_out_connections, of what the pool says if it is a QueuePool.
unfoldable pub checked_out_connections : Option ℕ → ℕ
checked_out_connections none = 0
checked_out_connections (some in_use) = in_use

-- RedisClient.ping
unfoldable pub redis_ping : Reply → RedisClient → CacheResult
unfolding ping_reply
redis_ping reply client = if client.closing then refused_closed else ping_reply reply

-- The answer to INFO: the version as _parse_major_minor reads it, or an exception.
pub data Info : Type 0 where
  version_read : ℕ → ℕ → Info
  info_error : Info
  info_other_error : Info

-- Tuple order against MINIMUM_REDIS_VERSION, (7, 2).
unfoldable pub older_than_minimum : ℕ → ℕ → Bool
older_than_minimum major minor = ltb major 7 || (major == 7 && ltb minor 2)

info_result : Info → CacheResult
unfolding older_than_minimum
info_result (version_read major minor) =
    if older_than_minimum major minor then version_unsupported else healthy
info_result info_error = info_unavailable
info_result info_other_error = passed_on

after_ping : CacheResult → Info → CacheResult
unfolding info_result older_than_minimum
after_ping healthy info = info_result info
after_ping refused_closed info = refused_closed
after_ping redis_unreachable info = redis_unreachable
after_ping unexpected_reply info = unexpected_reply
after_ping info_unavailable info = info_unavailable
after_ping version_unsupported info = version_unsupported
after_ping passed_on info = passed_on

-- RedisClient.verify_baseline
unfoldable pub verify_redis : Reply → Info → RedisClient → CacheResult
unfolding after_ping info_result redis_ping ping_reply older_than_minimum
verify_redis reply info client = after_ping (redis_ping reply client) info

-- RedisClient.close
unfoldable pub close : Await → RedisClient → RedisClient
close how client = if client.closed then client else elim how as (λ _. RedisClient) [
  | succeeds ↦ record { closing = true; closed = true }
  | raises e ↦ record client { closing = true }
]
