-- ===== src/Lib.antt =====
-- A verification library for the backend of the AI voice agent platform: the redaction of what it logs,
-- the lifecycle of its infrastructure, its database sessions and baseline, its settings, and the
-- deployment commands of its database.
--
-- Parts and files. Paths are from the root of the repository, below backend/ and there below
-- voice_agent/platform/ where no other folder is named.
--   Redaction         infrastructure/observability/redaction.py. Spans is _replace_spans; Keys is the
--                     classification of key names after Decoding; Quotes, Values and Pairs are
--                     the scanner of key/value pairs, from _closing_quote to _scrub_pairs; Urls is
--                     _userinfo_end, _signed_url_end, _scrub_signed_references and _scrub_urls;
--                     Tokens is _scrub_tokens and _scrub_bare_authorities. Budgets is _Budget;
--                     Objects is what the sanitiser asks of Python's objects, which lie in a heap;
--                     Json is _scrub_json_fragments, Layers _scrub with its layers and views,
--                     Described _emit and _describe_exception, Assembled _assembled_text,
--                     Entries and Sequences the two kinds of container, Sanitizer _sanitize with
--                     the recursion, Identifiers and Events the functions that the logging pipeline
--                     calls, Frames and Traces the tracebacks and stacks. The modules called
--                     Agreement hold one lemma per function: with sanitisers below that agree the
--                     function agrees, and the budget only shrinks.
--   Logging           infrastructure/observability/logging.py: _admitted, over dicts as lists of entries.
--   Runtime           infrastructure/runtime.py, InfrastructureRuntime. Each function is a stretch
--                     of code between two awaits; Steps is the relation of all interleavings.
--   Database          infrastructure/db/errors.py (Failures), db/session.py and
--                     cache/redis_client.py (Sessions), db/schema_baseline.py (Baseline).
--   Settings          config/base_settings.py: URL validation, the target, the rules between settings.
--   Migrations        infrastructure/db/migration_graph.py.
--   Deployment        scripts/db_migrate.py: the commands graph, check, upgrade, gate and
--                     set-runtime-password, each with its effects in order and its result.
--   Api               backend/voice_agent/apps/api/: error_catalog.py, middleware/error_handler.py and
--                     middleware/cors.py; Middleware has middleware/correlation_id.py and health.py.
--   Text, Prelude     strings as lists of code points, sorting, loops and exceptions.
--
-- How they interact: the runtime owns a Database and a RedisClient and verifies both baselines;
-- transactions classify failures with db/errors.py; the gate and the upgrade rest on the migration
-- graph, and share the expected head and the extensions with the baseline; the commands share the
-- host and query rules with the settings.
--
-- A string is the list of its code points, a number is a natural number, and -1 or None is `none`. A
-- Python exception is `raised`, or a constructor where callers tell exceptions apart; the text of
-- messages is left out. A while loop is `loop` on fuel, more than the length of the text it reads,
-- and the theorems on its end say that it stops by its own test with fuel left. The
-- recursion of the sanitiser is on levels: each call of the level below takes one of the 2,048 nodes
-- of an event or finds the budget exhausted, so the 2,049 levels that every event is given
-- (event_levels) are never used up. causes_from needs no
-- fuel, as the code itself limits the chain. walk_from has as much fuel as there are revisions and
-- one more; its result `none` stands for a walk that goes on for ever, as it does when a repeated
-- revision id closes a circle.
--
-- Parameters, for code that is not of this repository: unquote, html.unescape, NFKC and the character
-- classes of `re` (Redaction.Library), Python's objects, the JSON decoder and encoder, and repr (Redaction.Objects.World),
-- str.isprintable, headers and the CORS decision of
-- Starlette (Api.Framework), make_url, urlsplit, ip_address, the environment, how the awaited
-- calls of SQLAlchemy end (commit, rollback and closing among them), the answers of servers, and
-- the digest of the migration package.
--
-- Not modelled: how Decimal, dates, bytes and floats are rendered (their renderers' answers are
-- part of the objects), Python's limit on recursion, structured logging but for _admitted, create_app and
-- the settings of the API, engine construction, and logging calls everywhere.
pub mod Prelude
pub mod Text
pub mod Redaction
pub mod Runtime
pub mod Database
pub mod Settings
pub mod Migrations
pub mod Deployment
pub mod Api
pub mod Logging
