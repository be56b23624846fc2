-- ===== src/Settings/Rules.antt =====
-- config/base_settings.py: the URL of Redis, and the rules between settings.
pub mod Enforced
use ai_voice_agent.Database.Failures.{text_in}
use ai_voice_agent.Prelude.{
  Outcome, returned, raised, Bool, true, false, not, ◌&&◌, Option, none, some, [], ◌∷◌, ◌==◌,
  if◌then◌else◌, length,
}
use ai_voice_agent.Settings.{
  is_blank, query_get, ssl_is_one_of, target, Url, DatabaseTarget, database_tls_modes,
  test_database_name_prefix,
}
use ai_voice_agent.Text.{Text, codes, starts_with, text_eq}

-- urllib.parse.urlsplit
pub record UrlParts : Type 0 where
  pub scheme : Text
  pub hostname : Option Text
  pub query : Text
  pub fragment : Text

-- RedisSettings._validate_url; `none` when urlsplit or its port raises ValueError.
unfoldable pub validate_redis_url : Option UrlParts → Bool
validate_redis_url none = false
validate_redis_url (some parts) =
    text_in parts.scheme (codes "redis" ∷ codes "rediss" ∷ [])
    && (not (is_blank parts.hostname) && (length parts.query == 0 && length parts.fragment == 0))

-- RedisSettings.uses_tls
unfoldable pub uses_tls : UrlParts → Bool
uses_tls parts = text_eq parts.scheme (codes "rediss")

pub data Environment : Type 0 where
  local : Environment
  test : Environment
  staging : Environment
  production : Environment

pub data LogLevel : Type 0 where
  debug_level : LogLevel
  info_level : LogLevel
  warning_level : LogLevel
  error_level : LogLevel
  critical_level : LogLevel

pub data LogFormat : Type 0 where
  json_format : LogFormat
  console_format : LogFormat

pub record AppSettings : Type 0 where
  pub environment : Environment
  pub database_url : Url
  pub redis_parts : UrlParts
  pub log_level : LogLevel
  pub log_format : LogFormat

unfoldable pub is_production_like : Environment → Bool
is_production_like local = false
is_production_like test = false
is_production_like staging = true
is_production_like production = true

is_test : Environment → Bool
is_test local = false
is_test test = true
is_test staging = false
is_test production = false

is_debug : LogLevel → Bool
is_debug debug_level = true
is_debug info_level = false
is_debug warning_level = false
is_debug error_level = false
is_debug critical_level = false

is_json : LogFormat → Bool
is_json json_format = true
is_json console_format = false

-- The branch for environments that are like production.
production_rules : AppSettings → Bool
unfolding ssl_is_one_of is_json is_debug
production_rules settings =
    if not (ssl_is_one_of database_tls_modes (query_get (codes "ssl") settings.database_url.query))
    then false
    else if not (uses_tls settings.redis_parts)
    then false
    else if not (is_json settings.log_format)
    then false
    else if is_debug settings.log_level
    then false
    else true

-- The branch for ENVIRONMENT=test, where target() may raise ValueError too.
test_result : Outcome DatabaseTarget → Bool
test_result raised = false
test_result (returned t) = starts_with test_database_name_prefix t.database

-- BaseAppSettings._enforce_environment_rules: whether it returns.
unfoldable pub enforce_environment_rules : AppSettings → Bool
unfolding production_rules is_test test_result
enforce_environment_rules settings =
    if is_test settings.environment && not (test_result (target settings.database_url))
    then false
    else if is_production_like settings.environment
    then production_rules settings
    else true
