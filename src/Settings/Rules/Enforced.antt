-- ===== src/Settings/Rules/Enforced.antt =====
-- Which settings _enforce_environment_rules lets through.
use ai_voice_agent.Prelude.{
  Outcome, returned, raised, ◌≡◌, refl, ◌≢◌, Bool, true, false, not, arith, if◌then◌else◌,
}
use ai_voice_agent.Settings.{
  query_get, ssl_is_one_of, target, DatabaseTarget, test_database_name_prefix, database_tls_modes,
}
use ai_voice_agent.Settings.Rules.{
  uses_tls, is_production_like, enforce_environment_rules, Environment, AppSettings, local, test,
  staging, production, debug_level, json_format, is_json, production_rules, is_test, test_result,
  is_debug,
}
use ai_voice_agent.Text.{codes, starts_with}

pub ProductionRules : AppSettings → Type 0
ProductionRules settings =
    (ssl_is_one_of database_tls_modes (query_get (codes "ssl") settings.database_url.query) ≡ true)
    × (uses_tls settings.redis_parts ≡ true)
    × (settings.log_format ≡ json_format)
    × (settings.log_level ≢ debug_level)

-- What the rules ask of each environment.
pub Rules : AppSettings → Environment → Type 0
Rules settings local = Unit {0}
Rules settings test =
    (t : DatabaseTarget) × (target settings.database_url ≡ returned t)
    × (starts_with test_database_name_prefix t.database ≡ true)
Rules settings staging = ProductionRules settings
Rules settings production = ProductionRules settings

rest_rules : (settings : AppSettings) → production_rules settings ≡ true → ProductionRules settings
unfolding production_rules ProductionRules is_json is_debug
rest_rules settings h = (ground arith, ground arith, ground arith, λ debug. ground arith)

named_database :
    (settings : AppSettings) (found : Outcome DatabaseTarget)
    → target settings.database_url ≡ found
    → test_result found ≡ true
    → Rules settings test
unfolding Rules test_result
named_database settings raised e h = cc
named_database settings (returned t) e h = (t, e, ground arith)

not_refused : (passed : Bool) → (if not passed then false else true) ≡ true → passed ≡ true
not_refused passed h = ground arith

-- Settings that the rules let through never let a test run use a database without the prefix, and
-- never run an environment like production without TLS to both servers, in another log format than
-- JSON, or at debug level.
pub enforced-Rules :
    (settings : AppSettings) (environment : Environment)
    → settings.environment ≡ environment
    → enforce_environment_rules settings ≡ true
    → Rules settings environment
unfolding enforce_environment_rules Rules is_production_like is_test
enforced-Rules settings local e h = tt
enforced-Rules settings test e h =
    named_database settings (target settings.database_url) refl
      (not_refused (test_result (target settings.database_url)) (rw e at h))
enforced-Rules settings staging e h = rest_rules settings (rw e at h)
enforced-Rules settings production e h = rest_rules settings (rw e at h)
