-- ===== src/Settings/Tests.antt =====
-- A URL and settings of a test run, and the theorems at them.
use ai_voice_agent.Database.Failures.{text_in}
use ai_voice_agent.Prelude.{◌≡◌, refl, Bool, true, false, none, some, []}
use ai_voice_agent.Settings.{
  is_single_host, is_blank, text_of, port_in_range, query_get, parameters_outside, validate_url,
  target, Url, DatabaseTarget, valid,
}
use ai_voice_agent.Settings.Rules.{
  is_production_like, enforce_environment_rules, AppSettings, test, info_level, console_format,
}
use ai_voice_agent.Settings.Rules.Enforced.{Rules, enforced-Rules}
use ai_voice_agent.Settings.Validated.{Sound, validated_target}
use ai_voice_agent.Text.{Text, codes, starts_with, text_eq}

abbrev no_address : Text → Bool
no_address host = false

abbrev test_url : Url
test_url = record {
  drivername = codes "postgresql+asyncpg";
  username = some (codes "app_api");
  password = some (codes "secret");
  host = some (codes "db-1.internal");
  port = none;
  database = some (codes "voice_agent_test_1");
  query = [];
}

test_url-valid : validate_url no_address (some test_url) ≡ valid test_url
unfolding validate_url is_single_host is_blank text_of port_in_range parameters_outside query_get
    text_in text_eq
test_url-valid = refl

validated_target_example :
    (t : DatabaseTarget) × (test_url ≡ test_url) × Sound no_address test_url t
validated_target_example = validated_target no_address test_url test_url test_url-valid

abbrev test_settings : AppSettings
test_settings = record {
  environment = test;
  database_url = test_url;
  redis_parts = record {
    scheme = codes "redis";
    hostname = some (codes "localhost");
    query = [];
    fragment = [];
  };
  log_level = info_level;
  log_format = console_format;
}

test_settings-enforced : enforce_environment_rules test_settings ≡ true
unfolding enforce_environment_rules target is_production_like starts_with
test_settings-enforced = refl

enforced-Rules_example : Rules test_settings test
enforced-Rules_example = enforced-Rules test_settings test refl test_settings-enforced
