-- ===== src/Settings.antt =====
-- config/base_settings.py: the validation of DATABASE__URL and the target that the runtime
-- connects with. make_url, urlsplit and ip_address are outside of this code: their results are
-- arguments.
pub mod Validated
pub mod Rules
mod Tests
use ai_voice_agent.Database.Failures.{text_in}
use ai_voice_agent.Prelude.{
  Outcome, returned, raised, ℕ, zero, suc, Bool, true, false, not, ◌&&◌, ◌||◌, Option, none, some,
  List, [], ◌∷◌, ltb, leb, ◌==◌, if◌then◌else◌, length, all,
}
use ai_voice_agent.Text.{Text, codes, one_of, text_eq}

-- sqlalchemy's URL; a query parameter that is given several times has no single value.
pub data QueryValue : Type 0 where
  one_value : Text → QueryValue
  several_values : QueryValue

pub record Url : Type 0 where
  pub drivername : Text
  pub username : Option Text
  pub password : Option Text
  pub host : Option Text
  pub port : Option ℕ
  pub database : Option Text
  pub query : List (Text × QueryValue)

abbrev database_driver : Text
database_driver = codes "postgresql+asyncpg"

abbrev test_database_name_prefix : Text
test_database_name_prefix = codes "voice_agent_test_"

abbrev forbidden_runtime_database_users : List Text
forbidden_runtime_database_users =
    codes "postgres" ∷ codes "app_migration" ∷ codes "app_platform_admin" ∷ []

abbrev database_tls_modes : List Text
database_tls_modes = codes "require" ∷ codes "verify-ca" ∷ codes "verify-full" ∷ []

abbrev database_ssl_values : List Text
database_ssl_values = codes "disable" ∷ codes "allow" ∷ codes "prefer" ∷ database_tls_modes

abbrev permitted_query_parameters : List Text
permitted_query_parameters = codes "ssl" ∷ []

abbrev default_postgres_port : ℕ
default_postgres_port = 5432

abbrev host_characters : Text
host_characters = codes "abcdefghijklmnopqrstuvwxyzABCDEFGHIJKLMNOPQRSTUVWXYZ0123456789_"

-- text.split(".")
split_dots : Text → List Text
split_dots [] = [] ∷ []
split_dots (c ∷ text) =
    let rest = split_dots text in
    if c == b'.'
    then [] ∷ rest
    else elim rest as (λ _. List Text) [ [] ↦ (c ∷ []) ∷ [] | part ∷ parts ↦ (c ∷ part) ∷ parts ]

-- The text is given from its second character on.
ends_well : ℕ → Text → Bool
ends_well c [] = one_of host_characters c
ends_well c (d ∷ text) =
    let rest = ends_well d text in (one_of host_characters c || c == b'-') && rest

-- A label of a host name: 1 to 63 characters, with no "-" at either end.
host_label : Text → Bool
unfolding ends_well
host_label [] = false
host_label (c ∷ text) = (one_of host_characters c && ends_well c text) && leb (length (c ∷ text)) 63

-- _HOSTNAME.fullmatch
is_hostname : Text → Bool
unfolding host_label split_dots
is_hostname host =
    (leb 1 (length host) && leb (length host) 253) && all host_label (split_dots host)

-- is_single_host
unfoldable pub is_single_host : (Text → Bool) → Text → Bool
unfolding is_hostname
is_single_host is_ip_address host = if is_ip_address host then true else is_hostname host

-- `not text` for a str | None
unfoldable pub is_blank : Option Text → Bool
is_blank none = true
is_blank (some []) = true
is_blank (some (c ∷ text)) = false

unfoldable pub text_of : Option Text → Text
text_of none = []
text_of (some text) = text

unfoldable pub port_in_range : Option ℕ → Bool
port_in_range none = true
port_in_range (some port) = leb 1 port && leb port 65535

-- url.query.get(name)
unfoldable pub query_get : Text → List (Text × QueryValue) → Option QueryValue
query_get name [] = none
query_get name ((key, value) ∷ query) =
    let rest = query_get name query in if text_eq name key then some value else rest

-- `set(query) - permitted`
unfoldable pub parameters_outside : List Text → List (Text × QueryValue) → List Text
parameters_outside permitted [] = []
parameters_outside permitted ((key, value) ∷ query) =
    let rest = parameters_outside permitted query in
    if text_in key permitted then rest else key ∷ rest

pub ssl_is_one_of : List Text → Option QueryValue → Bool
ssl_is_one_of values none = false
ssl_is_one_of values (some several_values) = false
ssl_is_one_of values (some (one_value value)) = text_in value values

is_given : Option QueryValue → Bool
is_given none = false
is_given (some value) = true

pub data UrlProblem : Type 0 where
  not_a_url : UrlProblem
  wrong_driver : UrlProblem
  incomplete : UrlProblem
  several_hosts : UrlProblem
  port_out_of_range : UrlProblem
  other_parameters : UrlProblem
  wrong_ssl : UrlProblem
  forbidden_user : UrlProblem

pub data Checked : Type 0 where
  valid : Url → Checked
  invalid : UrlProblem → Checked

module _ (is_ip_address : Text → Bool) where
  check_url : Url → Checked
  unfolding ssl_is_one_of is_given
  check_url url =
      if not (text_eq url.drivername database_driver)
      then invalid wrong_driver
      else if is_blank url.host || (is_blank url.database || is_blank url.username)
      then invalid incomplete
      else if not (is_single_host is_ip_address (text_of url.host))
      then invalid several_hosts
      else if not (port_in_range url.port)
      then invalid port_out_of_range
      else if ltb 0 (length (parameters_outside permitted_query_parameters url.query))
      then invalid other_parameters
      else if is_given (query_get (codes "ssl") url.query)
          && not (ssl_is_one_of database_ssl_values (query_get (codes "ssl") url.query))
      then invalid wrong_ssl
      else if text_in (text_of url.username) forbidden_runtime_database_users
      then invalid forbidden_user
      else valid url

  -- DatabaseSettings._validate_url; `parsed` is what make_url returns, `none` when it raises.
  unfoldable pub validate_url : Option Url → Checked
  unfolding check_url
  validate_url none = invalid not_a_url
  validate_url (some url) = check_url url

pub record DatabaseTarget : Type 0 where
  pub host : Text
  pub port : ℕ
  pub database : Text
  pub user : Text

-- `port or DEFAULT_POSTGRES_PORT`: 0 counts as absent.
port_or_default : Option ℕ → ℕ
port_or_default none = default_postgres_port
port_or_default (some zero) = default_postgres_port
port_or_default (some (suc port)) = suc port

-- DatabaseSettings.target
unfoldable pub target : Url → Outcome DatabaseTarget
unfolding port_or_default
target url = elim url.host as (λ _. Outcome DatabaseTarget) [
  | none ↦ raised
  | some host ↦ elim url.database as (λ _. Outcome DatabaseTarget) [
    | none ↦ raised
    | some database ↦ elim url.username as (λ _. Outcome DatabaseTarget) [
      | none ↦ raised
      | some user ↦ returned (record {
        host = host;
        port = port_or_default url.port;
        database = database;
        user = user;
      })
    ]
  ]
]
