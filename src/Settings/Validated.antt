-- ===== src/Settings/Validated.antt =====
-- Lemmas on _validate_url and target.
use ai_voice_agent.Database.Failures.{text_in}
use ai_voice_agent.Prelude.{
  returned, ℕ, zero, suc, ◌≤◌, ◌≡◌, refl, Bool, true, false, not, ◌&&◌, ◌||◌, Option, none, some,
  List, [], ◌∷◌, arith, ltb, if◌then◌else◌, length,
}
use ai_voice_agent.Settings.{
  is_single_host, is_blank, text_of, port_in_range, query_get, parameters_outside, ssl_is_one_of,
  validate_url, target, Url, DatabaseTarget, wrong_driver, incomplete, several_hosts,
  port_out_of_range, other_parameters, wrong_ssl, forbidden_user, valid, invalid,
  database_ssl_values, port_or_default, is_given, permitted_query_parameters, database_driver,
  check_url, forbidden_runtime_database_users,
}
use ai_voice_agent.Text.{Text, codes, text_eq}

-- The identity of a validated URL, for use at run time.
pub Sound : (Text → Bool) → Url → DatabaseTarget → Type 0
Sound is_ip_address url t =
    (target url ≡ returned t)
    × (url.host ≡ some t.host)
    × (url.database ≡ some t.database)
    × (url.username ≡ some t.user)
    × (is_single_host is_ip_address t.host ≡ true)
    × (1 ≤ t.port)
    × (t.port ≤ 65535)
    × (text_in t.user forbidden_runtime_database_users ≡ false)
    × (parameters_outside permitted_query_parameters url.query ≡ [])

no_parameters : (names : List Text) → ltb 0 (length names) ≡ false → names ≡ []
no_parameters [] h = refl
no_parameters (name ∷ names) h = absurd (ground arith)

port_lem :
    (port : Option ℕ)
    → port_in_range port ≡ true
    → (1 ≤ port_or_default port) × (port_or_default port ≤ 65535)
unfolding port_in_range port_or_default
port_lem none h = (omega arith, omega arith)
port_lem (some zero) h = absurd (ground arith)
port_lem (some (suc port)) h = ground arith

present : (text : Option Text) → is_blank text ≡ false → text ≡ some (text_of text)
unfolding is_blank text_of
present none h = cc
present (some text) h = refl

-- The checks of check_url, one behind the other: all of them must pass.
Passed : (driver blank single port_ok extra bad_ssl forbidden : Bool) → Type 0
Passed driver blank single port_ok extra bad_ssl forbidden =
    (driver ≡ true)
    × (blank ≡ false)
    × (single ≡ true)
    × (port_ok ≡ true)
    × (extra ≡ false)
    × (bad_ssl ≡ false)
    × (forbidden ≡ false)

all_pass :
    (driver blank single port_ok extra bad_ssl forbidden : Bool) (given url : Url)
    → (if not driver
        then invalid wrong_driver
        else if blank
        then invalid incomplete
        else if not single
        then invalid several_hosts
        else if not port_ok
        then invalid port_out_of_range
        else if extra
        then invalid other_parameters
        else if bad_ssl
        then invalid wrong_ssl
        else if forbidden
        then invalid forbidden_user
        else valid given)
      ≡ valid url
    → Passed driver blank single port_ok extra bad_ssl forbidden × (given ≡ url)
unfolding Passed
all_pass driver blank single port_ok extra bad_ssl forbidden given url h = ground arith

checked :
    (is_ip_address : Text → Bool) (given url : Url)
    → check_url is_ip_address given ≡ valid url
    → (given ≡ url)
      × (is_blank given.host || (is_blank given.database || is_blank given.username) ≡ false)
      × (is_single_host is_ip_address (text_of given.host) ≡ true)
      × (port_in_range given.port ≡ true)
      × (ltb 0 (length (parameters_outside permitted_query_parameters given.query)) ≡ false)
      × (text_in (text_of given.username) forbidden_runtime_database_users ≡ false)
unfolding check_url Passed
checked is_ip_address given url h =
    let ((_, blank, single, port_ok, extra, _, forbidden), same) =
      all_pass (text_eq given.drivername database_driver)
        (is_blank given.host || (is_blank given.database || is_blank given.username))
        (is_single_host is_ip_address (text_of given.host)) (port_in_range given.port)
        (ltb 0 (length (parameters_outside permitted_query_parameters given.query)))
        (is_given (query_get (codes "ssl") given.query)
          && not (ssl_is_one_of database_ssl_values (query_get (codes "ssl") given.query)))
        (text_in (text_of given.username) forbidden_runtime_database_users) given url h in
    (same, blank, single, port_ok, extra, forbidden)

or_false : (a b c : Bool) → a || (b || c) ≡ false → (a ≡ false) × (b ≡ false) × (c ≡ false)
or_false a b c h = ground arith

-- The identity of a URL whose parts are there.
identity : Url → DatabaseTarget
identity url = record {
  host = text_of url.host;
  port = port_or_default url.port;
  database = text_of url.database;
  user = text_of url.username;
}

target_lem :
    (url : Url)
    → url.host ≡ some (text_of url.host)
    → url.database ≡ some (text_of url.database)
    → url.username ≡ some (text_of url.username)
    → target url ≡ returned (identity url)
unfolding target identity text_of
target_lem url host database username = rw (host, database, username) refl

-- A database URL that passes the validation has a target: target() never raises for it, although
-- it is written as if it might. The target is the URL's own host, database and user; the host is a
-- single one, the port lies between 1 and 65535, the user is none of the forbidden ones, and no
-- query parameter but ssl is left to redirect the connection.
pub validated_target :
    (is_ip_address : Text → Bool) (given url : Url)
    → validate_url is_ip_address (some given) ≡ valid url
    → (t : DatabaseTarget) × (given ≡ url) × Sound is_ip_address given t
unfolding validate_url Sound identity
validated_target is_ip_address given url h =
    let (same, blank, single, port_ok, extra, forbidden) = checked is_ip_address given url h in
    let (no_host, no_database, no_user) =
      or_false (is_blank given.host) (is_blank given.database) (is_blank given.username) blank in
    let found_host = present given.host no_host in
    let found_database = present given.database no_database in
    let found_user = present given.username no_user in
    let (low, high) = port_lem given.port port_ok in
    (
      identity given,
      same,
      (
        target_lem given found_host found_database found_user,
        found_host,
        found_database,
        found_user,
        single,
        low,
        high,
        forbidden,
        no_parameters (parameters_outside permitted_query_parameters given.query) extra,
      ),
    )
