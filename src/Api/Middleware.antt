-- ===== src/Api/Middleware.antt =====
-- backend/voice_agent/apps/api/: the middlewares of middleware/error_handler.py and
-- middleware/correlation_id.py, and health.py. A run of an ASGI application is what it has sent and
-- whether it then raised an Exception; it depends on the request context that it runs in.
pub mod Unhandled
use ai_voice_agent.Api.{
  Headers, error_response, Framework, Body, Response, internal_error, readiness_body,
}
use ai_voice_agent.Prelude.{
  Outcome, returned, raised, ℕ, Bool, true, false, not, ◌||◌, Option, none, some, List, [], ◌∷◌,
  ◌++◌, map, if◌then◌else◌, any,
}
use ai_voice_agent.Runtime.{ReadinessReport}
use ai_voice_agent.Text.{Text, codes}

pub data Message : Type 0 where
  response_start : ℕ → Headers → Message
  response_body : Body → Message
  other_message : Message

-- What an application has sent, and whether it then raised an Exception.
pub record Reply : Type 0 where
  pub messages : List Message
  pub fails : Bool

abbrev pub App : Type 0
App = Option Text → Reply

-- message["type"] == "http.response.start"
unfoldable pub is_start : Message → Bool
is_start (response_start status headers) = true
is_start message = false

abbrev pub request_id_header : Text
request_id_header = codes "X-Request-ID"

pub send_response : Response → List Message
send_response response =
    response_start response.status response.headers ∷ response_body response.body ∷ []

pub answered : Reply → Outcome Response → Reply
unfolding send_response
answered reply raised = reply
answered reply (returned response) = record {
  messages = reply.messages ++ send_response response;
  fails = false;
}

module _ (framework : Framework) where
  -- UnhandledErrorMiddleware.__call__
  unfoldable pub unhandled_error_middleware : (http : Bool) → App → App
  unfolding answered is_start
  unhandled_error_middleware false app context = app context
  unhandled_error_middleware true app context =
      let reply = app context in
      if not reply.fails || any is_start reply.messages
      then reply
      else answered reply (error_response framework internal_error none context)

  pub with_request_id : Text → Message → Message
  with_request_id request_id (response_start status headers) =
      response_start status (framework.set_header request_id_header request_id headers)
  with_request_id request_id message = message

  -- CorrelationIdMiddleware.__call__, with the ID that it generates.
  unfoldable pub correlation_id_middleware : (http : Bool) → Text → App → App
  unfolding with_request_id
  correlation_id_middleware false request_id app context = app context
  correlation_id_middleware true request_id app context =
      let reply = app (some request_id) in
      record { messages = map (with_request_id request_id) reply.messages; fails = reply.fails }

  no_store : Headers
  no_store = framework.set_header (codes "Cache-Control") (codes "no-store") framework.json_headers

  -- readiness, of what check_readiness reports
  unfoldable pub readiness : ReadinessReport → Response
  unfolding no_store
  readiness found = record {
    status = if found.ready then 200 else 503;
    body = readiness_body found.ready found.postgres found.redis;
    headers = no_store;
  }
