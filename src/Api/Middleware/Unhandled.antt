-- ===== src/Api/Middleware/Unhandled.antt =====
-- What a client gets when no handler claims an exception.
use ai_voice_agent.Api.{
  error_catalog, contract_for, Headers, envelope_response, error_response, Framework,
  internal_error, envelope,
}
use ai_voice_agent.Api.Middleware.{
  answered, App, is_start, request_id_header, send_response, unhandled_error_middleware,
  with_request_id, correlation_id_middleware, Message, response_start, response_body,
}
use ai_voice_agent.Prelude.{◌≡◌, refl, ap, true, false, Option, some, List, [], ◌∷◌, ◌++◌, map, any}
use ai_voice_agent.Text.{Text, codes}

with_request_id-append :
    (framework : Framework) (request_id : Text) (messages others : List Message)
    → map (with_request_id framework request_id) (messages ++ others)
      ≡ map (with_request_id framework request_id) messages
        ++ map (with_request_id framework request_id) others
with_request_id-append framework request_id [] others = refl
with_request_id-append framework request_id (message ∷ messages) others =
    ap (λ rest. with_request_id framework request_id message ∷ rest)
      (with_request_id-append framework request_id messages others)

-- A generic 500 response with the ID of the request in its envelope and in its headers.
pub record Generic500 (framework : Framework) (request_id : Text) (messages : List Message)
    : Type 0 where
  pub headers : Headers
  pub is_it :
      messages
      ≡ response_start 500 headers
        ∷ response_body
            (envelope internal_error (codes "An unexpected error occurred.") request_id false)
        ∷ []
  pub has_id : framework.lookup request_id_header headers ≡ some request_id

module _ (framework : Framework)
    (set_is_read : (name value : Text) (headers : Headers)
      → framework.lookup name (framework.set_header name value headers) ≡ some value)
    (routes : App) (request_id : Text) (context : Option Text)
    (no_start : any is_start (routes (some request_id)).messages ≡ false)
    (failing : (routes (some request_id)).fails ≡ true) where
  -- If a header that is set is the one that is read back, and the application behind the two
  -- middlewares raises before it has started a response, then the client gets what was sent before, then a generic 500 response: the fixed envelope of INTERNAL_ERROR,
  -- with the ID that was generated for this request both in it and in the X-Request-ID header, and
  -- the exception goes no further.
  pub unhandled_is_answered :
      (((correlation_id_middleware framework true request_id
          (unhandled_error_middleware framework true routes)
          context).fails)
        ≡ false)
      × ((last : List Message) × ((correlation_id_middleware framework true request_id
              (unhandled_error_middleware framework true routes)
              context).messages
            ≡ map (with_request_id framework request_id) (routes (some request_id)).messages
              ++ last)
          × Generic500 framework request_id last)
  unfolding correlation_id_middleware unhandled_error_middleware answered error_response
      contract_for error_catalog send_response with_request_id envelope_response
  unhandled_is_answered =
      let headers = framework.set_header request_id_header request_id framework.json_headers in
      let body = envelope internal_error (codes "An unexpected error occurred.") request_id false in
      rw (no_start, failing)
        (
          refl,
          (
            response_start 500 headers ∷ response_body body ∷ [],
            with_request_id-append framework request_id (routes (some request_id)).messages _,
            record {
              headers = headers;
              is_it = refl;
              has_id = set_is_read request_id_header request_id framework.json_headers;
            },
          ),
        )
