-- ===== src/Api.antt =====
-- backend/voice_agent/apps/api/: error_catalog.py, middleware/error_handler.py and
-- middleware/cors.py. A handler depends on the request context that it runs in, which is the request
-- ID or none. Starlette is a parameter.
pub mod Envelopes
pub mod Middleware
mod Tests
use ai_voice_agent.Prelude.{
  Outcome, returned, raised, ◌>>=◌, ℕ, Bool, true, false, ◌||◌, Option, none, some, List, [], ◌∷◌,
  map, ltb, ◌==◌, if◌then◌else◌, get_or, any,
}
use ai_voice_agent.Redaction.Keys.{fold_case}
use ai_voice_agent.Runtime.{CheckStatus}
use ai_voice_agent.Text.{Text, codes, one_of, text_eq}

pub data ApiErrorCode : Type 0 where
  validation_error : ApiErrorCode
  resource_not_found : ApiErrorCode
  method_not_allowed : ApiErrorCode
  internal_error : ApiErrorCode
  dependency_unavailable : ApiErrorCode

pub data Authority : Type 0 where
  frozen_catalog : Authority
  erratum_od_d0_02 : Authority

pub record ErrorContract : Type 0 where
  pub statuses : List ℕ
  pub retryable : Bool
  pub text : Text
  pub authority : Authority

-- ERROR_CATALOG
unfoldable pub error_catalog : ApiErrorCode → ErrorContract
error_catalog validation_error = record {
  statuses = 422 ∷ 400 ∷ [];
  retryable = false;
  text = codes "The request is invalid.";
  authority = frozen_catalog;
}
error_catalog resource_not_found = record {
  statuses = 404 ∷ [];
  retryable = false;
  text = codes "The requested resource could not be found.";
  authority = frozen_catalog;
}
error_catalog method_not_allowed = record {
  statuses = 405 ∷ [];
  retryable = false;
  text = codes "The request method is not supported for this resource.";
  authority = erratum_od_d0_02;
}
error_catalog internal_error = record {
  statuses = 500 ∷ [];
  retryable = false;
  text = codes "An unexpected error occurred.";
  authority = frozen_catalog;
}
error_catalog dependency_unavailable = record {
  statuses = 503 ∷ [];
  retryable = true;
  text = codes "A required dependency is temporarily unavailable.";
  authority = frozen_catalog;
}

abbrev pub or_default : ℕ → Option ℕ → ℕ
or_default default_status none = default_status
or_default default_status (some status) = status

-- contract_for, with the status that the caller asks for or the default one.
unfoldable pub contract_for : ApiErrorCode → Option ℕ → Outcome (ℕ × ErrorContract)
contract_for error_code asked =
    let contract = error_catalog error_code in
    let status = or_default (get_or contract.statuses 0 0) asked in
    if one_of contract.statuses status then returned (status, contract) else raised

abbrev pub Headers : Type 0
Headers = List (Text × Text)

-- What is Starlette's: setting and reading headers, and those of a new JSON response.
pub record Framework : Type 0 where
  pub set_header : Text → Text → Headers → Headers
  pub update_headers : Headers → Headers → Headers
  pub lookup : Text → Headers → Option Text
  pub json_headers : Headers

-- The error envelope, whose details are always empty, or a body of another kind.
pub data Body : Type 0 where
  envelope : (error_code : ApiErrorCode) (text request_id : Text) (retryable : Bool) → Body
  readiness_body : (ready : Bool) → CheckStatus → CheckStatus → Body
  other_body : Text → Body

pub record Response : Type 0 where
  pub status : ℕ
  pub body : Body
  pub headers : Headers

-- An exception, by what the handlers ask of it.
pub data Failure : Type 0 where
  platform_error : (dependency : Bool) → Failure
  http_exception : (status : ℕ) → Headers → Failure
  request_invalid : (json_invalid : List Bool) → Failure
  other_failure : Failure

-- _HTTP_STATUS_CODES.get
unfoldable pub http_status_code : ℕ → Option ApiErrorCode
http_status_code status =
    if status == 400
    then some validation_error
    else if status == 404
    then some resource_not_found
    else if status == 405
    then some method_not_allowed
    else if status == 422
    then some validation_error
    else none

abbrev pub or_unknown : Option Text → Text
or_unknown none = codes "unknown"
or_unknown (some request_id) = request_id

module _ (framework : Framework) where
  pub envelope_response : ApiErrorCode → Option Text → ℕ × ErrorContract → Response
  envelope_response error_code context (status, contract) = record {
    status = status;
    body = envelope error_code contract.text (or_unknown context) contract.retryable;
    headers = framework.json_headers;
  }

  -- error_response
  unfoldable pub error_response : ApiErrorCode → Option ℕ → Option Text → Outcome Response
  unfolding envelope_response
  error_response error_code asked context = contract_for error_code asked >>= λ found.
      returned (envelope_response error_code context found)

  pub with_headers : Headers → Response → Response
  with_headers [] response = response
  with_headers (header ∷ headers) response = record response {
    headers = framework.update_headers (header ∷ headers) response.headers;
  }

  -- _handle_http_exception, by the code of its status
  pub http_answer : ℕ → Headers → Option Text → Option ApiErrorCode → Outcome Response
  unfolding with_headers
  http_answer status headers context none = error_response internal_error none context
  http_answer status headers context (some error_code) =
      error_response error_code (some status) context >>= λ response.
      returned (with_headers headers response)

  -- The handler that register_error_handlers registers for the class of the exception: `raised`
  -- where there is none.
  unfoldable pub handle : Failure → Option Text → Outcome Response
  unfolding http_answer
  handle (platform_error true) context = error_response dependency_unavailable none context
  handle (platform_error false) context = error_response internal_error none context
  handle (http_exception status headers) context =
      http_answer status headers context (http_status_code status)
  handle (request_invalid kinds) context =
      error_response validation_error
        (some (if any (λ malformed. malformed) kinds then 400 else 422)) context
  handle other_failure context = raised

  kept_headers : Headers → Headers → Headers
  kept_headers [] headers = headers
  kept_headers ((name, value) ∷ decided) headers =
      let kept = kept_headers decided headers in
      let set = kept_headers decided (framework.set_header name value headers) in
      if text_eq (map fold_case name) (codes "content-type")
        || text_eq (map fold_case name) (codes "content-length")
      then kept
      else set

  -- ApiCorsMiddleware.preflight_response, on Starlette's own decision.
  unfoldable pub preflight_response : Response → Option Text → Outcome Response
  unfolding kept_headers
  preflight_response decision context =
      if ltb decision.status 400
      then returned decision
      else (error_response validation_error (some 400) context >>= λ response.
          returned (record response { headers = kept_headers decision.headers response.headers }))
