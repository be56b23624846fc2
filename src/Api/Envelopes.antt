-- ===== src/Api/Envelopes.antt =====
-- What holds of the API's error responses.
use ai_voice_agent.Api.{
  error_catalog, contract_for, Headers, http_status_code, or_unknown, envelope_response,
  error_response, with_headers, http_answer, handle, ApiErrorCode, Framework, Response, Failure,
  validation_error, resource_not_found, method_not_allowed, internal_error, dependency_unavailable,
  envelope, platform_error, http_exception, request_invalid, other_failure,
}
use ai_voice_agent.Prelude.{
  Outcome, returned, ℕ, ◌≡◌, refl, ◌∙◌, inl, inr, Bool, true, false, Option, none, some, [], ◌∷◌,
  arith, ◌==◌, if◌then◌else◌, Bool-cases, any,
}
use ai_voice_agent.Text.{Text, one_of}

-- What the envelope of a code is: its status is one of the catalog's, and what it says is the
-- catalog's, with the ID of the request.
pub record Cataloged (context : Option Text) (response : Response) : Type 0 where
  pub error_code : ApiErrorCode
  pub status_listed : one_of (error_catalog error_code).statuses response.status ≡ true
  pub says :
      response.body
      ≡ envelope error_code
          (error_catalog error_code).text
          (or_unknown context)
          (error_catalog error_code).retryable

-- The exceptions that have a handler.
unfoldable pub is_handled : Failure → Bool
is_handled other_failure = false
is_handled failure = true

-- The status that the API documents for an exception: 503 for the database and the cache, the
-- framework's own for 400, 404, 405 and 422, 400 for malformed JSON, 422 for an invalid
-- request, and 500 for all else.
unfoldable pub documented_status : Failure → ℕ
documented_status (platform_error dependency) = if dependency then 503 else 500
documented_status (http_exception status headers) =
    if one_of (400 ∷ 404 ∷ 405 ∷ 422 ∷ []) status then status else 500
documented_status (request_invalid kinds) = if any (λ malformed. malformed) kinds then 400 else 422
documented_status other_failure = 500

-- What a handler is to answer an exception with.
pub record Answered (failure : Failure) (context : Option Text) (found : Outcome Response)
    : Type 0 where
  pub response : Response
  pub returns : found ≡ returned response
  pub documented : response.status ≡ documented_status failure
  pub cataloged : Cataloged context response

module _ (framework : Framework) (context : Option Text) where
  listed-returns :
      (error_code : ApiErrorCode) (status : ℕ)
      → one_of (error_catalog error_code).statuses status ≡ true
      → error_response framework error_code (some status) context
        ≡ returned
            (envelope_response framework error_code context (status, error_catalog error_code))
  unfolding error_response contract_for
  listed-returns error_code status h = rw h refl

  envelope-Cataloged :
      (error_code : ApiErrorCode) (status : ℕ)
      → one_of (error_catalog error_code).statuses status ≡ true
      → Cataloged context
          (envelope_response framework error_code context (status, error_catalog error_code))
  unfolding envelope_response
  envelope-Cataloged error_code status h = record {
    error_code = error_code;
    status_listed = h;
    says = refl;
  }

  default-Answered :
      (failure : Failure) (error_code : ApiErrorCode) (status : ℕ)
      → one_of (error_catalog error_code).statuses status ≡ true
      → (found : Outcome Response)
      → found ≡ error_response framework error_code (some status) context
      → status ≡ documented_status failure
      → Answered failure context found
  unfolding envelope_response
  default-Answered failure error_code status listed found same documented = record {
    response = envelope_response framework error_code context (status, error_catalog error_code);
    returns = same ∙ listed-returns error_code status listed;
    documented = documented;
    cataloged = envelope-Cataloged error_code status listed;
  }

  with_headers-Cataloged :
      (headers : Headers) (response : Response)
      → Cataloged context response
      → Cataloged context (with_headers framework headers response)
  unfolding with_headers
  with_headers-Cataloged [] response h = h
  with_headers-Cataloged (header ∷ headers) response h = record {
    error_code = h.error_code;
    status_listed = h.status_listed;
    says = h.says;
  }

  with_headers_status :
      (headers : Headers) (response : Response)
      → (with_headers framework headers response).status ≡ response.status
  unfolding with_headers
  with_headers_status [] response = refl
  with_headers_status (header ∷ headers) response = refl

  known-Answered :
      (status : ℕ) (headers : Headers) (error_code : ApiErrorCode)
      → http_status_code status ≡ some error_code
      → one_of (error_catalog error_code).statuses status ≡ true
      → one_of (400 ∷ 404 ∷ 405 ∷ 422 ∷ []) status ≡ true
      → Answered
          (http_exception status headers)
          context
          (handle framework (http_exception status headers) context)
  unfolding handle http_answer envelope_response documented_status
  known-Answered status headers error_code e listed known =
      let made =
        envelope_response framework error_code context (status, error_catalog error_code) in
      record {
        response = with_headers framework headers made;
        returns = rw (e, listed-returns error_code status listed) refl;
        documented = rw known (with_headers_status headers made);
        cataloged =
            with_headers-Cataloged headers made (envelope-Cataloged error_code status listed);
      }

  default_is_500 :
      error_response framework internal_error none context
      ≡ error_response framework internal_error (some 500) context
  unfolding error_response contract_for error_catalog
  default_is_500 = refl

  http-Answered :
      (status : ℕ) (headers : Headers)
      → Answered
          (http_exception status headers)
          context
          (handle framework (http_exception status headers) context)
  unfolding http_status_code error_catalog documented_status handle http_answer
  http-Answered status headers = elim (Bool-cases (status == 400)) [
    | inl e ↦ known-Answered status headers validation_error (rw e refl) (ground arith) (rw e refl)
    | inr e ↦ elim (Bool-cases (status == 404)) [
      | inl f ↦
          known-Answered status headers resource_not_found (rw (e, f) refl) (rw f refl)
            (rw (e, f) refl)
      | inr f ↦ elim (Bool-cases (status == 405)) [
        | inl g ↦
            known-Answered status headers method_not_allowed (rw (e, f, g) refl) (rw g refl)
              (rw (e, f, g) refl)
        | inr g ↦ elim (Bool-cases (status == 422)) [
          | inl k ↦
              known-Answered status headers validation_error (rw (e, f, g, k) refl) (rw k refl)
                (rw (e, f, g, k) refl)
          | inr k ↦
              default-Answered (http_exception status headers) internal_error 500 refl _
                (rw (e, f, g, k) default_is_500) (rw (e, f, g, k) refl)
        ]
      ]
    ]
  ]

  -- Each exception that has a handler is answered, whatever it holds: no handler raises, and the
  -- response has the status that is documented for the exception and the catalog's envelope for
  -- its code, in which nothing is of the exception.
  pub handle-Answered :
      (failure : Failure)
      → is_handled failure ≡ true
      → Answered failure context (handle framework failure context)
  unfolding handle is_handled error_response contract_for error_catalog documented_status
  handle-Answered (platform_error true) h =
      default-Answered (platform_error true) dependency_unavailable 503 refl _ refl refl
  handle-Answered (platform_error false) h =
      default-Answered (platform_error false) internal_error 500 refl _ refl refl
  handle-Answered (http_exception status headers) h = http-Answered status headers
  handle-Answered (request_invalid kinds) h =
      elim (Bool-cases (any (λ malformed. malformed) kinds)) [
        | inl e ↦
            default-Answered (request_invalid kinds) validation_error 400 refl _ (rw e refl)
              (rw e refl)
        | inr e ↦
            default-Answered (request_invalid kinds) validation_error 422 refl _ (rw e refl)
              (rw e refl)
      ]
  handle-Answered other_failure h = cc
