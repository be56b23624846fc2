-- ===== src/Api/Tests.antt =====
-- Runs of the API's handlers and middleware with headers as an association list.
use ai_voice_agent.Api.{Headers, handle, Framework, Failure, http_exception}
use ai_voice_agent.Api.Envelopes.{is_handled, handle-Answered, Answered}
use ai_voice_agent.Api.Middleware.{
  App, unhandled_error_middleware, with_request_id, correlation_id_middleware, Message,
}
use ai_voice_agent.Api.Middleware.Unhandled.{unhandled_is_answered, Generic500}
use ai_voice_agent.Prelude.{
  ◌≡◌, refl, true, false, Option, none, some, List, [], ◌∷◌, ◌++◌, map, if◌then◌else◌,
}
use ai_voice_agent.Text.{Text, codes, text_eq}
use ai_voice_agent.Text.Sorting.{text_eq_refl}

-- The value of the first header of that name.
test_lookup : Text → Headers → Option Text
test_lookup name [] = none
test_lookup name ((found, value) ∷ headers) =
    let later = test_lookup name headers in if text_eq name found then some value else later

abbrev test_framework : Framework
test_framework = record {
  set_header = λ name value headers. (name, value) ∷ headers;
  update_headers = λ more headers. more ++ headers;
  lookup = test_lookup;
  json_headers = (codes "Content-Type", codes "application/json") ∷ [];
}

test_set_is_read :
    (name value : Text) (headers : Headers)
    → test_lookup name ((name, value) ∷ headers) ≡ some value
unfolding test_lookup
test_set_is_read name value headers = rw (text_eq_refl name) refl

abbrev not_allowed : Failure
not_allowed = http_exception 405 ((codes "Allow", codes "GET") ∷ [])

handle-Answered_example :
    Answered not_allowed (some (codes "r1")) (handle test_framework not_allowed (some (codes "r1")))
unfolding is_handled
handle-Answered_example = handle-Answered test_framework (some (codes "r1")) not_allowed refl

-- An endpoint that raises at once.
abbrev failing_routes : App
failing_routes context = record { messages = []; fails = true }

unhandled_is_answered_example :
    (((correlation_id_middleware test_framework true
        (codes "r1")
        (unhandled_error_middleware test_framework true failing_routes)
        none).fails)
      ≡ false)
    × ((last : List Message) × ((correlation_id_middleware test_framework true
            (codes "r1")
            (unhandled_error_middleware test_framework true failing_routes)
            none).messages
          ≡ map (with_request_id test_framework (codes "r1")) [] ++ last)
        × Generic500 test_framework (codes "r1") last)
unhandled_is_answered_example =
    unhandled_is_answered test_framework test_set_is_read failing_routes (codes "r1") none refl refl
