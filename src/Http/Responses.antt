-- ===== src/Http/Responses.antt =====
-- internal/utils/http.go: what a handler answers. The request is given as its path and query
-- parameters and as what `c.Bind` makes of its body.
use nebengjek.Prelude.{Str, str, str_eq, [], ℕ, Option, some, if◌then◌else◌}
use nebengjek.Exec.{Error, Result, ok, err, Exec, pure, attempt, ◌>>=◌}

-- A `Response` with success, or an `ErrorResponse`, with the status code.
pub data Reply (A : Type 0) : Type 0 where
  succeeded : ℕ → Str → Option A → Reply A
  refused : ℕ → Str → Reply A

-- `if errorMessage == "" { errorMessage = text }`
abbrev pub given_or : Str → Str → Str
given_or text error_message = if str_eq error_message [] then text else error_message

module _ {A : Type 0} where
  abbrev pub success_response : ℕ → Str → A → Reply A
  success_response status_code message payload = succeeded status_code message (some payload)

  abbrev pub error_response_handler : ℕ → Str → Reply A
  error_response_handler status_code error_message = refused status_code error_message

  abbrev pub bad_request_response : Str → Reply A
  bad_request_response error_message = error_response_handler 400 error_message

  abbrev pub unauthorized_response : Str → Reply A
  unauthorized_response error_message =
      error_response_handler 401 (given_or (str "Unauthorized") error_message)

  abbrev pub not_found_response : Str → Reply A
  not_found_response error_message =
      error_response_handler 404 (given_or (str "Resource not found") error_message)

  abbrev pub forbidden_response : Str → Reply A
  forbidden_response error_message =
      error_response_handler 403 (given_or (str "Forbidden") error_message)

  abbrev pub internal_server_error_response : Str → Reply A
  internal_server_error_response error_message =
      error_response_handler 500 (given_or (str "Internal server error") error_message)

  abbrev pub service_unavailable_response : Str → Reply A
  service_unavailable_response error_message =
      error_response_handler 503 (given_or (str "Service unavailable") error_message)

-- The answer is made from the result of the use case, or from its error.
module _ {A B : Type 0} where
  abbrev pub reply_of : (Error → Reply B) → (A → Reply B) → Result A → Reply B
  reply_of refuse accept (ok a) = accept a
  reply_of refuse accept (err e) = refuse e

  abbrev pub answer : {C : Type 0} → Exec C A → (Error → Reply B) → (A → Reply B) → Exec C (Reply B)
  answer m refuse accept = do r ← attempt m; pure (reply_of refuse accept r)
