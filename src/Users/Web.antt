-- ===== src/Users/Web.antt =====
-- services/users/handler/http: auth.go and user.go.
use nebengjek.Prelude.{Str, str, str_eq, [], ◌||◌, some, none, if◌then◌else◌}
use nebengjek.Exec.{Result, ok, err, error_text, Exec, pure}
use nebengjek.Domain.Users.{User, AuthResponse}
use nebengjek.Http.Responses.{
  Reply, succeeded, success_response, error_response_handler, bad_request_response,
  unauthorized_response, answer,
}
use nebengjek.Users.Env.{Call, Env}
use nebengjek.Users.Usecase.Auth
use nebengjek.Users.Usecase.Account

abbrev pub bind_or_refuse :
    {A B : Type 0} → Result A → (A → Exec Call (Reply B)) → Exec Call (Reply B)
bind_or_refuse (ok req) k = k req
bind_or_refuse (err e) k = pure (bad_request_response (str "Invalid request payload"))

module _ (env : Env) where
  -- The body is the number of a `LoginRequest`.
  unfoldable pub generate_otp : Result Str → Exec Call (Reply (Unit {0}))
  generate_otp body = bind_or_refuse body λ msisdn.
      if str_eq msisdn []
      then pure (bad_request_response (str "MSISDN is required"))
      else answer (Auth.generate_otp env msisdn) (λ e. error_response_handler 500 (error_text e))
          (λ u. succeeded 200 (str "OTP sent successfully") none)

  -- The body is the number and the code of a `VerifyRequest`.
  unfoldable pub verify_otp : Result (Str × Str) → Exec Call (Reply AuthResponse)
  verify_otp body = bind_or_refuse body λ req.
      if str_eq req.0 [] || str_eq req.1 []
      then pure (bad_request_response (str "MSISDN and OTP are required"))
      else answer (Auth.verify_otp env req.0 req.1) (λ e. unauthorized_response (str "Invalid OTP"))
          (λ r. success_response 200 (str "OTP verified successfully") r)

  unfoldable pub create_user : Result User → Exec Call (Reply User)
  create_user body = bind_or_refuse body λ user.
      answer (Account.register_user env (some user))
        (λ e. error_response_handler 500 (str "Failed to create user"))
        (λ u. success_response 201 (str "User created successfully") u)

  unfoldable pub get_user : Str → Exec Call (Reply User)
  get_user user_id =
      if str_eq user_id []
      then pure (bad_request_response (str "Invalid user ID"))
      else answer (Account.get_user_by_id env user_id)
          (λ e. error_response_handler 500 (str "Failed to retrieve user"))
          (λ u. success_response 200 (str "User retrieved successfully") u)

  unfoldable pub register_driver : Result User → Exec Call (Reply User)
  register_driver body = bind_or_refuse body λ user.
      answer (Account.register_driver env (some user))
        (λ e. error_response_handler 500 (str "Failed to register driver"))
        (λ u. success_response 201 (str "Driver registered successfully") u)
