-- ===== src/Users/Usecase/Auth.antt =====
-- services/users/usecase/auth.go: one-time passwords and sign-in.
use nebengjek.Prelude.{Str, str, str_eq, not, true, Option, none, some}
use nebengjek.Exec.{
  Result, ok, err, message, Exec, pure, fail, attempt, wrapping, fail_if, ◌>>=◌, ◌>>◌,
}
use nebengjek.Domain.Users.{User, Otp, AuthResponse}
use nebengjek.Utils.Msisdn.{validate_msisdn, generate_dummy_otp}
use nebengjek.Users.Env.{Call, Env, time_now, uuid_new}
use nebengjek.Users.Repo
use nebengjek.Users.Token

-- Every error of ValidateMSISDN is replaced by one that reads the same.
abbrev pub valid_msisdn : Result Str → Exec Call Str
valid_msisdn (ok formatted) = pure formatted
valid_msisdn (err e) = fail (message (str "invalid MSISDN format or not a Telkomsel number"))

abbrev pub otp_or_fail : Option Otp → Exec Call Otp
otp_or_fail (some otp) = pure otp
otp_or_fail none = fail (message (str "OTP not found or expired"))

module _ (env : Env) where
  unfoldable pub generate_otp : Str → Exec Call (Unit {0})
  generate_otp msisdn = do
    formatted ← valid_msisdn (validate_msisdn msisdn)
    id ← uuid_new env
    let otp : Otp = record {
      id = env.uuid_string id;
      msisdn = formatted;
      code = generate_dummy_otp formatted;
    }
    wrapping (str "failed to create OTP") (Repo.create_otp env otp)

  -- A user who is not found, for whatever reason, is created as a passenger.
  abbrev pub user_or_create : Str → Result User → Exec Call User
  user_or_create msisdn (ok user) = pure user
  user_or_create msisdn (err e) = do
    created ← time_now env
    updated ← time_now env
    let user : User = record {
      id = 0;
      msisdn = msisdn;
      full_name = str "";
      role = str "passenger";
      created_at = created;
      updated_at = updated;
      is_active = true;
      driver_info = none;
      rating = 0;
    }
    wrapping (str "failed to create user") (Repo.create_user env user)

  unfoldable pub get_or_create_user : Str → Exec Call User
  get_or_create_user msisdn = do
    found ← attempt (Repo.get_user_by_msisdn env msisdn)
    user_or_create msisdn found

  unfoldable pub sign_in : Str → Exec Call AuthResponse
  sign_in msisdn = do
    user ← get_or_create_user msisdn
    signed ←
        wrapping (str "failed to generate token")
          (Token.generate_token env user.id user.msisdn user.role)
    wrapping (str "failed to mark OTP as verified") (Repo.mark_otp_verified env msisdn)
    pure (record {
      token = signed.0;
      user_id = env.uuid_string user.id;
      role = user.role;
      expires_at = signed.1;
    })

  unfoldable pub verify_otp : Str → Str → Exec Call AuthResponse
  verify_otp msisdn code = do
    formatted ← valid_msisdn (validate_msisdn msisdn)
    found ← wrapping (str "invalid OTP") (Repo.get_otp env formatted)
    otp ← otp_or_fail found
    fail_if (not (str_eq otp.code code)) (message (str "invalid OTP code"))
    sign_in formatted
