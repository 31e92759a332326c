-- ===== src/Tests/Accounts.antt =====
-- The theorems about sign-in and registration at concrete inputs.
use nebengjek.Prelude.{if◌then◌else◌, str, str_eq, ◌≡◌, refl, [], ◌∷◌, some, select}
use nebengjek.Exec.{fail, ok, returned, failed, message, wrap}
use nebengjek.Utils.Msisdn.{validate_msisdn, generate_dummy_otp}
use nebengjek.Users.Env.{History, redis_get, begin_tx}
use nebengjek.Users.Repo.{key_user_otp}
use nebengjek.Users.Usecase.Auth.{generate_otp, verify_otp, sign_in}
use nebengjek.Users.Laws.Otps.{generate-verify}
use nebengjek.Tests.UserWorld.{
  passenger, user_world, written_number, number, code, user_world-AnswersGet, user_world-ReadsBack,
}
use nebengjek.Users.Laws.SignIn.{verified_returned, verify_once, IsSignedIn}
use nebengjek.Users.Usecase.Account.{register_driver}
use nebengjek.Domain.Users.{User, AuthResponse}
use nebengjek.Users.Laws.Drivers.{driver_created, IsRegistered}
use nebengjek.Users.Web
use nebengjek.Http.Responses.{success_response}

normal : validate_msisdn written_number ≡ ok number
unfolding validate_msisdn str select
normal = refl

normal_again : validate_msisdn number ≡ ok number
unfolding validate_msisdn str select
normal_again = refl

generates : (generate_otp user_world written_number []).0 ≡ returned tt
unfolding generate_otp validate_msisdn generate_dummy_otp str select str_eq
    nebengjek.Users.Repo.create_otp
generates = refl

abbrev generated : History
generated = (generate_otp user_world written_number []).1

generate-verify_example :
    verify_otp user_world number code generated
    ≡ (if str_eq code code
          then sign_in user_world number
          else fail (message (str "invalid OTP code")))
        (redis_get (key_user_otp number) ∷ generated)
unfolding str
generate-verify_example =
    generate-verify user_world written_number number (str "6281112") code code []
      user_world-AnswersGet user_world-ReadsBack normal refl normal_again generates

abbrev response : AuthResponse
response = record {
  token = 4 ∷ [];
  user_id = 4 ∷ [];
  role = str "passenger";
  expires_at = 3600000000009;
}

verifies : (verify_otp user_world written_number code generated).0 ≡ returned response
unfolding verify_otp validate_msisdn select str nebengjek.Users.Repo.get_otp
    nebengjek.Tests.UserWorld.value_in generate_otp nebengjek.Users.Repo.create_otp str_eq
    generate_dummy_otp sign_in nebengjek.Users.Usecase.Auth.get_or_create_user
    nebengjek.Users.Repo.get_user_by_msisdn nebengjek.Users.Token.generate_token
    nebengjek.Users.Repo.mark_otp_verified
verifies = refl

verified_returned_example :
    IsSignedIn user_world written_number code response generated
      (verify_otp user_world written_number code generated).1
verified_returned_example =
    verified_returned user_world written_number code generated response verifies

abbrev verified : History
verified = (verify_otp user_world written_number code generated).1

verify_once_example : verify_otp user_world number code verified ≡ (
  failed (wrap (str "invalid OTP") (message (str "OTP not found or expired"))),
  redis_get (key_user_otp number) ∷ verified,
)
verify_once_example =
    verify_once user_world written_number number number code code generated response
      user_world-AnswersGet normal normal_again verifies

-- The table shows the number as a passenger's.
abbrev applicant : User
applicant = record passenger {
  msisdn = written_number;
  driver_info = some (record { user_id = 0; vehicle_type = str "car"; vehicle_plate = str "B 1" });
}

abbrev new_driver : User
new_driver = record applicant {
  msisdn = number;
  role = str "driver";
  id = passenger.id;
  updated_at = user_world.clock (begin_tx ∷ []);
}

creates :
    (Web.register_driver user_world (ok applicant) []).0
    ≡ returned (success_response 201 (str "Driver registered successfully") new_driver)
unfolding Web.register_driver register_driver validate_msisdn select str
    nebengjek.Users.Repo.get_user_by_msisdn str_eq
    nebengjek.Users.Usecase.Account.validate_user_data
    nebengjek.Users.Usecase.Account.validate_driver_data nebengjek.Users.Repo.update_to_driver
creates = refl

driver_created_example :
    IsRegistered user_world applicant [] new_driver
      (Web.register_driver user_world (ok applicant) []).1
driver_created_example =
    driver_created user_world applicant [] (str "Driver registered successfully") new_driver creates
