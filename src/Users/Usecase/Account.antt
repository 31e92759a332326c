-- ===== src/Users/Usecase/Account.antt =====
-- services/users/usecase/user.go: the registration of users and drivers.
use nebengjek.Prelude.{Str, str, str_eq, true, [], Option, none, some, if◌then◌else◌}
use nebengjek.Exec.{message, Exec, pure, fail, panic, wrapping, fail_if, ◌>>=◌, ◌>>◌}
use nebengjek.Domain.Users.{User, Driver}
use nebengjek.Utils.Msisdn.{validate_msisdn}
use nebengjek.Users.Env.{Call, Env}
use nebengjek.Users.Repo
use nebengjek.Users.Repo.{is_driver}
use nebengjek.Users.Usecase.Auth.{valid_msisdn}

unfoldable pub validate_user_data : Option User → Exec Call User
validate_user_data none = fail (message (str "user cannot be nil"))
validate_user_data (some user) =
    if str_eq user.msisdn [] then fail (message (str "MSISDN is required")) else pure user

unfoldable pub validate_driver_data : Option Driver → Exec Call (Unit {0})
validate_driver_data none = fail (message (str "driver info cannot be nil"))
validate_driver_data (some driver) = do
  fail_if (str_eq driver.vehicle_type []) (message (str "vehicle type is required"))
  fail_if (str_eq driver.vehicle_plate []) (message (str "vehicle plate is required"))

-- `if user.Role == "" { user.Role = "passenger" }`
abbrev pub role_or_passenger : Str → Str
role_or_passenger role = if str_eq role [] then str "passenger" else role

module _ (env : Env) where
  -- What the pointer shows afterwards is returned.
  unfoldable pub register_user : Option User → Exec Call User
  register_user given = do
    user ← validate_user_data given
    formatted ← valid_msisdn (validate_msisdn user.msisdn)
    Repo.create_user env
        (record user { msisdn = formatted; is_active = true; role = role_or_passenger user.role })

  unfoldable pub get_user_by_id : Str → Exec Call User
  get_user_by_id id = Repo.get_user_by_id env id

  -- A nil pointer panics before it is checked; what the pointer shows afterwards is returned.
  unfoldable pub register_driver : Option User → Exec Call User
  register_driver none = panic
  register_driver (some given) = do
    formatted ← valid_msisdn (validate_msisdn given.msisdn)
    let user_driver : User = record given { msisdn = formatted }
    user ← wrapping (str "user not found") (Repo.get_user_by_msisdn env formatted)
    fail_if (is_driver user) (message (str "user is already registered as a driver"))
    valid ← validate_user_data (some user_driver)
    validate_driver_data valid.driver_info
    Repo.update_to_driver env (record valid { role = str "driver"; id = user.id })
