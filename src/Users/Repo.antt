-- ===== src/Users/Repo.antt =====
-- services/users/repository: user.go, driver.go and otp.go.
use nebengjek.Prelude.{Str, str, str_eq, ◌++◌, Bool, true, false, Option, some, none, if◌then◌else◌}
use nebengjek.Exec.{
  Error, no_rows, redis_nil, external, message, wrap, Result, ok, err, Exec, pure, fail, panic,
  call, attempt, of_result, wrapping, deferring, ◌>>=◌, ◌>>◌,
}
use nebengjek.Domain.Places.{Int64, Uuid}
use nebengjek.Domain.Users.{User, Driver, Otp}
use nebengjek.Users.Env.{
  Call, select_user_by_msisdn, select_user_by_field, select_driver, begin_tx, insert_user,
  update_role, insert_driver, commit_tx, rollback_tx, redis_set, redis_get, redis_delete, Env, send,
  time_now, uuid_new,
}

-- `5 * time.Minute`, in nanoseconds.
abbrev pub otp_expiration_time : Int64
otp_expiration_time = 300000000000

abbrev pub key_user_otp : Str → Str
key_user_otp msisdn = str "user:otp:" ++ msisdn

-- `errors.Is(err, sql.ErrNoRows)`
abbrev pub is_no_rows : Error → Bool
is_no_rows no_rows = true
is_no_rows (wrap s e) = is_no_rows e
is_no_rows (external s) = false
is_no_rows redis_nil = false
is_no_rows (message s) = false

-- `if err == sql.ErrNoRows`
abbrev pub row_error : Error → Error
row_error no_rows = message (str "user not found")
row_error e = wrap (str "failed to get user") e

-- `if errors.Is(err, sql.ErrNoRows)`
abbrev pub field_error : Error → Error
field_error e =
    if is_no_rows e then message (str "user not found") else wrap (str "failed to get user") e

abbrev pub user_or_fail : (Error → Error) → Result User → Exec Call User
user_or_fail missing (ok user) = pure user
user_or_fail missing (err e) = fail (missing e)

-- No row is no driver.
abbrev pub driver_or_nil : Result Driver → Exec Call (Option Driver)
driver_or_nil (ok driver) = pure (some driver)
driver_or_nil (err e) =
    if is_no_rows e then pure none else fail (wrap (str "failed to get driver info") e)

abbrev pub is_driver : User → Bool
is_driver user = str_eq user.role (str "driver")

module _ (env : Env) where
  unfoldable pub get_driver_info : Uuid → Exec Call (Option Driver)
  get_driver_info user_id = do
    row ← attempt (call (select_driver user_id) (env.driver_reply (select_driver user_id)))
    driver_or_nil row

  abbrev pub add_driver_info : User → Exec Call User
  add_driver_info user = do
    driver ← get_driver_info user.id
    pure (record user { driver_info = driver })

  -- `if user.Role == "driver"`
  abbrev pub with_driver_info : User → Exec Call User
  with_driver_info user = if is_driver user then add_driver_info user else pure user

  unfoldable pub get_user_by_msisdn : Str → Exec Call User
  get_user_by_msisdn msisdn = do
    row ←
        attempt
          (call (select_user_by_msisdn msisdn) (env.user_reply (select_user_by_msisdn msisdn)))
    user ← user_or_fail row_error row
    with_driver_info user

  unfoldable pub get_user_by_field : Str → Str → Exec Call User
  get_user_by_field field value = do
    row ← attempt (
        call (select_user_by_field field value) (env.user_reply (select_user_by_field field value)))
    user ← user_or_fail field_error row
    with_driver_info user

  unfoldable pub get_user_by_id : Str → Exec Call User
  unfolding get_user_by_field
  get_user_by_id id = get_user_by_field (str "id") id

  -- What the pointer shows afterwards is returned.
  unfoldable pub create_user : User → Exec Call User
  create_user user = do
    id ← uuid_new env
    t ← time_now env
    let stamped : User = record user { id = id; created_at = t; updated_at = t }
    wrapping (str "failed to begin transaction") (send env begin_tx)
    deferring rollback_tx (do
      wrapping (str "failed to insert user") (send env (insert_user stamped))
      wrapping (str "failed to commit transaction") (send env commit_tx)
      pure stamped)

  -- `user.DriverInfo.VehicleType` of a nil pointer panics.
  abbrev pub insert_driver_info : User → Exec Call (Unit {0})
  insert_driver_info user = elim user.driver_info [
    | none ↦ panic
    | some driver ↦
        wrapping (str "failed to insert driver info")
          (send env (insert_driver (record driver { user_id = user.id })))
  ]

  -- What the pointer shows afterwards is returned.
  unfoldable pub update_to_driver : User → Exec Call User
  update_to_driver user = do
    wrapping (str "failed to begin transaction") (send env begin_tx)
    t ← time_now env
    let stamped : User = record user { updated_at = t }
    deferring rollback_tx (do
      wrapping (str "failed to update user role") (send env (update_role stamped))
      insert_driver_info stamped
      wrapping (str "failed to commit transaction") (send env commit_tx)
      pure stamped)

  unfoldable pub create_otp : Otp → Exec Call (Unit {0})
  create_otp otp = do
    json ← wrapping (str "failed to marshal OTP") (of_result (env.json.encode_otp otp))
    wrapping (str "failed to store OTP in Redis")
        (send env (redis_set (key_user_otp otp.msisdn) json otp_expiration_time))

  -- Every failure of Redis is one error.
  abbrev pub stored_text : Result Str → Exec Call Str
  stored_text (ok s) = pure s
  stored_text (err e) = fail (message (str "OTP not found or expired"))

  -- A pointer that is not nil.
  unfoldable pub get_otp : Str → Exec Call (Option Otp)
  get_otp msisdn = do
    reply ←
        attempt (
          call (redis_get (key_user_otp msisdn)) (env.text_reply (redis_get (key_user_otp msisdn))))
    json ← stored_text reply
    otp ← wrapping (str "failed to unmarshal OTP") (of_result (env.json.decode_otp json))
    pure (some otp)

  unfoldable pub mark_otp_verified : Str → Exec Call (Unit {0})
  mark_otp_verified msisdn =
      wrapping (str "failed to delete OTP") (send env (redis_delete (key_user_otp msisdn)))
