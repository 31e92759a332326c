-- ===== src/Users/Laws/SignIn.antt =====
-- What a sign-in means: VerifyOTP in services/users/usecase/auth.go.
use nebengjek.Prelude.{
  sym, ◌⊎◌, Str, str, str_eq, str_eq_iff, ◌≡◌, ◌∷◌, Bool-cases, inl, inr, arith,
}
use nebengjek.Exec.{ok, err, Error, returned, failed, redis_nil, message, wrap}
use nebengjek.Exec.Laws.{Result-cases, Outcome-cases}
use nebengjek.Domain.Users.{Otp, User, AuthResponse}
use nebengjek.Domain.Places.{Time}
use nebengjek.Utils.Msisdn.{validate_msisdn}
use nebengjek.Users.Env.{Env, History, redis_get, redis_delete, now}
use nebengjek.Users.Repo
use nebengjek.Users.Repo.{is_no_rows, is_driver, key_user_otp}
use nebengjek.Users.Token.{generate_token, claims_of, expiry}
use nebengjek.Users.Usecase.Auth.{get_or_create_user, verify_otp, sign_in}
use nebengjek.Users.Laws.Otps.{AnswersGet}
use nebengjek.Users.Laws.Origin.{get_or_create-origin, IsInserted, IsFound}

-- A response that was made for a user: its token is signed over the id, the number and the role of
-- that user.
abbrev pub SignedFor : Env → AuthResponse → User → Time → Type 0
SignedFor env resp user at =
    (env.sign env.jwt.secret (claims_of env user.id user.msisdn user.role at) ≡ ok resp.token)
    × (resp.user_id ≡ env.uuid_string user.id)
    × (resp.role ≡ user.role)
    × (resp.expires_at ≡ expiry env at)

pub sign_in_returned :
    (env : Env) (f : Str) (t : History) (resp : AuthResponse)
    → (sign_in env f t).0 ≡ returned resp
    → (user : User) × (h : History) × (IsFound env f t user
        ⊎ ((user.msisdn ≡ f) × (user.role ≡ str "passenger") × IsInserted env user h))
      × SignedFor env resp user (env.clock h)
      × (env.reply (redis_delete (key_user_otp f)) (now ∷ h) ≡ ok tt)
      × ((sign_in env f t).1 ≡ redis_delete (key_user_otp f) ∷ now ∷ h)
unfolding sign_in generate_token Repo.mark_otp_verified
sign_in_returned env f t resp h = elim (Outcome-cases (get_or_create_user env f t).0) [
  | inr q ↦ absurd (ground arith)
  | inl (user, q) ↦
      let t' = (get_or_create_user env f t).1 in
      elim (Result-cases
        (env.sign env.jwt.secret (claims_of env user.id user.msisdn user.role (env.clock t')))) [
          | inr (x, a) ↦ absurd (ground arith)
          | inl (token, a) ↦
              elim (Result-cases (env.reply (redis_delete (key_user_otp f)) (now ∷ t'))) [
                | inr (x, b) ↦ absurd (ground arith)
                | inl (u, b) ↦ (
                  user,
                  t',
                  get_or_create-origin env f t user q,
                  (ground arith, ground arith, ground arith, ground arith),
                  ground arith,
                  ground arith,
                )
              ]
        ]
]

-- A sign-in with a code, and the history it leaves.
abbrev pub IsSignedIn : Env → Str → Str → AuthResponse → History → History → Type 0
IsSignedIn env m code resp t t' =
    (f : Str) × (json : Str) × (otp : Otp) × (user : User) × (h : History) × (validate_msisdn m
      ≡ ok f)
    × (env.text_reply (redis_get (key_user_otp f)) t ≡ ok json)
    × (env.json.decode_otp json ≡ ok otp)
    × (otp.code ≡ code)
    × (IsFound env f (redis_get (key_user_otp f) ∷ t) user
        ⊎ ((user.msisdn ≡ f) × (user.role ≡ str "passenger") × IsInserted env user h))
    × SignedFor env resp user (env.clock h)
    × (env.reply (redis_delete (key_user_otp f)) (now ∷ h) ≡ ok tt)
    × (t' ≡ redis_delete (key_user_otp f) ∷ now ∷ h)

-- VerifyOTP that returns was given a number in a valid form and the code that Redis held for it.
-- Its token is signed over the id, the number and the role of a user who was read from the table
-- by that number, or who was created with it as a passenger in a committed transaction. Its last
-- call is the deletion of the code, which was acknowledged.
pub verified_returned :
    (env : Env) (m code : Str) (t : History) (resp : AuthResponse)
    → (verify_otp env m code t).0 ≡ returned resp
    → IsSignedIn env m code resp t (verify_otp env m code t).1
unfolding verify_otp Repo.get_otp
verified_returned env m code t resp h = elim (Result-cases (validate_msisdn m)) [
  | inr (x, a) ↦ absurd (ground arith)
  | inl (f, a) ↦
      let get = redis_get (key_user_otp f) in
      elim (Result-cases (env.text_reply get t)) [
        | inr (x, b) ↦ absurd (ground arith)
        | inl (json, b) ↦ elim (Result-cases (env.json.decode_otp json)) [
          | inr (x, c) ↦ absurd (ground arith)
          | inl (otp, c) ↦ elim (Bool-cases (str_eq otp.code code)) [
            | inr n ↦ absurd (ground arith)
            | inl y ↦
                let (user, h', source, signed, gone, after) =
                  sign_in_returned env f (get ∷ t) resp (ground arith) in
                (
                  f,
                  json,
                  otp,
                  user,
                  h',
                  a,
                  b,
                  c,
                  (str_eq_iff otp.code code).0 y,
                  source,
                  signed,
                  gone,
                  ground arith,
                )
          ]
        ]
      ]
]

verify_missing :
    (env : Env) (m f code : Str) (t : History) (e : Error)
    → validate_msisdn m ≡ ok f
    → env.text_reply (redis_get (key_user_otp f)) t ≡ err e
    → verify_otp env m code t ≡ (
      failed (wrap (str "invalid OTP") (message (str "OTP not found or expired"))),
      redis_get (key_user_otp f) ∷ t,
    )
unfolding verify_otp Repo.get_otp
verify_missing env m f code t e v n = ground arith

-- A code is used once: after VerifyOTP has returned for a number, the next request for it, however
-- the number is written and whatever code it gives, is refused. Redis answers a key that was just
-- deleted with nothing.
pub verify_once :
    (env : Env) (m m' f code code' : Str) (t : History) (resp : AuthResponse)
    → AnswersGet env
    → validate_msisdn m ≡ ok f
    → validate_msisdn m' ≡ ok f
    → (verify_otp env m code t).0 ≡ returned resp
    → let t' = (verify_otp env m code t).1 in
      verify_otp env m' code' t' ≡ (
        failed (wrap (str "invalid OTP") (message (str "OTP not found or expired"))),
        redis_get (key_user_otp f) ∷ t',
      )
verify_once env m m' f code code' t resp redis v v' h =
    let (g, json, otp, user, s, w, got, decoded, same, source, signed, gone, after) =
      verified_returned env m code t resp h in
    let e : g ≡ f = grind arith in
    rw (after, e)
      (verify_missing env m' f code' (redis_delete (key_user_otp f) ∷ now ∷ s) redis_nil v'
        (redis.deleted (key_user_otp f) (now ∷ s) (rw (sym e) gone)))
