-- ===== src/Users/Laws/Otps.antt =====
-- One-time passwords from their creation to their use: GenerateOTP and VerifyOTP in
-- services/users/usecase/auth.go.
use nebengjek.Utils.Laws.Normal.{clean-digits, validate-bounds}
use nebengjek.Prelude.{
  [], refl, subst, length, leb, true, ◌++◌, ◌+◌, ◌-◌, Bool-cases, str_eq, if◌then◌else◌, Str, str,
  ◌≡◌, ◌∷◌, inl, inr, arith,
}
use nebengjek.Exec.{fail, ok, err, returned, redis_nil, message}
use nebengjek.Exec.Laws.{Result-cases}
use nebengjek.Domain.Users.{Otp}
use nebengjek.Domain.Places.{Int64}
use nebengjek.Utils.Msisdn.{validate_msisdn, generate_dummy_otp, drop, every, is_digit}
use nebengjek.Users.Env.{Env, History, redis_set, redis_get, redis_delete, new_uuid}
use nebengjek.Users.Repo
use nebengjek.Users.Repo.{key_user_otp, otp_expiration_time}
use nebengjek.Users.Usecase.Auth.{generate_otp, verify_otp, sign_in}

-- What Redis promises of a key that was just written, or just deleted.
pub record AnswersGet (env : Env) : Type 0 where
  pub written :
      (k v : Str) (ttl : Int64) (t : History)
      → env.reply (redis_set k v ttl) t ≡ ok tt
      → env.text_reply (redis_get k) (redis_set k v ttl ∷ t) ≡ ok v
  pub deleted :
      (k : Str) (t : History)
      → env.reply (redis_delete k) t ≡ ok tt
      → env.text_reply (redis_get k) (redis_delete k ∷ t) ≡ err redis_nil

-- What the JSON codec promises of a one-time password.
abbrev pub ReadsBack : Env → Type 0
ReadsBack env = (o : Otp) (s : Str) → env.json.encode_otp o ≡ ok s → env.json.decode_otp s ≡ ok o

-- The password that GenerateOTP makes for a formatted number.
abbrev pub new_otp : Env → Str → History → Otp
new_otp env f t = record {
  id = env.uuid_string (env.fresh_uuid t);
  msisdn = f;
  code = generate_dummy_otp f;
}

-- GenerateOTP that succeeds has stored a password for the formatted number.
pub generated_stored :
    (env : Env) (m f : Str) (t : History)
    → validate_msisdn m ≡ ok f
    → (generate_otp env m t).0 ≡ returned tt
    → (json : Str) × (env.json.encode_otp (new_otp env f t) ≡ ok json)
      × (env.reply (redis_set (key_user_otp f) json otp_expiration_time) (new_uuid ∷ t) ≡ ok tt)
      × ((generate_otp env m t).1
          ≡ redis_set (key_user_otp f) json otp_expiration_time ∷ new_uuid ∷ t)
unfolding generate_otp Repo.create_otp
generated_stored env m f t v h = elim (Result-cases (env.json.encode_otp (new_otp env f t))) [
  | inr (x, a) ↦ absurd (ground arith)
  | inl (json, a) ↦
      elim (Result-cases
        (env.reply (redis_set (key_user_otp f) json otp_expiration_time) (new_uuid ∷ t))) [
          | inr (x, b) ↦ absurd (ground arith)
          | inl (u, b) ↦ (json, a, b, ground arith)
        ]
]

-- With the stored password of a number at hand, VerifyOTP signs in if the code is the right one,
-- and else fails without another call.
pub verify_stored :
    (env : Env) (m f code json : Str) (otp : Otp) (t : History)
    → validate_msisdn m ≡ ok f
    → env.text_reply (redis_get (key_user_otp f)) t ≡ ok json
    → env.json.decode_otp json ≡ ok otp
    → verify_otp env m code t
      ≡ (if str_eq otp.code code then sign_in env f else fail (message (str "invalid OTP code")))
          (redis_get (key_user_otp f) ∷ t)
unfolding verify_otp Repo.get_otp
verify_stored env m f code json otp t v r d = elim (Bool-cases (str_eq otp.code code)) [
  | inl y ↦ ground arith
  | inr n ↦ ground arith
]

drop-append : (p s : Str) → drop (length p) (p ++ s) ≡ s
unfolding drop
drop-append [] s = refl
drop-append (c ∷ p) s = drop-append p s

length-parts : (p s : Str) → length (p ++ s) ≡ length p + length s
length-parts [] s = omega arith
length-parts (c ∷ p) s = ground (arith, length-parts p s)

-- Of digits, the password is the last four.
dummy-digits :
    (p last : Str)
    → every is_digit (p ++ last) ≡ true
    → length last ≡ 4
    → generate_dummy_otp (p ++ last) ≡ last
unfolding generate_dummy_otp
dummy-digits p last digits four =
    let long : leb 4 (length (p ++ last)) ≡ true = ground (arith, length-parts p last) in
    let before : length (p ++ last) - 4 ≡ length p = omega (arith, length-parts p last) in
    rw (clean-digits (p ++ last) digits, long, before) (drop-append p last)

-- A password that GenerateOTP has just stored for a number is asked for by any way to write that
-- number: the last four digits of the formatted number sign in, and every other code is refused
-- without another call. This is while Redis answers with what was written, before the password
-- expires, and for a JSON that reads back what it wrote.
pub generate-verify :
    (env : Env) (m m' p last code : Str) (t : History)
    → AnswersGet env
    → ReadsBack env
    → validate_msisdn m ≡ ok (p ++ last)
    → length last ≡ 4
    → validate_msisdn m' ≡ ok (p ++ last)
    → (generate_otp env m t).0 ≡ returned tt
    → let t' = (generate_otp env m t).1 in
      verify_otp env m' code t'
      ≡ (if str_eq last code
            then sign_in env (p ++ last)
            else fail (message (str "invalid OTP code")))
          (redis_get (key_user_otp (p ++ last)) ∷ t')
generate-verify env m m' p last code t redis codec v four v' h =
    let f = p ++ last in
    let otp = new_otp env f t in
    let (json, encoded, stored, after) = generated_stored env m f t v h in
    let digits = validate-bounds m f v in
    subst
      (λ x.
        verify_otp env m' code (generate_otp env m t).1
        ≡ (if str_eq x code then sign_in env f else fail (message (str "invalid OTP code")))
            (redis_get (key_user_otp f) ∷ (generate_otp env m t).1))
      (dummy-digits p last digits.0 four)
      (verify_stored env m' f code json otp (generate_otp env m t).1 v'
        (rw after (redis.written (key_user_otp f) json otp_expiration_time (new_uuid ∷ t) stored))
        (codec otp json encoded))
