-- ===== src/Users/Token.antt =====
-- internal/pkg/jwt/token.go.
use nebengjek.Prelude.{Str, Option, none, true, false, ◌*◌, ◌%◌, ◌^◌}
use nebengjek.Exec.{Result, ok, err, Exec, pure, of_result, ◌>>=◌}
use nebengjek.Domain.Places.{Int64, Time, Uuid}
use nebengjek.Users.Env.{Call, Env, Claims, Token, time_now}

module _ (env : Env) where
  -- `time.Now().Add(time.Duration(cfg.JWT.Expiration) * time.Minute).Unix()`
  unfoldable pub expiry : Time → Int64
  expiry t = env.unix (env.time_add t (env.jwt.expiration * 60000000000 % 2 ^ 64))

  unfoldable pub claims_of : Uuid → Str → Str → Time → Claims
  unfolding expiry
  claims_of user_id msisdn role t = record {
    user_id = user_id;
    msisdn = msisdn;
    role = role;
    exp = expiry t;
    iss = env.jwt.issuer;
  }

  -- The token, and when it expires.
  unfoldable pub generate_token : Uuid → Str → Str → Exec Call (Str × Int64)
  unfolding claims_of expiry
  generate_token user_id msisdn role = do
    t ← time_now env
    token ← of_result (env.sign env.jwt.secret (claims_of user_id msisdn role t))
    pure (token, expiry t)

  -- `if claims, ok := token.Claims.(jwt.MapClaims); ok && token.Valid`, else nil and no error.
  unfoldable pub claims_if_valid : Token → Option Claims
  claims_if_valid token = elim token.valid [ true ↦ token.claims | false ↦ none ]

  unfoldable pub validate_token : Str → Str → Result (Option Claims)
  unfolding claims_if_valid
  validate_token token secret = elim (env.parse_token token secret) [
    | ok parsed ↦ ok (claims_if_valid parsed)
    | err e ↦ err e
  ]
