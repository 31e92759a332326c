-- ===== src/Tests/Admission.antt =====
-- The check of the token at concrete inputs.
use nebengjek.Prelude.{true, ◌⊎◌, ◌∷◌, if◌then◌else◌, ◌≡◌, some, str_eq, str, refl, [], Str}
use nebengjek.Tests.UserWorld.{user_world}
use nebengjek.Users.Gate.{admitted, refused, claim, Parsed, web_socket_jwt, connect, MapClaims}
use nebengjek.Exec.{message, err, ok, Result}
use nebengjek.Tests.Sockets.{messages}
use nebengjek.Users.Laws.Admission.{connect-Extends, Bears}
use nebengjek.Exec.Emits.{Extends}
use nebengjek.Users.Laws.Acts.{acts, InNameOf}

abbrev own_claims : MapClaims
own_claims = (str "role", some (str "driver")) ∷ (str "user_id", some (2 ∷ [])) ∷ []

-- Only one token is known.
abbrev one_token : Str → Result Parsed
one_token s =
    if str_eq s (str "abc")
    then ok (record { claims = some own_claims; valid = true })
    else err (message (str "token is malformed"))

connect-Extends_example :
    ((connect one_token user_world (str "Bearer abc") 7 messages []).1 ≡ [])
    ⊎ ((u : Str) × Bears one_token (str "Bearer abc") u
        × Extends
            (InNameOf u)
            (acts [])
            (acts (connect one_token user_world (str "Bearer abc") 7 messages []).1))
connect-Extends_example = connect-Extends one_token user_world (str "Bearer abc") 7 messages []

admitted_token :
    web_socket_jwt one_token (str "Bearer abc") ≡ admitted (some (2 ∷ [])) (some (str "driver"))
unfolding web_socket_jwt str_eq claim str
admitted_token = refl

refused_prefix :
    web_socket_jwt one_token (str "Basic abc") ≡ refused (str "Invalid authorization header format")
unfolding web_socket_jwt str_eq str
refused_prefix = refl
