-- ===== src/Users/Laws/Contexts.antt =====
-- The two checks of a token in services/users/handler/routes.go agree.
use nebengjek.Prelude.{
  none, some, Option, ℕ, zero, suc, ◌∷◌, Str, str, str_eq, [], ◌≡◌, refl, arith, Bool-cases, inl,
  inr, length, ltb, true, false,
}
use nebengjek.Exec.{Result, ok, err, is_ok}
use nebengjek.Utils.Strings.{take}
use nebengjek.Utils.Msisdn.{drop}
use nebengjek.Users.Socket.Serve.{is_no_user}
use nebengjek.Users.Gate.{
  printed, admitted, claim, with_user, with_claims, with_token, MapClaims, Parsed, Values,
  set_claims, set_from, web_socket_jwt, success_handler,
}

with_user-claims :
    (user_id role : Option (Option Str)) (u r : Option Str)
    → with_user user_id role ≡ admitted u r
    → (user_id ≡ some u) × (role ≡ some r)
with_user-claims none role u r h = absurd (ground arith)
with_user-claims (some x) none u r h = absurd (ground arith)
with_user-claims (some x) (some y) u r h = elim (Bool-cases (is_no_user (printed x))) [
  | inl b ↦ absurd (ground arith)
  | inr b ↦ (ground arith, ground arith)
]

set_claims-admitted :
    (claims : Option MapClaims) (u r : Option Str) (values : Values)
    → with_claims claims ≡ admitted u r
    → set_claims claims values ≡ record { user_id = some u; role = some r }
set_claims-admitted none u r values h = absurd (ground arith)
set_claims-admitted (some c) u r values h =
    let (p, q) = with_user-claims (claim (str "user_id") c) (claim (str "role") c) u r h in
    rw (p, q) refl

set_from-admitted :
    (parsed : Result Parsed) (u r : Option Str) (values : Values)
    → with_token parsed ≡ admitted u r
    → set_from parsed values ≡ record { user_id = some u; role = some r }
set_from-admitted (err e) u r values h = absurd (ground arith)
set_from-admitted (ok parsed) u r values h = elim (Bool-cases parsed.valid) [
  | inl y ↦ rw y (set_claims-admitted parsed.claims u r values (ground arith))
  | inr n ↦ absurd (ground arith)
]

drop-short : (n : ℕ) (s : Str) → ltb n (length s) ≡ false → drop n s ≡ []
unfolding drop
drop-short zero [] h = refl
drop-short zero (c ∷ s) h = absurd (ground arith)
drop-short (suc n) [] h = refl
drop-short (suc n) (c ∷ s) h = drop-short n s (ground arith)

with_token-ok :
    (parsed : Result Parsed) (u r : Option Str)
    → with_token parsed ≡ admitted u r
    → is_ok parsed ≡ true
with_token-ok (ok parsed) u r h = refl
with_token-ok (err e) u r h = absurd (ground arith)

module _ (parse : Str → Result Parsed) where
  -- If the empty text is no token, a header that opens a WebSocket leaves the same user and the
  -- same role in the context of any other request, whatever was there before.
  pub success_handler-admitted :
      (auth_header : Str) (u r : Option Str) (values : Values)
      → is_ok (parse []) ≡ false
      → web_socket_jwt parse auth_header ≡ admitted u r
      → success_handler parse auth_header values ≡ record { user_id = some u; role = some r }
  unfolding web_socket_jwt success_handler
  success_handler-admitted auth_header u r values empty h =
      let token : with_token (parse (drop 7 auth_header)) ≡ admitted u r = ground arith in
      elim (Bool-cases (ltb 7 (length auth_header))) [
        | inl long ↦
            let given : str_eq auth_header [] ≡ false = ground arith in
            let prefix : str_eq (take 7 auth_header) (str "Bearer ") ≡ true = ground arith in
            rw (given, long, prefix)
              (set_from-admitted (parse (drop 7 auth_header)) u r values token)
        | inr short ↦
            let parsed = with_token-ok (parse (drop 7 auth_header)) u r token in
            let nothing = drop-short 7 auth_header short in absurd (grind arith)
      ]
