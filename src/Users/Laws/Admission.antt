-- ===== src/Users/Laws/Admission.antt =====
-- Who may open a WebSocket: GetWebSocketJWTMiddleware of services/users/handler/routes.go before
-- HandleWebSocket of services/users/handler/websocket/echo_handler.go.
use nebengjek.Prelude.{
  none, zero, Bool-cases, inr, inl, str_eq_iff, ◌∙◌, sym, ◌⊎◌, str_eq, ap, true, ◌∷◌, arith, List,
  suc, some, str, ◌++◌, ◌≡◌, ℕ, Option, refl, [], Str,
}
use nebengjek.Exec.{Result, ok, err}
use nebengjek.Users.Laws.Identity.{serve-Extends}
use nebengjek.Users.Gate.{
  refused, serve_admitted, claim, Admission, admitted, with_claims, MapClaims, with_token, connect,
  with_user, web_socket_jwt, Parsed,
}
use nebengjek.Utils.Strings.{take}
use nebengjek.Utils.Msisdn.{drop}
use nebengjek.Users.Socket.Serve.{is_no_user, handle_websocket}
use nebengjek.Users.Env.{History, Conn, Env}
use nebengjek.Domain.Users.{WsMessage}
use nebengjek.Exec.Emits.{Extends}
use nebengjek.Users.Laws.Acts.{acts, InNameOf}

take-drop : (n : ℕ) (s : Str) → take n s ++ drop n s ≡ s
unfolding take drop
take-drop zero s = refl
take-drop (suc n) [] = refl
take-drop (suc n) (c ∷ s) = ap (λ x. c ∷ x) (take-drop n s)

-- A header that bears a valid token in whose claims the user is named.
pub record Bears (parse : Str → Result Parsed) (auth_header u : Str) : Type 0 where
  pub token : Str
  pub claims : MapClaims
  pub header : auth_header ≡ str "Bearer " ++ token
  pub valid : parse token ≡ ok (record { claims = some claims; valid = true })
  pub named : claim (str "user_id") claims ≡ some (some u)

with_user-named :
    (user_id role : Option (Option Str)) (u : Str) (r : Option Str)
    → with_user user_id role ≡ admitted (some u) r
    → user_id ≡ some (some u)
with_user-named none role u r h = absurd (ground arith)
with_user-named (some x) none u r h = absurd (ground arith)
with_user-named (some x) (some role) u r h = ground arith

with_claims-named :
    (claims : Option MapClaims) (u : Str) (r : Option Str)
    → with_claims claims ≡ admitted (some u) r
    → (c : MapClaims) × (claims ≡ some c) × (claim (str "user_id") c ≡ some (some u))
with_claims-named none u r h = absurd (ground arith)
with_claims-named (some c) u r h = (c, refl, with_user-named _ _ u r h)

parsed_with :
    (parsed : Parsed) (c : MapClaims)
    → parsed.claims ≡ some c
    → parsed.valid ≡ true
    → parsed ≡ record { claims = some c; valid = true }
parsed_with parsed c p q = λ i. record { claims = p i; valid = q i }

with_token-named :
    (parsed : Result Parsed) (u : Str) (r : Option Str)
    → with_token parsed ≡ admitted (some u) r
    → (c : MapClaims) × (parsed ≡ ok (record { claims = some c; valid = true }))
      × (claim (str "user_id") c ≡ some (some u))
with_token-named (err e) u r h = absurd (ground arith)
with_token-named (ok parsed) u r h = elim (Bool-cases parsed.valid) [
  | inl y ↦
      let (c, e, n) = with_claims-named parsed.claims u r (ground arith) in
      (c, ap ok (parsed_with parsed c e y), n)
  | inr n ↦ absurd (ground arith)
]

module _ (parse : Str → Result Parsed) where
  jwt-Bears :
      (auth_header u : Str) (r : Option Str)
      → web_socket_jwt parse auth_header ≡ admitted (some u) r
      → Bears parse auth_header u
  unfolding web_socket_jwt
  jwt-Bears auth_header u r h =
      let admitted_by : with_token (parse (drop 7 auth_header)) ≡ admitted (some u) r =
        ground arith in
      let prefix : str_eq (take 7 auth_header) (str "Bearer ") ≡ true = ground arith in
      let (c, e, n) = with_token-named (parse (drop 7 auth_header)) u r admitted_by in
      record {
        token = drop 7 auth_header;
        claims = c;
        header =
            sym (take-drop 7 auth_header)
            ∙ ap (λ x. x ++ drop 7 auth_header) ((str_eq_iff _ _).0 prefix);
        valid = e;
        named = n;
      }

  serve-Signed :
      (env : Env) (a : Admission) (ws : Conn) (msgs : List WsMessage) (t : History)
      → ((serve_admitted parse env a ws msgs t).1 ≡ t)
        ⊎ ((u : Str) × (r : Option Str) × (a ≡ admitted (some u) r)
            × Extends (InNameOf u) (acts t) (acts (serve_admitted parse env a ws msgs t).1))
  unfolding handle_websocket
  serve-Signed env (refused s) ws msgs t = inl refl
  serve-Signed env (admitted none r) ws msgs t = inl refl
  serve-Signed env (admitted (some u) none) ws msgs t = inl refl
  serve-Signed env (admitted (some u) (some r)) ws msgs t = elim (Bool-cases (is_no_user u)) [
    | inl y ↦ inl (rw y refl)
    | inr n ↦ inr (u, some r, refl, rw n (serve-Extends env u ws msgs t))
  ]

  -- A request to open a WebSocket has no effect, or its header bears a valid token that names a
  -- user. Then, whatever messages follow, each location and each confirmation that is passed on is
  -- in the name of that user.
  pub connect-Extends :
      (env : Env) (auth_header : Str) (ws : Conn) (msgs : List WsMessage) (t : History)
      → ((connect parse env auth_header ws msgs t).1 ≡ t)
        ⊎ ((u : Str) × Bears parse auth_header u
            × Extends (InNameOf u) (acts t) (acts (connect parse env auth_header ws msgs t).1))
  unfolding connect
  connect-Extends env auth_header ws msgs t =
      elim (serve-Signed env (web_socket_jwt parse auth_header) ws msgs t) [
        | inl same ↦ inl same
        | inr s ↦ let (u, r, e, x) = s in inr (u, jwt-Bears auth_header u r e, x)
      ]
