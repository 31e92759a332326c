-- ===== src/Http/Laws/Sent.antt =====
-- What the client sends: the requests of Do in internal/pkg/http/client.go are all the same.
use nebengjek.Prelude.{
  inr, inl, leb, Bool-cases, true, false, none, zero, refl, ◌++◌, ◌*◌, some, ◌^◌, ltb, arith, suc,
  refl, ℕ, Bool, ◌∷◌, ◌≡◌, Option, List, [], Str, str,
}
use nebengjek.Exec.{of_result, wrapping, Result, ◌>>=◌, Exec, ok, err}
use nebengjek.Exec.Emits.{Emits, Emits-bind, Emits-silent, Emits-wrapping}
use nebengjek.Http.Client.{
  delete, post_json, read_body, get_json, decode_payload, Structured, read_result, send, close_if,
  marshaled, cancelled, do_request, settled, retry_unless, response_or_fail, decode_response,
  after_attempt, try_request, Response, wait_if, Exchange, exchange, request_of, Call, Request, Env,
  History,
}
use nebengjek.Exec.Laws.{Result-cases}
use nebengjek.Http.Gateways.{accepted_or_fail, Codec}

-- The requests of a history, the newest first.
unfoldable pub sent : History → List Request
sent [] = []
sent (exchange req ∷ t) = req ∷ sent t
sent (c ∷ t) = sent t

module _ (env : Env) where
  -- One of the requests of this method to this endpoint: they differ in the body.
  abbrev pub IsRequest : Str → Str → Request → Type 0
  IsRequest method endpoint r = (body : Option Str) × (r ≡ request_of env method endpoint body)

  abbrev pub Sends {ℓ} : {A : Type ℓ} → Str → Str → Exec Call A → Type ℓ
  Sends method endpoint m = Emits (IsRequest method endpoint) sent m

  silently {ℓ} :
      {A : Type ℓ} (method endpoint : Str) (m : Exec Call A)
      → ((t : History) → sent (m t).1 ≡ sent t)
      → Sends method endpoint m
  silently method endpoint m same = Emits-silent _ _ m same

  payload-same :
      {A : Type 0} (decode : Str → Result A) (payload : Option Str) (t : History)
      → (decode_payload env decode payload t).1 ≡ t
  payload-same decode none t = refl
  payload-same decode (some s) t = ground arith

  body-same :
      {A : Type 0} (decode : Str → Result A) (body : Str) (s : Result Structured) (t : History)
      → (read_body env decode body s t).1 ≡ t
  body-same decode body (err e) t = ground arith
  body-same decode body (ok s) t = elim (Bool-cases s.success) [
    | inl y ↦ ground (arith, payload-same decode s.payload t)
    | inr n ↦ ground arith
  ]

  read-same :
      {A : Type 0} (result : Option (Str → Result A)) (r : Response) (t : History)
      → (read_result env result r t).1 ≡ t
  read-same none r t = refl
  read-same (some decode) r t = elim (Result-cases r.body) [
    | inl (body, b) ↦ ground (arith, body-same decode body (env.parse_structured body) t)
    | inr (e, b) ↦ ground arith
  ]

  module _ (method endpoint : Str) where
    cancelled-Sends :
        (w : Result (Unit {0})) (rest : Exec Call Exchange)
        → Sends method endpoint rest
        → Sends method endpoint (cancelled w rest)
    cancelled-Sends (ok u) rest s = s
    cancelled-Sends (err e) rest s = silently method endpoint _ (λ t. refl)

    wait-silent : (b : Bool) (ms : ℕ) → Sends method endpoint (wait_if env b ms)
    unfolding sent
    wait-silent true ms = silently method endpoint _ (λ t. refl)
    wait-silent false ms = silently method endpoint _ (λ t. refl)

    close-silent : (o : Option Response) → Sends method endpoint (close_if o)
    unfolding sent
    close-silent none = silently method endpoint _ (λ t. refl)
    close-silent (some r) = silently method endpoint _ (λ t. refl)

    retry-Sends :
        (b : Bool) (x : Exchange) (rest : Exec Call Exchange) (attempt : ℕ)
        → Sends method endpoint rest
        → Sends method endpoint (retry_unless env b x rest attempt)
    unfolding retry_unless
    retry-Sends true x rest attempt s = silently method endpoint _ (λ t. refl)
    retry-Sends false x rest attempt s =
        Emits-bind _ _ (wait_if env (ltb attempt 2) (2 ^ attempt * 100)) _ (wait-silent _ _)
          λ w. cancelled-Sends w rest s

    attempt-Sends :
        (b : Bool) (x : Exchange) (rest : Exec Call Exchange) (attempt : ℕ)
        → Sends method endpoint rest
        → Sends method endpoint (after_attempt env b x rest attempt)
    unfolding after_attempt
    attempt-Sends true x rest attempt s = silently method endpoint _ (λ t. refl)
    attempt-Sends false x rest attempt s =
        Emits-bind _ _ (close_if x.response) _ (close-silent x.response)
          λ u. retry-Sends _ x rest attempt s

    settled-silent : (x : Exchange) → Sends method endpoint (settled x)
    settled-silent x = silently method endpoint _ (λ t. ground arith)

    try-Sends :
        (body : Option Str) (left attempt : ℕ) (last : Exchange)
        → Sends method endpoint
            (try_request env (request_of env method endpoint body) left attempt last)
    unfolding try_request sent
    try-Sends body zero attempt last = silently method endpoint _ (λ t. refl)
    try-Sends body (suc left) attempt last =
        let req = request_of env method endpoint body in
        Emits-bind _ _ (send env req) _ (record { at = λ t. (req ∷ [], refl, ((body, refl), tt)) })
          λ x.
            Emits-bind _ _ (settled x) _ (settled-silent x)
              λ done. attempt-Sends done x _ attempt (try-Sends body left (suc attempt) x)

    marshaled-silent : (body : Option (Result Str)) → Sends method endpoint (marshaled env body)
    marshaled-silent none = silently method endpoint _ (λ t. refl)
    marshaled-silent (some (ok s)) = silently method endpoint _ (λ t. refl)
    marshaled-silent (some (err e)) = silently method endpoint _ (λ t. refl)

    pub do_request-Sends :
        (body : Option (Result Str)) → Sends method endpoint (do_request env method endpoint body)
    unfolding do_request
    do_request-Sends body = Emits-bind _ _ (marshaled env body) _ (marshaled-silent body) λ json.
        Emits-bind _ _ (wrapping _ (of_result (env.new_request method (env.base_url ++ endpoint))))
          _ (silently method endpoint _ (λ t. refl))
          λ u. try-Sends json 3 0 (record { response = none; error = none })

    response-silent : (x : Exchange) → Sends method endpoint (response_or_fail env x)
    response-silent x = silently method endpoint _ (λ t. ground arith)

    decode-silent :
        {A : Type 0} (result : Option (Str → Result A)) (r : Response)
        → Sends method endpoint (decode_response env result r)
    unfolding decode_response sent
    decode-silent result r = silently method endpoint _ (λ t.
        elim (Bool-cases (leb 400 r.status_code)) [
          | inl y ↦ ground arith
          | inr n ↦ ground (arith, read-same result r t)
        ])

  pub get_json-Sends :
      {A : Type 0} (endpoint : Str) (result : Option (Str → Result A))
      → Sends (str "GET") endpoint (get_json env endpoint result)
  unfolding get_json
  get_json-Sends endpoint result =
      Emits-bind _ _ (do_request env (str "GET") endpoint none) _
        (do_request-Sends (str "GET") endpoint none)
        λ x.
          Emits-bind _ _ (response_or_fail env x) _ (response-silent (str "GET") endpoint x)
            λ r. decode-silent (str "GET") endpoint result r

  pub post_json-Sends :
      {A : Type 0} (endpoint : Str) (body : Option (Result Str)) (result : Option (Str → Result A))
      → Sends (str "POST") endpoint (post_json env endpoint body result)
  unfolding post_json
  post_json-Sends endpoint body result =
      Emits-bind _ _ (do_request env (str "POST") endpoint body) _
        (do_request-Sends (str "POST") endpoint body)
        λ x.
          Emits-bind _ _ (response_or_fail env x) _ (response-silent (str "POST") endpoint x)
            λ r. decode-silent (str "POST") endpoint result r

  accepted-silent :
      (endpoint what : Str) (codec : Codec) (r : Response)
      → Sends (str "DELETE") endpoint (accepted_or_fail env codec what r)
  unfolding sent
  accepted-silent endpoint what codec r = silently (str "DELETE") endpoint _ (λ t. ground arith)

  -- The two requests to remove someone.
  pub removal-Sends :
      (endpoint what : Str) (codec : Codec)
      → Sends (str "DELETE") endpoint (
          wrapping what (delete env endpoint >>= λ x. response_or_fail env x) >>= λ r.
          accepted_or_fail env codec what r)
  removal-Sends endpoint what codec =
      Emits-bind _ _ (wrapping what (delete env endpoint >>= λ x. response_or_fail env x)) _
        (Emits-wrapping _ _ _ _ (
          Emits-bind _ _ (do_request env (str "DELETE") endpoint none) _
            (do_request-Sends (str "DELETE") endpoint none)
            λ x. response-silent (str "DELETE") endpoint x))
        λ r. accepted-silent endpoint what codec r
