-- ===== src/Http/Laws/Retries.antt =====
-- Which of several answers is given: Do in internal/pkg/http/client.go.
use nebengjek.Prelude.{
  subst, ◌≢◌, if◌then◌else◌, ℕ, zero, suc, ◌*◌, ◌^◌, ◌≡◌, refl, ltb, Bool, true, false, Bool-cases,
  Option, none, some, ◌∷◌, inl, inr, arith,
}
use nebengjek.Exec.{Error, ◌>>=◌, ok, Exec, returned}
use nebengjek.Http.Client.{
  cancelled, wait_if, Request, Response, Exchange, Call, History, Env, exchange, close_body,
  try_request, after_attempt, retry_unless, is_client_error, settled,
}
use nebengjek.Http.Laws.Pauses.{exchanges}

-- An answer that settles a request, or refuses it as the client's error.
abbrev pub is_settled : Exchange → Bool
is_settled x = elim x.error [
  | some e ↦ is_client_error x.response
  | none ↦ elim x.response [ none ↦ false | some r ↦ ltb r.status_code 500 ]
]

-- The first of the answers n, n + 1 and n + 2 that is settled, or else the third.
abbrev pub chosen : (ℕ → Exchange) → ℕ → Exchange
chosen answers n =
    if is_settled (answers n)
    then answers n
    else if is_settled (answers (suc n))
    then answers (suc n)
    else answers (suc (suc n))

-- The same of any number of answers, with the one that is given if there is none.
abbrev chosen_from : (ℕ → Exchange) → ℕ → ℕ → Exchange → Exchange
chosen_from answers zero n last = last
chosen_from answers (suc left) n last =
    if is_settled (answers n) then answers n else chosen_from answers left (suc n) (answers n)

-- Either an answer or an error is there.
abbrev pub IsAnswer : Exchange → Type 0
IsAnswer x = (x.error ≡ none) → x.response ≢ none

module _ (env : Env) where
  -- An answer that needs no retry is given.
  settled-step :
      (o : Option Response) (e : Option Error) (rest : Exec Call Exchange) (attempt : ℕ)
      (t : History)
      → let x : Exchange = record { response = o; error = e } in
        is_settled x ≡ true
        → ((settled x >>= λ done. after_attempt env done x rest attempt) t).0 ≡ returned x
  unfolding after_attempt retry_unless
  settled-step none none rest attempt t h = ground arith
  settled-step none (some e) rest attempt t h = ground arith
  settled-step (some r) none rest attempt t h = ground arith
  settled-step (some r) (some e) rest attempt t h = ground arith

  -- Any other answer leaves it to the rest, after a pause that the context survives.
  abbrev after_wait : ℕ → History → History
  after_wait attempt t = (wait_if env (ltb attempt 2) (2 ^ attempt * 100) t).1

  wait-step :
      (b : Bool) (ms : ℕ) (rest : Exec Call Exchange) (t : History)
      → ((n : ℕ) (h : History) → env.wait_reply n h ≡ ok tt)
      → (exchanges (wait_if env b ms t).1 ≡ exchanges t)
        × ((wait_if env b ms >>= λ w. cancelled w rest) t ≡ rest (wait_if env b ms t).1)
  unfolding exchanges
  wait-step true ms rest t w = (refl, ground (arith, w ms t))
  wait-step false ms rest t w = (refl, refl)

  retry-step :
      (o : Option Response) (e : Option Error) (rest : Exec Call Exchange) (attempt : ℕ)
      (t : History)
      → ((n : ℕ) (h : History) → env.wait_reply n h ≡ ok tt)
      → let x : Exchange = record { response = o; error = e } in
        IsAnswer x
        → is_settled x ≡ false
        → (t' : History) × (exchanges t' ≡ exchanges t)
          × ((settled x >>= λ done. after_attempt env done x rest attempt) t ≡ rest t')
  unfolding after_attempt retry_unless exchanges
  retry-step none none rest attempt t w a h = absurd (a refl refl)
  retry-step none (some e) rest attempt t w a h =
      let (p, q) = wait-step (ltb attempt 2) (2 ^ attempt * 100) rest t w in
      (after_wait attempt t, p, q)
  retry-step (some r) none rest attempt t w a h =
      let refused : is_client_error (some r) ≡ false = ground arith in
      let (p, q) = wait-step (ltb attempt 2) (2 ^ attempt * 100) rest (close_body ∷ t) w in
      (after_wait attempt (close_body ∷ t), p, rw (h, refused) q)
  retry-step (some r) (some e) rest attempt t w a h =
      let (p, q) = wait-step (ltb attempt 2) (2 ^ attempt * 100) rest (close_body ∷ t) w in
      (after_wait attempt (close_body ∷ t), p, rw h q)

module _ (env : Env) (req : Request) (answers : ℕ → Exchange)
    (serves : (h : History) → env.exchange_reply req h ≡ answers (exchanges h))
    (waits : (n : ℕ) (h : History) → env.wait_reply n h ≡ ok tt)
    (answered : (n : ℕ) → IsAnswer (answers n)) where
  first-step :
      (left attempt : ℕ) (last : Exchange) (t : History)
      → is_settled (answers (exchanges t)) ≡ true
      → (try_request env req (suc left) attempt last t).0 ≡ returned (answers (exchanges t))
  unfolding try_request exchanges
  first-step left attempt last t h = rw (serves t) (
      settled-step env (answers (exchanges t)).response (answers (exchanges t)).error _ attempt
        (exchange req ∷ t) h)

  next-step :
      (left attempt : ℕ) (last : Exchange) (t : History)
      → is_settled (answers (exchanges t)) ≡ false
      → (t' : History) × (exchanges t' ≡ suc (exchanges t))
        × (try_request env req (suc left) attempt last t
            ≡ try_request env req left (suc attempt) (answers (exchanges t)) t')
  unfolding try_request exchanges
  next-step left attempt last t h =
      let x = answers (exchanges t) in
      let (t', p, q) =
        retry-step env x.response x.error (try_request env req left (suc attempt) x) attempt
          (exchange req ∷ t) waits (answered (exchanges t)) h in
      (t', p, rw (serves t) q)

  try-chosen :
      (left attempt : ℕ) (last : Exchange) (t : History)
      → (try_request env req left attempt last t).0
        ≡ returned (chosen_from answers left (exchanges t) last)
  unfolding try_request
  try-chosen zero attempt last t = refl
  try-chosen (suc left) attempt last t = elim (Bool-cases (is_settled (answers (exchanges t)))) [
    | inl y ↦ rw y (first-step left attempt last t y)
    | inr n ↦
        let x = answers (exchanges t) in
        let (t', p, q) = next-step left attempt last t n in
        rw (n, q)
          (subst
            (λ m.
              (try_request env req left (suc attempt) x t').0
              ≡ returned (chosen_from answers left m x))
            p (try-chosen left (suc attempt) x t'))
  ]

  -- Of a server that answers by the number of the request, with a context that lasts, three
  -- answers are tried in order: the result is the first that is settled, or else the third.
  pub try_request-chosen :
      (last : Exchange) (t : History)
      → (try_request env req 3 0 last t).0 ≡ returned (chosen answers (exchanges t))
  try_request-chosen last t = ground (arith, try-chosen 3 0 last t)
