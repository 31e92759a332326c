-- ===== src/Http/Laws/Pauses.antt =====
-- How often a request is sent, and how long is waited: Do in internal/pkg/http/client.go.
use nebengjek.Prelude.{
  ◌++◌, if◌then◌else◌, Str, ℕ, zero, suc, ◌+◌, ◌*◌, ◌^◌, ◌≤◌, ◌≡◌, refl, ltb, Bool, true, false,
  Option, none, some, [], ◌∷◌, inl, inr, arith,
}
use nebengjek.Exec.{◌>>◌, ◌>>=◌, Result, ok, err, Exec}
use nebengjek.Exec.Laws.{Outcome-cases, Result-cases}
use nebengjek.Http.Client.{
  request_of, marshaled, cancelled, wait_if, close_if, Request, Response, Exchange, Call, History,
  Env, exchange, close_body, wait, try_request, after_attempt, retry_unless, do_request, settled,
}

-- How often something was sent, and how long was waited, in milliseconds.
unfoldable pub exchanges : History → ℕ
exchanges [] = 0
exchanges (exchange req ∷ t) = suc (exchanges t)
exchanges (c ∷ t) = exchanges t

unfoldable pub waited : History → ℕ
waited [] = 0
waited (wait n ∷ t) = n + waited t
waited (c ∷ t) = waited t

-- A computation sends at most so often, and waits at most so long.
record Costs (sent ms : ℕ) (m : Exec Call Exchange) : Type 0 where
  at : (t : History) → (exchanges (m t).1 ≤ sent + exchanges t) × (waited (m t).1 ≤ ms + waited t)

-- What an attempt may still wait for, by its number.
abbrev budget : ℕ → ℕ
budget zero = 300
budget (suc zero) = 200
budget (suc (suc n)) = 0

module _ (env : Env) where
  -- After the pause, if there is one, the rest is done or the end of the context is given.
  wait-Costs :
      (b : Bool) (ms left after before : ℕ) (rest : Exec Call Exchange)
      → (if b then ms else 0) + after ≤ before
      → Costs left after rest
      → Costs left before (wait_if env b ms >>= λ w. cancelled w rest)
  unfolding exchanges waited
  wait-Costs true ms left after before rest le c = record {
    at = λ t. elim (Result-cases (env.wait_reply ms t)) [
      | inl (u, a) ↦ ground (arith, c.at (wait ms ∷ t))
      | inr (e, a) ↦ ground arith
    ];
  }
  wait-Costs false ms left after before rest le c = record { at = λ t. ground (arith, c.at t) }

  budget-le :
      (attempt : ℕ)
      → (if ltb attempt 2 then 2 ^ attempt * 100 else 0) + budget (suc attempt) ≤ budget attempt
  budget-le zero = ground arith
  budget-le (suc zero) = ground arith
  budget-le (suc (suc n)) = ground arith

  closed-Costs :
      (o : Option Response) (left ms : ℕ) (rest : Exec Call Exchange)
      → Costs left ms rest
      → Costs left ms (close_if o >> rest)
  unfolding exchanges waited
  closed-Costs none left ms rest c = record { at = λ t. c.at t }
  closed-Costs (some r) left ms rest c = record { at = λ t. c.at (close_body ∷ t) }

  retry-Costs :
      (b : Bool) (x : Exchange) (rest : Exec Call Exchange) (attempt left : ℕ)
      → Costs left (budget (suc attempt)) rest
      → Costs left (budget attempt) (retry_unless env b x rest attempt)
  unfolding retry_unless
  retry-Costs true x rest attempt left c = record { at = λ t. ground arith }
  retry-Costs false x rest attempt left c = wait-Costs _ _ left _ _ rest (budget-le attempt) c

  attempt-Costs :
      (b : Bool) (x : Exchange) (rest : Exec Call Exchange) (attempt left : ℕ)
      → Costs left (budget (suc attempt)) rest
      → Costs left (budget attempt) (after_attempt env b x rest attempt)
  unfolding after_attempt exchanges waited
  attempt-Costs true x rest attempt left c = record { at = λ t. ground arith }
  attempt-Costs false x rest attempt left c =
      closed-Costs x.response left (budget attempt) _ (retry-Costs _ x rest attempt left c)

  settle-Costs :
      (x : Exchange) (k : Bool → Exec Call Exchange) (left ms : ℕ)
      → ((b : Bool) → Costs left ms (k b))
      → Costs left ms (settled x >>= k)
  settle-Costs x k left ms c = record {
    at = λ t. elim (Outcome-cases (settled x t).0) [
      | inl (b, q) ↦ ground (arith, (c b).at t)
      | inr (inl (e, q)) ↦ ground arith
      | inr (inr q) ↦ ground arith
    ];
  }

  try-Costs :
      (req : Request) (left attempt : ℕ) (last : Exchange)
      → Costs left (budget attempt) (try_request env req left attempt last)
  unfolding try_request exchanges waited
  try-Costs req zero attempt last = record { at = λ t. ground arith }
  try-Costs req (suc left) attempt last = record {
    at = λ t.
        let x = env.exchange_reply req t in
        ground (
          arith,
          (settle-Costs x
                (λ done.
                  after_attempt env done x (try_request env req left (suc attempt) x) attempt)
                left (budget attempt)
                (λ b. attempt-Costs b x _ attempt left (try-Costs req left (suc attempt) x))).at
              (exchange req ∷ t),
        );
  }

  marshaled-same : (body : Option (Result Str)) (t : History) → (marshaled env body t).1 ≡ t
  marshaled-same none t = refl
  marshaled-same (some (ok s)) t = refl
  marshaled-same (some (err e)) t = refl

  -- A request is sent at most three times, with at most 300 milliseconds of pauses in between,
  -- whatever the answers are and however it ends.
  pub do_request-bounds :
      (method endpoint : Str) (body : Option (Result Str)) (t : History)
      → let t' = (do_request env method endpoint body t).1 in
        (exchanges t' ≤ 3 + exchanges t) × (waited t' ≤ 300 + waited t)
  unfolding do_request
  do_request-bounds method endpoint body t =
      let none_yet : Exchange = record { response = none; error = none } in
      elim (Outcome-cases (marshaled env body t).0) [
        | inr q ↦ ground (arith, marshaled-same body t)
        | inl (json, q) ↦ elim (Result-cases (env.new_request method (env.base_url ++ endpoint))) [
          | inr (e, a) ↦ ground (arith, marshaled-same body t)
          | inl (u, a) ↦ ground (
            arith,
            marshaled-same body t,
            (try-Costs (request_of env method endpoint json) 3 0 none_yet).at t,
          )
        ]
      ]
