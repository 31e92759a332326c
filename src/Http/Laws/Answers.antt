-- ===== src/Http/Laws/Answers.antt =====
-- What a decoded answer means: GetJSON, PostJSON and PutJSON in internal/pkg/http/client.go.
use nebengjek.Prelude.{
  subst, Str, Option, none, some, ◌≡◌, ◌<◌, ◌⊎◌, inl, inr, refl, true, Bool-cases, arith, leb,
}
use nebengjek.Exec.{Error, Result, ok, err, returned}
use nebengjek.Exec.Laws.{Result-cases}
use nebengjek.Http.Client.{
  read_body, decode_payload, Response, Structured, History, Env, decode_response,
}

-- What a body says: the data of a structured answer, nothing if such an answer has no data, or the
-- body itself if it is no structured answer.
abbrev pub Says : {A : Type 0} → Env → (Str → Result A) → Str → Option A → Type 0
Says env decode body (some a) =
    ((s : Structured) × (payload : Str) × (env.parse_structured body ≡ ok s)
      × (s.success ≡ true)
      × (s.payload ≡ some payload)
      × (decode payload ≡ ok a))
    ⊎ ((e : Error) × (env.parse_structured body ≡ err e) × (decode body ≡ ok a))
Says env decode body none =
    (s : Structured) × (env.parse_structured body ≡ ok s) × (s.success ≡ true) × (s.payload ≡ none)

payload-Says :
    {A : Type 0} (env : Env) (decode : Str → Result A) (body : Str) (s : Structured) (t : History)
    (p : Option Str) (o : Option A)
    → env.parse_structured body ≡ ok s
    → s.success ≡ true
    → s.payload ≡ p
    → (decode_payload env decode p t).0 ≡ returned o
    → Says env decode body o
payload-Says env decode body s t none none q y e h = (s, q, y, e)
payload-Says env decode body s t none (some a) q y e h = absurd (ground arith)
payload-Says env decode body s t (some payload) o q y e h = elim (Result-cases (decode payload)) [
  | inr (x, d) ↦ absurd (ground arith)
  | inl (a, d) ↦
      let same : some a ≡ o = ground arith in
      subst (λ r. Says env decode body r) same (inl (s, payload, q, y, e, d))
]

read-Says :
    {A : Type 0} (env : Env) (decode : Str → Result A) (body : Str) (t : History) (o : Option A)
    → (read_body env decode body (env.parse_structured body) t).0 ≡ returned o
    → Says env decode body o
read-Says env decode body t o h = elim (Result-cases (env.parse_structured body)) [
  | inr (e, q) ↦ elim (Result-cases (decode body)) [
    | inr (x, d) ↦ absurd (ground arith)
    | inl (a, d) ↦
        let same : some a ≡ o = ground arith in
        subst (λ r. Says env decode body r) same (inr (e, q, d))
  ]
  | inl (s, q) ↦ elim (Bool-cases s.success) [
    | inr n ↦ absurd (ground arith)
    | inl y ↦ payload-Says env decode body s t s.payload o q y refl (ground arith)
  ]
]

-- Decoding that returns had a status below 400 and a body that was read to its end, and gives what
-- the body says. An answer that reports no success is never taken for a result.
pub decoded_returned :
    {A : Type 0} (env : Env) (decode : Str → Result A) (r : Response) (o : Option A) (t : History)
    → (decode_response env (some decode) r t).0 ≡ returned o
    → (r.status_code < 400) × (body : Str) × (r.body ≡ ok body) × Says env decode body o
unfolding decode_response
decoded_returned env decode r o t h = elim (Bool-cases (leb 400 r.status_code)) [
  | inl y ↦ absurd (ground arith)
  | inr n ↦ elim (Result-cases r.body) [
    | inr (e, b) ↦ absurd (ground arith)
    | inl (body, b) ↦ (ground arith, body, b, read-Says env decode body t o (ground arith))
  ]
]
