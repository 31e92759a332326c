-- ===== src/Exec.antt =====
-- Go code that calls the outside world and returns errors: a computation over the history of its
-- calls, newest first. What a call answers is a function of the history before it, so every
-- pattern of replies and failures is covered. An error is a value, as in Go.
pub mod Laws
pub mod Settles
pub mod Emits
use nebengjek.Prelude.{true, false, Str, str, List, ◌∷◌, ◌++◌, Bool, if◌then◌else◌}

-- `external` is an error made outside the repository; `wrap` is `fmt.Errorf("...: %w", err)`.
pub data Error : Type 0 where
  external : Str → Error
  no_rows : Error
  redis_nil : Error
  message : Str → Error
  wrap : Str → Error → Error

-- `err.Error()`
unfoldable pub error_text : Error → Str
error_text (external s) = s
error_text no_rows = str "sql: no rows in result set"
error_text redis_nil = str "redis: nil"
error_text (message s) = s
error_text (wrap s e) = s ++ (str ": " ++ error_text e)

pub data Result {ℓ} (A : Type ℓ) : Type ℓ where
  ok : A → Result A
  err : Error → Result A

abbrev pub is_ok {ℓ} : {A : Type ℓ} → Result A → Bool
is_ok (ok a) = true
is_ok (err e) = false

abbrev pub Ok : Type 0
Ok = Result (Unit {0})

-- How a Go call ends: it returns a value, returns an error, or panics.
pub data Outcome {ℓ} (A : Type ℓ) : Type ℓ where
  returned : A → Outcome A
  failed : Error → Outcome A
  panicked : Outcome A

abbrev pub outcome {ℓ} : {A : Type ℓ} → Result A → Outcome A
outcome (ok a) = returned a
outcome (err e) = failed e

module _ {ℓ} {A : Type ℓ} where
  abbrev pub settle : Outcome A → Outcome (Result A)
  settle (returned a) = returned (ok a)
  settle (failed e) = returned (err e)
  settle panicked = panicked

  abbrev pub wrap_outcome : Str → Outcome A → Outcome A
  wrap_outcome s (returned a) = returned a
  wrap_outcome s (failed e) = failed (wrap s e)
  wrap_outcome s panicked = panicked

abbrev pub Exec {ℓ} : Type 0 → Type ℓ → Type ℓ
Exec C A = List C → Outcome A × List C

module _ {ℓ} {C : Type 0} {A : Type ℓ} where
  abbrev pub pure : A → Exec C A
  pure a t = (returned a, t)

  abbrev pub fail : Error → Exec C A
  fail e t = (failed e, t)

  abbrev pub panic : Exec C A
  panic t = (panicked, t)

  -- A call of the outside world: it is answered, and joins the history.
  abbrev pub call : C → (List C → Result A) → Exec C A
  call c reply t = (outcome (reply t), c ∷ t)

  abbrev pub of_result : Result A → Exec C A
  of_result r t = (outcome r, t)

  -- The result as a value, for code that looks at `err` and goes on. A panic goes through.
  abbrev pub attempt : Exec C A → Exec C (Result A)
  attempt m t = let (r, t') = m t in (settle r, t')

  -- `if err != nil { return fmt.Errorf("s: %w", err) }`
  abbrev pub wrapping : Str → Exec C A → Exec C A
  wrapping s m t = let (r, t') = m t in (wrap_outcome s r, t')

  -- `defer`: the call is made when the body ends, however it ends; its own error is lost.
  abbrev pub deferring : C → Exec C A → Exec C A
  deferring c m t = let (r, t') = m t in (r, c ∷ t')

infixl 5 ◌>>=◌ ◌>>◌
abbrev pub ◌>>=◌ {ℓ κ} :
    {C : Type 0} {A : Type ℓ} {B : Type κ} → Exec C A → (A → Exec C B) → Exec C B
◌>>=◌ m f t =
    let (r, t') = m t in
    elim r [ returned a ↦ f a t' | failed e ↦ (failed e, t') | panicked ↦ (panicked, t') ]

abbrev pub ◌>>◌ {ℓ κ} : {C : Type 0} {A : Type ℓ} {B : Type κ} → Exec C A → Exec C B → Exec C B
m >> k = m >>= λ _. k

module _ {C : Type 0} where
  -- `if c { return err }`
  abbrev pub fail_if : Bool → Error → Exec C (Unit {0})
  fail_if c e t = (if c then failed e else returned tt, t)
