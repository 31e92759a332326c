-- ===== src/Health/Checks.antt =====
-- The checkers and CheckAllHealth of internal/pkg/health/enhanced.go. What the databases, the NATS
-- connection and `echo.NewHTTPError` give are arguments.
use nebengjek.Prelude.{
  Str, str, str_eq, List, [], ◌∷◌, ◌++◌, ℕ, Bool, not, Option, none, some, if◌then◌else◌,
}
use nebengjek.Exec.{Error, error_text, Ok, ok, err, failed, Exec, pure, attempt, of_result, ◌>>=◌}

-- What is seen of a NATS client: whether its connection is there and connected, whether it has a
-- JetStream context, and ListStreams.
pub record NatsProbe (C : Type 0) : Type 0 where
  pub connected : List C → Bool
  pub jet_stream : List C → Bool
  pub streams : Exec C (Unit {0})

-- A context of `context.WithTimeout`: after how many seconds it ends, and what had been called when it
-- was made.
pub record ProbeContext (C : Type 0) : Type 0 where
  pub seconds : ℕ
  pub since : List C

-- A check is a computation in a context, whose deadline all checks of a probe share: what it answers
-- may depend on all that ran before it.
abbrev pub HealthChecker : Type 0 → Type 0
HealthChecker C = ProbeContext C → Exec C (Unit {0})

-- A client that is nil is skipped.
module _ {C : Type 0} where
  unfoldable pub postgres_check_health : Option (HealthChecker C) → HealthChecker C
  postgres_check_health none ctx = pure tt
  postgres_check_health (some ping) ctx = ping ctx

  unfoldable pub redis_check_health : Option (HealthChecker C) → HealthChecker C
  redis_check_health none ctx = pure tt
  redis_check_health (some ping) ctx = ping ctx

abbrev pub accessible : (ℕ → Str → Error) → Ok → Ok
accessible http_error (ok u) = ok tt
accessible http_error (err e) =
    err (http_error 503 (str "JetStream streams not accessible: " ++ error_text e))

module _ {C : Type 0} (http_error : ℕ → Str → Error) where
  abbrev pub streams_check : NatsProbe C → Exec C (Unit {0})
  streams_check probe = do r ← attempt probe.streams; of_result (accessible http_error r)

  unfoldable pub nats_check_health : Option (NatsProbe C) → HealthChecker C
  nats_check_health none ctx = pure tt
  nats_check_health (some probe) ctx = λ t.
      if not (probe.connected t)
      then (failed (http_error 503 (str "NATS not connected")), t)
      else if not (probe.jet_stream t)
      then (failed (http_error 503 (str "JetStream not available")), t)
      else streams_check probe t

-- `m[name]`, of a map with what is newest in front.
unfoldable pub find {ℓ} : {A : Type ℓ} → Str → List (Str × A) → Option A
find name [] = none
find name ((n, a) ∷ rest) = if str_eq n name then some a else find name rest

-- `delete(m, name)`
unfoldable pub drop_name {ℓ} : {A : Type ℓ} → Str → List (Str × A) → List (Str × A)
drop_name name [] = []
drop_name name ((n, a) ∷ rest) =
    let kept = drop_name name rest in if str_eq n name then kept else (n, a) ∷ kept

unfoldable pub add_checker {ℓ} : {A : Type ℓ} → Str → A → List (Str × A) → List (Str × A)
unfolding drop_name
add_checker name checker checkers = (name, checker) ∷ drop_name name checkers

pub record DependencyInfo : Type 0 where
  pub status : Str
  pub error : Str

-- The time is left out.
pub record HealthResponse : Type 0 where
  pub status : Str
  pub service : Str
  pub version : Str
  pub dependencies : List (Str × DependencyInfo)

abbrev pub info_of : Ok → DependencyInfo
info_of (ok u) = record { status = str "healthy"; error = [] }
info_of (err e) = record { status = str "unhealthy"; error = error_text e }

abbrev pub status_after : Ok → Str → Str
status_after (ok u) status = status
status_after (err e) status = str "unhealthy"

abbrev pub noted : Str → Ok → HealthResponse → HealthResponse
noted name result r = record r {
  status = status_after result r.status;
  dependencies = (name, info_of result) ∷ r.dependencies;
}

abbrev pub Checkers : Type 0 → Type 0
Checkers C = List (Str × HealthChecker C)

module _ {C : Type 0} where
  -- The loop over the map, in the order in which its entries come.
  unfoldable pub check_each : ProbeContext C → Checkers C → HealthResponse → Exec C HealthResponse
  check_each ctx [] r = pure r
  check_each ctx ((name, checker) ∷ rest) r = do
    result ← attempt (checker ctx)
    check_each ctx rest (noted name result r)

  unfoldable pub check_all_health : ProbeContext C → Checkers C → Exec C HealthResponse
  unfolding check_each
  check_all_health ctx checkers =
      check_each ctx checkers
        (record { status = str "healthy"; service = []; version = []; dependencies = [] })
