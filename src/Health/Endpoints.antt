-- ===== src/Health/Endpoints.antt =====
-- The endpoints under /health: RegisterEnhancedHealthEndpoints of internal/pkg/health/enhanced.go, and
-- RegisterHealthEndpoints of internal/pkg/middleware/unified.go. A timestamp is an argument.
use nebengjek.Prelude.{Str, str, str_eq, List, [], ◌∷◌, ℕ, Option, none, some, if◌then◌else◌}
use nebengjek.Exec.{error_text, Result, ok, err, Exec, pure, ◌>>=◌}
use nebengjek.Health.Checks.{HealthResponse, find, Checkers, ProbeContext, check_all_health}

-- The status code and what is sent.
pub data Reply (A : Type 0) : Type 0 where
  fields : ℕ → List (Str × Str) → Reply A
  full : ℕ → A → Reply A

abbrev pub code_of : {A : Type 0} → Reply A → ℕ
code_of (fields code fs) = code
code_of (full code a) = code

module _ {A : Type 0} (service_name now : Str) where
  -- GET /health
  abbrev pub basic : Reply A
  basic =
      fields 200
        ((str "status", str "ok") ∷ (str "service", service_name) ∷ (str "timestamp", now) ∷ [])

  -- GET /health/live
  abbrev pub live : Reply A
  live = fields 200 ((str "status", str "alive") ∷ (str "service", service_name) ∷ [])

  abbrev pub ready_fields : Reply A
  ready_fields = fields 200 ((str "status", str "ready") ∷ (str "service", service_name) ∷ [])

-- `response.Status == "unhealthy"`
abbrev pub code_for : Str → ℕ
code_for status = if str_eq status (str "unhealthy") then 503 else 200

abbrev pub readiness : Str → HealthResponse → Reply HealthResponse
readiness service_name response =
    if str_eq response.status (str "unhealthy")
    then full 503 (record response { service = service_name })
    else fields 200 ((str "status", str "ready") ∷ (str "service", service_name) ∷ [])

-- `context.WithTimeout`, at a point of the history.
abbrev pub with_timeout : {C : Type 0} → ℕ → List C → ProbeContext C
with_timeout seconds t = record { seconds = seconds; since = t }

module _ {C : Type 0} where
  -- GET /health/detailed
  unfoldable pub detailed : Str → Str → Checkers C → Exec C (Reply HealthResponse)
  detailed service_name version checkers t =
      (do
        response ← check_all_health (with_timeout 5 t) checkers
        pure (
            full (code_for response.status)
              (record response { service = service_name; version = version })))
        t

  -- GET /health/ready
  unfoldable pub ready : Str → Checkers C → Exec C (Reply HealthResponse)
  ready service_name checkers t =
      (do
        response ← check_all_health (with_timeout 3 t) checkers
        pure (readiness service_name response))
        t

-- RegisterHealthEndpoints: a health checker returns a map, of which the strings are read.
abbrev pub Strings : Type 0
Strings = List (Str × Str)

-- `response["status"].(string)`
abbrev pub code_in : Option Str → ℕ
code_in none = 200
code_in (some status) = code_for status

-- GET /health/detailed there.
unfoldable pub detailed_of : Str → Str → Str → Result Strings → Reply Strings
unfolding find str_eq
detailed_of service_name version now (err e) = fields 503 (
    (str "status", str "unhealthy")
    ∷ (str "service", service_name)
    ∷ (str "version", version)
    ∷ (str "timestamp", now)
    ∷ (str "error", error_text e)
    ∷ [])
detailed_of service_name version now (ok response) =
    let response' = (str "version", version) ∷ (str "service", service_name) ∷ response in
    full (code_in (find (str "status") response')) response'

abbrev pub ready_if : Str → Strings → Option Str → Reply Strings
ready_if service_name response none =
    fields 200 ((str "status", str "ready") ∷ (str "service", service_name) ∷ [])
ready_if service_name response (some status) =
    if str_eq status (str "unhealthy")
    then full 503 response
    else fields 200 ((str "status", str "ready") ∷ (str "service", service_name) ∷ [])

-- GET /health/ready there.
unfoldable pub ready_of : Str → Result Strings → Reply Strings
unfolding find
ready_of service_name (err e) = fields 503 (
    (str "status", str "not ready")
    ∷ (str "service", service_name)
    ∷ (str "error", error_text e)
    ∷ [])
ready_of service_name (ok response) = ready_if service_name response (find (str "status") response)
