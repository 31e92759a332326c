-- ===== src/Tests/Probes.antt =====
-- The health checks at concrete inputs.
use nebengjek.Prelude.{ℕ, ◌∷◌, List, refl, [], Str, str, str_eq, ◌≡◌, ◌↔◌, leb, if◌then◌else◌}
use nebengjek.Exec.{external, Ok, ok, err, pure, call, returned}
use mathlib.Core.Quot
use nebengjek.Health.Endpoints.{detailed, ready, full, with_timeout}
use nebengjek.Health.Laws.{Fails, IsMap, Answers}
use nebengjek.Health.Unordered.{health-Refines, Answered, dependency, probe_code, Entries}
use nebengjek.Health.Checks.{
  Checkers, HealthChecker, HealthResponse, check_each, check_all_health, find,
}

-- Redis answers after four seconds: within five, but not within three.
abbrev in_five : List (Str × Ok)
in_five = (str "postgres", ok tt) ∷ (str "redis", ok tt) ∷ (str "nats", ok tt) ∷ []

abbrev in_three : List (Str × Ok)
in_three =
    (str "postgres", ok tt)
    ∷ (str "redis", err (external (str "context deadline exceeded")))
    ∷ (str "nats", ok tt)
    ∷ []

in_five-IsMap : IsMap in_five
unfolding IsMap find str_eq str
in_five-IsMap = (refl, (refl, (refl, tt)))

in_three-IsMap : IsMap in_three
unfolding IsMap find str_eq str
in_three-IsMap = (refl, (refl, (refl, tt)))

abbrev five_entries : Entries
five_entries = (in_five, in_five-IsMap)

abbrev three_entries : Entries
three_entries = (in_three, in_three-IsMap)

-- A call is the seconds that it has taken.
abbrev slow : HealthChecker ℕ
slow ctx =
    if leb 4 ctx.seconds
    then call 4 (λ t. ok tt)
    else call ctx.seconds (λ t. err (external (str "context deadline exceeded")))

abbrev checkers : Checkers ℕ
checkers =
    (str "postgres", λ ctx. pure tt) ∷ (str "redis", slow) ∷ (str "nats", λ ctx. pure tt) ∷ []

five-Answers : Answers (with_timeout 5 []) checkers in_five []
unfolding Answers
five-Answers = (refl, refl, (refl, refl, (refl, refl, tt)))

three-Answers : Answers (with_timeout 3 []) checkers in_three []
unfolding Answers
three-Answers = (refl, refl, (refl, refl, (refl, refl, tt)))

health-Refines_example :
    ((r : HealthResponse) × ((detailed (str "match") (str "1.0") checkers []).0
        ≡ returned (full (probe_code (Quot.mk five_entries)) r))
      × ((name : Str) → find name r.dependencies ≡ dependency name (Quot.mk five_entries)))
    × Answered (ready (str "match") checkers []).0 (probe_code (Quot.mk three_entries))
    × ((c : Entries) → (probe_code (Quot.mk c) ≡ 503) ↔ Fails c.0)
health-Refines_example =
    health-Refines five_entries three_entries checkers (str "match") (str "1.0") [] five-Answers
      three-Answers

unready : Answered (ready (str "match") checkers []).0 503
unfolding ready check_all_health check_each str_eq str
unready = (_, refl, refl)
