-- ===== src/Health/Unordered.antt =====
-- The health of a service as its map of checkers gives it, in whatever order the entries come:
-- CheckAllHealth and the endpoints of internal/pkg/health/enhanced.go against a view of the map that
-- forgets the order.
use nebengjek.Prelude.{
  some, none, [], arith, ◌↔◌, inr, ◌∙◌, ap, if◌then◌else◌, str_eq_refl, sym, inl, true, Bool-cases,
  List, ℕ, false, Bool, Option, refl, Str, str, str_eq, ◌≡◌,
}
use nebengjek.Exec.{Ok, Outcome, returned, pure, ◌>>=◌}
use nebengjek.Health.Laws.{
  or_else, status-any, find-noted, Fails, Fails-found, any-found, told, any_fails, IsMap, tell_each,
  each-tell, Answers,
}
use mathlib.Core.Quot
use mathlib.Core.Quot.{Quot}
use nebengjek.Health.Checks.{
  DependencyInfo, HealthResponse, Checkers, ProbeContext, find, check_all_health,
}
use nebengjek.Health.Endpoints.{
  code_of, ready, code_for, detailed, readiness, Reply, full, with_timeout,
}
use nebengjek.Exec.Laws.{bind-returned}
use native.Mathlib.Nat.{ℕ_set}

-- The entries of a map, in some order.
abbrev pub Entries : Type 0
Entries = (cs : List (Str × Ok)) × IsMap cs

abbrev pub SameMap : Entries → Entries → Type 0
SameMap a b = (name : Str) → find name a.0 ≡ find name b.0

-- The map itself.
abbrev pub CheckMap : Type 0
CheckMap = Quot SameMap

moved : (xs ys : Entries) → SameMap xs ys → any_fails xs.0 ≡ true → any_fails ys.0 ≡ true
moved (xs, m) (ys, k) same h =
    let (name, e, f) = Fails-found xs h m in any-found ys (name, e, sym (same name) ∙ f)

pub any-same : (xs ys : Entries) → SameMap xs ys → any_fails xs.0 ≡ any_fails ys.0
any-same xs ys same = elim (Bool-cases (any_fails xs.0)) [
  | inl y ↦ y ∙ sym (moved xs ys same y)
  | inr n ↦ elim (Bool-cases (any_fails ys.0)) [
    | inr k ↦ n ∙ sym k
    | inl y ↦ absurd (ground (arith, n, moved ys xs (λ name. sym (same name)) y))
  ]
]

-- The code that a probe is answered with.
abbrev pub code_if : Bool → ℕ
code_if b = if b then 503 else 200

unfoldable pub probe_code : CheckMap → ℕ
probe_code = Quot.lift ℕ_set (λ a. code_if (any_fails a.0)) (λ a b h. ap code_if (any-same a b h))

-- What is told of a dependency.
unfoldable pub dependency : Str → CheckMap → Option DependencyInfo
dependency name = Quot.lift (hlevel) (λ a. told (find name a.0)) (λ a b h. ap told (h name))

abbrev healthy_response : HealthResponse
healthy_response = record { status = str "healthy"; service = []; version = []; dependencies = [] }

start-healthy : str_eq (str "healthy") (str "unhealthy") ≡ false
unfolding str_eq str
start-healthy = refl

start-unhealthy : str_eq (str "unhealthy") (str "unhealthy") ≡ true
start-unhealthy = str_eq_refl (str "unhealthy")

code_of_status : (b : Bool) → code_for (if b then str "unhealthy" else str "healthy") ≡ code_if b
code_of_status true = rw start-unhealthy refl
code_of_status false = rw start-healthy refl

or_else-none : {A : Type 0} (o : Option A) → or_else o none ≡ o
unfolding or_else
or_else-none none = refl
or_else-none (some a) = refl

code-any :
    (cs : List (Str × Ok))
    → code_for (tell_each cs healthy_response).status ≡ code_if (any_fails cs)
code-any cs = ap code_for (status-any cs _) ∙ code_of_status (any_fails cs)

code_if-bad : (b : Bool) → (code_if b ≡ 503) ↔ (b ≡ true)
code_if-bad true = (λ e. refl, λ e. refl)
code_if-bad false = (λ e. absurd (ground arith), λ e. absurd (ground arith))

ready-any :
    (cs : List (Str × Ok)) (service_name : Str)
    → code_of (readiness service_name (tell_each cs healthy_response)) ≡ code_if (any_fails cs)
ready-any cs service_name =
    elim (Bool-cases (str_eq (tell_each cs healthy_response).status (str "unhealthy"))) [
      | inl y ↦ ground (arith, code-any cs)
      | inr n ↦ ground (arith, code-any cs)
    ]

-- A reply with the status code.
abbrev pub Answered : {A : Type 0} → Outcome (Reply A) → ℕ → Type 0
Answered {A} o code = (reply : Reply A) × (o ≡ returned reply) × (code_of reply ≡ code)

module _ {C : Type 0} where
  all-told :
      (ctx : ProbeContext C) (checkers : Checkers C) (cs : List (Str × Ok)) (t : List C)
      → Answers ctx checkers cs t
      → (check_all_health ctx checkers t).0 ≡ returned (tell_each cs healthy_response)
  unfolding check_all_health
  all-told ctx checkers cs t h = each-tell ctx checkers cs healthy_response t h

  answered_by :
      (ctx : ProbeContext C) (checkers : Checkers C) (cs : List (Str × Ok)) (t : List C)
      (f : HealthResponse → Reply HealthResponse)
      → Answers ctx checkers cs t
      → ((check_all_health ctx checkers >>= λ r. pure (f r)) t).0
        ≡ returned (f (tell_each cs healthy_response))
  answered_by ctx checkers cs t f h =
      ap (λ (x : Outcome (Reply HealthResponse) × List C). x.0)
        (bind-returned (check_all_health ctx checkers) (λ r. pure (f r)) t
          (tell_each cs healthy_response) (all-told ctx checkers cs t h))

-- The two probes that use CheckAllHealth depend on the map of what the checks answer in the probe,
-- in the order of the loop and under the deadline that they share, and not on that order itself: a
-- probe is answered with 503 if some check has failed and with 200 if none has, and each dependency
-- is told as its own check has answered. This is if no check panics.
pub health-Refines :
    {C : Type 0} (a b : Entries) (checkers : Checkers C) (service_name version : Str) (t : List C)
    → Answers (with_timeout 5 t) checkers a.0 t
    → Answers (with_timeout 3 t) checkers b.0 t
    → ((r : HealthResponse) × ((detailed service_name version checkers t).0
          ≡ returned (full (probe_code (Quot.mk a)) r))
        × ((name : Str) → find name r.dependencies ≡ dependency name (Quot.mk a)))
      × Answered (ready service_name checkers t).0 (probe_code (Quot.mk b))
      × ((c : Entries) → (probe_code (Quot.mk c) ≡ 503) ↔ Fails c.0)
unfolding detailed ready probe_code find dependency
health-Refines (cs, m) (ds, k) checkers service_name version t a b =
    let response = record (tell_each cs healthy_response) {
      service = service_name;
      version = version;
    } in
    let told_detailed =
      answered_by (with_timeout 5 t) checkers cs t
        (λ r. full (code_for r.status) (record r { service = service_name; version = version }))
        a in
    (
      (
        response,
        told_detailed ∙ ap (λ code. returned (full code response)) (code-any cs),
        λ name. find-noted name cs healthy_response m ∙ or_else-none (told (find name cs)),
      ),
      (
        _,
        answered_by (with_timeout 3 t) checkers ds t (readiness service_name) b,
        ready-any ds service_name,
      ),
      λ c. (
        λ e. Fails-found c.0 ((code_if-bad (any_fails c.0)).0 e) c.1,
        λ f. (code_if-bad (any_fails c.0)).1 (any-found c.0 f),
      ),
    )
