-- ===== src/Health/Laws.antt =====
-- What the health checks tell: internal/pkg/health/enhanced.go. The entries of the map of checkers come
-- in any order, so that the abstract view is a quotient of the lists of entries.
use nebengjek.Prelude.{
  str_eq_iff, ap, ◌∙◌, subst, str_eq_refl, [], ◌∷◌, true, false, none, refl, ◌≡◌, if◌then◌else◌,
  arith, Bool-cases, inl, inr, false, some, Bool, Option, List, refl, [], Str, str, str_eq,
}
use nebengjek.Exec.{Error, Ok, ok, err, outcome, returned, Exec, Outcome, attempt, settle, ◌>>=◌}
use nebengjek.Exec.Laws.{bind-returned}
use nebengjek.Health.Checks.{
  info_of, DependencyInfo, HealthResponse, noted, find, check_each, Checkers, ProbeContext,
}

-- No two entries have one name.
unfoldable pub IsMap : List (Str × Ok) → Type 0
IsMap [] = Unit
IsMap ((n, c) ∷ rest) = (find n rest ≡ none) × IsMap rest

unfoldable pub any_fails : List (Str × Ok) → Bool
any_fails [] = false
any_fails ((n, ok u) ∷ rest) = any_fails rest
any_fails ((n, err e) ∷ rest) = true

-- What is told if each check answers as an entry says.
unfoldable pub tell_each : List (Str × Ok) → HealthResponse → HealthResponse
tell_each [] r = r
tell_each ((name, result) ∷ rest) r = tell_each rest (noted name result r)

module _ {C : Type 0} (ctx : ProbeContext C) where
  -- One after the other, from a point of the history, each check answers as its entry says.
  unfoldable pub Answers : Checkers C → List (Str × Ok) → List C → Type 0
  Answers [] [] t = Unit
  Answers [] (x ∷ cs) t = ⊥
  Answers (x ∷ checkers) [] t = ⊥
  Answers ((name, checker) ∷ checkers) ((n, result) ∷ cs) t =
      (name ≡ n) × ((checker ctx t).0 ≡ outcome result) × Answers checkers cs (checker ctx t).1

  told_one :
      (name n : Str) (result : Ok) (check : Exec C Ok) (next : Ok → Exec C HealthResponse)
      (cs : List (Str × Ok)) (r : HealthResponse) (t : List C)
      → name ≡ n
      → (check t).0 ≡ returned result
      → (next result (check t).1).0 ≡ returned (tell_each cs (noted name result r))
      → ((check >>= next) t).0 ≡ returned (tell_each cs (noted n result r))
  told_one name n result check next cs r t same answered rest =
      ap (λ (x : Outcome HealthResponse × List C). x.0) (bind-returned check next t result answered)
      ∙ (rest ∙ ap (λ x. returned (tell_each cs (noted x result r))) same)

  pub each-tell :
      (checkers : Checkers C) (cs : List (Str × Ok)) (r : HealthResponse) (t : List C)
      → Answers checkers cs t
      → (check_each ctx checkers r t).0 ≡ returned (tell_each cs r)
  unfolding check_each tell_each Answers
  each-tell [] [] r t h = refl
  each-tell [] (x ∷ cs) r t h = absurd h
  each-tell (x ∷ checkers) [] r t h = absurd h
  each-tell ((name, checker) ∷ checkers) ((n, ok u) ∷ cs) r t (same, answers, h) =
      told_one name n (ok tt) (attempt (checker ctx))
        (λ x. check_each ctx checkers (noted name x r)) cs r t same (ap settle answers)
        (each-tell checkers cs (noted name (ok tt) r) (checker ctx t).1 h)
  each-tell ((name, checker) ∷ checkers) ((n, err e) ∷ cs) r t (same, answers, h) =
      told_one name n (err e) (attempt (checker ctx))
        (λ x. check_each ctx checkers (noted name x r)) cs r t same (ap settle answers)
        (each-tell checkers cs (noted name (err e) r) (checker ctx t).1 h)

pub status-any :
    (cs : List (Str × Ok)) (r : HealthResponse)
    → (tell_each cs r).status ≡ (if any_fails cs then str "unhealthy" else r.status)
unfolding tell_each any_fails
status-any [] r = refl
status-any ((n, ok u) ∷ rest) r = status-any rest (noted n (ok tt) r)
status-any ((n, err e) ∷ rest) r = ground (arith, status-any rest (noted n (err e) r))

module _ {ℓ} {A : Type ℓ} where
  unfoldable pub or_else : Option A → Option A → Option A
  or_else none b = b
  or_else (some a) b = some a

-- What a check tells of an entry that may be there.
abbrev pub told : Option Ok → Option DependencyInfo
told none = none
told (some c) = some (info_of c)

pub find-noted :
    (name : Str) (cs : List (Str × Ok)) (r : HealthResponse)
    → IsMap cs
    → find name (tell_each cs r).dependencies
      ≡ or_else (told (find name cs)) (find name r.dependencies)
unfolding tell_each IsMap find or_else
find-noted name [] r m = refl
find-noted name ((n, c) ∷ rest) r (new, m) =
    let ih = find-noted name rest (noted n c r) m in
    elim (Bool-cases (str_eq n name)) [
      | inr other ↦ ih ∙ rw other refl
      | inl same ↦
          let gone : find name rest ≡ none =
            subst (λ x. find x rest ≡ none) ((str_eq_iff n name).0 same) new in
          ih ∙ rw (gone, same) refl
    ]

-- Some check fails.
abbrev pub Fails : List (Str × Ok) → Type 0
Fails cs = (name : Str) × (e : Error) × (find name cs ≡ some (err e))

pub Fails-found : (cs : List (Str × Ok)) → any_fails cs ≡ true → IsMap cs → Fails cs
unfolding any_fails IsMap find
Fails-found [] h m = absurd (ground arith)
Fails-found ((n, err e) ∷ rest) h m = (n, e, rw (str_eq_refl n) refl)
Fails-found ((n, ok u) ∷ rest) h (new, m) =
    let (name, e, f) = Fails-found rest h m in
    elim (Bool-cases (str_eq n name)) [
      | inr other ↦ (name, e, rw other f)
      | inl same ↦
          let gone : find name rest ≡ none =
            subst (λ x. find x rest ≡ none) ((str_eq_iff n name).0 same) new in
          absurd (ground (arith, gone, f))
    ]

pub any-found : (cs : List (Str × Ok)) → Fails cs → any_fails cs ≡ true
unfolding any_fails find
any-found [] (name, e, f) = absurd (ground (arith, f))
any-found ((n, err e) ∷ rest) (name, e', f) = refl
any-found ((n, ok u) ∷ rest) (name, e, f) = elim (Bool-cases (str_eq n name)) [
  | inl same ↦ absurd (ground (arith, f))
  | inr other ↦ any-found rest (name, e, ground (arith, f))
]
