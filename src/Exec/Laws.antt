-- ===== src/Exec/Laws.antt =====
-- Inversion of results, and loops of Go over a slice.
use nebengjek.Prelude.{ap, List, ◌≡◌, refl, ◌⊎◌, inl, inr}
use nebengjek.Exec.{◌>>=◌, Exec, Error, Result, ok, err, Outcome, returned, failed, panicked}

pub Result-cases {ℓ} :
    {A : Type ℓ} (r : Result A) → ((a : A) × (r ≡ ok a)) ⊎ ((e : Error) × (r ≡ err e))
Result-cases (ok a) = inl (a, refl)
Result-cases (err e) = inr (e, refl)

pub Outcome-cases {ℓ} :
    {A : Type ℓ} (r : Outcome A)
    → ((a : A) × (r ≡ returned a)) ⊎ (((e : Error) × (r ≡ failed e)) ⊎ (r ≡ panicked))
Outcome-cases (returned a) = inl (a, refl)
Outcome-cases (failed e) = inr (inl (e, refl))
Outcome-cases panicked = inr (inr refl)

-- A sequence whose first part returns goes on with the rest.
pub bind-returned {ℓ κ} :
    {C : Type 0} {A : Type ℓ} {B : Type κ} (m : Exec C A) (f : A → Exec C B) (t : List C) (a : A)
    → (m t).0 ≡ returned a
    → (m >>= f) t ≡ f a (m t).1
bind-returned m f t a e = ap (λ o. ◌>>=◌ (λ u. (o, (m t).1)) f t) e
