-- ===== src/Exec/Emits.antt =====
-- Computations that add to a view of the history, such as the events that were published, only
-- members with a property: one rule for each way to build one.
use nebengjek.Prelude.{All, List, [], ◌∷◌, ◌++◌, refl, ◌≡◌, Str}
use nebengjek.Exec.{failed, returned, panicked, ◌>>=◌, attempt, wrapping, Outcome, Exec}
use mathlib.Core.List.{append_assoc}

module _ {X : Type 0} (P : X → Type 0) where
  -- `after` is `before` with new members in front, which have the property.
  abbrev pub Extends : List X → List X → Type 0
  Extends before after = (new : List X) × (after ≡ new ++ before) × All P new

  All-append : (xs ys : List X) → All P xs → All P ys → All P (xs ++ ys)
  All-append [] ys p q = q
  All-append (x ∷ xs) ys (p, ps) q = (p, All-append xs ys ps q)

  pub Extends-refl : (xs : List X) → Extends xs xs
  Extends-refl xs = ([], refl, tt)

  pub Extends-trans : (xs ys zs : List X) → Extends xs ys → Extends ys zs → Extends xs zs
  Extends-trans xs ys zs (a, p, u) (b, q, v) =
      (b ++ a, rw (q, p, append_assoc b a xs) refl, All-append b a v u)

pub record Emits {ℓ} {X C : Type 0} {A : Type ℓ} (P : X → Type 0) (view : List C → List X)
    (m : Exec C A) : Type ℓ where
  pub at : (t : List C) → Extends P (view t) (view (m t).1)

module _ {ℓ κ} {X C : Type 0} {A : Type ℓ} {B : Type κ} (P : X → Type 0)
    (view : List C → List X) where
  pub bind-Extends :
      (o : Outcome A) (t t' : List C) (k : A → Exec C B)
      → Extends P (view t) (view t')
      → ((a : A) → o ≡ returned a → Extends P (view t') (view (k a t').1))
      → Extends P (view t) (view (◌>>=◌ (λ u. (o, t')) k t).1)
  bind-Extends (returned a) t t' k p q = Extends-trans P (view t) (view t') _ p (q a refl)
  bind-Extends (failed e) t t' k p q = p
  bind-Extends panicked t t' k p q = p

  -- The rest need only keep the property for what the first part has returned.
  pub Emits-bind_returned :
      (m : Exec C A) (k : A → Exec C B)
      → Emits P view m
      → ((a : A) (t : List C) → (m t).0 ≡ returned a → Emits P view (k a))
      → Emits P view (m >>= k)
  Emits-bind_returned m k p q = record {
    at = λ t. bind-Extends (m t).0 t (m t).1 k (p.at t) (λ a r. (q a t r).at (m t).1);
  }

  pub Emits-bind :
      (m : Exec C A) (k : A → Exec C B)
      → Emits P view m
      → ((a : A) → Emits P view (k a))
      → Emits P view (m >>= k)
  Emits-bind m k p q = Emits-bind_returned m k p (λ a t r. q a)

module _ {ℓ} {X C : Type 0} {A : Type ℓ} (P : X → Type 0) (view : List C → List X) where
  -- A part that leaves the view as it is.
  pub Emits-silent : (m : Exec C A) → ((t : List C) → view (m t).1 ≡ view t) → Emits P view m
  Emits-silent m same = record { at = λ t. ([], same t, tt) }

  pub Emits-attempt : (m : Exec C A) → Emits P view m → Emits P view (attempt m)
  Emits-attempt m p = record { at = λ t. p.at t }

  pub Emits-wrapping : (s : Str) (m : Exec C A) → Emits P view m → Emits P view (wrapping s m)
  Emits-wrapping s m p = record { at = λ t. p.at t }

module _ {X : Type 0} {P Q : X → Type 0} (f : (x : X) → P x → Q x) where
  All-map : (xs : List X) → All P xs → All Q xs
  All-map [] p = tt
  All-map (x ∷ xs) (p, ps) = (f x p, All-map xs ps)

  -- Members with a property have every property that follows from it.
  pub Emits-map {ℓ} :
      {C : Type 0} {A : Type ℓ} (view : List C → List X) (m : Exec C A)
      → Emits P view m
      → Emits Q view m
  Emits-map view m e = record {
    at = λ t. let (new, same, all) = e.at t in (new, same, All-map new all);
  }
