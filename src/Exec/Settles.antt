-- ===== src/Exec/Settles.antt =====
-- Computations that return or fail, and never panic: one rule for each way to build one.
use nebengjek.Prelude.{if◌then◌else◌, true, false, ◌≢◌, Bool, Str, List, refl, ◌≡◌}
use nebengjek.Exec.{
  failed, err, settle, ok, wrap_outcome, returned, panicked, outcome, fail, ◌>>=◌, of_result,
  attempt, call, deferring, fail_if, wrapping, Result, Outcome, Error, Exec, pure,
}

pub record Settles {ℓ} {C : Type 0} {A : Type ℓ} (m : Exec C A) : Type ℓ where
  pub at : (t : List C) → (m t).0 ≢ panicked

module _ {ℓ} {A : Type ℓ} where
  outcome-ne-panicked : (r : Result A) → outcome r ≢ panicked
  outcome-ne-panicked (ok a) h = cc
  outcome-ne-panicked (err e) h = cc

  settle-ne : (o : Outcome A) → o ≢ panicked → settle o ≢ panicked
  settle-ne (returned a) n h = cc
  settle-ne (failed e) n h = cc
  settle-ne panicked n h = n refl

  wrap-ne : (s : Str) (o : Outcome A) → o ≢ panicked → wrap_outcome s o ≢ panicked
  wrap-ne s (returned a) n h = cc
  wrap-ne s (failed e) n h = cc
  wrap-ne s panicked n h = n refl

module _ {ℓ} {C : Type 0} {A : Type ℓ} where
  pub Settles-pure : (a : A) → Settles (pure {C = C} a)
  Settles-pure a = record { at = λ t h. cc }

  pub Settles-fail : (e : Error) → Settles (fail {C = C} {A = A} e)
  Settles-fail e = record { at = λ t h. cc }

  pub Settles-call : (c : C) (reply : List C → Result A) → Settles (call c reply)
  Settles-call c reply = record { at = λ t h. outcome-ne-panicked (reply t) h }

  pub Settles-of_result : (r : Result A) → Settles (of_result {C = C} r)
  Settles-of_result r = record { at = λ t h. outcome-ne-panicked r h }

  pub Settles-attempt : (m : Exec C A) → Settles m → Settles (attempt m)
  Settles-attempt m s = record { at = λ t h. settle-ne (m t).0 (s.at t) h }

  pub Settles-wrapping : (s : Str) (m : Exec C A) → Settles m → Settles (wrapping s m)
  Settles-wrapping s m k = record { at = λ t h. wrap-ne s (m t).0 (k.at t) h }

  pub Settles-deferring : (c : C) (m : Exec C A) → Settles m → Settles (deferring c m)
  Settles-deferring c m k = record { at = λ t h. k.at t h }

  pub Settles-if :
      (b : Bool) (m n : Exec C A) → Settles m → Settles n → Settles (if b then m else n)
  Settles-if true m n p q = p
  Settles-if false m n p q = q

module _ {C : Type 0} where
  pub Settles-fail_if : (b : Bool) (e : Error) → Settles (fail_if {C = C} b e)
  Settles-fail_if true e = record { at = λ t h. cc }
  Settles-fail_if false e = record { at = λ t h. cc }

module _ {ℓ κ} {C : Type 0} {A : Type ℓ} {B : Type κ} where
  bind-ne :
      (o : Outcome A) (t : List C) (f : A → Exec C B)
      → o ≢ panicked
      → ((a : A) → Settles (f a))
      → (◌>>=◌ (λ u. (o, t)) f t).0 ≢ panicked
  bind-ne (returned a) t f n k h = (k a).at t h
  bind-ne (failed e) t f n k h = cc
  bind-ne panicked t f n k h = n refl

  pub Settles-bind :
      (m : Exec C A) (f : A → Exec C B) → Settles m → ((a : A) → Settles (f a)) → Settles (m >>= f)
  Settles-bind m f s k = record { at = λ t h. bind-ne (m t).0 (m t).1 f (s.at t) k h }

  bind_returned-ne :
      (o : Outcome A) (t : List C) (f : A → Exec C B)
      → o ≢ panicked
      → ((a : A) → o ≡ returned a → Settles (f a))
      → (◌>>=◌ (λ u. (o, t)) f t).0 ≢ panicked
  bind_returned-ne (returned a) t f n k h = (k a refl).at t h
  bind_returned-ne (failed e) t f n k h = cc
  bind_returned-ne panicked t f n k h = n refl

  -- The rest may use that the first part returned its value.
  pub Settles-bind_returned :
      (m : Exec C A) (f : A → Exec C B)
      → Settles m
      → ((a : A) (t : List C) → (m t).0 ≡ returned a → Settles (f a))
      → Settles (m >>= f)
  Settles-bind_returned m f s k = record {
    at = λ t h. bind_returned-ne (m t).0 (m t).1 f (s.at t) (λ a e. k a t e) h;
  }

pub ruleset settle_rules = (
  Settles-pure, Settles-fail, Settles-call, Settles-of_result, Settles-attempt, Settles-wrapping,
  Settles-deferring, Settles-if, Settles-fail_if, Settles-bind,
)
