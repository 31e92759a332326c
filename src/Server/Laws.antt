-- ===== src/Server/Laws.antt =====
-- What ShutdownManager.Shutdown of internal/pkg/server/server.go does.
use nebengjek.Prelude.{sym, ◌∙◌, ap, List, [], ◌∷◌, ◌++◌, ◌≡◌, refl, some, ◌≢◌}
use nebengjek.Exec.{settle, ◌>>=◌, Exec, Outcome, returned, failed, panicked}
use mathlib.Core.List.{append-nil, append_assoc}
use nebengjek.Exec.Settles.{Settles}
use nebengjek.Server.{register_cleanup, shutdown, new_shutdown_manager}

module _ {C : Type 0} where
  -- The functions were registered one after the other.
  unfoldable pub registered_after :
      List (Exec C (Unit {0})) → List (Exec C (Unit {0})) → List (Exec C (Unit {0}))
  unfolding register_cleanup
  registered_after functions [] = functions
  registered_after functions (fn ∷ fns) =
      registered_after (register_cleanup (some fn) functions) fns

  unfoldable pub Settled : List (Exec C (Unit {0})) → Type 0
  Settled [] = Unit
  Settled (fn ∷ fns) = Settles fn × Settled fns

  -- Each function starts where the one before it has ended.
  unfoldable pub ran : List (Exec C (Unit {0})) → List C → List C
  ran [] t = t
  ran (fn ∷ fns) t = ran fns (fn t).1

  registered_after-append :
      (functions fns : List (Exec C (Unit {0}))) → registered_after functions fns ≡ functions ++ fns
  unfolding registered_after register_cleanup
  registered_after-append functions [] = sym (append-nil functions)
  registered_after-append functions (fn ∷ fns) =
      registered_after-append (functions ++ (fn ∷ [])) fns ∙ append_assoc functions (fn ∷ []) fns

  -- Whatever a function that does not panic returns, the next one starts.
  next-starts :
      (o : Outcome (Unit {0}))
      → o ≢ panicked
      → (next : Exec C (Unit {0})) (t : List C) → ((λ u. (settle o, t)) >>= (λ r. next)) t ≡ next t
  next-starts (returned u) n next t = refl
  next-starts (failed e) n next t = refl
  next-starts panicked n next t = absurd (n refl)

  shutdown-ran :
      (fns : List (Exec C (Unit {0})))
      → Settled fns
      → (t : List C) → shutdown fns t ≡ (returned tt, ran fns t)
  unfolding shutdown Settled ran
  shutdown-ran [] settled t = refl
  shutdown-ran (fn ∷ fns) settled t =
      next-starts (fn t).0 (settled.0.at t) (shutdown fns) (fn t).1
      ∙ shutdown-ran fns settled.1 (fn t).1

  -- A shutdown calls every function that was registered, in that order, and returns no error,
  -- whatever the functions return, if none of them panics.
  pub shutdown-registered :
      (fns : List (Exec C (Unit {0})))
      → Settled fns
      → (t : List C)
      → shutdown (registered_after new_shutdown_manager fns) t ≡ (returned tt, ran fns t)
  shutdown-registered fns settled t =
      ap (λ k. shutdown k t) (registered_after-append new_shutdown_manager fns)
      ∙ shutdown-ran fns settled t
