-- ===== src/Server.antt =====
-- internal/pkg/server/server.go: the ShutdownManager. A function that is registered is a
-- computation, with its context applied; `none` is a nil one.
pub mod Laws
use nebengjek.Prelude.{List, [], ◌∷◌, ◌++◌, Option, none, some}
use nebengjek.Exec.{Exec, pure, attempt, ◌>>=◌}

module _ {C : Type 0} where
  -- `NewShutdownManager`
  abbrev pub new_shutdown_manager : List (Exec C (Unit {0}))
  new_shutdown_manager = []

  unfoldable pub register_cleanup :
      Option (Exec C (Unit {0})) → List (Exec C (Unit {0})) → List (Exec C (Unit {0}))
  register_cleanup none functions = functions
  register_cleanup (some fn) functions = functions ++ (fn ∷ [])

  -- `ShutdownManager.Shutdown`: an error is logged, and the loop goes on.
  unfoldable pub shutdown : List (Exec C (Unit {0})) → Exec C (Unit {0})
  shutdown [] = pure tt
  shutdown (fn ∷ functions) = do r ← attempt fn; shutdown functions
