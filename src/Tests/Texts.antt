-- ===== src/Tests/Texts.antt =====
-- The theorems about the middleware at concrete inputs.
use nebengjek.Prelude.{Str, str, str_eq, List, [], ◌∷◌, ◌≡◌, ◌≢◌, refl}
use nebengjek.Middleware.Keys.{api_key_handler, next}
use nebengjek.Middleware.Laws.{IsAllowed, next-IsAllowed}

abbrev pieces : List Str
pieces = str "{" ∷ str "}" ∷ []

abbrev keys : List (Str × Str)
keys = (str "match", 1 ∷ []) ∷ (str "rides", 2 ∷ []) ∷ []

allows : api_key_handler keys (str "users" ∷ str "rides" ∷ []) (2 ∷ []) ≡ next (str "rides")
unfolding api_key_handler str str_eq
allows = refl

next-IsAllowed_example :
    (◌≢◌ {A = Str} (2 ∷ []) [])
    × IsAllowed keys (str "users" ∷ str "rides" ∷ []) (2 ∷ []) (str "rides")
next-IsAllowed_example =
    next-IsAllowed keys (str "users" ∷ str "rides" ∷ []) (2 ∷ []) (str "rides") allows
