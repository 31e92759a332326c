-- ===== src/Middleware/Laws.antt =====
-- What holds of the middleware.
pub mod Handled
pub mod RequestIds
use nebengjek.Prelude.{
  subst, ◌∙◌, ap, sym, Str, str_eq, str_eq_iff, List, [], ◌∷◌, ◌++◌, ◌-◌, ◌≤◌, ◌≡◌, ◌≢◌, refl,
  length, true, false, Bool-cases, Option-cases, inl, inr, arith, some, ltb, leb, ℕ, zero, suc,
}
use mathlib.Core.List.{append_assoc, append-nil}
use nebengjek.Utils.Strings.{take}
use nebengjek.Middleware.Keys.{key_of_service, matching_service, api_key_handler, next}
use nebengjek.Middleware.Capture.{write, write_all}

-- All pieces in one.
unfoldable pub joined : List Str → Str
joined [] = []
joined (b ∷ bs) = b ++ joined bs

ltb_le : (a b : ℕ) → ltb a b ≡ true → a ≤ b
ltb_le a b h = ground arith

ltb_ge : (a b : ℕ) → ltb a b ≡ false → b ≤ a
ltb_ge a b h = ground arith

leb_le : (a b : ℕ) → leb a b ≡ true → a ≤ b
leb_le a b h = ground arith

take-all : (n : ℕ) (s : Str) → length s ≤ n → take n s ≡ s
unfolding take
take-all zero [] h = refl
take-all zero (c ∷ s) h = absurd (omega (arith, h))
take-all (suc n) [] h = refl
take-all (suc n) (c ∷ s) h = ap (λ x. c ∷ x) (take-all n s (omega (arith, h)))

take-append_le : (n : ℕ) (s b : Str) → length s ≤ n → take n (s ++ b) ≡ s ++ take (n - length s) b
unfolding take
take-append_le n [] b h = let e : n ≡ n - 0 = omega arith in ap (λ k. take k b) e
take-append_le zero (c ∷ s) b h = absurd (omega (arith, h))
take-append_le (suc n) (c ∷ s) b h =
    let e : n - length s ≡ suc n - suc (length s) = omega arith in
    ap (λ x. c ∷ x) (take-append_le n s b (omega (arith, h)) ∙ ap (λ k. s ++ take k b) e)

take-append_ge : (n : ℕ) (s b : Str) → n ≤ length s → take n (s ++ b) ≡ take n s
unfolding take
take-append_ge zero s b h = refl
take-append_ge (suc n) [] b h = absurd (omega (arith, h))
take-append_ge (suc n) (c ∷ s) b h = ap (λ x. c ∷ x) (take-append_ge n s b (omega (arith, h)))

length-take_ge : (n : ℕ) (s : Str) → n ≤ length s → length (take n s) ≡ n
unfolding take
length-take_ge zero s h = refl
length-take_ge (suc n) [] h = absurd (omega (arith, h))
length-take_ge (suc n) (c ∷ s) h = omega (arith, length-take_ge n s (omega (arith, h)))

-- A write appends to what was captured of all that was written before.
write-take : (s b : Str) → write (take 1024 s) b ≡ take 1024 (s ++ b)
unfolding write
write-take s b = elim (Bool-cases (ltb (length s) 1024)) [
  | inr n ↦
      let long = ltb_ge (length s) 1024 n in
      rw (length-take_ge 1024 s long) (sym (take-append_ge 1024 s b long))
  | inl y ↦
      let short = ltb_le (length s) 1024 y in
      elim (Bool-cases (leb (length b) (1024 - length s))) [
        | inl z ↦
            rw (take-all 1024 s short, y, z)
              (sym (
                take-append_le 1024 s b short
                ∙ ap (λ x. s ++ x)
                    (take-all (1024 - length s) b (leb_le (length b) (1024 - length s) z))))
        | inr z ↦ rw (take-all 1024 s short, y, z) (sym (take-append_le 1024 s b short))
      ]
]

writes-take : (bs : List Str) (s : Str) → write_all (take 1024 s) bs ≡ take 1024 (s ++ joined bs)
unfolding write_all joined
writes-take [] s = ap (λ x. take 1024 x) (sym (append-nil s))
writes-take (b ∷ bs) s =
    ap (λ x. write_all x bs) (write-take s b)
    ∙ (writes-take bs (s ++ b) ∙ ap (λ x. take 1024 x) (append_assoc s b (joined bs)))

-- However a response is cut into pieces, what is captured is the first 1024 bytes of the whole.
pub captured-take : (bs : List Str) → write_all [] bs ≡ take 1024 (joined bs)
unfolding take
captured-take bs = writes-take bs []

-- A service that is allowed, and whose key is the given one.
abbrev pub IsAllowed : List (Str × Str) → List Str → Str → Str → Type 0
IsAllowed keys allowed api_key service =
    (before : List Str) × (after : List Str) × (allowed ≡ before ++ (service ∷ after))
    × (key_of_service service keys ≡ some api_key)

later-IsAllowed :
    (keys : List (Str × Str)) (s service api_key : Str) (services : List Str)
    → IsAllowed keys services api_key service
    → IsAllowed keys (s ∷ services) api_key service
later-IsAllowed keys s service api_key services (before, after, e, k) =
    (s ∷ before, after, ap (λ x. s ∷ x) e, k)

matching-IsAllowed :
    (keys : List (Str × Str)) (api_key service : Str) (services : List Str)
    → matching_service keys api_key services ≡ some service
    → IsAllowed keys services api_key service
unfolding matching_service
matching-IsAllowed keys api_key service [] h = absurd (ground arith)
matching-IsAllowed keys api_key service (s ∷ services) h =
    elim (Option-cases (key_of_service s keys)) [
      | inl n ↦
          later-IsAllowed keys s service api_key services
            (matching-IsAllowed keys api_key service services (ground arith))
      | inr (key, k) ↦ elim (Bool-cases (str_eq key api_key)) [
        | inr n ↦
            later-IsAllowed keys s service api_key services
              (matching-IsAllowed keys api_key service services (ground arith))
        | inl y ↦
            let same : s ≡ service = ground arith in
            (
              [],
              services,
              ap (λ x. x ∷ services) same,
              subst (λ x. key_of_service x keys ≡ some api_key) same
                  (k ∙ ap (λ x. some x) ((str_eq_iff key api_key).0 y)),
            )
      ]
    ]

-- A request is passed on only with a key that is not empty, and that is the configured key of a
-- service which the route allows; the handler is told that service.
pub next-IsAllowed :
    (keys : List (Str × Str)) (allowed : List Str) (api_key service : Str)
    → api_key_handler keys allowed api_key ≡ next service
    → (api_key ≢ []) × IsAllowed keys allowed api_key service
unfolding api_key_handler
next-IsAllowed keys allowed api_key service h = elim (Bool-cases (str_eq api_key [])) [
  | inl y ↦ absurd (ground arith)
  | inr n ↦ elim (Option-cases (matching_service keys api_key allowed)) [
    | inl m ↦ absurd (ground arith)
    | inr (s, m) ↦
        let same : s ≡ service = ground arith in
        (
          λ e. grind (arith, str_eq_iff api_key []),
          matching-IsAllowed keys api_key service allowed (m ∙ ap (λ x. some x) same),
        )
  ]
]
