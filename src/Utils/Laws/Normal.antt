-- ===== src/Utils/Laws/Normal.antt =====
-- Normal forms of phone numbers: what ValidateMSISDN returns, and that it returns it unchanged.
use nebengjek.Prelude.{
  select, sym, ==_iff, ◌==◌, subst, Str, List, [], ◌∷◌, ◌++◌, true, false, ◌&&◌, ℕ, ◌≤◌, ◌≡◌, refl,
  ap, ◌∙◌, All, length, format_int, has_prefix, arith, Bool-cases, inl, inr,
}
use nebengjek.Exec.{ok}
use nebengjek.Utils.Msisdn.{
  drop, is_digit, every, telkomsel, is_subscriber, matches_prefix, without, clean, country_code,
  local_part, validate_msisdn,
}

-- What a national number is: digits only, nine to eleven of them.
pub record IsNational (s : Str) : Type 0 where
  pub digits : every is_digit s ≡ true
  pub least : 9 ≤ length s
  pub most : length s ≤ 11

ThreeDigits : ℕ → Type 0
ThreeDigits p =
    (a : ℕ) × (b : ℕ) × (c : ℕ) × (format_int p ≡ a ∷ b ∷ c ∷ [])
    × (is_digit a ≡ true)
    × (is_digit b ≡ true)
    × (is_digit c ≡ true)

telkomsel-ThreeDigits : All ThreeDigits telkomsel
unfolding ThreeDigits format_int is_digit
telkomsel-ThreeDigits = (
  (_, _, _, refl, refl, refl, refl),
  (
    (_, _, _, refl, refl, refl, refl),
    (
      (_, _, _, refl, refl, refl, refl),
      (
        (_, _, _, refl, refl, refl, refl),
        (
          (_, _, _, refl, refl, refl, refl),
          (
            (_, _, _, refl, refl, refl, refl),
            (
              (_, _, _, refl, refl, refl, refl),
              ((_, _, _, refl, refl, refl, refl), ((_, _, _, refl, refl, refl, refl), tt)),
            ),
          ),
        ),
      ),
    ),
  ),
)

subscriber-IsNational :
    (s : Str) (a b c : ℕ)
    → has_prefix s (a ∷ b ∷ c ∷ []) ≡ true
    → is_subscriber (drop 3 s) ≡ true
    → is_digit a ≡ true
    → is_digit b ≡ true
    → is_digit c ≡ true
    → IsNational s
unfolding has_prefix drop is_subscriber is_digit
subscriber-IsNational [] a b c h k p q r = cc
subscriber-IsNational (x ∷ []) a b c h k p q r = ground arith
subscriber-IsNational (x ∷ y ∷ []) a b c h k p q r = ground arith
subscriber-IsNational (x ∷ y ∷ z ∷ s) a b c h k p q r = record {
  digits = ground arith;
  least = ground arith;
  most = ground arith;
}

matches-IsNational :
    (ps : List ℕ) (s : Str) → All ThreeDigits ps → matches_prefix ps s ≡ true → IsNational s
unfolding matches_prefix ThreeDigits
matches-IsNational [] s k h = cc
matches-IsNational (p ∷ ps) s ((a, b, c, e, u, v, w), k) h =
    elim (Bool-cases (has_prefix s (format_int p) && is_subscriber (drop 3 s))) [
      | inl y ↦
          subscriber-IsNational s a b c (subst (λ f. has_prefix s f ≡ true) e (ground arith))
            (ground arith) u v w
      | inr n ↦ matches-IsNational ps s k (ground arith)
    ]

-- Digits have no separators among them.
without-digits : (d : ℕ) (s : Str) → is_digit d ≡ false → every is_digit s ≡ true → without d s ≡ s
unfolding select
without-digits d [] n h = refl
without-digits d (c ∷ s) n h = elim (Bool-cases (c == d)) [
  | inl y ↦ absurd (grind (arith, ==_iff c d))
  | inr k ↦ ground (arith, without-digits d s n)
]

pub clean-digits : (s : Str) → every is_digit s ≡ true → clean s ≡ s
unfolding clean is_digit
clean-digits s h =
    rw (without-digits b'-' s refl h, without-digits b' ' s refl h, without-digits b'+' s refl h)
      refl

pub clean-plus : (s : Str) → clean (b'+' ∷ s) ≡ clean s
unfolding clean select
clean-plus s = refl

local-country : (s : Str) → local_part (country_code ++ s) ≡ s
unfolding local_part has_prefix drop
local-country s = refl

local-zero : (s : Str) → local_part (b'0' ∷ s) ≡ s
unfolding local_part has_prefix drop
local-zero s = refl

every-country : (s : Str) → every is_digit s ≡ true → every is_digit (country_code ++ s) ≡ true
unfolding is_digit
every-country s h = ground arith

every-zero : (s : Str) → every is_digit s ≡ true → every is_digit (b'0' ∷ s) ≡ true
unfolding is_digit
every-zero s h = ground arith

-- The form behind a result: the country code before a national number with a known prefix.
validate-form :
    (m f : Str)
    → validate_msisdn m ≡ ok f
    → (s : Str) × (f ≡ country_code ++ s) × (matches_prefix telkomsel s ≡ true)
unfolding validate_msisdn
validate-form m f h = elim (Bool-cases (matches_prefix telkomsel (local_part (clean m)))) [
  | inl y ↦ (local_part (clean m), ground arith, y)
  | inr n ↦ absurd (ground arith)
]

validate-clean :
    (m s : Str)
    → local_part (clean m) ≡ s
    → matches_prefix telkomsel s ≡ true
    → validate_msisdn m ≡ ok (country_code ++ s)
unfolding validate_msisdn
validate-clean m s e h = rw (e, h) refl

module _ (s : Str) (known : matches_prefix telkomsel s ≡ true) where
  national : IsNational s
  national = matches-IsNational telkomsel s telkomsel-ThreeDigits known

  validate-country : validate_msisdn (country_code ++ s) ≡ ok (country_code ++ s)
  validate-country =
      validate-clean (country_code ++ s) s
        (ap local_part (clean-digits (country_code ++ s) (every-country s national.digits))
          ∙ local-country s)
        known

  -- With the country code, with it after a plus sign, or with a leading zero, a number is the same.
  pub validate-writings :
      (validate_msisdn (country_code ++ s) ≡ ok (country_code ++ s))
      × (validate_msisdn (b'+' ∷ (country_code ++ s)) ≡ ok (country_code ++ s))
      × (validate_msisdn (b'0' ∷ s) ≡ ok (country_code ++ s))
  validate-writings = (
    validate-country,
    validate-clean (b'+' ∷ (country_code ++ s)) s
        (ap local_part (
            clean-plus (country_code ++ s)
            ∙ clean-digits (country_code ++ s) (every-country s national.digits))
          ∙ local-country s)
        known,
    validate-clean (b'0' ∷ s) s
        (ap local_part (clean-digits (b'0' ∷ s) (every-zero s national.digits)) ∙ local-zero s)
        known,
  )

-- A number that ValidateMSISDN has accepted is digits only, eleven to thirteen of them.
pub validate-bounds :
    (m f : Str)
    → validate_msisdn m ≡ ok f
    → (every is_digit f ≡ true) × (11 ≤ length f) × (length f ≤ 13)
validate-bounds m f h =
    let (s, e, known) = validate-form m f h in
    let n = national s known in
    subst (λ x. (every is_digit x ≡ true) × (11 ≤ length x) × (length x ≤ 13)) (sym e)
      (every-country s n.digits, omega (arith, n.least), omega (arith, n.most))

-- What ValidateMSISDN returns, it accepts and returns unchanged.
pub validate-validate : (m f : Str) → validate_msisdn m ≡ ok f → validate_msisdn f ≡ ok f
validate-validate m f h =
    let (s, e, known) = validate-form m f h in
    subst (λ x. validate_msisdn x ≡ ok x) (sym e) (validate-country s known)
