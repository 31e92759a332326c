-- ===== src/Prelude/Decimal.antt =====
-- Go's `%d`, and `strings.HasPrefix`, `strings.Contains` and `+` on strings.
use nebengjek.Prelude.Tests.{ltb, ◌==◌, if◌then◌else◌}
use nebengjek.Prelude.Text.{Str}
use Prim.Native.Nat.{ℕ, zero, suc, ◌+◌, ◌-◌, ◌/◌, ◌%◌, ◌^◌}
use mathlib.Core.Bool.{Bool, true, false, ◌&&◌, ◌||◌}
use mathlib.Core.List.{[], ◌∷◌}

-- The decimal digits of a number below ten to the fuel, before what has been printed.
digits_from : ℕ → ℕ → Str → Str
digits_from zero n acc = acc
digits_from (suc fuel) n acc =
    let rest = digits_from fuel (n / 10) ((b'0' + n % 10) ∷ acc) in
    if ltb n 10 then (b'0' + n) ∷ acc else rest

-- `fmt.Sprintf("%d", x)` of a 64-bit pattern: 2 ^ 64 is below 10 ^ 20.
unfoldable pub format_int : ℕ → Str
unfolding digits_from
format_int x = if ltb x (2 ^ 63) then digits_from 20 x [] else b'-' ∷ digits_from 20 (2 ^ 64 - x) []

unfoldable pub has_prefix : Str → Str → Bool
has_prefix s [] = true
has_prefix [] (p ∷ ps) = false
has_prefix (c ∷ s) (p ∷ ps) = (c == p) && has_prefix s ps

unfoldable pub contains : Str → Str → Bool
unfolding has_prefix
contains [] sub = has_prefix [] sub
contains (c ∷ s) sub = has_prefix (c ∷ s) sub || contains s sub
