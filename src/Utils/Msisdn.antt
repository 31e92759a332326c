-- ===== src/Utils/Msisdn.antt =====
-- internal/utils/msisdn.go. A `regexp` is written as the test that it stands for.
use nebengjek.Prelude.{
  Str, str, List, [], ◌∷◌, ◌++◌, Bool, true, false, not, ◌&&◌, ◌||◌, ℕ, zero, suc, ◌-◌, ◌==◌, leb,
  length, select, format_int, has_prefix, if◌then◌else◌,
}
use nebengjek.Exec.{Result, ok, err, message}

-- `strings.ReplaceAll(s, c, "")` for a string of one byte.
abbrev pub without : ℕ → Str → Str
without c s = select (λ x. not (x == c)) s

unfoldable pub drop : ℕ → Str → Str
drop zero s = s
drop (suc n) [] = []
drop (suc n) (c ∷ s) = drop n s

unfoldable pub is_digit : ℕ → Bool
is_digit c = leb b'0' c && leb c b'9'

abbrev pub every : (ℕ → Bool) → Str → Bool
every p [] = true
every p (c ∷ s) = p c && every p s

-- `PREFIXES.TELKOMSEL`
abbrev pub telkomsel : List ℕ
telkomsel = 811 ∷ 812 ∷ 813 ∷ 821 ∷ 822 ∷ 823 ∷ 851 ∷ 852 ∷ 853 ∷ []

-- `^\d{6,8}$`
unfoldable pub is_subscriber : Str → Bool
unfolding is_digit
is_subscriber s = every is_digit s && (leb 6 (length s) && leb (length s) 8)

-- `^(p|q|...)\d{6,8}$`, where each alternative has three digits.
unfoldable pub matches_prefix : List ℕ → Str → Bool
unfolding has_prefix drop is_subscriber format_int
matches_prefix [] s = false
matches_prefix (p ∷ ps) s =
    (has_prefix s (format_int p) && is_subscriber (drop 3 s)) || matches_prefix ps s

-- Without dashes, spaces and plus signs.
unfoldable pub clean : Str → Str
clean msisdn = without b'+' (without b' ' (without b'-' msisdn))

abbrev pub country_code : Str
country_code = b'6' ∷ b'2' ∷ []

-- Without the country code, or else without one leading zero.
unfoldable pub local_part : Str → Str
unfolding has_prefix drop
local_part s =
    if has_prefix s country_code then drop 2 s else if has_prefix s (b'0' ∷ []) then drop 1 s else s

abbrev pub formatted : Bool → Str → Result Str
formatted true stripped = ok (country_code ++ stripped)
formatted false stripped = err (message (str "invalid MSISDN format or not a Telkomsel number"))

unfoldable pub validate_msisdn : Str → Result Str
unfolding clean local_part matches_prefix
validate_msisdn msisdn =
    formatted (matches_prefix telkomsel (local_part (clean msisdn))) (local_part (clean msisdn))

-- The last four bytes, or the entire string if it is shorter.
unfoldable pub generate_dummy_otp : Str → Str
unfolding clean drop
generate_dummy_otp msisdn =
    if leb 4 (length (clean msisdn))
    then drop (length (clean msisdn) - 4) (clean msisdn)
    else clean msisdn
