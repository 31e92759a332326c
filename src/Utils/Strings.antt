-- ===== src/Utils/Strings.antt =====
-- internal/utils/strings.go: the helpers on phone numbers and the masks. An `int` argument is an
-- integer; `s[:n]` and `s[n:]` are reached only where n is within the string.
use nebengjek.Prelude.{
  Str, List, [], ◌∷◌, ◌++◌, Bool, ◌&&◌, ◌||◌, ℕ, zero, suc, ◌-◌, ◌==◌, ltb, leb, length, select,
  has_prefix, if◌then◌else◌,
}
use nebengjek.Utils.Msisdn.{drop, is_digit, every}

pub data ℤ : Type 0 where
  pos : ℕ → ℤ
  negsuc : ℕ → ℤ

unfoldable pub take : ℕ → Str → Str
take zero s = []
take (suc n) [] = []
take (suc n) (c ∷ s) = c ∷ take n s

-- `strings.Repeat`
unfoldable pub repeat : ℕ → Str → Str
repeat zero s = []
repeat (suc n) s = s ++ repeat n s

-- `^\+?[0-9]{10,15}$`
ten_to_fifteen_digits : Str → Bool
unfolding is_digit
ten_to_fifteen_digits s = every is_digit s && (leb 10 (length s) && leb (length s) 15)

unfoldable pub is_valid_phone_number : Str → Bool
unfolding has_prefix drop ten_to_fifteen_digits
is_valid_phone_number phone =
    if has_prefix phone (b'+' ∷ [])
    then ten_to_fifteen_digits (drop 1 phone)
    else ten_to_fifteen_digits phone

-- `if start < 0 || end > len(s) || start > end { return s }`
unfoldable pub mask_string : Str → ℤ → ℤ → Str → Str
unfolding take repeat drop
mask_string s (negsuc n) end mask_char = s
mask_string s (pos start) (negsuc n) mask_char = s
mask_string s (pos start) (pos end) mask_char =
    if ltb (length s) end || ltb end start
    then s
    else take start s ++ (repeat (end - start) mask_char ++ drop end s)

-- `strings.Split(s, "@")`, from the right: a byte joins the first part of the rest.
unfoldable pub push : ℕ → List Str → List Str
push c [] = (c ∷ []) ∷ []
push c (part ∷ parts) = (c ∷ part) ∷ parts

unfoldable pub split_at_sign : Str → List Str
unfolding push
split_at_sign [] = [] ∷ []
split_at_sign (c ∷ s) = if c == b'@' then [] ∷ split_at_sign s else push c (split_at_sign s)

mask_local : Str → Str
unfolding take repeat
mask_local local =
    if leb (length local) 2 then local else take 2 local ++ repeat (length local - 2) (b'*' ∷ [])

mask_parts : Str → List Str → Str
unfolding mask_local
mask_parts email (local ∷ domain ∷ []) = mask_local local ++ (b'@' ∷ domain)
mask_parts email parts = email

unfoldable pub mask_email : Str → Str
unfolding mask_parts split_at_sign
mask_email email = mask_parts email (split_at_sign email)

-- `[^0-9]` replaced by nothing.
unfoldable pub digits_of : Str → Str
unfolding is_digit
digits_of phone = select is_digit phone

unfoldable pub mask_phone_number : Str → Str
unfolding digits_of repeat drop
mask_phone_number phone =
    if leb (length (digits_of phone)) 4
    then digits_of phone
    else repeat (length (digits_of phone) - 4) (b'*' ∷ [])
      ++ drop (length (digits_of phone) - 4) (digits_of phone)
