-- ===== src/Utils/Laws/Masks.antt =====
-- Masks keep the length of a text, and show no more of it than they should.
use nebengjek.Prelude.{
  sym, Str, [], ◌∷◌, ◌++◌, false, ℕ, zero, suc, ◌-◌, ◌≤◌, ◌<◌, ◌≡◌, refl, ap, length, leb,
  length-append, arith,
}
use mathlib.Core.List.{append_assoc}
use nebengjek.Utils.Msisdn.{drop}
use nebengjek.Utils.Strings.{take, repeat, digits_of, mask_string, mask_phone_number, pos}

pub length-repeat : (n c : ℕ) → length (repeat n (c ∷ [])) ≡ n
unfolding repeat
length-repeat zero c = refl
length-repeat (suc n) c = ground (arith, length-repeat n c)

length-drop : (n : ℕ) (s : Str) → length (drop n s) ≡ length s - n
unfolding drop
length-drop zero s = omega arith
length-drop (suc n) [] = omega arith
length-drop (suc n) (c ∷ s) = omega (arith, length-drop n s)

length-take : (n : ℕ) (s : Str) → n ≤ length s → length (take n s) ≡ n
unfolding take
length-take zero s h = refl
length-take (suc n) [] h = omega (arith, h)
length-take (suc n) (c ∷ s) h = omega (arith, h, length-take n s)

pub drop-append : (s t : Str) (n : ℕ) → length s ≡ n → drop n (s ++ t) ≡ t
unfolding drop
drop-append [] t zero h = refl
drop-append [] t (suc n) h = absurd (omega (arith, h))
drop-append (c ∷ s) t zero h = absurd (omega (arith, h))
drop-append (c ∷ s) t (suc n) h = drop-append s t n (omega (arith, h))

pub take-append : (s t : Str) (n : ℕ) → length s ≡ n → take n (s ++ t) ≡ s
unfolding take
take-append [] t zero h = refl
take-append [] t (suc n) h = absurd (omega (arith, h))
take-append (c ∷ s) t zero h = absurd (omega (arith, h))
take-append (c ∷ s) t (suc n) h = ap (λ x. c ∷ x) (take-append s t n (omega (arith, h)))

-- A text `a ++ (m ++ b)` from its parts.
MaskedBy : Str → ℕ → ℕ → Str → Str → Str → Type 0
MaskedBy t start end a m b =
    (take start t ≡ a) × (drop end t ≡ b) × (take (end - start) (drop start t) ≡ m)

masked-MaskedBy :
    (a m b : Str) (start end : ℕ)
    → length a ≡ start
    → length m ≡ end - start
    → start ≤ end
    → MaskedBy (a ++ (m ++ b)) start end a m b
unfolding MaskedBy
masked-MaskedBy a m b start end p q r = (
  take-append a (m ++ b) start p,
  rw (sym (append_assoc a m b))
      (drop-append (a ++ m) b end (omega (arith, length-append a m, p, q, r))),
  rw (drop-append a (m ++ b) start p) (take-append m b (end - start) q),
)

-- A masked text is as long as the text, and differs from it only within the bounds, where it holds
-- the mask. This is for bounds within the text and a mask of one byte.
pub mask_string-bounds :
    (s : Str) (start end c : ℕ)
    → start ≤ end
    → end ≤ length s
    → (length (mask_string s (pos start) (pos end) (c ∷ [])) ≡ length s)
      × (take start (mask_string s (pos start) (pos end) (c ∷ [])) ≡ take start s)
      × (drop end (mask_string s (pos start) (pos end) (c ∷ [])) ≡ drop end s)
      × (take (end - start) (drop start (mask_string s (pos start) (pos end) (c ∷ [])))
          ≡ repeat (end - start) (c ∷ []))
unfolding mask_string MaskedBy
mask_string-bounds s start end c p q =
    let inside : mask_string s (pos start) (pos end) (c ∷ [])
        ≡ take start s ++ (repeat (end - start) (c ∷ []) ++ drop end s) =
      ground arith in
    let (u, v, w) =
      masked-MaskedBy (take start s) (repeat (end - start) (c ∷ [])) (drop end s) start end
        (length-take start s (omega (arith, p, q))) (length-repeat (end - start) c) p in
    let a = take start s in
    let m = repeat (end - start) (c ∷ []) in
    rw inside (
      omega (
        arith,
        length-append a (m ++ drop end s),
        length-append m (drop end s),
        p,
        q,
        length-take start s,
        length-drop end s,
        length-repeat (end - start) c,
      ),
      u,
      v,
      w,
    )

-- A masked phone number has as many bytes as the number has digits. Of more than four digits only
-- the last four are shown.
pub mask_phone_number-bounds :
    (phone : Str)
    → 4 < length (digits_of phone)
    → (length (mask_phone_number phone) ≡ length (digits_of phone))
      × (take (length (digits_of phone) - 4) (mask_phone_number phone)
          ≡ repeat (length (digits_of phone) - 4) (b'*' ∷ []))
      × (drop (length (digits_of phone) - 4) (mask_phone_number phone)
          ≡ drop (length (digits_of phone) - 4) (digits_of phone))
unfolding mask_phone_number
mask_phone_number-bounds phone h =
    let d = digits_of phone in
    let n = length d - 4 in
    let m = repeat n (b'*' ∷ []) in
    let long : leb (length d) 4 ≡ false = ground arith in
    rw long (
      omega (arith, length-append m (drop n d), h, length-repeat n b'*', length-drop n d),
      take-append m (drop n d) n (length-repeat n b'*'),
      drop-append m (drop n d) n (length-repeat n b'*'),
    )
