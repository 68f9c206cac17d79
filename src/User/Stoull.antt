-- ===== src/User/Stoull.antt =====
-- `std::stoull` in base 10: blanks, a sign, and digits, up to the first other character. `none` is
-- the exception for a text without digits or a number that does not fit 64 bits.
use nebula_im.Base.{
  ℕ, ◌+◌, ◌-◌, ◌*◌, ◌%◌, ◌^◌, ◌<◌, ◌≤◌, ◌≡◌, refl, ap, ◌∙◌, Bool, true, false, ◌&&◌, ◌||◌, Option,
  none, some, [], ◌∷◌, ◌==◌, if◌then◌else◌, ltb, leb, arith,
}
use nebula_im.Base.Keys.{Text}
use nebula_im.Base.Decimal.{
  to_string, value, value-to_string, AllDigits, to_string-AllDigits, to_string-cons,
}

abbrev pub is_digit : ℕ → Bool
is_digit c = leb 48 c && leb c 57

abbrev pub is_space : ℕ → Bool
is_space c = (c == 32) || (leb 9 c && leb c 13)

unfoldable pub skip_spaces : Text → Text
skip_spaces [] = []
skip_spaces (c ∷ t) = let rest = skip_spaces t in if is_space c then rest else c ∷ t

-- The value of the leading digits, on top of those read before.
unfoldable pub leading : ℕ → Text → ℕ
leading acc [] = acc
leading acc (c ∷ t) = let rest = leading (acc * 10 + (c - 48)) t in if is_digit c then rest else acc

-- A number that is out of range throws; a minus sign negates modulo 2^64.
unfoldable pub converted : Bool → Text → Option ℕ
unfolding leading
converted negative [] = none
converted negative (c ∷ t) =
    if is_digit c
    then (let n = leading 0 (c ∷ t) in
        if ltb n (2 ^ 64) then some (if negative then (2 ^ 64 - n) % 2 ^ 64 else n) else none)
    else none

unfoldable pub signed : Text → Option ℕ
unfolding converted
signed [] = none
signed (c ∷ t) =
    if c == 45
    then converted true t
    else if c == 43
    then converted false t
    else converted false (c ∷ t)

unfoldable pub stoull : Text → Option ℕ
unfolding skip_spaces signed
stoull t = signed (skip_spaces t)

leading-value : (acc : ℕ) (s : Text) → AllDigits s → leading acc s ≡ value acc s
unfolding leading value
leading-value acc [] h = refl
leading-value acc (c ∷ s) (low, high, h) = ground (arith, leading-value (acc * 10 + (c - 48)) s h)

digit_first :
    (c : ℕ) (s : Text)
    → 48 ≤ c
    → c < 58
    → leading 0 (c ∷ s) < 2 ^ 64
    → stoull (c ∷ s) ≡ some (leading 0 (c ∷ s))
unfolding stoull skip_spaces signed converted
digit_first c s low high small = ground arith

digits_first :
    (t : Text)
    → AllDigits t
    → (c : ℕ) × (s : Text) × (t ≡ c ∷ s)
    → value 0 t < 2 ^ 64
    → stoull t ≡ some (value 0 t)
digits_first [] h (c, s, e) small = absurd (cc)
digits_first (c ∷ s) (low, high, h) e small =
    let same = leading-value 0 (c ∷ s) (low, high, h) in
    digit_first c s low high (omega (arith, same, small)) ∙ ap some same

-- What `std::to_string` wrote of 64 bits is read back.
pub stoull-to_string : (n : ℕ) → n < 2 ^ 64 → stoull (to_string n) ≡ some n
stoull-to_string n h =
    let same = value-to_string n in
    digits_first (to_string n) (to_string-AllDigits n) (to_string-cons n) (omega (arith, same, h))
    ∙ ap some same
