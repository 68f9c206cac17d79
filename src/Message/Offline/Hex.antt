-- ===== src/Message/Offline/Hex.antt =====
-- A payload is read back from its hexadecimal digits.
use nebula_im.Base.{
  ℕ, zero, suc, ◌*◌, ◌/◌, ◌%◌, ◌<◌, ◌≡◌, refl, ap, ◌∙◌, bit_or, Bool, true, false, ◌&&◌, Option,
  none, some, subst, Bool-cases, inl, inr, [], ◌∷◌, length, get_or, ◌==◌, IsBytes, arith,
}
use nebula_im.Base.Bits.{or_fields}
use nebula_im.Base.Keys.{Text, text}
use nebula_im.Message.Offline.{to_hex, hex_value, from_digits, from_hex}

abbrev is_some_of : ℕ → Option ℕ → Bool
is_some_of n none = false
is_some_of n (some m) = m == n

abbrev reads_digits : ℕ → Bool
reads_digits zero = true
reads_digits (suc n) =
    is_some_of n (hex_value (get_or (text "0123456789abcdef") n 0)) && reads_digits n

is_some_of-some : (n : ℕ) (o : Option ℕ) → is_some_of n o ≡ true → o ≡ some n
is_some_of-some n none h = absurd (ground arith)
is_some_of-some n (some m) h = ap some (ground arith)

and_true : (b c : Bool) → (b && c) ≡ true → (b ≡ true) × (c ≡ true)
and_true true c h = (refl, h)
and_true false c h = absurd (ground arith)

reads_digits_below :
    (n i : ℕ)
    → reads_digits n ≡ true
    → i < n
    → hex_value (get_or (text "0123456789abcdef") i 0) ≡ some i
reads_digits_below zero i h l = absurd (omega arith)
reads_digits_below (suc n) i h l =
    let digit = hex_value (get_or (text "0123456789abcdef") n 0) in
    let (here, below) = and_true (is_some_of n digit) (reads_digits n) h in
    elim (Bool-cases (i == n)) [
      | inl e ↦
          subst (λ k. hex_value (get_or (text "0123456789abcdef") k 0) ≡ some k)
            (let e' : n ≡ i = ground arith in e') (is_some_of-some n digit here)
      | inr e ↦ reads_digits_below n i below (ground arith)
    ]

sixteen_digits : reads_digits 16 ≡ true
unfolding hex_value
sixteen_digits = refl

hex_value_digit : (n : ℕ) → n < 16 → hex_value (get_or (text "0123456789abcdef") n 0) ≡ some n
hex_value_digit n h = reads_digits_below 16 n sixteen_digits h

byte_digits : (ch : ℕ) → bit_or (ch / 16 * 16) (ch % 16) ≡ ch
byte_digits ch = or_fields 4 (ch / 16) (ch % 16) (omega arith) ∙ omega arith

from_digits-to_hex : (bytes : Text) → IsBytes bytes → from_digits (to_hex bytes) ≡ some bytes
unfolding from_digits to_hex
from_digits-to_hex [] h = refl
from_digits-to_hex (ch ∷ bytes) (small, h) = rw (
  hex_value_digit (ch / 16) (omega arith),
  hex_value_digit (ch % 16) (omega arith),
  from_digits-to_hex bytes h,
  byte_digits ch,
)

length-to_hex : (bytes : Text) → length (to_hex bytes) ≡ length bytes * 2
unfolding to_hex
length-to_hex [] = refl
length-to_hex (ch ∷ bytes) = omega (arith, length-to_hex bytes)

even_digits : (bytes : Text) → (length (to_hex bytes) % 2 == 0) ≡ true
even_digits bytes =
    let e : length (to_hex bytes) % 2 ≡ 0 = omega (arith, length-to_hex bytes) in ap (λ n. n == 0) e

-- fromHex reads back any bytes from what toHex writes of them.
pub from_hex-to_hex : (bytes : Text) → IsBytes bytes → from_hex (to_hex bytes) ≡ bytes
unfolding from_hex
from_hex-to_hex bytes h = rw (even_digits bytes, from_digits-to_hex bytes h)
