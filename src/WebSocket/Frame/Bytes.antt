-- ===== src/WebSocket/Frame/Bytes.antt =====
-- The byte level of web socket frames: lengths in network order, masks, the two bytes in front.
use nebula_im.Base.{
  ℕ, zero, suc, ◌*◌, ◌/◌, ◌%◌, ◌^◌, ◌<◌, ◌≤◌, ◌≡◌, refl, sym, ap, ◌∙◌, Bool, true, false, List, [],
  ◌∷◌, length, get_or, ◌==◌, bit_and, bit_or, arith, inl, inr, Bool-cases, ◌&&◌, not,
}
use nebula_im.Base.Bits.{and_255, xor_twice, or_fields}
use native.Mathlib.Nat.{div-div-eq-div-mul, pow-suc, div-le_self, div-eq_of_lt}
use nebula_im.WebSocket.Frame.{read_from, read_big_endian, append_big_endian, apply_mask, mask_bit}

-- A mask that is applied a second time is gone.
pub apply_mask-twice :
    (mask_key : List ℕ) (i : ℕ) (payload : List ℕ)
    → apply_mask mask_key i (apply_mask mask_key i payload) ≡ payload
unfolding apply_mask
apply_mask-twice mask_key i [] = refl
apply_mask-twice mask_key i (byte ∷ payload) =
    rw (xor_twice byte (get_or mask_key (i % 4) 0), apply_mask-twice mask_key (suc i) payload) refl

pub length-apply_mask :
    (mask_key : List ℕ) (i : ℕ) (payload : List ℕ)
    → length (apply_mask mask_key i payload) ≡ length payload
unfolding apply_mask
length-apply_mask mask_key i [] = refl
length-apply_mask mask_key i (byte ∷ payload) = ap suc (length-apply_mask mask_key (suc i) payload)

pub length-append_big_endian : (value len : ℕ) → length (append_big_endian value len) ≡ len
unfolding append_big_endian
length-append_big_endian value zero = refl
length-append_big_endian value (suc len) = ap suc (length-append_big_endian value len)

eight_more : (len : ℕ) → 2 ^ (8 * suc len) ≡ 2 ^ (8 * len) * 2 ^ 8
eight_more len =
    let n = 8 * len in
    ap (λ t. 2 ^ t)
      (let e : 8 * suc len ≡ suc (suc (suc (suc (suc (suc (suc (suc (8 * len)))))))) =
          omega arith in
        e)
    ∙ omega (
      arith,
      pow-suc 2 n,
      pow-suc 2 (suc n),
      pow-suc 2 (suc (suc n)),
      pow-suc 2 (suc (suc (suc n))),
      pow-suc 2 (suc (suc (suc (suc n)))),
      pow-suc 2 (suc (suc (suc (suc (suc n))))),
      pow-suc 2 (suc (suc (suc (suc (suc (suc n)))))),
      pow-suc 2 (suc (suc (suc (suc (suc (suc (suc n))))))),
    )

-- Reading on from the digits in front gives the whole number.
read_from-append :
    (value len : ℕ)
    → value < 2 ^ 64
    → read_from (value / 2 ^ (8 * len)) (append_big_endian value len) ≡ value
unfolding read_from append_big_endian
read_from-append value zero h = omega arith
read_from-append value (suc len) h =
    ap (λ t. read_from t (append_big_endian value len)) next ∙ read_from-append value len h
  where
    digit : ℕ
    digit = value / 2 ^ (8 * len)

    small : digit ≤ value
    small = div-le_self value (2 ^ (8 * len))

    before : value / 2 ^ (8 * suc len) ≡ digit / 2 ^ 8
    before =
        ap (λ t. value / t) (eight_more len)
        ∙ sym (div-div-eq-div-mul value (2 ^ (8 * len)) (2 ^ 8))

    next :
        bit_or (value / 2 ^ (8 * suc len) * 2 ^ 8 % 2 ^ 64) (bit_and (value / 2 ^ (8 * len)) 255)
        ≡ digit
    next =
        ap (λ t. bit_or t (bit_and digit 255))
          (let e : value / 2 ^ (8 * suc len) * 2 ^ 8 % 2 ^ 64 ≡ digit / 2 ^ 8 * 2 ^ 8 =
              omega (arith, before, small) in
            e)
        ∙ ap (bit_or (digit / 2 ^ 8 * 2 ^ 8)) (and_255 digit)
        ∙ or_fields 8 (digit / 2 ^ 8) (digit % 256) (omega arith)
        ∙ omega arith

pub read-append_big_endian :
    (value len : ℕ)
    → value < 2 ^ 64
    → value < 2 ^ (8 * len)
    → read_big_endian (append_big_endian value len) ≡ value
unfolding read_big_endian
read-append_big_endian value len h k =
    ap (λ t. read_from t (append_big_endian value len))
      (let e : 0 ≡ value / 2 ^ (8 * len) = sym (div-eq_of_lt k) in e)
    ∙ read_from-append value len h

all_below : ℕ → (ℕ → Bool) → Bool
all_below zero test = true
all_below (suc n) test = test n && all_below n test

all_below_lem :
    (bound : ℕ) (test : ℕ → Bool) (n : ℕ) → all_below bound test ≡ true → n < bound → test n ≡ true
unfolding all_below
all_below_lem zero test n h k = absurd (omega arith)
all_below_lem (suc bound) test n h k = elim (Bool-cases (n == bound)) [
  | inl last ↦ let e : n ≡ bound = ground arith in ap test e ∙ (ground arith)
  | inr before ↦ all_below_lem bound test n (ground arith) (ground arith)
]

-- The second byte of a frame: the mask bit, and the lowest 7 bits.
pub second_byte :
    (masked : Bool) (n : ℕ)
    → n < 128
    → ((bit_and (bit_or (mask_bit masked) n) 128 == 0) ≡ not masked)
      × (bit_and (bit_or (mask_bit masked) n) 127 ≡ n)
unfolding all_below
second_byte true n h =
    let high = all_below_lem 128 (λ n. not (bit_and (bit_or 128 n) 128 == 0)) n refl h in
    let low = all_below_lem 128 (λ n. bit_and (bit_or 128 n) 127 == n) n refl h in
    (ground arith, ground arith)
second_byte false n h =
    let high = all_below_lem 128 (λ n. bit_and (bit_or 0 n) 128 == 0) n refl h in
    let low = all_below_lem 128 (λ n. bit_and (bit_or 0 n) 127 == n) n refl h in
    (ground arith, ground arith)
