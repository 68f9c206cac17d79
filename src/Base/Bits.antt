-- ===== src/Base/Bits.antt =====
-- `a | b` of disjoint bit fields, and `a & b` with a mask of low bits.
use Prim.Native.Nat.{
  ℕ, zero, suc, ◌+◌, ◌-◌, ◌*◌, ◌/◌, ◌%◌, ◌^◌, ◌≤◌, ◌<◌, min, max, digits, bit_and, bit_or, bit_xor,
  bit_xor-bitwise, differ, bit_and-bitwise, bit_or-bitwise,
}
use mathlib.Core.Path.{◌≡◌, refl, ◌∙◌, ap}
use native.Mathlib.Nat.{pow-suc, mul-add-mod_self_left, mod-eq_of_lt, mod-lt, div-add-mod}
use native.Mathlib.Omega.{arith}

-- More fuel than the first number changes nothing.
fuel_beyond :
    (rest : ℕ → ℕ) (op : ℕ → ℕ → ℕ) (fuel a b : ℕ)
    → a ≤ fuel
    → digits rest op (suc fuel) a b ≡ digits rest op fuel a b
fuel_beyond rest op zero zero b h = refl
fuel_beyond rest op zero (suc a) b h = absurd (omega arith)
fuel_beyond rest op (suc fuel) zero b h = refl
fuel_beyond rest op (suc fuel) (suc a) b h =
    ap (λ t. t * 2 + op (suc a % 2) (b % 2))
      (fuel_beyond rest op fuel (suc a / 2) (b / 2) (omega arith))

fuel_grows :
    (rest : ℕ → ℕ) (op : ℕ → ℕ → ℕ) (more a b : ℕ)
    → digits rest op (a + more) a b ≡ digits rest op a a b
fuel_grows rest op zero a b = ap (λ n. digits rest op n a b) (omega arith)
fuel_grows rest op (suc more) a b =
    ap (λ n. digits rest op n a b) (let e : a + suc more ≡ suc (a + more) = omega arith in e)
    ∙ fuel_beyond rest op (a + more) a b (omega arith)
    ∙ fuel_grows rest op more a b

fuel_enough :
    (rest : ℕ → ℕ) (op : ℕ → ℕ → ℕ) (fuel a b : ℕ)
    → a ≤ fuel
    → digits rest op fuel a b ≡ digits rest op a a b
fuel_enough rest op fuel a b h =
    ap (λ n. digits rest op n a b) (let e : fuel ≡ a + (fuel - a) = omega arith in e)
    ∙ fuel_grows rest op (fuel - a) a b

-- The lowest digit of each operation.
or_lowest : (a b : ℕ) → bit_or a b ≡ bit_or (a / 2) (b / 2) * 2 + max (a % 2) (b % 2)
or_lowest zero b = omega (arith, bit_or-bitwise 0 b, bit_or-bitwise 0 (b / 2))
or_lowest (suc a) b = omega (
  arith,
  bit_or-bitwise (suc a) b,
  bit_or-bitwise (suc a / 2) (b / 2),
  fuel_enough (λ t. t) max a (suc a / 2) (b / 2) (omega arith),
)

and_lowest : (a b : ℕ) → bit_and a b ≡ bit_and (a / 2) (b / 2) * 2 + min (a % 2) (b % 2)
and_lowest zero b = omega (arith, bit_and-bitwise 0 b, bit_and-bitwise 0 (b / 2))
and_lowest (suc a) b = omega (
  arith,
  bit_and-bitwise (suc a) b,
  bit_and-bitwise (suc a / 2) (b / 2),
  fuel_enough (λ t. 0) min a (suc a / 2) (b / 2) (omega arith),
)

or_nothing : (fuel a : ℕ) → a ≤ fuel → bit_or a 0 ≡ a
or_nothing fuel zero h = refl
or_nothing zero (suc a) h = absurd (omega arith)
or_nothing (suc fuel) (suc a) h =
    omega (arith, or_lowest (suc a) 0, or_nothing fuel (suc a / 2) (omega arith))

and_nothing : (fuel a : ℕ) → a ≤ fuel → bit_and a 0 ≡ 0
and_nothing fuel zero h = refl
and_nothing zero (suc a) h = absurd (omega arith)
and_nothing (suc fuel) (suc a) h =
    omega (arith, and_lowest (suc a) 0, and_nothing fuel (suc a / 2) (omega arith))

-- A mask of `k` ones, as a sum.
mask : ℕ → ℕ
mask zero = 0
mask (suc k) = mask k * 2 + 1

pow-pos : (k : ℕ) → 0 < 2 ^ k
pow-pos zero = omega arith
pow-pos (suc k) = omega (arith, pow-suc 2 k, pow-pos k)

halved : (k a : ℕ) → a % 2 ^ suc k ≡ a / 2 % 2 ^ k * 2 + a % 2
halved k a =
    ap (λ t. t % 2 ^ suc k) parts
    ∙ mul-add-mod_self_left (2 ^ suc k) (a / 2 / 2 ^ k) (a / 2 % 2 ^ k * 2 + a % 2)
    ∙ mod-eq_of_lt (omega (arith, pow-suc 2 k, mod-lt (a / 2) positive))
  where
    positive : 0 < 2 ^ k
    positive = pow-pos k

    parts : a ≡ 2 ^ suc k * (a / 2 / 2 ^ k) + (a / 2 % 2 ^ k * 2 + a % 2)
    parts = omega (arith, div-add-mod (a / 2) (2 ^ k), ap (λ t. t * (a / 2 / 2 ^ k)) (pow-suc 2 k))

and_mask : (k a : ℕ) → bit_and a (mask k) ≡ a % 2 ^ k
unfolding mask
and_mask zero a = omega (arith, and_nothing a a (omega arith))
and_mask (suc k) a = omega (
  arith,
  and_lowest a (mask k * 2 + 1),
  ap (bit_and (a / 2)) (let e : (mask k * 2 + 1) / 2 ≡ mask k = omega arith in e),
  and_mask k (a / 2),
  halved k a,
)

-- A number shifted beyond the bits of another: the two fields add up.
pub or_fields : (k high low : ℕ) → low < 2 ^ k → bit_or (high * 2 ^ k) low ≡ high * 2 ^ k + low
or_fields zero high low h = omega (
  arith,
  ap (λ t. bit_or (high * 1) t) (let e : low ≡ 0 = omega arith in e),
  or_nothing (high * 1) (high * 1) (omega arith),
)
or_fields (suc k) high low h =
    or_lowest (high * 2 ^ suc k) low
    ∙ ap (λ t. bit_or t (low / 2) * 2 + max (high * 2 ^ suc k % 2) (low % 2))
        (let e : high * 2 ^ suc k / 2 ≡ high * 2 ^ k = omega (arith, twice) in e)
    ∙ (omega (arith, twice, or_fields k high (low / 2) (omega (arith, pow-suc 2 k))))
  where
    twice : high * 2 ^ suc k ≡ high * 2 ^ k * 2
    twice = omega (arith, ap (λ t. high * t) (pow-suc 2 k))

-- The 12 lowest bits.
pub and_4095 : (a : ℕ) → bit_and a 4095 ≡ a % 4096
unfolding mask
and_4095 a = and_mask 12 a

-- The 7 and the 8 lowest bits.
pub and_127 : (a : ℕ) → bit_and a 127 ≡ a % 128
unfolding mask
and_127 a = and_mask 7 a

pub and_255 : (a : ℕ) → bit_and a 255 ≡ a % 256
unfolding mask
and_255 a = and_mask 8 a

xor_lowest : (a b : ℕ) → bit_xor a b ≡ bit_xor (a / 2) (b / 2) * 2 + differ (a % 2) (b % 2)
xor_lowest zero b =
    bit_xor-bitwise 0 b
    ∙ digits_of b (b % 2) (omega arith)
    ∙ ap (λ t. t * 2 + differ 0 (b % 2))
        (let e : b / 2 ≡ bit_xor (0 / 2) (b / 2) = (omega (arith, bit_xor-bitwise 0 (b / 2))) in e)
  where
    digits_of : (b y : ℕ) → b ≡ b / 2 * 2 + y → b ≡ b / 2 * 2 + differ 0 y
    digits_of b y h = h
xor_lowest (suc a) b =
    bit_xor-bitwise (suc a) b
    ∙ ap (λ t. t * 2 + differ (suc a % 2) (b % 2))
        (fuel_enough (λ t. t) differ a (suc a / 2) (b / 2) (omega arith)
          ∙ (let e : digits (λ t. t) differ (suc a / 2) (suc a / 2) (b / 2)
                  ≡ bit_xor (suc a / 2) (b / 2) =
                (omega (arith, bit_xor-bitwise (suc a / 2) (b / 2))) in
              e))

differ_twice : (x y : ℕ) → x < 2 → y < 2 → (differ x y < 2) × (differ (differ x y) y ≡ x)
differ_twice zero zero h k = (omega arith, refl)
differ_twice zero (suc zero) h k = (omega arith, refl)
differ_twice (suc zero) zero h k = (omega arith, refl)
differ_twice (suc zero) (suc zero) h k = (omega arith, refl)
differ_twice (suc (suc x)) y h k = absurd (omega arith)
differ_twice zero (suc (suc y)) h k = absurd (omega arith)
differ_twice (suc zero) (suc (suc y)) h k = absurd (omega arith)

xor_twice_upto : (fuel a b : ℕ) → a ≤ fuel → b ≤ fuel → bit_xor (bit_xor a b) b ≡ a
xor_twice_upto zero zero zero h k = refl
xor_twice_upto zero (suc a) b h k = absurd (omega arith)
xor_twice_upto zero zero (suc b) h k = absurd (omega arith)
xor_twice_upto (suc fuel) a b h k =
    let (small, back) = differ_twice (a % 2) (b % 2) (omega arith) (omega arith) in
    let low : bit_xor a b % 2 ≡ differ (a % 2) (b % 2) = omega (arith, xor_lowest a b) in
    let high : bit_xor a b / 2 ≡ bit_xor (a / 2) (b / 2) = omega (arith, xor_lowest a b) in
    let rec = xor_twice_upto fuel (a / 2) (b / 2) (omega arith) (omega arith) in
    xor_lowest (bit_xor a b) b
    ∙ ap (λ t. bit_xor t (b / 2) * 2 + differ (bit_xor a b % 2) (b % 2)) high
    ∙ ap (λ t. bit_xor (bit_xor (a / 2) (b / 2)) (b / 2) * 2 + differ t (b % 2)) low
    ∙ (omega (arith, rec, back))

-- `^` undoes itself.
pub xor_twice : (a b : ℕ) → bit_xor (bit_xor a b) b ≡ a
xor_twice a b = xor_twice_upto (a + b) a b (omega arith) (omega arith)
