-- ===== src/Base/Decimal.antt =====
-- `std::to_string` of an unsigned integer: its decimal digits.
use Prim.Native.Nat.{ℕ, zero, suc, ◌+◌, ◌*◌, ◌/◌, ◌%◌, ◌-◌, ◌<◌, ◌≤◌}
use mathlib.Core.Path.{◌≡◌, refl, ap, sym, ◌∙◌}
use mathlib.Core.Bool.{Bool, true, false}
use mathlib.Core.List.{[], ◌∷◌, ◌++◌}
use native.Mathlib.Omega.{arith}
use nebula_im.Base.Tests.{ltb, ltb→lt, if◌then◌else◌}
use nebula_im.Base.Keys.{Text}

-- Digits of a number below `10 ^ fuel`.
decimal : ℕ → ℕ → Text
decimal zero n = []
decimal (suc fuel) n =
    let front = decimal fuel (n / 10) in
    if ltb n 10 then (48 + n) ∷ [] else front ++ ((48 + n % 10) ∷ [])

-- A number has no more digits than its value plus one.
unfoldable pub to_string : ℕ → Text
unfolding decimal
to_string n = decimal (suc n) n

-- The number that digits stand for, on top of those read before.
unfoldable pub value : ℕ → Text → ℕ
value acc [] = acc
value acc (c ∷ s) = value (acc * 10 + (c - 48)) s

value-append : (acc : ℕ) (s t : Text) → value acc (s ++ t) ≡ value (value acc s) t
unfolding value
value-append acc [] t = refl
value-append acc (c ∷ s) t = value-append (acc * 10 + (c - 48)) s t

value-decimal : (fuel n : ℕ) → n < fuel → value 0 (decimal fuel n) ≡ n
unfolding value decimal
value-decimal zero n h = absurd (omega arith)
value-decimal (suc fuel) n h = ground (
  arith,
  value-append 0 (decimal fuel (n / 10)) ((48 + n % 10) ∷ []),
  value-decimal fuel (n / 10),
)

pub to_string_injective : (m n : ℕ) → to_string m ≡ to_string n → m ≡ n
unfolding to_string
to_string_injective m n e =
    sym (value-decimal (suc m) m (omega arith))
    ∙ ap (value 0) e
    ∙ value-decimal (suc n) n (omega arith)

pub value-to_string : (n : ℕ) → value 0 (to_string n) ≡ n
unfolding to_string
value-to_string n = value-decimal (suc n) n (omega arith)

abbrev pub AllDigits : Text → Type 0
AllDigits [] = Unit {0}
AllDigits (c ∷ s) = (48 ≤ c) × (c < 58) × AllDigits s

append-AllDigits : (s t : Text) → AllDigits s → AllDigits t → AllDigits (s ++ t)
append-AllDigits [] t h k = k
append-AllDigits (c ∷ s) t (low, high, h) k = (low, high, append-AllDigits s t h k)

if-AllDigits :
    (b : Bool) (s t : Text)
    → (b ≡ true → AllDigits s)
    → AllDigits t
    → AllDigits (if b then s else t)
if-AllDigits true s t h k = h refl
if-AllDigits false s t h k = k

decimal-AllDigits : (fuel n : ℕ) → AllDigits (decimal fuel n)
unfolding decimal
decimal-AllDigits zero n = tt
decimal-AllDigits (suc fuel) n =
    if-AllDigits (ltb n 10) ((48 + n) ∷ []) (decimal fuel (n / 10) ++ ((48 + n % 10) ∷ []))
      (λ h. (omega arith, omega (arith, ltb→lt n 10 h), tt))
      (append-AllDigits (decimal fuel (n / 10)) ((48 + n % 10) ∷ [])
        (decimal-AllDigits fuel (n / 10)) (omega arith, omega arith, tt))

pub to_string-AllDigits : (n : ℕ) → AllDigits (to_string n)
unfolding to_string
to_string-AllDigits n = decimal-AllDigits (suc n) n

append-cons : (s : Text) (c : ℕ) → (d : ℕ) × (t : Text) × (s ++ (c ∷ []) ≡ d ∷ t)
append-cons [] c = (c, [], refl)
append-cons (d ∷ s) c = (d, s ++ (c ∷ []), refl)

if-cons :
    (b : Bool) (s t : Text)
    → (c : ℕ) × (r : Text) × (s ≡ c ∷ r)
    → (c : ℕ) × (r : Text) × (t ≡ c ∷ r)
    → (c : ℕ) × (r : Text) × ((if b then s else t) ≡ c ∷ r)
if-cons true s t h k = h
if-cons false s t h k = k

pub to_string-cons : (n : ℕ) → (c : ℕ) × (s : Text) × (to_string n ≡ c ∷ s)
unfolding to_string decimal
to_string-cons n =
    if-cons (ltb n 10) ((48 + n) ∷ []) (decimal n (n / 10) ++ ((48 + n % 10) ∷ []))
      (48 + n, [], refl) (append-cons (decimal n (n / 10)) (48 + n % 10))

twelve : to_string 120 ≡ 49 ∷ 50 ∷ 48 ∷ []
unfolding to_string
twelve = refl
