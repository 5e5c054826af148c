-- ===== src/Anchors/Digits.antt =====
-- Numbers of positional digits, the arithmetic behind both directions of the encoding.
use frances.Prelude.{
  ℕ, zero, suc, ◌+◌, ◌-◌, ◌*◌, ◌/◌, ◌%◌, ◌^◌, ◌≤◌, ◌<◌, ◌≡◌, refl, ap, ap₂, List, [], ◌∷◌, ◌++◌,
  length, All, arith, map,
}
use native.Mathlib.Nat.{
  div-add-mod, add-zero, pow-suc, mod-eq_of_lt, div-lt_iff_lt-mul, mul-le-mul_right,
}
use native.Mathlib.Decide.{dec_lt}
use native.Mathlib.Numerals.{towards_suc}
use frances.Anchors.Words.{dict_size}
use frances.Anchors.Encode.{data_offset}

-- The number whose digits are `acc` and then the list.
unfoldable pub num : ℕ → ℕ → List ℕ → ℕ
num base acc [] = acc
num base acc (x ∷ xs) = num base (acc * base + x) xs

pub num-append :
    (base acc : ℕ) (xs ys : List ℕ) → num base acc (xs ++ ys) ≡ num base (num base acc xs) ys
unfolding num
num-append base acc [] ys = refl
num-append base acc (x ∷ xs) ys = num-append base (acc * base + x) xs ys

pub num_snoc :
    (base acc : ℕ) (xs : List ℕ) (x : ℕ) → num base acc (xs ++ x ∷ []) ≡ num base acc xs * base + x
unfolding num
num_snoc base acc xs x = num-append base acc xs (x ∷ [])

pub div_unique : (n a b x y : ℕ) → x < n → y < n → a * n + x ≡ b * n + y → (a ≡ b) × (x ≡ y)
div_unique n a b x y hx hy e = elim (dec_lt a b) [
  | yes p ↦ absurd (omega (arith, mul-le-mul_right n p))
  | no p ↦ elim (dec_lt b a) [
    | yes q ↦ absurd (omega (arith, mul-le-mul_right n q))
    | no q ↦ let r : a ≡ b = omega arith in (r, omega (arith, ap (λ (t : ℕ). t * n) r))
  ]
]

-- Digits below the base are determined by their number and their count.
pub num_injective :
    (base a b : ℕ) (xs ys : List ℕ)
    → length xs ≡ length ys
    → All (λ x. x < base) xs
    → All (λ y. y < base) ys
    → num base a xs ≡ num base b ys
    → (a ≡ b) × (xs ≡ ys)
unfolding num
num_injective base a b [] [] l hx hy e = (e, refl)
num_injective base a b [] (y ∷ ys) l hx hy e = absurd (omega arith)
num_injective base a b (x ∷ xs) [] l hx hy e = absurd (omega arith)
num_injective base a b (x ∷ xs) (y ∷ ys) l hx hy e =
    let (p, q) = num_injective base (a * base + x) (b * base + y) xs ys (omega arith) hx.1 hy.1 e in
    let (r, s) = div_unique base a b x y hx.0 hy.0 p in (r, ap₂ ◌∷◌ s q)

-- The index of a data word, and the digit that it stands for.
abbrev pub IsData : ℕ → Type 0
IsData w = (data_offset ≤ w) × (w < dict_size)

abbrev pub digits : List ℕ → List ℕ
digits = map (λ w. w - data_offset)

pub pow_add_8 : (k : ℕ) → 2 ^ (k + 8) ≡ 256 * 2 ^ k
pow_add_8 k = simp towards_suc (omega arith)

pow_add_3 : (k : ℕ) → 2 ^ (k + 3) ≡ 8 * 2 ^ k
pow_add_3 k = simp towards_suc (omega arith)

pub pow_add_11 : (k : ℕ) → 2 ^ (k + 11) ≡ 2048 * 2 ^ k
pow_add_11 k =
    let e : k + 11 ≡ k + 3 + 8 = omega arith in rw e (omega (arith, pow_add_8 (k + 3), pow_add_3 k))

pub pow_add : (a b : ℕ) → 2 ^ (a + b) ≡ 2 ^ a * 2 ^ b
pow_add a zero = rw add-zero (omega arith)
pow_add a (suc b) =
    let e : a + suc b ≡ suc (a + b) = omega arith in
    rw (e, pow-suc)
      (omega (arith, pow_add a b, pow-suc 2 b, ap (λ (t : ℕ). 2 ^ a * t) (pow-suc 2 b)))

-- Moving the top of a buffer of `m * q` values to the digits keeps the number.
pub move_top : (d m q b : ℕ) → 0 < q → b < m * q → (d * m + b / q % m) * q + b % q ≡ d * (m * q) + b
move_top d m q b hq h =
    let small : b / q < m = (div-lt_iff_lt-mul hq).1 h in
    omega (arith, ap (λ (t : ℕ). t * q) (mod-eq_of_lt small), div-add-mod b q)
