-- ===== src/Text/Decimal.antt =====
-- Numbers in decimal digits: `Display` for them, and what `str::parse` reads.
use frances.Prelude.{
  ℕ, zero, suc, ◌+◌, ◌-◌, ◌*◌, ◌/◌, ◌%◌, ◌≤◌, ◌<◌, ◌^◌, ◌≡◌, refl, ap, ◌∙◌, List, [], ◌∷◌, Option,
  none, some, Bool, true, false, ltb, leb, ◌==◌, ◌&&◌, if◌then◌else◌, length, All, Bool-cases, inl,
  inr, lt_of_ltb, le_of_ltb, arith,
}
use frances.Text.{Text}

abbrev pub is_digit : ℕ → Bool
is_digit b = leb 0x30 b && leb b 0x39

-- The number in the digits, behind those of `n`.
abbrev pub value_from : ℕ → List ℕ → ℕ
value_from n [] = n
value_from n (d ∷ ds) = value_from (n * 10 + (d - 0x30)) ds

-- On fuel that covers the digits.
unfoldable pub decimal_loop : ℕ → ℕ → Text → Text
decimal_loop zero n acc = acc
decimal_loop (suc fuel) n acc =
    let rest = decimal_loop fuel (n / 10) ((0x30 + n % 10) ∷ acc) in
    if ltb n 10 then (0x30 + n) ∷ acc else rest

unfoldable pub decimal : ℕ → Text
unfolding decimal_loop
decimal n = decimal_loop (suc n) n []

abbrev all_digits : Text → Bool
all_digits [] = true
all_digits (c ∷ cs) = is_digit c && all_digits cs

abbrev in_u64 : Text → Option ℕ
in_u64 [] = none
in_u64 (c ∷ cs) =
    if all_digits (c ∷ cs) && ltb (value_from 0 (c ∷ cs)) (2 ^ 64)
    then some (value_from 0 (c ∷ cs))
    else none

-- `str::parse::<u64>`, which takes a plus sign.
unfoldable pub parse_u64 : Text → Option ℕ
parse_u64 [] = none
parse_u64 (c ∷ cs) = if c == 0x2b then in_u64 cs else in_u64 (c ∷ cs)

last_digit : (n : ℕ) → 0 + (0x30 + n - 0x30) ≡ n
last_digit n = omega arith

next_digit : (n : ℕ) → n / 10 * 10 + (0x30 + n % 10 - 0x30) ≡ n
next_digit n = omega arith

value_from-decimal_loop :
    (fuel n : ℕ) (acc : Text) → n < fuel → value_from 0 (decimal_loop fuel n acc) ≡ value_from n acc
unfolding decimal_loop
value_from-decimal_loop zero n acc l = absurd (omega arith)
value_from-decimal_loop (suc fuel) n acc l = elim (Bool-cases (ltb n 10)) [
  | inl e ↦ rw e (ap (λ v. value_from v acc) (last_digit n))
  | inr e ↦ rw e (
      value_from-decimal_loop fuel (n / 10) ((0x30 + n % 10) ∷ acc)
        (omega (arith, le_of_ltb n 10 e, l))
      ∙ ap (λ v. value_from v acc) (next_digit n))
]

pub value_from-decimal : (n : ℕ) → value_from 0 (decimal n) ≡ n
unfolding decimal
value_from-decimal n = value_from-decimal_loop (suc n) n [] (omega arith)

decimal_loop-digits :
    (fuel n : ℕ) (acc : Text)
    → All (λ c. is_digit c ≡ true) acc
    → All (λ c. is_digit c ≡ true) (decimal_loop fuel n acc)
unfolding decimal_loop
decimal_loop-digits zero n acc h = h
decimal_loop-digits (suc fuel) n acc h = elim (Bool-cases (ltb n 10)) [
  | inl e ↦ rw e (ground (arith, lt_of_ltb n 10 e), h)
  | inr e ↦ rw e (decimal_loop-digits fuel (n / 10) ((0x30 + n % 10) ∷ acc) (ground arith, h))
]

decimal_loop-cons :
    (fuel n : ℕ) (acc : Text) → (c : ℕ) × (cs : Text) × (decimal_loop (suc fuel) n acc ≡ c ∷ cs)
unfolding decimal_loop
decimal_loop-cons zero n acc = elim (Bool-cases (ltb n 10)) [
  | inl e ↦ (0x30 + n, acc, rw e refl)
  | inr e ↦ (0x30 + n % 10, acc, rw e refl)
]
decimal_loop-cons (suc fuel) n acc = elim (Bool-cases (ltb n 10)) [
  | inl e ↦ (0x30 + n, acc, rw e refl)
  | inr e ↦
      let (c, cs, h) = decimal_loop-cons fuel (n / 10) ((0x30 + n % 10) ∷ acc) in
      (c, cs, rw (decimal_loop, e) h)
]

all_digits-true : (ds : Text) → All (λ c. is_digit c ≡ true) ds → all_digits ds ≡ true
all_digits-true [] h = refl
all_digits-true (d ∷ ds) h = rw (h.0, all_digits-true ds h.1) refl

no_plus : (c : ℕ) → is_digit c ≡ true → c == 0x2b ≡ false
no_plus c h = ground arith

ltb-true : (a b : ℕ) → a < b → ltb a b ≡ true
ltb-true a b l = ground arith

parse_digits :
    (ds : Text) (n c : ℕ) (cs : Text)
    → ds ≡ c ∷ cs
    → All (λ d. is_digit d ≡ true) ds
    → value_from 0 ds ≡ n
    → n < 2 ^ 64
    → parse_u64 ds ≡ some n
unfolding parse_u64
parse_digits [] n c cs e h v l = cc
parse_digits (d ∷ ds) n c cs e h v l =
    rw (no_plus d h.0, all_digits-true (d ∷ ds) h, v, ltb-true n (2 ^ 64) l) refl

pub decimal-digits : (n : ℕ) → All (λ c. is_digit c ≡ true) (decimal n)
unfolding decimal
decimal-digits n = decimal_loop-digits (suc n) n [] tt

pub decimal-cons : (n : ℕ) → (c : ℕ) × (cs : Text) × (decimal n ≡ c ∷ cs)
unfolding decimal
decimal-cons n = decimal_loop-cons n n []

-- A number below 2^64 is read back.
pub parse_u64-decimal : (n : ℕ) → n < 2 ^ 64 → parse_u64 (decimal n) ≡ some n
parse_u64-decimal n l =
    let (c, cs, e) = decimal-cons n in
    parse_digits (decimal n) n c cs e (decimal-digits n) (value_from-decimal n) l

abbrev ten_to : ℕ → ℕ
ten_to zero = 1
ten_to (suc k) = 10 * ten_to k

length-decimal_loop :
    (k fuel n : ℕ) (acc : Text)
    → n < 10 * ten_to k
    → length (decimal_loop fuel n acc) ≤ suc k + length acc
unfolding decimal_loop
length-decimal_loop k zero n acc l = omega arith
length-decimal_loop zero (suc fuel) n acc l = elim (Bool-cases (ltb n 10)) [
  | inl e ↦ rw e (omega arith)
  | inr e ↦ absurd (omega (arith, le_of_ltb n 10 e, l))
]
length-decimal_loop (suc k) (suc fuel) n acc l = elim (Bool-cases (ltb n 10)) [
  | inl e ↦ rw e (omega arith)
  | inr e ↦ rw e (
      omega (arith, length-decimal_loop k fuel (n / 10) ((0x30 + n % 10) ∷ acc) (omega (arith, l))))
]

-- A u64 has twenty digits at most.
pub length-decimal : (n : ℕ) → n < 2 ^ 64 → length (decimal n) ≤ 20
unfolding decimal
length-decimal n l = length-decimal_loop 19 (suc n) n [] (omega (arith, l))
