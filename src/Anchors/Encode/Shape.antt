-- ===== src/Anchors/Encode/Shape.antt =====
-- What `encode` returns: the data words spell the bytes and `pad` zero bits, and the marker names
-- `pad`.
use frances.Prelude.{
  ℕ, suc, ◌+◌, ◌-◌, ◌*◌, ◌/◌, ◌%◌, ◌^◌, ◌≤◌, ◌<◌, ◌≡◌, refl, ap, List, [], ◌∷◌, ◌++◌, length,
  length-append, All, All-append, arith, ltb, ◌==◌, Bool-cases, inl, inr, if◌then◌else◌,
}
use native.Mathlib.Nat.{one-le-pow, zero-add, mul-le-mul_right}
use frances.Anchors.Encode.{Packing, encode_bytes, start_packing, flush, encode, pad_bits}
use frances.Anchors.Encode.Loop.{IsPacking, digits_snoc, encode_bytes-IsPacking, start-IsPacking}
use frances.Anchors.Digits.{num, digits, IsData, pow_add}

-- A byte string whose bits a u32 counts.
pub record IsPayload (bytes : List ℕ) : Type 0 where
  pub byte_range : All (λ b. b < 256) bytes
  pub short : length bytes < 2 ^ 28

abbrev pub data_words : List ℕ → List ℕ
data_words bytes = flush (encode_bytes start_packing bytes)

-- The number of zero bits behind `bytes` in the last data word.
abbrev pub padding : List ℕ → ℕ
padding bytes = (8 * length bytes + 10) / 11 * 11 - 8 * length bytes

abbrev pub with_marker : ℕ → List ℕ → List ℕ
with_marker pad words = if pad == 0 then words else words ++ (pad - 1) ∷ []

pub pad_bits_lem : (bytes : List ℕ) → length bytes < 2 ^ 28 → pad_bits bytes ≡ padding bytes
pad_bits_lem bytes h = omega arith

pub encode_cons :
    (b : ℕ) (bs : List ℕ)
    → IsPayload (b ∷ bs)
    → encode (b ∷ bs) ≡ with_marker (padding (b ∷ bs)) (data_words (b ∷ bs))
unfolding encode
encode_cons b bs h = rw (pad_bits_lem (b ∷ bs) h.short) refl

-- The data words as a number, their count and their range.
pub record IsSpelling (v n pad : ℕ) (words : List ℕ) : Type 0 where
  pub value : num 2048 0 (digits words) ≡ v * 2 ^ pad
  pub count : 11 * length words ≡ 8 * n + pad
  pub pad_small : pad ≤ 10
  pub range : All IsData words

split_word : (bits : ℕ) → bits ≤ 10 → 2 ^ bits * 2 ^ (11 - bits) ≡ 2048
split_word bits h =
    let e : bits + (11 - bits) ≡ 11 = omega arith in
    omega (arith, pow_add bits (11 - bits), ap (λ (t : ℕ). 2 ^ t) e)

last_word :
    (bits buf : ℕ)
    → bits ≤ 10
    → buf < 2 ^ bits
    → (buf * 2 ^ (11 - bits) % 2 ^ 32 % 2 ^ 11 ≡ buf * 2 ^ (11 - bits))
      × (buf * 2 ^ (11 - bits) < 2048)
last_word bits buf h hb =
    let below : suc buf * 2 ^ (11 - bits) ≤ 2 ^ bits * 2 ^ (11 - bits) = mul-le-mul_right _ hb in
    let room : 0 < 2 ^ (11 - bits) = one-le-pow _ 2 (omega arith) in
    (omega (arith, split_word bits h), omega (arith, split_word bits h))

flush-IsSpelling :
    (v n pad : ℕ) (s : Packing)
    → pad ≡ (8 * n + 10) / 11 * 11 - 8 * n
    → IsPacking v n s
    → IsSpelling v n pad (flush s)
unfolding flush
flush-IsSpelling v n pad s hp h = elim (Bool-cases (ltb 0 s.bits)) [
  | inl bits_left ↦
      let (e, lt) = last_word s.bits s.buf h.bits_small h.buf_small in
      let pad_eq : pad ≡ 11 - s.bits = ground (arith, h.count) in
      rw (bits_left, e)
        (record {
          value =
              rw (digits_snoc, pad_eq)
                (omega (
                  arith,
                  ap (λ (t : ℕ). num 2048 0 (digits s.out) * t) (split_word s.bits h.bits_small),
                  ap (λ (t : ℕ). t * 2 ^ (11 - s.bits)) h.value,
                ));
          count = rw length-append (omega (arith, h.count, pad_eq, h.bits_small));
          pad_small = omega arith;
          range = All-append IsData s.out _ h.words ((omega arith, omega arith), tt);
        })
  | inr all_out ↦
      let none_left : s.bits ≡ 0 = ground arith in
      let pad_eq : pad ≡ 0 = omega (arith, h.count) in
      rw all_out (record {
        value = rw pad_eq (
            omega (
              arith,
              h.value,
              h.buf_small,
              ap (λ (t : ℕ). num 2048 0 (digits s.out) * 2 ^ t) none_left,
              ap (λ (t : ℕ). 2 ^ t) none_left,
            ));
        count = omega (arith, h.count);
        pad_small = omega arith;
        range = h.words;
      })
]

-- The data words of a byte string spell it.
pub data_words-IsSpelling :
    (bytes : List ℕ)
    → IsPayload bytes
    → IsSpelling (num 256 0 bytes) (length bytes) (padding bytes) (data_words bytes)
data_words-IsSpelling bytes h =
    flush-IsSpelling _ _ _ _ refl
      (rw zero-add at (encode_bytes-IsPacking 0 0 bytes start_packing h.byte_range start-IsPacking))
