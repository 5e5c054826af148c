-- ===== src/Anchors/Encode/Loop.antt =====
-- What the loop of `encode` keeps: the words and the buffer together are the bytes so far.
use frances.Prelude.{
  ℕ, suc, ◌+◌, ◌-◌, ◌*◌, ◌/◌, ◌%◌, ◌^◌, ◌≤◌, ◌<◌, ◌≡◌, ap, List, [], ◌∷◌, ◌++◌, length,
  length-append, All, All-append, arith, leb, Bool-cases, inl, inr,
}
use native.Mathlib.Nat.{pow-le-pow_right, one-le-pow, mod-lt, add-zero}
use mathlib.Core.List.{map-append}
use frances.Anchors.Encode.{data_offset, Packing, encode_byte, encode_bytes, start_packing}
use frances.Anchors.Digits.{num, num_snoc, digits, IsData, move_top, pow_add_8, pow_add_11}

-- `v` is the number of the `n` bytes read so far.
pub record IsPacking (v n : ℕ) (s : Packing) : Type 0 where
  pub value : num 2048 0 (digits s.out) * 2 ^ s.bits + s.buf ≡ v
  pub bits_small : s.bits ≤ 10
  pub buf_small : s.buf < 2 ^ s.bits
  pub count : 11 * length s.out + s.bits ≡ 8 * n
  pub words : All IsData s.out

pub digits_snoc :
    (xs : List ℕ) (d : ℕ)
    → num 2048 0 (digits (xs ++ (d + data_offset) ∷ [])) ≡ num 2048 0 (digits xs) * 2048 + d
digits_snoc xs d =
    let e : d + data_offset - data_offset ≡ d = omega arith in
    rw (map-append, num_snoc) (omega arith)

-- One byte more, where the buffer gives up a word: `k` bits stay behind.
push_word :
    (d buf v b bits k : ℕ)
    → b < 256
    → buf < 2 ^ bits
    → bits + 8 ≡ k + 11
    → d * 2 ^ bits + buf ≡ v
    → (d * 2048 + (buf * 256 + b) / 2 ^ k % 2048) * 2 ^ k + (buf * 256 + b) % 2 ^ k ≡ v * 256 + b
push_word d buf v b bits k hb hs hk hv =
    let same : 256 * 2 ^ bits ≡ 2048 * 2 ^ k =
      omega (arith, pow_add_8 bits, pow_add_11 k, ap (λ (t : ℕ). 2 ^ t) hk) in
    omega (
      arith,
      move_top d 2048 (2 ^ k) (buf * 256 + b) (one-le-pow k 2 (omega arith)) (omega arith),
      ap (λ (t : ℕ). d * t) same,
    )

no_wrap : (buf bits : ℕ) → bits ≤ 10 → buf < 2 ^ bits → buf * 256 % 2 ^ 32 ≡ buf * 256
no_wrap buf bits h hb =
    let small : 2 ^ bits ≤ 2 ^ 10 = pow-le-pow_right (omega arith) h in omega arith

encode_byte-IsPacking :
    (v n b : ℕ) (s : Packing)
    → b < 256
    → IsPacking v n s
    → IsPacking (v * 256 + b) (n + 1) (encode_byte s b)
unfolding encode_byte
encode_byte-IsPacking v n b s hb h = elim (Bool-cases (leb 11 (s.bits + 8))) [
  | inl full ↦
      rw (full, no_wrap s.buf s.bits h.bits_small h.buf_small)
        (record {
          value = rw digits_snoc (
              push_word _ s.buf v b s.bits (s.bits + 8 - 11) hb h.buf_small (ground arith) h.value);
          bits_small = ground arith;
          buf_small = mod-lt _ (one-le-pow _ 2 (omega arith));
          count = rw length-append (ground (arith, h.count));
          words = All-append IsData s.out _ h.words ((omega arith, omega arith), tt);
        })
  | inr room ↦
      rw (room, no_wrap s.buf s.bits h.bits_small h.buf_small)
        (record {
          value =
              omega
                (arith, h.value, ap (λ (t : ℕ). num 2048 0 (digits s.out) * t) (pow_add_8 s.bits));
          bits_small = ground arith;
          buf_small = omega (arith, h.buf_small, pow_add_8 s.bits);
          count = omega (arith, h.count);
          words = h.words;
        })
]

pub encode_bytes-IsPacking :
    (v n : ℕ) (bytes : List ℕ) (s : Packing)
    → All (λ b. b < 256) bytes
    → IsPacking v n s
    → IsPacking (num 256 v bytes) (n + length bytes) (encode_bytes s bytes)
unfolding encode_bytes num
encode_bytes-IsPacking v n [] s hb h = rw (add-zero n) h
encode_bytes-IsPacking v n (b ∷ bs) s hb h =
    let e : n + suc (length bs) ≡ n + 1 + length bs = omega arith in
    rw e (
      encode_bytes-IsPacking (v * 256 + b) (n + 1) bs (encode_byte s b) hb.1
        (encode_byte-IsPacking v n b s hb.0 h))

pub start-IsPacking : IsPacking 0 0 start_packing
unfolding num
start-IsPacking = record {
  value = omega arith;
  bits_small = omega arith;
  buf_small = omega arith;
  count = omega arith;
  words = tt;
}
