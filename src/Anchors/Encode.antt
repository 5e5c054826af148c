-- ===== src/Anchors/Encode.antt =====
-- crates/frances-anchors/src/encode.rs, `encode`: bytes to word indices.
pub mod Loop
pub mod Shape
use frances.Prelude.{
  ℕ, ◌+◌, ◌-◌, ◌*◌, ◌/◌, ◌%◌, ◌^◌, List, [], ◌∷◌, ◌++◌, length, ltb, leb, ◌==◌, if◌then◌else◌,
}
use frances.Anchors.Words.{bits_per_word, n_padding_words}

abbrev pub data_offset : ℕ
data_offset = n_padding_words

-- The loop's variables: `buf` and `bits` are u32.
pub record Packing : Type 0 where
  pub buf : ℕ
  pub bits : ℕ
  pub out : List ℕ

-- `(buf << 8) | b` is a sum, as the low eight bits are free; `x & ((1 << k) - 1)` is `x % 2 ^ k`.
unfoldable pub encode_byte : Packing → ℕ → Packing
encode_byte s b =
    let buf = s.buf * 2 ^ 8 % 2 ^ 32 + b in
    let bits = s.bits + 8 in
    if leb bits_per_word bits
    then (record {
      buf = buf % 2 ^ (bits - bits_per_word);
      bits = bits - bits_per_word;
      out = s.out ++ (buf / 2 ^ (bits - bits_per_word) % 2 ^ bits_per_word + data_offset) ∷ [];
    })
    else (record { buf = buf; bits = bits; out = s.out })

unfoldable pub encode_bytes : Packing → List ℕ → Packing
encode_bytes s [] = s
encode_bytes s (b ∷ bs) = encode_bytes (encode_byte s b) bs

abbrev pub start_packing : Packing
start_packing = record { buf = 0; bits = 0; out = [] }

-- The last data word takes the bits that are left, shifted to its top.
unfoldable pub flush : Packing → List ℕ
flush s =
    if ltb 0 s.bits
    then s.out
      ++ (s.buf * 2 ^ (bits_per_word - s.bits) % 2 ^ 32 % 2 ^ bits_per_word + data_offset) ∷ []
    else s.out

-- `bytes.len() as u32 * 8` and the number of data words that it takes.
abbrev pub total_bits : List ℕ → ℕ
total_bits bytes = length bytes % 2 ^ 32 * 8 % 2 ^ 32

abbrev pub n_data : List ℕ → ℕ
n_data bytes = (total_bits bytes + (bits_per_word - 1)) / bits_per_word

abbrev pub pad_bits : List ℕ → ℕ
pad_bits bytes = (n_data bytes * bits_per_word % 2 ^ 32 - total_bits bytes) % 2 ^ 16

unfoldable pub encode : List ℕ → List ℕ
unfolding encode_bytes encode_byte flush
encode [] = []
encode (b ∷ bs) =
    let words = flush (encode_bytes start_packing (b ∷ bs)) in
    if pad_bits (b ∷ bs) == 0 then words else words ++ (pad_bits (b ∷ bs) - 1) ∷ []
