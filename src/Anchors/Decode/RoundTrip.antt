-- ===== src/Anchors/Decode/RoundTrip.antt =====
-- `decode` reads back what `encode` wrote, and accepts nothing else.
use frances.Prelude.{
  ℕ, zero, suc, ◌+◌, ◌-◌, ◌*◌, ◌/◌, ◌%◌, ◌^◌, ◌≤◌, ◌<◌, ◌≡◌, refl, ap, List, [], ◌∷◌, ◌++◌, length,
  All, arith, ltb, inl, ok, false,
}
use native.Mathlib.Nat.{one-le-pow}
use frances.Anchors.Encode.{Packing, encode}
use frances.Anchors.Encode.Shape.{
  IsPayload, IsSpelling, with_marker, encode_cons, data_words-IsSpelling,
}
use frances.Anchors.Decode.{split_marker, any_marker, decode_split, decode}
use frances.Anchors.Decode.Loop.{IsUnpacking, IsDrained, decode_data-IsUnpacking}
use frances.Anchors.Digits.{num, num_injective, IsData, div_unique}

split_marker_data : (ws : List ℕ) → All IsData ws → split_marker ws ≡ (ws, 0)
unfolding split_marker
split_marker_data [] h = refl
split_marker_data (x ∷ []) h = ground arith
split_marker_data (x ∷ y ∷ ys) h = rw (split_marker_data (y ∷ ys) h.1)

split_marker_end : (ws : List ℕ) (p : ℕ) → p < 10 → split_marker (ws ++ p ∷ []) ≡ (ws, p + 1)
unfolding split_marker
split_marker_end [] p h = ground arith
split_marker_end (x ∷ []) p h = ground arith
split_marker_end (x ∷ y ∷ ys) p h = rw (split_marker_end (y ∷ ys) p h)

split-with_marker :
    (pad : ℕ) (ws : List ℕ)
    → pad ≤ 10
    → All IsData ws
    → split_marker (with_marker pad ws) ≡ (ws, pad)
split-with_marker zero ws h hw = split_marker_data ws hw
split-with_marker (suc p) ws h hw = ground (arith, split_marker_end ws p)

any_marker_data : (ws : List ℕ) → All IsData ws → any_marker ws ≡ false
any_marker_data [] h = refl
any_marker_data (x ∷ xs) h = ground (arith, any_marker_data xs h.1)

-- At the end of the loop the padding is all that the buffer holds.
finish :
    (n m pad v : ℕ) (s : Packing)
    → 11 * m ≡ 8 * n + pad
    → pad ≤ 10
    → IsUnpacking n (v * 2 ^ pad) m s
    → IsDrained n s
    → (num 256 0 s.out ≡ v) × (s.buf ≡ 0) × (length s.out ≡ n)
finish n m pad v s e hp h hd =
    let full : length s.out ≡ n = omega (arith, h.count, h.fits) in
    let rest : s.bits ≡ pad = omega (arith, h.count) in
    let (p, q) =
      div_unique (2 ^ pad) (num 256 0 s.out) v s.buf 0 (rw rest at h.buf_small)
        (one-le-pow _ 2 (omega arith))
        (omega (arith, h.value, ap (λ (t : ℕ). num 256 0 s.out * 2 ^ t) rest)) in
    (p, q, full)

-- The bytes that the data words of a spelling decode to.
decode_split_lem :
    (bytes words : List ℕ) (pad : ℕ)
    → IsPayload bytes
    → IsSpelling (num 256 0 bytes) (length bytes) pad words
    → decode_split words pad ≡ ok bytes
unfolding decode_split
decode_split_lem bytes words pad h w =
    let n = length bytes in
    let total : length words % 2 ^ 32 * 11 % 2 ^ 32 ≡ 8 * n + pad =
      omega (arith, h.short, w.count, w.pad_small) in
    let enough : ltb (8 * n + pad) pad ≡ false = ground arith in
    let payload : 8 * n + pad - pad ≡ 8 * n = omega arith in
    let whole : ltb 0 (8 * n % 8) ≡ false = ground arith in
    let count : 8 * n / 8 ≡ n = omega arith in
    let start : Packing = record { buf = 0; bits = 0; out = [] } in
    let (u, d) =
      decode_data-IsUnpacking n 0 0 words start w.range (omega (arith, w.count, w.pad_small))
        (unfold num in
          record {
            value = omega arith;
            buf_small = omega arith;
            count = omega arith;
            fits = omega arith;
            bytes = tt;
          })
        (inl (omega arith)) in
    let (number, empty, full) =
      finish n _ pad (num 256 0 bytes) _ (omega (arith, w.count)) w.pad_small (rw w.value at u) d in
    let (z, same) = num_injective 256 0 0 _ _ full u.bytes h.byte_range number in
    rw (any_marker_data words w.range, total, enough, payload, whole, count, empty, same) refl

-- Decoding the encoding of fewer than 2^28 bytes gives the bytes back.
pub decode-encode : (bytes : List ℕ) → IsPayload bytes → decode (encode bytes) ≡ ok bytes
unfolding decode
decode-encode [] h = unfold encode in refl
decode-encode (b ∷ bs) h =
    let w = data_words-IsSpelling (b ∷ bs) h in
    rw (encode_cons b bs h, split-with_marker _ _ w.pad_small w.range)
      (decode_split_lem (b ∷ bs) _ _ h w)
