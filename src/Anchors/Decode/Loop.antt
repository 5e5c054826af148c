-- ===== src/Anchors/Decode/Loop.antt =====
-- What the loops of `decode` keep: the bytes and the buffer together are the digits so far.
use frances.Prelude.{
  ℕ, zero, suc, ◌+◌, ◌-◌, ◌*◌, ◌/◌, ◌%◌, ◌^◌, ◌≤◌, ◌<◌, ◌≡◌, ap, ◌⊎◌, inl, inr, List, [], ◌∷◌, ◌++◌,
  length, length-append, All, All-append, arith, leb, ltb, ◌&&◌, Bool-cases,
}
use native.Mathlib.Nat.{pow-le-pow_right, one-le-pow, mod-lt, add-zero}
use frances.Anchors.Encode.{data_offset, Packing}
use frances.Anchors.Decode.{drain_bytes, decode_word, decode_data}
use frances.Anchors.Digits.{num, num_snoc, digits, IsData, move_top, pow_add_8, pow_add_11}

-- `d` is the number of the `n` words read so far, `byte_len` the number of bytes wanted.
pub record IsUnpacking (byte_len d n : ℕ) (s : Packing) : Type 0 where
  pub value : num 256 0 s.out * 2 ^ s.bits + s.buf ≡ d
  pub buf_small : s.buf < 2 ^ s.bits
  pub count : 8 * length s.out + s.bits ≡ 11 * n
  pub fits : length s.out ≤ byte_len
  pub bytes : All (λ b. b < 256) s.out

abbrev pub IsDrained : ℕ → Packing → Type 0
IsDrained byte_len s = (s.bits < 8) ⊎ (length s.out ≡ byte_len)

drain_once :
    (byte_len d n : ℕ) (s : Packing)
    → 8 ≤ s.bits
    → length s.out < byte_len
    → IsUnpacking byte_len d n s
    → IsUnpacking byte_len d n (record {
      buf = s.buf % 2 ^ (s.bits - 8);
      bits = s.bits - 8;
      out = s.out ++ (s.buf / 2 ^ (s.bits - 8) % 2 ^ 8) ∷ [];
    })
drain_once byte_len d n s h8 hc h =
    let e : s.bits ≡ s.bits - 8 + 8 = omega arith in
    let q : 2 ^ s.bits ≡ 256 * 2 ^ (s.bits - 8) =
      omega (arith, pow_add_8 (s.bits - 8), ap (λ (t : ℕ). 2 ^ t) e) in
    let room : 0 < 2 ^ (s.bits - 8) = one-le-pow _ 2 (omega arith) in
    record {
      value = rw num_snoc (
          omega (
            arith,
            h.value,
            move_top (num 256 0 s.out) 256 (2 ^ (s.bits - 8)) s.buf room
                (omega (arith, h.buf_small)),
            ap (λ (t : ℕ). num 256 0 s.out * t) q,
          ));
      buf_small = mod-lt _ room;
      count = rw length-append (omega (arith, h.count));
      fits = rw length-append (omega arith);
      bytes = All-append (λ b. b < 256) s.out _ h.bytes (omega arith, tt);
    }

pub drain_bytes-IsUnpacking :
    (fuel byte_len d n : ℕ) (s : Packing)
    → s.bits ≤ fuel
    → IsUnpacking byte_len d n s
    → IsUnpacking byte_len d n (drain_bytes fuel byte_len s)
      × IsDrained byte_len (drain_bytes fuel byte_len s)
unfolding drain_bytes
drain_bytes-IsUnpacking zero byte_len d n s hf h = (h, inl (omega arith))
drain_bytes-IsUnpacking (suc fuel) byte_len d n s hf h =
    elim (Bool-cases (leb 8 s.bits && ltb (length s.out) byte_len)) [
      | inl more ↦ rw more (
          drain_bytes-IsUnpacking fuel byte_len d n _ (ground arith)
            (drain_once byte_len d n s (ground arith) (ground arith) h))
      | inr stop ↦ rw stop (h, ground (arith, h.fits))
    ]

decode_word-IsUnpacking :
    (byte_len d n w : ℕ) (s : Packing)
    → IsData w
    → s.bits < 8
    → IsUnpacking byte_len d n s
    → IsUnpacking byte_len (d * 2048 + (w - data_offset)) (n + 1) (decode_word byte_len s w)
      × IsDrained byte_len (decode_word byte_len s w)
unfolding decode_word
decode_word-IsUnpacking byte_len d n w s hw hb h =
    let le : s.bits ≤ 8 = omega arith in
    let small : 2 ^ s.bits ≤ 2 ^ 8 = pow-le-pow_right (omega arith) le in
    let no_wrap : s.buf * 2 ^ 11 % 2 ^ 64 ≡ s.buf * 2048 = omega (arith, h.buf_small) in
    drain_bytes-IsUnpacking (s.bits + 11) byte_len _ (n + 1) _ (omega arith) (record {
      value =
          rw no_wrap
            (omega (arith, h.value, ap (λ (t : ℕ). num 256 0 s.out * t) (pow_add_11 s.bits)));
      buf_small = rw no_wrap (omega (arith, h.buf_small, pow_add_11 s.bits));
      count = omega (arith, h.count);
      fits = h.fits;
      bytes = h.bytes;
    })

-- The bytes wanted take all the bits of the words but at most ten, so every word finds room.
pub decode_data-IsUnpacking :
    (byte_len d n : ℕ) (ws : List ℕ) (s : Packing)
    → All IsData ws
    → 11 * (n + length ws) ≤ 8 * byte_len + 10
    → IsUnpacking byte_len d n s
    → IsDrained byte_len s
    → IsUnpacking byte_len (num 2048 d (digits ws)) (n + length ws) (decode_data byte_len s ws)
      × IsDrained byte_len (decode_data byte_len s ws)
unfolding decode_data num
decode_data-IsUnpacking byte_len d n [] s hw hl h hd = (rw (add-zero n) h, hd)
decode_data-IsUnpacking byte_len d n (w ∷ ws) s hw hl h hd =
    let e : n + suc (length ws) ≡ n + 1 + length ws = omega arith in
    let (h', hd') = decode_word-IsUnpacking byte_len d n w s hw.0 (omega (arith, h.count)) h in
    rw e (
      decode_data-IsUnpacking byte_len (d * 2048 + (w - data_offset)) (n + 1) ws
        (decode_word byte_len s w) hw.1 (omega arith) h' hd')
