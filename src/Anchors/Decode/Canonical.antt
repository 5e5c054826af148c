-- ===== src/Anchors/Decode/Canonical.antt =====
-- Only what `encode` writes decodes: the encoding is canonical.
use frances.Prelude.{
  ℕ, zero, suc, ◌+◌, ◌-◌, ◌*◌, ◌/◌, ◌%◌, ◌^◌, ◌≤◌, ◌<◌, ◌≡◌, refl, sym, ap, ◌∙◌, List, [], ◌∷◌,
  length, All, arith, Bool-cases, inl, inr, ok, false, length-map,
}
use frances.Anchors.Words.{dict_size, is_padding_marker}
use frances.Anchors.Encode.{data_offset, Packing, encode}
use frances.Anchors.Encode.Shape.{
  IsPayload, IsSpelling, padding, with_marker, encode_cons, data_words-IsSpelling,
}
use frances.Anchors.Decode.{split_marker, any_marker, decode_split, decode, decode_data}
use frances.Anchors.Decode.Loop.{IsUnpacking, IsDrained, decode_data-IsUnpacking}
use frances.Anchors.Digits.{num, num_injective, digits, IsData}

abbrev IsIndex : ℕ → Type 0
IsIndex w = w < dict_size

with_marker_cons : (pad x : ℕ) (ws : List ℕ) → with_marker pad (x ∷ ws) ≡ x ∷ with_marker pad ws
with_marker_cons pad x ws = ground arith

-- The two parts that `decode` reads are those that `encode` would join.
split_marker_lem :
    (ws : List ℕ)
    → All IsIndex ws
    → (ws ≡ with_marker (split_marker ws).1 (split_marker ws).0)
      × ((split_marker ws).1 ≤ 10)
      × All IsIndex (split_marker ws).0
      × (length (split_marker ws).0 ≤ length ws)
unfolding split_marker
split_marker_lem [] h = (refl, omega arith, tt, omega arith)
split_marker_lem (x ∷ []) h = elim (Bool-cases (is_padding_marker x)) [
  | inl marker ↦ rw marker (ground arith, ground arith, tt, omega arith)
  | inr word ↦ rw word (refl, omega arith, h, omega arith)
]
split_marker_lem (x ∷ y ∷ ys) h =
    let (e, p, w, l) = split_marker_lem (y ∷ ys) h.1 in
    (ap (◌∷◌ x) e ∙ sym (with_marker_cons _ x _), p, (h.0, w), omega arith)

any_marker→data : (ws : List ℕ) → All IsIndex ws → any_marker ws ≡ false → All IsData ws
any_marker→data [] h e = tt
any_marker→data (x ∷ xs) h e = ((ground arith, h.0), any_marker→data xs h.1 (ground arith))

digits_injective :
    (xs ys : List ℕ) → All IsData xs → All IsData ys → digits xs ≡ digits ys → xs ≡ ys
digits_injective [] [] h k e = refl
digits_injective [] (y ∷ ys) h k e = cc
digits_injective (x ∷ xs) [] h k e = cc
digits_injective (x ∷ xs) (y ∷ ys) h k e = ground (arith, digits_injective xs ys h.1 k.1)

digits_range : (ws : List ℕ) → All IsData ws → All (λ d. d < 2048) (digits ws)
digits_range [] h = tt
digits_range (w ∷ ws) h = (omega arith, digits_range ws h.1)

-- Two spellings of one payload are equal.
spelling_unique :
    (v n pad : ℕ) (ws us : List ℕ) → IsSpelling v n pad ws → IsSpelling v n pad us → ws ≡ us
spelling_unique v n pad ws us h k =
    let len : length (digits ws) ≡ length (digits us) = omega (
      arith,
      length-map (λ w. w - data_offset) ws,
      length-map (λ w. w - data_offset) us,
      h.count,
      k.count,
    ) in
    let (z, e) =
      num_injective 2048 0 0 _ _ len (digits_range ws h.range) (digits_range us k.range)
        (h.value ∙ sym k.value) in
    digits_injective ws us h.range k.range e

abbrev start : Packing
start = record { buf = 0; bits = 0; out = [] }

-- The checks that a successful decoding has passed.
decode_split_checks :
    (words bytes : List ℕ) (pad total : ℕ)
    → total ≡ length words % 2 ^ 32 * 11 % 2 ^ 32
    → decode_split words pad ≡ ok bytes
    → (any_marker words ≡ false)
      × (pad ≤ total)
      × ((total - pad) % 8 ≡ 0)
      × ((decode_data ((total - pad) / 8) start words).buf ≡ 0)
      × ((decode_data ((total - pad) / 8) start words).out ≡ bytes)
unfolding decode_split
decode_split_checks words bytes pad total ht e = rw ht (ground arith)

unpacked :
    (n m pad d : ℕ) (s : Packing)
    → 11 * m ≡ 8 * n + pad
    → pad ≤ 10
    → s.buf ≡ 0
    → IsUnpacking n d m s
    → IsDrained n s
    → (d ≡ num 256 0 s.out * 2 ^ pad) × (length s.out ≡ n)
unpacked n m pad d s e hp hb h hd =
    let rest : s.bits ≡ pad = omega (arith, h.count, h.fits) in
    (
      omega (arith, h.value, ap (λ (t : ℕ). num 256 0 s.out * 2 ^ t) rest),
      omega (arith, h.count, h.fits),
    )

-- What a successful decoding of the two parts says of them.
decode_split-IsSpelling :
    (words bytes : List ℕ) (pad : ℕ)
    → All IsIndex words
    → pad ≤ 10
    → length words < 2 ^ 27
    → decode_split words pad ≡ ok bytes
    → IsPayload bytes × IsSpelling (num 256 0 bytes) (length bytes) pad words
decode_split-IsSpelling words bytes pad h hp hl e =
    let total : 11 * length words ≡ length words % 2 ^ 32 * 11 % 2 ^ 32 = omega arith in
    let (no_marker, enough, whole, empty, out) =
      decode_split_checks words bytes pad (11 * length words) total e in
    let range = any_marker→data words h no_marker in
    let n = (11 * length words - pad) / 8 in
    let count : 11 * length words ≡ 8 * n + pad = omega arith in
    let (u, d) =
      decode_data-IsUnpacking n 0 0 words start range (omega arith)
        (unfold num in
          record {
            value = omega arith;
            buf_small = omega arith;
            count = omega arith;
            fits = omega arith;
            bytes = tt;
          })
        (inl (omega arith)) in
    let (number, full) = unpacked n _ pad _ _ (omega arith) hp empty u d in
    rw (← out) (
      record { byte_range = u.bytes; short = omega arith },
      record { value = number; count = omega arith; pad_small = hp; range = range },
    )

-- A payload with a spelling encodes to it and its marker.
encode_spelling :
    (bytes words : List ℕ) (pad : ℕ)
    → IsPayload bytes
    → IsSpelling (num 256 0 bytes) (length bytes) pad words
    → encode bytes ≡ with_marker pad words
unfolding encode
encode_spelling [] [] zero h w = refl
encode_spelling [] [] (suc p) h w = absurd (omega (arith, w.count))
encode_spelling [] (x ∷ xs) pad h w = absurd (omega (arith, w.count, w.pad_small))
encode_spelling (b ∷ bs) words pad h w =
    let same_pad : padding (b ∷ bs) ≡ pad = omega (arith, w.count, w.pad_small) in
    rw (← same_pad) (
      encode_cons b bs h
      ∙ ap (with_marker (padding (b ∷ bs)))
          (spelling_unique _ _ _ _ _ (data_words-IsSpelling (b ∷ bs) h) (rw same_pad w)))

-- A list of fewer than 2^27 indices of the dictionary that decodes is the encoding of the bytes that
-- it decodes to.
pub encode-decode :
    (ws bytes : List ℕ)
    → All IsIndex ws
    → length ws < 2 ^ 27
    → decode ws ≡ ok bytes
    → encode bytes ≡ ws
unfolding decode
encode-decode ws bytes h hl e =
    let (joined, small, range, shorter) = split_marker_lem ws h in
    let (payload, spelling) =
      decode_split-IsSpelling (split_marker ws).0 bytes (split_marker ws).1 range small
        (omega arith) e in
    encode_spelling bytes _ _ payload spelling ∙ sym joined
