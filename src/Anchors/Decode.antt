-- ===== src/Anchors/Decode.antt =====
-- crates/frances-anchors/src/encode.rs, `decode`: word indices to bytes.
pub mod Loop
pub mod RoundTrip
pub mod Text
pub mod Canonical
use frances.Prelude.{
  ℕ, zero, suc, ◌+◌, ◌-◌, ◌*◌, ◌/◌, ◌%◌, ◌^◌, List, [], ◌∷◌, ◌++◌, Option, none, some, Bool, true,
  false, length, ltb, leb, ◌==◌, ◌&&◌, if◌then◌else◌, Result, ok, err, fail_if, ◌>>=◌, ◌>>◌, ok_or,
  expect,
}
use frances.Anchors.Words.{bits_per_word, is_padding_marker, index_of, word}
use frances.Anchors.Encode.{data_offset, Packing, encode}

pub data DecodeError : Type 0 where
  unknown_word : List ℕ → DecodeError
  padding_in_middle malformed : DecodeError

-- `while bits >= 8 && out.len() < byte_len`: each round takes eight of the bits, so `bits` rounds
-- are enough.
unfoldable pub drain_bytes : ℕ → ℕ → Packing → Packing
drain_bytes zero byte_len s = s
drain_bytes (suc fuel) byte_len s =
    let next : Packing = record {
      buf = s.buf % 2 ^ (s.bits - 8);
      bits = s.bits - 8;
      out = s.out ++ (s.buf / 2 ^ (s.bits - 8) % 2 ^ 8) ∷ [];
    } in
    let rest = drain_bytes fuel byte_len next in
    if leb 8 s.bits && ltb (length s.out) byte_len then rest else s

-- `buf` is a u64 here. The `|` is a sum: the low bits of `buf` are zero there, and `idx - data_offset`
-- is below 2^11 for a word of the dictionary.
unfoldable pub decode_word : ℕ → Packing → ℕ → Packing
decode_word byte_len s idx = drain_bytes (s.bits + bits_per_word) byte_len (record {
  buf = s.buf * 2 ^ bits_per_word % 2 ^ 64 + (idx - data_offset);
  bits = s.bits + bits_per_word;
  out = s.out;
})

unfoldable pub decode_data : ℕ → Packing → List ℕ → Packing
decode_data byte_len s [] = s
decode_data byte_len s (w ∷ ws) = decode_data byte_len (decode_word byte_len s w) ws

-- The data words, and the number of padding bits that a marker at the end names.
unfoldable pub split_marker : List ℕ → List ℕ × ℕ
split_marker [] = ([], 0)
split_marker (x ∷ []) = if is_padding_marker x then ([], x + 1) else (x ∷ [], 0)
split_marker (x ∷ y ∷ ys) = let (data_words, pad) = split_marker (y ∷ ys) in (x ∷ data_words, pad)

abbrev pub any_marker : List ℕ → Bool
any_marker [] = false
any_marker (x ∷ xs) = if is_padding_marker x then true else any_marker xs

unfoldable pub decode_split : List ℕ → ℕ → Result DecodeError (List ℕ)
unfolding drain_bytes decode_word decode_data
decode_split words pad = do
  fail_if (any_marker words) padding_in_middle
  let total = length words % 2 ^ 32 * bits_per_word % 2 ^ 32
  fail_if (ltb total pad) malformed
  let payload = total - pad
  fail_if (ltb 0 (payload % 8)) malformed
  let end = decode_data (payload / 8) (record { buf = 0; bits = 0; out = [] }) words
  fail_if (ltb 0 end.buf) malformed
  ok end.out

unfoldable pub decode : List ℕ → Result DecodeError (List ℕ)
unfolding split_marker decode_split
decode indices = let (words, pad) = split_marker indices in decode_split words pad

-- `encode(bytes).into_iter().map(word).collect()`
unfoldable pub words_of : List (List ℕ) → List ℕ → Result DecodeError (List (List ℕ))
words_of dict [] = ok []
words_of dict (i ∷ is) = do w ← expect (word dict i); ws ← words_of dict is; ok (w ∷ ws)

unfoldable pub encode_words : List (List ℕ) → List ℕ → Result DecodeError (List (List ℕ))
unfolding words_of
encode_words dict bytes = words_of dict (encode bytes)

unfoldable pub indices_of : List (List ℕ) → List (List ℕ) → Result DecodeError (List ℕ)
indices_of dict [] = ok []
indices_of dict (w ∷ ws) = do
  i ← ok_or (index_of dict w) (unknown_word w)
  is ← indices_of dict ws
  ok (i ∷ is)

unfoldable pub decode_words : List (List ℕ) → List (List ℕ) → Result DecodeError (List ℕ)
unfolding indices_of
decode_words dict ws = indices_of dict ws >>= decode
