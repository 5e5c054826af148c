-- ===== src/Anchors/Decode/Text.antt =====
-- The two directions over dictionary words.
use frances.Prelude.{
  ℕ, ◌+◌, ◌-◌, ◌*◌, ◌/◌, ◌<◌, ◌≤◌, ◌≡◌, refl, List, [], ◌∷◌, length, length-append, All, All-append,
  arith, ok, if◌then◌else◌, ◌==◌, Bool-cases, inl, inr,
}
use frances.Anchors.Words.{dict_size}
use frances.Anchors.Words.Lookup.{IsDictionary, word_total, word→index_of}
use frances.Anchors.Encode.{encode}
use frances.Anchors.Encode.Shape.{
  IsPayload, data_words, padding, with_marker, encode_cons, data_words-IsSpelling,
}
use frances.Anchors.Digits.{IsData}
use frances.Anchors.Decode.{words_of, encode_words, indices_of, decode_words}
use frances.Anchors.Decode.RoundTrip.{decode-encode}

data→index : (ws : List ℕ) → All IsData ws → All (λ w. w < dict_size) ws
data→index [] h = tt
data→index (w ∷ ws) h = (h.0.1, data→index ws h.1)

with_marker_range :
    (pad : ℕ) (ws : List ℕ)
    → pad ≤ 10
    → All (λ w. w < dict_size) ws
    → All (λ w. w < dict_size) (with_marker pad ws)
with_marker_range pad ws h hw = elim (Bool-cases (pad == 0)) [
  | inl e ↦ rw e hw
  | inr e ↦ rw e (All-append (λ w. w < dict_size) ws _ hw (omega arith, tt))
]

length-with_marker :
    (pad : ℕ) (ws : List ℕ)
    → length (with_marker pad ws) ≡ (if pad == 0 then length ws else length ws + 1)
length-with_marker pad ws = ground (arith, length-append ws ((pad - 1) ∷ []))

-- For fewer than 2^28 bytes `encode` writes one word for each eleven bits begun, and a marker if the bits do not fill the
-- last one; all of them stand in the dictionary.
pub encode_shape :
    (bytes : List ℕ)
    → IsPayload bytes
    → All (λ w. w < dict_size) (encode bytes)
      × (length (encode bytes) ≡ (
          if padding bytes == 0
          then (8 * length bytes + 10) / 11
          else (8 * length bytes + 10) / 11 + 1))
unfolding encode
encode_shape [] h = (tt, refl)
encode_shape (b ∷ bs) h =
    let w = data_words-IsSpelling (b ∷ bs) h in
    let n : length (data_words (b ∷ bs)) ≡ (8 * length (b ∷ bs) + 10) / 11 =
      omega (arith, w.count) in
    rw (encode_cons b bs h)
      (with_marker_range _ _ w.pad_small (data→index _ w.range), rw (length-with_marker, n) refl)

module _ (dict : List (List ℕ)) (d : IsDictionary dict) where
  indices_of-words_of :
      (is : List ℕ)
      → All (λ w. w < dict_size) is
      → (ws : List (List ℕ)) × (words_of dict is ≡ ok ws) × (indices_of dict ws ≡ ok is)
  unfolding words_of indices_of
  indices_of-words_of [] h = ([], refl, refl)
  indices_of-words_of (i ∷ is) h =
      let (w, e) = word_total dict i d h.0 in
      let (ws, p, q) = indices_of-words_of is h.1 in
      (w ∷ ws, rw (e, p) refl, rw (word→index_of dict w i d e, q) refl)

  -- Fewer than 2^28 bytes survive the way through the words of a dictionary of distinct words, and no
  -- lookup on it fails.
  pub decode_words-encode_words :
      (bytes : List ℕ)
      → IsPayload bytes
      → (ws : List (List ℕ)) × (encode_words dict bytes ≡ ok ws) × (decode_words dict ws ≡ ok bytes)
  unfolding encode_words decode_words
  decode_words-encode_words bytes h =
      let (ws, p, q) = indices_of-words_of (encode bytes) (encode_shape bytes h).0 in
      (ws, p, rw q (decode-encode bytes h))
