-- ===== src/Anchors/Tests.antt =====
-- Runs of the encoding and of the hashes, and a dictionary to run them with.
use frances.Prelude.{
  ℕ, zero, suc, ◌+◌, ◌*◌, ◌/◌, ◌<◌, ◌≡◌, refl, sym, ap, ◌∙◌, List, [], ◌∷◌, some, map, get_elem?,
  take, length, All, arith, ok, if◌then◌else◌, ◌==◌,
}
use frances.Text.{Text, codes, trim, is_empty}
use frances.Anchors.Words.{dict_size, word}
use frances.Anchors.Words.Lookup.{IsDictionary}
use frances.Anchors.Encode.{encode}
use frances.Anchors.Encode.Shape.{IsPayload, padding}
use frances.Anchors.Decode.{decode, encode_words, decode_words}
use frances.Anchors.Decode.RoundTrip.{decode-encode}
use frances.Anchors.Decode.Canonical.{encode-decode}
use frances.Anchors.Decode.Text.{encode_shape, decode_words-encode_words}
use frances.Anchors.Hash.{Hasher, hash_line, hash_lines}
use frances.Anchors.Hash.Laws.{blanks, hash_lines-at, hash_lines-trim}

-- A dictionary of one-letter words, numbered from `k` on.
abbrev pub counted : ℕ → ℕ → List Text
counted k zero = []
counted k (suc n) = (k ∷ []) ∷ counted (suc k) n

-- Its letters are CJK ideographs.
unfoldable pub sample_dict : List Text
sample_dict = counted 0x4e00 dict_size

length-counted : (k n : ℕ) → length (counted k n) ≡ n
length-counted k zero = refl
length-counted k (suc n) = ap suc (length-counted (suc k) n)

get_elem?-counted : (k n i : ℕ) (w : Text) → get_elem? (counted k n) i ≡ some w → w ≡ (k + i) ∷ []
get_elem?-counted k zero i w h = cc
get_elem?-counted k (suc n) zero w h = ground arith
get_elem?-counted k (suc n) (suc i) w h =
    get_elem?-counted (suc k) n i w h ∙ ap (λ (j : ℕ). j ∷ []) (omega arith)

head_injective : (i j : ℕ) → ◌≡◌ {A = Text} (i ∷ []) (j ∷ []) → i ≡ j
head_injective i j h = cc

pub word-sample_dict : (i : ℕ) (w : Text) → word sample_dict i ≡ some w → w ≡ (0x4e00 + i) ∷ []
unfolding word sample_dict
word-sample_dict i w h = get_elem?-counted 0x4e00 dict_size i w h

pub sample_dict-IsDictionary : IsDictionary sample_dict
unfolding sample_dict word
sample_dict-IsDictionary = record {
  size = length-counted 0x4e00 dict_size;
  distinct = λ i j w p q.
      let e : 0x4e00 + i ≡ 0x4e00 + j = head_injective (0x4e00 + i) (0x4e00 + j) (
        sym (get_elem?-counted 0x4e00 dict_size i w p)
        ∙ get_elem?-counted 0x4e00 dict_size j w q) in
      omega arith;
}

abbrev payload : List ℕ
payload = 0x66 ∷ 0x72 ∷ 0xff ∷ []

payload-IsPayload : IsPayload payload
payload-IsPayload = record {
  byte_range = (omega arith, (omega arith, (omega arith, tt)));
  short = omega arith;
}

decode-encode_example : decode (encode payload) ≡ ok payload
decode-encode_example = decode-encode payload payload-IsPayload

encode_shape_example :
    All (λ w. w < dict_size) (encode payload)
    × (length (encode payload) ≡ (
        if padding payload == 0
        then (8 * length payload + 10) / 11
        else (8 * length payload + 10) / 11 + 1))
encode_shape_example = encode_shape payload payload-IsPayload

decode_words-encode_words_example :
    (ws : List Text) × (encode_words sample_dict payload ≡ ok ws)
    × (decode_words sample_dict ws ≡ ok payload)
decode_words-encode_words_example =
    decode_words-encode_words sample_dict sample_dict-IsDictionary payload payload-IsPayload

abbrev encoded : List ℕ
encoded = 829 ∷ 1225 ∷ 1546 ∷ 8 ∷ []

decode-encoded : decode encoded ≡ ok payload
unfolding decode
decode-encoded = refl

encode-decode_example : encode payload ≡ encoded
encode-decode_example =
    encode-decode encoded payload (omega arith, (omega arith, (omega arith, (omega arith, tt))))
      (omega arith) decode-encoded

-- A hash that tells lengths and seeds.
abbrev pub sample_hasher : Hasher
sample_hasher = record {
  oneshot = λ bytes. length bytes;
  oneshot_with_seed = λ seed bytes. 100 + seed + length bytes;
}

abbrev lines : List Text
lines = codes "fn main" ∷ [] ∷ codes "  ok  " ∷ codes " " ∷ []

hash_lines-trim_example : hash_lines sample_hasher (map trim lines) ≡ hash_lines sample_hasher lines
hash_lines-trim_example = hash_lines-trim sample_hasher lines

hash_lines-at_example :
    get_elem? (hash_lines sample_hasher lines) 3
    ≡ some (
        if is_empty (trim (codes " "))
        then 100 + blanks (take 4 lines) + 0
        else hash_line sample_hasher (codes " "))
hash_lines-at_example = hash_lines-at sample_hasher lines 3 (codes " ") (omega arith) refl
