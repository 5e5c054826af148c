-- ===== src/Anchors/Words.antt =====
-- crates/frances-anchors/src/words.rs: the constants of the dictionary and the two lookups.
pub mod Lookup
use frances.Prelude.{
  ℕ, zero, suc, ◌+◌, ◌-◌, ◌^◌, List, [], ◌∷◌, Option, none, some, Bool, get_elem?, ltb,
  if◌then◌else◌, eq_list,
}

abbrev pub bits_per_word : ℕ
bits_per_word = 11

-- One padding marker for each number of residual bits, 1 to `bits_per_word - 1`.
abbrev pub n_padding_words : ℕ
n_padding_words = bits_per_word - 1

abbrev pub n_data_words : ℕ
n_data_words = 2 ^ bits_per_word

abbrev pub dict_size : ℕ
dict_size = n_padding_words + n_data_words

abbrev pub is_padding_marker : ℕ → Bool
is_padding_marker idx = ltb idx n_padding_words

-- `WORDS[idx]`; out of bounds it panics, which is `none` here.
unfoldable pub word : List (List ℕ) → ℕ → Option (List ℕ)
word words idx = get_elem? words idx

-- `WORD_TO_INDEX` is collected from the words in order, so a later word wins over an equal
-- earlier one.
unfoldable pub index_from : ℕ → List (List ℕ) → List ℕ → Option ℕ
index_from i [] w = none
index_from i (v ∷ vs) w = elim (index_from (suc i) vs w) [
  | some j ↦ some j
  | none ↦ if eq_list v w then some i else none
]

unfoldable pub index_of : List (List ℕ) → List ℕ → Option ℕ
unfolding index_from
index_of words w = index_from zero words w
