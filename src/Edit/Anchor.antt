-- ===== src/Edit/Anchor.antt =====
-- crates/frances-edit/src/anchor.rs: the stable names of a file's lines.
pub mod Rank
pub mod Enumerated
pub mod Bytes
use frances.Prelude.{
  ℕ, ◌+◌, ◌-◌, ◌*◌, ◌/◌, ◌%◌, ◌<◌, ◌≤◌, List, [], ◌∷◌, ◌++◌, Option, none, some, Bool, true, false,
  not, ◌&&◌, map, length, ltb, ◌==◌, if◌then◌else◌, Result, ok, err, fail_if, ◌>>=◌, ◌>>◌, ok_or,
  expect, All, ◌≢◌,
}
use frances.Anchors.Words.{
  n_padding_words, n_data_words, dict_size, is_padding_marker, word, index_of,
}
use frances.Text.{Text, is_empty, split, join}

abbrev pub first_data_idx : ℕ
first_data_idx = n_padding_words

abbrev pub last_data_idx : ℕ
last_data_idx = n_padding_words + n_data_words - 1

-- The indices of an anchor's words.
abbrev pub Anchor : Type 0
Anchor = List ℕ

pub data AnchorParseError : Type 0 where
  unknown_word padding_marker : Text → AnchorParseError
  bad_shape : AnchorParseError
  bad_byte_length out_of_range : ℕ → AnchorParseError

abbrev pub first : Anchor
first = first_data_idx ∷ []

abbrev pub reset : Anchor → Anchor
reset = map (λ _. first_data_idx)

-- The loop over the slots from the last one on: the first slot that can grow grows, and those
-- behind it are reset. `none` if no slot can grow.
unfoldable pub grow : Anchor → Option Anchor
grow [] = none
grow (d ∷ ds) = elim (grow ds) [
  | some ds' ↦ some (d ∷ ds')
  | none ↦ if ltb d last_data_idx then some ((d + 1) ∷ reset ds) else none
]

unfoldable pub increment : Anchor → Anchor
unfolding grow
increment a = elim (grow a) [ some b ↦ b | none ↦ reset a ++ first_data_idx ∷ [] ]

-- `u16::to_le_bytes`
unfoldable pub to_bytes : Anchor → List ℕ
to_bytes [] = []
to_bytes (i ∷ is) = (i % 256) ∷ (i / 256 % 256) ∷ to_bytes is

abbrev pub is_valid_data_idx : ℕ → Bool
is_valid_data_idx idx = not (is_padding_marker idx) && ltb idx dict_size

-- The loop over `chunks_exact(2)`.
unfoldable pub from_chunks : List ℕ → Result AnchorParseError Anchor
from_chunks [] = ok []
from_chunks (b ∷ []) = ok []
from_chunks (b ∷ c ∷ bs) = do
  fail_if (not (is_valid_data_idx (b + c * 256))) (out_of_range (b + c * 256))
  is ← from_chunks bs
  ok ((b + c * 256) ∷ is)

unfoldable pub from_bytes : List ℕ → Result AnchorParseError Anchor
unfolding from_chunks
from_bytes bytes =
    if length bytes == 0
    then err (bad_byte_length 0)
    else if length bytes % 2 == 0
    then from_chunks bytes
    else err (bad_byte_length (length bytes))

-- `'-'`
abbrev pub hyphen : ℕ
hyphen = 0x2d

-- The words of the indices, as `fmt` looks them up.
unfoldable pub words_of : List Text → Anchor → Result AnchorParseError (List Text)
words_of dict [] = ok []
words_of dict (i ∷ is) = do w ← expect (word dict i); ws ← words_of dict is; ok (w ∷ ws)

unfoldable pub to_string : List Text → Anchor → Result AnchorParseError Text
unfolding words_of
to_string dict a = do ws ← words_of dict a; ok (join (hyphen ∷ []) ws)

unfoldable pub lookup_data_word : List Text → Text → Result AnchorParseError ℕ
lookup_data_word dict s = do
  idx ← ok_or (index_of dict s) (unknown_word s)
  fail_if (is_padding_marker idx) (padding_marker s)
  ok idx

abbrev pub any_empty : List Text → Bool
any_empty [] = false
any_empty (p ∷ ps) = if is_empty p then true else any_empty ps

unfoldable pub lookup_all : List Text → List Text → Result AnchorParseError Anchor
unfolding lookup_data_word
lookup_all dict [] = ok []
lookup_all dict (p ∷ ps) = do i ← lookup_data_word dict p; is ← lookup_all dict ps; ok (i ∷ is)

unfoldable pub from_str : List Text → Text → Result AnchorParseError Anchor
unfolding lookup_all
from_str dict s = do
  fail_if (is_empty s) bad_shape
  fail_if (any_empty (split hyphen s)) bad_shape
  lookup_all dict (split hyphen s)
