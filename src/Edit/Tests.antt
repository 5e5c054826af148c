-- ===== src/Edit/Tests.antt =====
-- Runs of the editor: a diff, a store, a pool, a file and its edits.
use frances.Prelude.{ℕ, ◌+◌, ◌≡◌, refl, List, [], ◌∷◌, arith, ok}
use frances.Text.{Text}
use frances.Anchors.Tests.{sample_dict, sample_dict-IsDictionary, word-sample_dict}
use frances.Edit.Anchor.{Anchor, first, increment, to_bytes, from_bytes, to_string, from_str}
use frances.Edit.Anchor.Rank.{IsAnchor, rank, rank-increment, increment-IsAnchor}
use frances.Edit.Anchor.Enumerated.{incremented, incremented-first}
use frances.Edit.Anchor.Bytes.{
  IsPlain, from_bytes-to_bytes, to_bytes-from_bytes, from_str-to_string,
}
use frances.Edit.Pool.{Pool, from_used, mint}
use frances.Edit.Pool.Mint.{IsMinted, mint-IsMinted, from_used-IsPool}

abbrev last : Anchor
last = 2057 ∷ 2057 ∷ []

last-IsAnchor : IsAnchor last
last-IsAnchor = record {
  nonempty = λ e. cc;
  words = ((omega arith, omega arith), ((omega arith, omega arith), tt));
}

rank-increment_example : rank (increment last) ≡ rank last + 1
rank-increment_example = rank-increment last last-IsAnchor

increment-IsAnchor_example : IsAnchor (increment last)
increment-IsAnchor_example = increment-IsAnchor last last-IsAnchor

incremented-first_example :
    (n : ℕ) × (incremented n first ≡ last) × ((m : ℕ) → incremented m first ≡ last → m ≡ n)
incremented-first_example = incremented-first last last-IsAnchor

from_bytes-to_bytes_example : from_bytes (to_bytes last) ≡ ok last
from_bytes-to_bytes_example = from_bytes-to_bytes last last-IsAnchor

abbrev last_bytes : List ℕ
last_bytes = 9 ∷ 8 ∷ 9 ∷ 8 ∷ []

from_bytes-last : from_bytes last_bytes ≡ ok last
unfolding from_bytes
from_bytes-last = refl

to_bytes-from_bytes_example : IsAnchor last × (to_bytes last ≡ last_bytes)
to_bytes-from_bytes_example =
    to_bytes-from_bytes last_bytes last
      (omega arith, (omega arith, (omega arith, (omega arith, tt)))) from_bytes-last

sample_dict-IsPlain : IsPlain sample_dict
sample_dict-IsPlain i w h = rw (word-sample_dict i w h) (λ e. cc, (omega arith, tt))

from_str-to_string_example :
    (s : Text) × (to_string sample_dict last ≡ ok s) × (from_str sample_dict s ≡ ok last)
from_str-to_string_example =
    from_str-to_string sample_dict sample_dict-IsDictionary sample_dict-IsPlain last last-IsAnchor

-- A pool in which the first anchor and the third are taken.
abbrev pool : Pool
pool = from_used (first ∷ (12 ∷ []) ∷ [])

mint-IsMinted_example : IsMinted pool (mint pool)
mint-IsMinted_example = mint-IsMinted pool (from_used-IsPool (first ∷ (12 ∷ []) ∷ []))
