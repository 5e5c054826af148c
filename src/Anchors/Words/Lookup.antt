-- ===== src/Anchors/Words/Lookup.antt =====
-- The dictionary's two lookups are inverse, for a list of distinct words.
use frances.Prelude.{
  ℕ, zero, suc, ◌+◌, ◌<◌, ◌≡◌, ◌≢◌, refl, ap, List, [], ◌∷◌, none, some, get_elem?, length, arith,
  true, eq_list, eq_list_iff, Option-cases, inl, inr, eq_list_refl,
}
use frances.Anchors.Words.{dict_size, word, index_from, index_of}

-- What `WORDS` asserts when it is loaded, and what the size of `WORD_TO_INDEX` is tested for.
pub record IsDictionary (dict : List (List ℕ)) : Type 0 where
  pub size : length dict ≡ dict_size
  pub distinct :
      (i j : ℕ) (w : List ℕ) → get_elem? dict i ≡ some w → get_elem? dict j ≡ some w → i ≡ j

index_from-lt :
    (k : ℕ) (dict : List (List ℕ)) (w : List ℕ) (j : ℕ)
    → index_from k dict w ≡ some j
    → (i : ℕ) × (j ≡ k + i) × (get_elem? dict i ≡ some w)
unfolding index_from
index_from-lt k [] w j e = cc
index_from-lt k (v ∷ vs) w j e = elim (Option-cases (index_from (suc k) vs w)) [
  | inl miss ↦
      let hit : (eq_list v w ≡ true) × (j ≡ k) = ground (arith, miss) in
      (0, omega arith, ap some ((eq_list_iff v w).0 hit.0))
  | inr (j', found) ↦
      let (i, p, q) = index_from-lt (suc k) vs w j' found in (suc i, ground arith, q)
]

index_from-ne-none :
    (k i : ℕ) (dict : List (List ℕ)) (w : List ℕ)
    → get_elem? dict i ≡ some w
    → index_from k dict w ≢ none
unfolding index_from
index_from-ne-none k i [] w e = cc
index_from-ne-none k zero (v ∷ vs) w e = ground (arith, eq_list_iff v w, eq_list_refl w)
index_from-ne-none k (suc i) (v ∷ vs) w e = ground (arith, index_from-ne-none (suc k) i vs w e)

pub index_of→word :
    (dict : List (List ℕ)) (w : List ℕ) (i : ℕ) → index_of dict w ≡ some i → word dict i ≡ some w
unfolding index_of word
index_of→word dict w i e =
    let (j, p, q) = index_from-lt 0 dict w i e in let same : i ≡ j = omega arith in rw same q

pub word→index_of :
    (dict : List (List ℕ)) (w : List ℕ) (i : ℕ)
    → IsDictionary dict
    → word dict i ≡ some w
    → index_of dict w ≡ some i
unfolding index_of word
word→index_of dict w i d e = elim (Option-cases (index_from 0 dict w)) [
  | inl miss ↦ absurd (index_from-ne-none 0 i dict w e miss)
  | inr (j, found) ↦
      let (j', p, q) = index_from-lt 0 dict w j found in
      let same : j ≡ i = omega (arith, d.distinct j' i w q e) in rw (found, same)
]

get_elem?_total :
    (dict : List (List ℕ)) (i : ℕ) → i < length dict → (w : List ℕ) × (get_elem? dict i ≡ some w)
get_elem?_total [] i h = elim h [ ]
get_elem?_total (w ∷ ws) zero h = (w, refl)
get_elem?_total (w ∷ ws) (suc i) h = get_elem?_total ws i (omega arith)

pub word_total :
    (dict : List (List ℕ)) (i : ℕ)
    → IsDictionary dict
    → i < dict_size
    → (w : List ℕ) × (word dict i ≡ some w)
unfolding word
word_total dict i d h = get_elem?_total dict i (omega (arith, d.size))
