-- ===== src/Edit/Anchor/Bytes.antt =====
-- The two written forms of an anchor, bytes and hyphenated words, read back.
use frances.Prelude.{
  ℕ, suc, fail_if, >>=-eq-ok, ◌+◌, ◌*◌, ◌/◌, ◌%◌, ◌<◌, ◌≡◌, ◌≢◌, refl, sym, ◌∙◌, ap, List, [], ◌∷◌,
  arith, All, length, ok, not, true, false, some,
}
use frances.Text.{Text, is_empty, join}
use frances.Text.Split.{IsFree, split-join}
use frances.Anchors.Words.{word, is_padding_marker}
use frances.Anchors.Words.Lookup.{IsDictionary, word_total, word→index_of}
use frances.Anchors.Digits.{IsData}
use frances.Edit.Anchor.{
  Anchor, to_bytes, from_chunks, from_bytes, words_of, to_string, lookup_all, from_str,
  is_valid_data_idx, hyphen, any_empty,
}
use frances.Edit.Anchor.Rank.{IsAnchor}

from_chunks-to_bytes : (a : Anchor) → All IsData a → from_chunks (to_bytes a) ≡ ok a
unfolding to_bytes from_chunks
from_chunks-to_bytes [] h = refl
from_chunks-to_bytes (d ∷ ds) h =
    let whole : d % 256 + d / 256 % 256 * 256 ≡ d = omega arith in
    rw (whole, from_chunks-to_bytes ds h.1) (ground arith)

length-to_bytes : (a : Anchor) → length (to_bytes a) ≡ 2 * length a
unfolding to_bytes
length-to_bytes [] = refl
length-to_bytes (d ∷ ds) = omega (arith, length-to_bytes ds)

-- The bytes of a valid anchor read back as it.
pub from_bytes-to_bytes : (a : Anchor) → IsAnchor a → from_bytes (to_bytes a) ≡ ok a
unfolding from_bytes
from_bytes-to_bytes [] h = absurd (h.nonempty refl)
from_bytes-to_bytes (d ∷ ds) h =
    ground (arith, length-to_bytes (d ∷ ds), from_chunks-to_bytes (d ∷ ds) h.words)

from_chunks_cons :
    (b c : ℕ) (bs : List ℕ) (a : Anchor)
    → from_chunks (b ∷ c ∷ bs) ≡ ok a
    → (is : Anchor) × (is_valid_data_idx (b + c * 256) ≡ true)
      × (from_chunks bs ≡ ok is)
      × (a ≡ (b + c * 256) ∷ is)
unfolding from_chunks
from_chunks_cons b c bs a e =
    let (u, p, q) = >>=-eq-ok (fail_if (not (is_valid_data_idx (b + c * 256))) _) _ e in
    let (is, r, t) = >>=-eq-ok (from_chunks bs) _ q in (is, ground arith, r, cc)

to_bytes-from_chunks :
    (bytes : List ℕ) (a : Anchor)
    → All (λ b. b < 256) bytes
    → length bytes % 2 ≡ 0
    → from_chunks bytes ≡ ok a
    → (to_bytes a ≡ bytes) × All IsData a
unfolding to_bytes
to_bytes-from_chunks [] a h l e = let same : a ≡ [] = unfold from_chunks in cc in rw same (refl, tt)
to_bytes-from_chunks (b ∷ []) a h l e = absurd (omega arith)
to_bytes-from_chunks (b ∷ c ∷ bs) a h l e =
    let (is, valid, r, same) = from_chunks_cons b c bs a e in
    let (p, q) = to_bytes-from_chunks bs is h.1.1 (omega arith) r in
    let low : (b + c * 256) % 256 ≡ b = omega arith in
    let high : (b + c * 256) / 256 % 256 ≡ c = omega arith in
    rw (same, to_bytes, low, high, p) (refl, ((ground arith, ground arith), q))

-- What `from_bytes` accepts, of bytes below 256, is the bytes of the anchor that it returns, which
-- is valid.
pub to_bytes-from_bytes :
    (bytes : List ℕ) (a : Anchor)
    → All (λ b. b < 256) bytes
    → from_bytes bytes ≡ ok a
    → IsAnchor a × (to_bytes a ≡ bytes)
unfolding from_bytes
to_bytes-from_bytes bytes a h e =
    let checks : (length bytes ≢ 0) × (length bytes % 2 ≡ 0) × (from_chunks bytes ≡ ok a) =
      ground arith in
    let (p, q) = to_bytes-from_chunks bytes a h checks.1 checks.2 in
    (
      record {
        nonempty = λ n.
            checks.0 (ap length (sym p) ∙ length-to_bytes a ∙ ap (λ (l : Anchor). 2 * length l) n);
        words = q;
      },
      p,
    )

-- Words are not empty and hold no hyphen.
abbrev pub IsPlain : List Text → Type 0
IsPlain dict = (i : ℕ) (w : Text) → word dict i ≡ some w → (w ≢ []) × IsFree hyphen w

nonempty_test : (w : Text) → w ≢ [] → is_empty w ≡ false
nonempty_test [] h = absurd (h refl)
nonempty_test (c ∷ cs) h = refl

nonempty_join :
    (c : ℕ) (cs : Text) (ts : List Text) → is_empty (join (hyphen ∷ []) ((c ∷ cs) ∷ ts)) ≡ false
unfolding join
nonempty_join c cs [] = refl
nonempty_join c cs (t ∷ ts) = refl

length-zero : (a : Anchor) → length a ≡ 0 → a ≡ []
length-zero [] e = refl
length-zero (d ∷ ds) e = absurd (omega arith)

module _ (dict : List Text) (d : IsDictionary dict) where
  module _ (plain : IsPlain dict) where
    lookup_all-words_of :
        (a : Anchor)
        → All IsData a
        → (ws : List Text) × (words_of dict a ≡ ok ws)
          × (lookup_all dict ws ≡ ok a)
          × All (IsFree hyphen) ws
          × (any_empty ws ≡ false)
          × (length ws ≡ length a)
    unfolding words_of lookup_all
    lookup_all-words_of [] h = ([], refl, refl, tt, refl, refl)
    lookup_all-words_of (i ∷ is) h =
        let (w, e) = word_total dict i d h.0.1 in
        let (ws, p, q, free, full, len) = lookup_all-words_of is h.1 in
        let not_marker : is_padding_marker i ≡ false = ground arith in
        (
          w ∷ ws,
          rw (e, p),
          rw (word→index_of dict w i d e, not_marker, q),
          ((plain i w e).1, free),
          rw (nonempty_test w (plain i w e).0) full,
          ap suc len,
        )

    -- The text of words without a hyphen parses as they are looked up.
    from_str-join :
        (a : Anchor) (ws : List Text)
        → length ws ≢ 0
        → lookup_all dict ws ≡ ok a
        → All (IsFree hyphen) ws
        → any_empty ws ≡ false
        → from_str dict (join (hyphen ∷ []) ws) ≡ ok a
    unfolding from_str
    from_str-join a [] l q free full = absurd (l refl)
    from_str-join a ([] ∷ ts) l q free full = cc
    from_str-join a ((c ∷ cs) ∷ ts) l q free full =
        rw (split-join hyphen (c ∷ cs) ts free, nonempty_join c cs ts, full) q

    -- Over a dictionary whose words are distinct, not empty and free of hyphens, the look-up of a
    -- valid anchor's words does not fail, and the text they make parses as the anchor.
    pub from_str-to_string :
        (a : Anchor)
        → IsAnchor a
        → (s : Text) × (to_string dict a ≡ ok s) × (from_str dict s ≡ ok a)
    unfolding to_string
    from_str-to_string a h =
        let (ws, p, q, free, full, len) = lookup_all-words_of a h.words in
        let some_words : length ws ≢ 0 = λ z. h.nonempty (length-zero a (omega arith)) in
        (join (hyphen ∷ []) ws, rw p, from_str-join a ws some_words q free full)
