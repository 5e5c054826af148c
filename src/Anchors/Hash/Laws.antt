-- ===== src/Anchors/Hash/Laws.antt =====
-- What the hashes of a file's lines depend on.
use frances.Prelude.{
  ℕ, zero, suc, ◌+◌, ◌%◌, ◌^◌, ◌<◌, ◌≡◌, refl, ap, List, [], ◌∷◌, some, if◌then◌else◌, arith,
  length, get_elem?, take, map, Bool-cases, inl, inr,
}
use native.Mathlib.Nat.{zero-add}
use frances.Text.{Text, trim, is_empty}
use frances.Text.Trim.{trim-trim}
use frances.Anchors.Hash.{Hasher, hash_line, hash_lines_from, hash_lines}

-- The number of blank lines.
abbrev pub blanks : List Text → ℕ
blanks [] = 0
blanks (line ∷ lines) = if is_empty (trim line) then suc (blanks lines) else blanks lines

module _ (H : Hasher) where
  length-hash_lines_from :
      (k : ℕ) (lines : List Text) → length (hash_lines_from H k lines) ≡ length lines
  unfolding hash_lines_from
  length-hash_lines_from k [] = refl
  length-hash_lines_from k (line ∷ lines) = elim (Bool-cases (is_empty (trim line))) [
    | inl e ↦ rw e (ap suc (length-hash_lines_from ((k + 1) % 2 ^ 64) lines))
    | inr e ↦ rw e (ap suc (length-hash_lines_from k lines))
  ]

  pub length-hash_lines : (lines : List Text) → length (hash_lines H lines) ≡ length lines
  unfolding hash_lines
  length-hash_lines lines = length-hash_lines_from 0 lines

  hash_lines_from-trim :
      (k : ℕ) (lines : List Text) → hash_lines_from H k (map trim lines) ≡ hash_lines_from H k lines
  unfolding hash_lines_from
  hash_lines_from-trim k [] = refl
  hash_lines_from-trim k (line ∷ lines) = elim (Bool-cases (is_empty (trim line))) [
    | inl e ↦ rw (trim-trim line, e, hash_lines_from-trim ((k + 1) % 2 ^ 64) lines)
    | inr e ↦ rw (trim-trim line, e, hash_lines_from-trim k lines)
  ]

  -- White space round a line changes no hash.
  pub hash_lines-trim : (lines : List Text) → hash_lines H (map trim lines) ≡ hash_lines H lines
  unfolding hash_lines
  hash_lines-trim lines = hash_lines_from-trim 0 lines

  hash_lines_from-at :
      (k : ℕ) (lines : List Text) (i : ℕ) (line : Text)
      → k + length lines < 2 ^ 64
      → get_elem? lines i ≡ some line
      → get_elem? (hash_lines_from H k lines) i
        ≡ some (
            if is_empty (trim line)
            then H.oneshot_with_seed (k + blanks (take (suc i) lines)) []
            else hash_line H line)
  unfolding hash_lines_from hash_line
  hash_lines_from-at k [] i line h e = cc
  hash_lines_from-at k (l ∷ ls) zero line h e = elim (Bool-cases (is_empty (trim l))) [
    | inl b ↦
        let no_wrap : (k + 1) % 2 ^ 64 ≡ k + 1 = omega arith in
        let same : line ≡ l = cc in rw (same, b, no_wrap)
    | inr b ↦ let same : line ≡ l = cc in rw (same, b)
  ]
  hash_lines_from-at k (l ∷ ls) (suc i) line h e = elim (Bool-cases (is_empty (trim l))) [
    | inl b ↦
        let no_wrap : (k + 1) % 2 ^ 64 ≡ k + 1 = omega arith in
        let next : k + suc (blanks (take (suc i) ls)) ≡ k + 1 + blanks (take (suc i) ls) =
          omega arith in
        rw (b, no_wrap, next) (hash_lines_from-at (k + 1) ls i line (omega arith) e)
    | inr b ↦ rw b (hash_lines_from-at k ls i line (omega arith) e)
  ]

  -- Of fewer than 2^64 lines, the hash of the i-th: that of its trimmed text, or, on a blank line, of its ordinal among
  -- the blank lines.
  pub hash_lines-at :
      (lines : List Text) (i : ℕ) (line : Text)
      → length lines < 2 ^ 64
      → get_elem? lines i ≡ some line
      → get_elem? (hash_lines H lines) i
        ≡ some (
            if is_empty (trim line)
            then H.oneshot_with_seed (blanks (take (suc i) lines)) []
            else hash_line H line)
  unfolding hash_lines
  hash_lines-at lines i line h e =
      rw zero-add at (hash_lines_from-at 0 lines i line (omega arith) e)
