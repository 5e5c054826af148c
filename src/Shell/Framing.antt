-- ===== src/Shell/Framing.antt =====
-- Where the sentinel is found in a script's output.
use frances.Prelude.{
  ℕ, suc, ◌+◌, ◌<◌, ◌^◌, ◌≡◌, refl, List, [], ◌∷◌, ◌++◌, none, some, true, false, ◌==◌, length, All,
  arith, Bool-cases, eq_of_test, inl, inr,
}
use native.Mathlib.Nat.{zero-add}
use frances.Prelude.Int.{pos}
use frances.Text.Split.{IsFree}
use frances.Shell.{
  newline, Sentinel, SentinelMatch, strip_prefix, is_digit, span_digits, value_from, parse_i32,
  find_from, find,
}

-- The output itself holds no line break with the prefix behind it.
abbrev pub IsQuiet : Sentinel → List ℕ → Type 0
IsQuiet s [] = Unit {0}
IsQuiet s (b ∷ bs) = (b ≡ newline → strip_prefix s.prefix bs ≡ none) × IsQuiet s bs

strip_prefix-append : (p rest : List ℕ) → strip_prefix p (p ++ rest) ≡ some rest
unfolding strip_prefix
strip_prefix-append [] rest = refl
strip_prefix-append (x ∷ xs) rest = ground (arith, strip_prefix-append xs rest)

-- A prefix without line breaks does not reach over one.
strip_prefix-over :
    (p bs tail : List ℕ)
    → IsFree newline p
    → strip_prefix p bs ≡ none
    → strip_prefix p (bs ++ newline ∷ tail) ≡ none
unfolding strip_prefix
strip_prefix-over [] bs tail f h = cc
strip_prefix-over (x ∷ xs) [] tail f h = ground arith
strip_prefix-over (x ∷ xs) (b ∷ bs) tail f h = ground (arith, strip_prefix-over xs bs tail f.1)

span_digits-append :
    (ds rest : List ℕ) (b : ℕ)
    → All (λ d. is_digit d ≡ true) ds
    → is_digit b ≡ false
    → span_digits (ds ++ b ∷ rest) ≡ (ds, b ∷ rest)
unfolding span_digits
span_digits-append [] rest b h n = rw n refl
span_digits-append (d ∷ ds) rest b h n = rw (h.0, span_digits-append ds rest b h.1 n) refl

not_minus : (d : ℕ) → is_digit d ≡ true → d == 0x2d ≡ false
not_minus d h = ground arith

in_range :
    (digits : List ℕ)
    → value_from 0 digits < 2 ^ 31
    → parse_i32 false digits ≡ some (pos (value_from 0 digits))
unfolding parse_i32
in_range digits h = ground arith

at_zero : (i : ℕ) → i + 0 ≡ i
at_zero i = omega arith

move : (i n : ℕ) → i + 1 + n ≡ i + suc n
move i n = omega arith

-- The sentinel's number is the digits `d ∷ ds`, and `b` is the first character behind it.
module _ (p more : List ℕ) (b d : ℕ) (ds : List ℕ) where
  abbrev pub sentinel : Sentinel
  sentinel = record { prefix = p; suffix = b ∷ more }

  abbrev pub framed : ℕ → SentinelMatch
  framed at = record {
    output_len = at;
    consumed = at + 1 + length p + 0 + length (d ∷ ds) + length (b ∷ more);
    exit_code = pos (value_from 0 (d ∷ ds));
  }

  abbrev pub frame : List ℕ → List ℕ
  frame rest = newline ∷ (p ++ ((d ∷ ds) ++ (b ∷ (more ++ rest))))

  module _ (digits : All (λ c. is_digit c ≡ true) (d ∷ ds)) (behind : is_digit b ≡ false)
      (small : value_from 0 (d ∷ ds) < 2 ^ 31) (one_line : IsFree newline p) where
    find_from-frame : (i : ℕ) (rest : List ℕ) → find_from sentinel i (frame rest) ≡ some (framed i)
    unfolding find_from
    find_from-frame i rest =
        let plain = not_minus d digits.0 in
        let scanned = span_digits-append (d ∷ ds) (more ++ rest) b digits behind in
        rw
          (
            strip_prefix-append p ((d ∷ ds) ++ (b ∷ (more ++ rest))),
            plain,
            scanned,
            strip_prefix-append (b ∷ more) rest,
            plain,
            scanned,
            in_range (d ∷ ds) small,
            plain,
            scanned,
          )
          refl

    find_from-framed :
        (i : ℕ) (out rest : List ℕ)
        → IsQuiet sentinel out
        → find_from sentinel i (out ++ frame rest) ≡ some (framed (i + length out))
    unfolding find_from
    find_from-framed i [] rest q = rw (at_zero i) (find_from-frame i rest)
    find_from-framed i (x ∷ out) rest q = elim (Bool-cases (x == newline)) [
      | inr e ↦ rw (e, ← move i (length out)) (find_from-framed (i + 1) out rest q.1)
      | inl e ↦
          rw
            (
              e,
              strip_prefix-over p out (p ++ ((d ∷ ds) ++ (b ∷ (more ++ rest)))) one_line
                  (q.0 (eq_of_test x newline e)),
              ← move i (length out),
            )
            (find_from-framed (i + 1) out rest q.1)
    ]

    -- Behind an output that does not hold the sentinel's prefix at the start of a line, and for a
    -- prefix without line breaks and a suffix that begins with no digit: a sentinel with a decimal
    -- number below 2^31 is found, whatever follows it. The match has the output's length, the length
    -- up to the sentinel's end and the number.
    pub find-framed :
        (out rest : List ℕ)
        → IsQuiet sentinel out
        → find sentinel (out ++ frame rest) ≡ some (framed (length out))
    unfolding find
    find-framed out rest q = rw zero-add at (find_from-framed 0 out rest q)
