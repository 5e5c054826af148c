-- ===== src/Shell/Reader/Located.antt =====
-- crates/frances-shell/src/proto.rs: what a match of `find` says of the bytes that it was found in.
use frances.Prelude.{
  ℕ, ◌+◌, ◌≤◌, ◌<◌, ◌≡◌, refl, sym, ap, subst, ◌∙◌, ◌⊎◌, inl, inr, List, [], ◌∷◌, ◌++◌, Option,
  none, some, Bool, ◌==◌, length, Bool-cases, Option-cases, leb, lt_of_leb, le_of_leb, arith,
}
use native.Mathlib.Nat.{zero-add}
use frances.Prelude.Int.{ℤ}
use frances.Shell.{
  newline, Sentinel, SentinelMatch, strip_prefix, is_digit, span_digits, parse_i32, sign, sign_len,
  at_number, find_from, find,
}

strip_prefix-length :
    (p bs rest : List ℕ) → strip_prefix p bs ≡ some rest → length bs ≡ length p + length rest
unfolding strip_prefix
strip_prefix-length [] bs rest h = let same : bs ≡ rest = cc in omega (arith, ap length same)
strip_prefix-length (x ∷ p) [] rest h = cc
strip_prefix-length (x ∷ p) (b ∷ bs) rest h = ground (arith, strip_prefix-length p bs rest)

-- More bytes change nothing, except for a prefix that was cut off.
strip_prefix-more :
    (p bs c rest : List ℕ)
    → strip_prefix p (bs ++ c) ≡ some rest
    → ((r : List ℕ) × (strip_prefix p bs ≡ some r) × (rest ≡ r ++ c)) ⊎ (length bs < length p)
unfolding strip_prefix
strip_prefix-more [] bs c rest h = inl (bs, refl, cc)
strip_prefix-more (x ∷ p) [] c rest h = inr (omega arith)
strip_prefix-more (x ∷ p) (b ∷ bs) c rest h = elim (Bool-cases (x == b)) [
  | inr e ↦ cc (rw e at h)
  | inl e ↦ elim (strip_prefix-more p bs c rest (rw e at h)) [
    | inl (r, f, g) ↦ inl (r, rw e f, g)
    | inr l ↦ inr (omega (arith, l))
  ]
]

strip_prefix-none : (p bs c : List ℕ) → strip_prefix p (bs ++ c) ≡ none → strip_prefix p bs ≡ none
unfolding strip_prefix
strip_prefix-none [] bs c h = cc
strip_prefix-none (x ∷ p) [] c h = refl
strip_prefix-none (x ∷ p) (b ∷ bs) c h = ground (arith, strip_prefix-none p bs c)

span_digits-length :
    (bs : List ℕ) → length bs ≡ length (span_digits bs).0 + length (span_digits bs).1
unfolding span_digits
span_digits-length [] = refl
span_digits-length (b ∷ bs) = elim (Bool-cases (is_digit b)) [
  | inl e ↦ rw e (omega (arith, span_digits-length bs))
  | inr e ↦ rw e (omega arith)
]

-- The digits end before the bytes do, or else they go on to the end.
span_digits-more :
    (bs c : List ℕ)
    → (span_digits (bs ++ c) ≡ ((span_digits bs).0, (span_digits bs).1 ++ c))
      ⊎ (length bs ≤ length (span_digits (bs ++ c)).0)
unfolding span_digits
span_digits-more [] c = inr (omega arith)
span_digits-more (b ∷ bs) c = elim (Bool-cases (is_digit b)) [
  | inr e ↦ inl (rw e refl)
  | inl e ↦ elim (span_digits-more bs c) [
    | inl f ↦ inl (rw (e, f) refl)
    | inr l ↦ inr (rw e (omega (arith, l)))
  ]
]

sign-length : (bs : List ℕ) → length bs ≡ sign_len (sign bs).0 + length (sign bs).1
sign-length [] = refl
sign-length (b ∷ bs) = ground arith

sign-more :
    (b : ℕ) (bs c : List ℕ) → sign (b ∷ bs ++ c) ≡ ((sign (b ∷ bs)).0, (sign (b ∷ bs)).1 ++ c)
sign-more b bs c = elim (Bool-cases (b == 0x2d)) [ inl e ↦ rw e refl | inr e ↦ rw e refl ]

abbrev match_at : Sentinel → ℕ → Bool → List ℕ → ℤ → SentinelMatch
match_at s i minus digits code = record {
  output_len = i;
  consumed = i + 1 + length s.prefix + sign_len minus + length digits + length s.suffix;
  exit_code = code;
}

sign_len-small : (minus : Bool) → sign_len minus ≤ 1
sign_len-small minus = ground arith

at_number-cases :
    (s : Sentinel) (i : ℕ) (minus : Bool) (digits rest : List ℕ) (later : Option SentinelMatch)
    (m : SentinelMatch)
    → at_number s i minus (digits, rest) later ≡ some m
    → ((digits ≡ []) × (later ≡ some m))
      ⊎ ((behind : List ℕ) × (code : ℤ) × (strip_prefix s.suffix rest ≡ some behind)
          × (parse_i32 minus digits ≡ some code)
          × (1 ≤ length digits)
          × (m ≡ match_at s i minus digits code))
at_number-cases s i minus [] rest later m h = inl (refl, h)
at_number-cases s i minus (d ∷ ds) rest later m h =
    elim (Option-cases (strip_prefix s.suffix rest)) [
      | inl e ↦ cc (rw e at h)
      | inr (behind, e) ↦ elim (Option-cases (parse_i32 minus (d ∷ ds))) [
        | inl f ↦ cc (rw (e, f) at h)
        | inr (code, f) ↦ inr (behind, code, e, f, omega arith, cc (rw (e, f) at h))
      ]
    ]

at_number-empty :
    (s : Sentinel) (i : ℕ) (minus : Bool) (digits rest : List ℕ) (later : Option SentinelMatch)
    → digits ≡ []
    → at_number s i minus (digits, rest) later ≡ later
at_number-empty s i minus [] rest later e = refl
at_number-empty s i minus (d ∷ ds) rest later e = cc

at_number-found :
    (s : Sentinel) (i : ℕ) (minus : Bool) (digits rest : List ℕ) (later : Option SentinelMatch)
    (behind : List ℕ) (code : ℤ)
    → 1 ≤ length digits
    → strip_prefix s.suffix rest ≡ some behind
    → parse_i32 minus digits ≡ some code
    → at_number s i minus (digits, rest) later ≡ some (match_at s i minus digits code)
at_number-found s i minus [] rest later behind code l e f = absurd (omega arith)
at_number-found s i minus (d ∷ ds) rest later behind code l e f = rw (e, f) refl

-- A match lies behind `i`, holds the prefix, a digit and the suffix, and ends with the bytes or before.
record IsWithin (s : Sentinel) (i size : ℕ) (m : SentinelMatch) : Type 0 where
  pub behind : i ≤ m.output_len
  pub whole : m.output_len + 2 + length s.prefix + length s.suffix ≤ m.consumed
  pub inside : m.consumed ≤ i + size

find_from-IsWithin :
    (s : Sentinel) (i : ℕ) (bs : List ℕ) (m : SentinelMatch)
    → find_from s i bs ≡ some m
    → IsWithin s i (length bs) m
unfolding find_from
find_from-IsWithin s i [] m h = cc
find_from-IsWithin s i (b ∷ bs) m h =
    let later : find_from s (i + 1) bs ≡ some m → IsWithin s i (length (b ∷ bs)) m = λ e.
      let w = find_from-IsWithin s (i + 1) bs m e in
      record {
        behind = omega (arith, w.behind);
        whole = w.whole;
        inside = omega (arith, w.inside);
      } in
    elim (Bool-cases (b == newline)) [
      | inr e ↦ later (rw e at h)
      | inl e ↦ elim (Option-cases (strip_prefix s.prefix bs)) [
        | inl f ↦ later (rw (e, f) at h)
        | inr (r, f) ↦
            elim (at_number-cases s i (sign r).0 (span_digits (sign r).1).0
              (span_digits (sign r).1).1 (find_from s (i + 1) bs) m (rw (e, f) at h)) [
                | inl (n, g) ↦ later g
                | inr (rest, code, g, k, l, same) ↦ rw same (record {
                  behind = omega arith;
                  whole = omega (arith, l);
                  inside = omega (
                    arith,
                    strip_prefix-length s.prefix bs r f,
                    sign-length r,
                    span_digits-length (sign r).1,
                    strip_prefix-length s.suffix (span_digits (sign r).1).1 rest g,
                  );
                })
              ]
      ]
    ]

-- A match that ends in the first bytes is found in them.
module _ (s : Sentinel) (ends : 1 ≤ length s.suffix) where
  at_number-held :
      (i : ℕ) (minus : Bool) (number c : List ℕ) (first all : Option SentinelMatch)
      (m : SentinelMatch)
      → at_number s i minus (span_digits (number ++ c)) all ≡ some m
      → m.consumed ≤ i + 1 + length s.prefix + sign_len minus + length number
      → (all ≡ some m → (first ≡ some m) × (i + 3 + length s.prefix + length s.suffix ≤ m.consumed))
      → at_number s i minus (span_digits number) first ≡ some m
  at_number-held i minus number c first all m h l next = elim (span_digits-more number c) [
    | inl e ↦
        elim (at_number-cases s i minus (span_digits number).0 ((span_digits number).1 ++ c) all m
          (subst (λ z. at_number s i minus z all ≡ some m) e h)) [
            | inl (n, g) ↦
                at_number-empty s i minus (span_digits number).0 (span_digits number).1 first n
                ∙ (next g).0
            | inr (rest, code, g, k, one, same) ↦
                elim (strip_prefix-more s.suffix (span_digits number).1 c rest g) [
                  | inl (r, t, u) ↦
                      at_number-found s i minus (span_digits number).0 (span_digits number).1 first
                        r code one t k
                      ∙ ap some (sym same)
                  | inr short ↦ absurd (
                      omega (arith, ap (λ x. x.consumed) same, short, l, span_digits-length number))
                ]
          ]
    | inr long ↦
        elim (at_number-cases s i minus (span_digits (number ++ c)).0 (span_digits (number ++ c)).1
          all m h) [
            | inl (n, g) ↦
                absurd (omega (arith, (next g).1, l, long, ap length n, sign_len-small minus))
            | inr (rest, code, g, k, one, same) ↦
                absurd (omega (arith, ap (λ x. x.consumed) same, long, l))
          ]
  ]

  find_from-held :
      (i : ℕ) (bs c : List ℕ) (m : SentinelMatch)
      → find_from s i (bs ++ c) ≡ some m
      → m.consumed ≤ i + length bs
      → find_from s i bs ≡ some m
  unfolding find_from
  find_from-held i [] c m h l =
      let w = find_from-IsWithin s i c m h in absurd (omega (arith, w.behind, w.whole, l))
  find_from-held i (b ∷ bs) c m h l =
      let later : find_from s (i + 1) (bs ++ c) ≡ some m → find_from s (i + 1) bs ≡ some m =
        λ e. find_from-held (i + 1) bs c m e (omega (arith, l)) in
      elim (Bool-cases (b == newline)) [
        | inr e ↦ rw e (later (rw e at h))
        | inl e ↦ elim (Option-cases (strip_prefix s.prefix (bs ++ c))) [
          | inl f ↦ rw (e, strip_prefix-none s.prefix bs c f) (later (rw (e, f) at h))
          | inr (r, f) ↦ elim (strip_prefix-more s.prefix bs c r f) [
            | inr short ↦
                let w = find_from-IsWithin s i (b ∷ bs ++ c) m h in
                absurd (omega (arith, w.behind, w.whole, l, short))
            | inl ([], g, same) ↦
                let w = find_from-IsWithin s i (b ∷ bs ++ c) m h in
                absurd (omega (arith, w.behind, w.whole, l, strip_prefix-length s.prefix bs [] g))
            | inl (x ∷ r0, g, same) ↦
                rw (e, g)
                  (at_number-held i (sign (x ∷ r0)).0 (sign (x ∷ r0)).1 c (find_from s (i + 1) bs)
                    (find_from s (i + 1) (bs ++ c)) m
                    (subst
                      (λ z.
                        at_number s i z.0 (span_digits z.1) (find_from s (i + 1) (bs ++ c))
                        ≡ some m)
                      (ap sign same ∙ sign-more x r0 c) (rw (e, f) at h))
                    (omega
                      (arith, l, strip_prefix-length s.prefix bs (x ∷ r0) g, sign-length (x ∷ r0)))
                    (λ q.
                      let w = find_from-IsWithin s (i + 1) (bs ++ c) m q in
                      (later q, omega (arith, w.behind, w.whole))))
          ]
        ]
      ]

  -- A match that more bytes have brought ends in those.
  pub find-held :
      (bs c : List ℕ) (m : SentinelMatch)
      → find s bs ≡ none
      → find s (bs ++ c) ≡ some m
      → length bs < m.consumed
  unfolding find
  find-held bs c m n h = elim (Bool-cases (leb m.consumed (length bs))) [
    | inr e ↦ lt_of_leb m.consumed (length bs) e
    | inl e ↦ cc (n, find_from-held 0 bs c m h (rw zero-add (le_of_leb m.consumed (length bs) e)))
  ]

pub find-inside :
    (s : Sentinel) (bs : List ℕ) (m : SentinelMatch)
    → find s bs ≡ some m
    → (m.output_len ≤ m.consumed) × (m.consumed ≤ length bs)
unfolding find
find-inside s bs m h =
    let w = find_from-IsWithin s 0 bs m h in (omega (arith, w.whole), omega (arith, w.inside))
