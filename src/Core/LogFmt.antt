-- ===== src/Core/LogFmt.antt =====
-- crates/frances-core/src/log_fmt.rs: a text cut to a number of characters.
use frances.Prelude.{
  ℕ, zero, suc, ◌+◌, ◌-◌, ◌≤◌, ◌≡◌, refl, [], ◌∷◌, ◌++◌, none, some, Bool, ltb, if◌then◌else◌,
  length, length-append, length-take, length-drop, get_elem?, take, drop, arith, Bool-cases,
  Option-cases, inl, inr,
}
use mathlib.Core.List.{reverse, reverse-cons}
use frances.Text.{Text}

-- `"…"`
abbrev pub ellipsis : Text
ellipsis = 0x2026 ∷ []

-- `Truncated<N, KEEP_HEAD>`; the text is kept whole.
pub record Truncated : Type 0 where
  pub n : ℕ
  pub keep_head : Bool
  pub text : Text

unfoldable pub fmt_head : ℕ → Text → Text
fmt_head n s = elim (get_elem? s n) [ some c ↦ take n s ++ ellipsis | none ↦ s ]

-- The `n`-th character from the end is at index `length s - n`, and its byte index is above zero
-- when that one is.
unfoldable pub fmt_tail : ℕ → Text → Text
fmt_tail zero s = ellipsis
fmt_tail (suc n) s = elim (get_elem? (reverse s) n) [
  | some c ↦ if ltb 0 (length s - suc n) then ellipsis ++ drop (length s - suc n) s else s
  | none ↦ s
]

unfoldable pub fmt : Truncated → Text
unfolding fmt_head fmt_tail
fmt t = if t.keep_head then fmt_head t.n t.text else fmt_tail t.n t.text

get_elem?-none : (s : Text) (n : ℕ) → get_elem? s n ≡ none → length s ≤ n
get_elem?-none [] n h = omega arith
get_elem?-none (c ∷ s) zero h = cc
get_elem?-none (c ∷ s) (suc n) h = omega (arith, get_elem?-none s n h)

length-reverse : (s : Text) → length (reverse s) ≡ length s
length-reverse [] = refl
length-reverse (c ∷ s) =
    rw (reverse-cons c s) (omega (arith, length-append (reverse s) (c ∷ []), length-reverse s))

length-fmt_head : (n : ℕ) (s : Text) → length (fmt_head n s) ≤ n + 1
unfolding fmt_head
length-fmt_head n s = elim (Option-cases (get_elem? s n)) [
  | inl e ↦ rw (length, e) (omega (arith, get_elem?-none s n e))
  | inr (c, e) ↦ rw (length, e) (omega (arith, length-append (take n s) ellipsis, length-take n s))
]

length-fmt_tail : (n : ℕ) (s : Text) → length (fmt_tail n s) ≤ n + 1
unfolding fmt_tail
length-fmt_tail zero s = omega arith
length-fmt_tail (suc n) s = elim (Option-cases (get_elem? (reverse s) n)) [
  | inl e ↦ rw (length, e) (omega (arith, get_elem?-none (reverse s) n e, length-reverse s))
  | inr (c, e) ↦ elim (Bool-cases (ltb 0 (length s - suc n))) [
    | inl more ↦ rw (length, e, more) (omega (arith, length-drop (length s - suc n) s))
    | inr whole ↦ rw (length, e, whole) (ground (arith, whole))
  ]
]

-- What is shown is at most one character, the ellipsis, longer than the cut.
pub length-fmt : (t : Truncated) → length (fmt t) ≤ t.n + 1
unfolding fmt
length-fmt t = elim (Bool-cases t.keep_head) [
  | inl e ↦ rw e (length-fmt_head t.n t.text)
  | inr e ↦ rw e (length-fmt_tail t.n t.text)
]
