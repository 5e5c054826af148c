-- ===== src/Worker/Frame/Values.antt =====
-- crates/frances-worker-protocol/src/frame.rs: values in a header, and what is trimmed of them.
use frances.Prelude.{
  ℕ, ◌≡◌, refl, sym, ap, subst, ◌∙◌, [], ◌∷◌, ◌++◌, append_assoc, Bool, true, false, ◌==◌, ◌&&◌,
  ltb, leb, All, arith,
}
use mathlib.Core.List.{reverse, reverse-reverse, reverse-append, reverse-cons}
use frances.Text.{Text, is_whitespace, trim_start, trim_end, trim}
use frances.Text.Decimal.{is_digit, decimal, decimal-digits, decimal-cons}
use frances.Text.Utf8.{IsAscii}
use frances.Worker.Frame.Lines.{IsPlain, IsClosed}
use frances.Worker.Frame.Split.{trim_start_black}

-- Printable characters of ASCII, by a test.
abbrev is_printable : ℕ → Bool
is_printable c = leb 0x21 c && ltb c 0x7f

abbrev pub IsPrintable : Text → Type 0
IsPrintable s = All (λ c. is_printable c ≡ true) s

digit-printable : (c : ℕ) → is_digit c ≡ true → is_printable c ≡ true
digit-printable c h = ground arith

digits-IsPrintable : (s : Text) → All (λ c. is_digit c ≡ true) s → IsPrintable s
digits-IsPrintable [] h = tt
digits-IsPrintable (c ∷ cs) h = (digit-printable c h.0, digits-IsPrintable cs h.1)

printable-plain : (c : ℕ) → is_printable c ≡ true → (c == 0x0a ≡ false) × (c == 0x0d ≡ false)
printable-plain c h = (ground arith, ground arith)

pub IsPrintable-IsPlain : (s : Text) → IsPrintable s → IsPlain s
IsPrintable-IsPlain [] h = tt
IsPrintable-IsPlain (c ∷ cs) h = (printable-plain c h.0, IsPrintable-IsPlain cs h.1)

printable-ascii : (c : ℕ) → is_printable c ≡ true → ltb c 0x80 ≡ true
printable-ascii c h = ground arith

pub IsPrintable-IsAscii : (s : Text) → IsPrintable s → IsAscii s
IsPrintable-IsAscii [] h = tt
IsPrintable-IsAscii (c ∷ cs) h = (printable-ascii c h.0, IsPrintable-IsAscii cs h.1)

printable-black : (c : ℕ) → is_printable c ≡ true → is_whitespace c ≡ false
unfolding is_whitespace
printable-black c h = ground arith

-- Something printable at the end closes a line.
closes : (s : Text) (c : ℕ) (cs : Text) → IsPrintable (c ∷ cs) → IsClosed (s ++ c ∷ cs)
closes s c [] h = (s, c, refl, printable-black c h.0)
closes s c (d ∷ ds) h =
    subst IsClosed (append_assoc s (c ∷ []) (d ∷ ds)) (closes (s ++ c ∷ []) d ds h.1)

trim_end-IsClosed : (s : Text) → IsClosed s → trim_end s ≡ s
unfolding trim_end
trim_end-IsClosed s (body, c, e, w) =
    ap (λ z. reverse (trim_start z)) (ap reverse e ∙ reverse-append body (c ∷ []))
    ∙ ap reverse (trim_start_black c (reverse body) w)
    ∙ reverse-cons c (reverse body)
    ∙ ap (λ z. z ++ c ∷ []) (reverse-reverse body)
    ∙ sym e

trim_start_space : (s : Text) → trim_start (0x20 ∷ s) ≡ trim_start s
unfolding trim_start is_whitespace
trim_start_space s = refl

-- A value as it stands behind a colon.
trim-value : (c : ℕ) (cs : Text) → IsPrintable (c ∷ cs) → trim (0x20 ∷ c ∷ cs) ≡ c ∷ cs
unfolding trim
trim-value c cs h =
    ap trim_end (trim_start_space (c ∷ cs) ∙ trim_start_black c cs (printable-black c h.0))
    ∙ trim_end-IsClosed (c ∷ cs) (closes [] c cs h)

-- A value: printable, and not empty.
abbrev pub IsValue : Text → Type 0
IsValue s = IsPrintable s × ((c : ℕ) × (cs : Text) × (s ≡ c ∷ cs))

pub decimal-IsValue : (n : ℕ) → IsValue (decimal n)
decimal-IsValue n = (digits-IsPrintable (decimal n) (decimal-digits n), decimal-cons n)

pub value-trimmed : (s : Text) → IsValue s → trim (0x20 ∷ s) ≡ s
value-trimmed s (p, (c, cs, e)) =
    ap (λ z. trim (0x20 ∷ z)) e ∙ trim-value c cs (subst IsPrintable e p) ∙ sym e

pub value-closes : (name s : Text) → IsValue s → IsClosed (name ++ s)
value-closes name s (p, (c, cs, e)) =
    subst (λ z. IsClosed (name ++ z)) (sym e) (closes name c cs (subst IsPrintable e p))

-- What holds of every character, by a test of a text.
abbrev pub every : (ℕ → Bool) → Text → Bool
every t [] = true
every t (c ∷ cs) = t c && every t cs

pub and-true : (a b : Bool) → a && b ≡ true → (a ≡ true) × (b ≡ true)
and-true true b h = (refl, h)
and-true false b h = cc

pub every-IsPrintable : (s : Text) → every is_printable s ≡ true → IsPrintable s
every-IsPrintable [] h = tt
every-IsPrintable (c ∷ cs) h =
    let (first, others) = and-true (is_printable c) (every is_printable cs) h in
    (first, every-IsPrintable cs others)
