-- ===== src/Worker/Frame/Split.antt =====
-- crates/frances-worker-protocol/src/frame.rs: the lines of a header, trimmed and split.
use frances.Prelude.{
  ℕ, ◌≡◌, refl, sym, ap, ◌∙◌, List, [], ◌∷◌, ◌++◌, append_assoc, false, ◌==◌, All,
}
use mathlib.Core.List.{reverse, reverse-reverse, reverse-append, reverse-cons}
use frances.Text.{Text, is_whitespace, trim_start, trim_end}
use frances.Worker.Frame.{crlf, crlf_parts, split_crlf}
use frances.Worker.Frame.Lines.{IsPlain, IsClosed, broken, joined, broken-joined, joined-IsClosed}

trim_start_newlines : (s : Text) → trim_start (0x0a ∷ 0x0d ∷ 0x0a ∷ 0x0d ∷ s) ≡ trim_start s
unfolding trim_start is_whitespace
trim_start_newlines s = refl

pub trim_start_black : (c : ℕ) (s : Text) → is_whitespace c ≡ false → trim_start (c ∷ s) ≡ c ∷ s
unfolding trim_start
trim_start_black c s w = rw w refl

-- The line breaks at the end are trimmed, and nothing else.
trim_end-closed : (s : Text) → IsClosed s → trim_end (s ++ crlf ++ crlf) ≡ s
unfolding trim_end
trim_end-closed s (body, c, e, w) =
    ap (λ z. reverse (trim_start z))
      (ap reverse (append_assoc s crlf crlf)
        ∙ reverse-append s (crlf ++ crlf)
        ∙ ap (λ z. reverse (crlf ++ crlf) ++ reverse z) e
        ∙ ap (λ z. reverse (crlf ++ crlf) ++ z) (reverse-append body (c ∷ [])))
    ∙ ap reverse (trim_start_newlines (c ∷ reverse body) ∙ trim_start_black c (reverse body) w)
    ∙ reverse-cons c (reverse body)
    ∙ ap (λ z. z ++ c ∷ []) (reverse-reverse body)
    ∙ sym e

pub trim_end-broken :
    (line : Text) (lines : List Text)
    → All IsClosed (line ∷ lines)
    → trim_end (broken (line ∷ lines) ++ crlf) ≡ joined line lines
trim_end-broken line lines q =
    ap (λ z. trim_end (z ++ crlf)) (broken-joined line lines)
    ∙ trim_end-closed (joined line lines) (joined-IsClosed line lines q)

crlf_parts-cons :
    (c : ℕ) (s : Text)
    → c == 0x0d ≡ false
    → crlf_parts (c ∷ s) ≡ (c ∷ (crlf_parts s).0, (crlf_parts s).1)
unfolding crlf_parts
crlf_parts-cons c [] e = refl
crlf_parts-cons c (d ∷ s) e = rw e refl

no_line : crlf_parts [] ≡ ([], [])
unfolding crlf_parts
no_line = refl

empty_line :
    (rest : Text) → crlf_parts (crlf ++ rest) ≡ ([], (crlf_parts rest).0 ∷ (crlf_parts rest).1)
unfolding crlf_parts
empty_line rest = refl

crlf_parts-line : (line : Text) → IsPlain line → crlf_parts line ≡ (line, [])
crlf_parts-line [] p = no_line
crlf_parts-line (c ∷ cs) p =
    crlf_parts-cons c cs p.0.1 ∙ ap (λ z. (c ∷ z.0, z.1)) (crlf_parts-line cs p.1)

crlf_parts-append :
    (line rest : Text)
    → IsPlain line
    → crlf_parts (line ++ crlf ++ rest) ≡ (line, (crlf_parts rest).0 ∷ (crlf_parts rest).1)
crlf_parts-append [] rest p = empty_line rest
crlf_parts-append (c ∷ cs) rest p =
    crlf_parts-cons c (cs ++ crlf ++ rest) p.0.1
    ∙ ap (λ z. (c ∷ z.0, z.1)) (crlf_parts-append cs rest p.1)

pub split_crlf-joined :
    (line : Text) (lines : List Text)
    → All IsPlain (line ∷ lines)
    → split_crlf (joined line lines) ≡ line ∷ lines
unfolding split_crlf
split_crlf-joined line [] p = ap (λ z. z.0 ∷ z.1) (crlf_parts-line line p.0)
split_crlf-joined line (next ∷ lines) p =
    ap (λ z. z.0 ∷ z.1) (crlf_parts-append line (joined next lines) p.0)
    ∙ ap (λ z. line ∷ z) (split_crlf-joined next lines p.1)
