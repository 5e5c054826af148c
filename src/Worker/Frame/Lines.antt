-- ===== src/Worker/Frame/Lines.antt =====
-- crates/frances-worker-protocol/src/frame.rs: the lines of a header, read byte by byte.
use frances.Prelude.{
  ℕ, suc, ◌+◌, ◌≤◌, ◌≡◌, refl, sym, ap, ◌∙◌, List, [], ◌∷◌, ◌++◌, append_assoc, append-nil, some,
  true, false, ◌==◌, ltb, All, length, length-append, ok, arith,
}
use mathlib.Core.List.{reverse, reverse-cons}
use frances.Text.{Text, is_whitespace}
use frances.Worker.Frame.{crlf, max_header_bytes, ends_header, read_header_bytes}

-- No line break stands in the line.
abbrev pub IsPlain : Text → Type 0
IsPlain s = All (λ c. (c == 0x0a ≡ false) × (c == 0x0d ≡ false)) s

-- The line does not end in white space, and is not empty.
abbrev pub IsClosed : Text → Type 0
IsClosed line = (body : Text) × (c : ℕ) × (line ≡ body ++ c ∷ []) × (is_whitespace c ≡ false)

-- The lines, each with its line break.
abbrev pub broken : List Text → Text
broken [] = []
broken (line ∷ lines) = line ++ crlf ++ broken lines

-- One byte that does not end the header.
at_zero : (n : ℕ) → n ≡ n + 0
at_zero n = omega arith

move : (n m : ℕ) → suc n + m ≡ n + suc m
move n m = omega arith

two_more : (n : ℕ) → suc (suc n) ≡ n + 2
two_more n = omega arith

sizes : (n a b t : ℕ) → t ≡ a + 2 + b → n + a + 2 + b ≡ n + t
sizes n a b t e = omega arith

not_more : (n : ℕ) → n ≤ max_header_bytes → ltb max_header_bytes n ≡ false
not_more n l = ground arith

step :
    (size b : ℕ) (bytes stream : List ℕ)
    → ends_header (b ∷ bytes) ≡ false
    → suc size ≤ max_header_bytes
    → read_header_bytes size bytes (b ∷ stream) ≡ read_header_bytes (suc size) (b ∷ bytes) stream
unfolding read_header_bytes
step size b bytes stream e l = rw (e, not_more (suc size) l) refl

last_byte :
    (size b : ℕ) (bytes stream : List ℕ)
    → ends_header (b ∷ bytes) ≡ true
    → read_header_bytes size bytes (b ∷ stream) ≡ (ok (some (reverse (b ∷ bytes))), stream)
unfolding read_header_bytes
last_byte size b bytes stream e = rw e refl

-- The bytes put on those before, the last one first.
abbrev onto : List ℕ → List ℕ → List ℕ
onto [] bytes = bytes
onto (b ∷ bs) bytes = onto bs (b ∷ bytes)

reverse-onto : (bs bytes : List ℕ) → reverse (onto bs bytes) ≡ reverse bytes ++ bs
reverse-onto [] bytes = sym (append-nil (reverse bytes))
reverse-onto (b ∷ bs) bytes =
    reverse-onto bs (b ∷ bytes)
    ∙ ap (λ z. z ++ bs) (reverse-cons b bytes)
    ∙ append_assoc (reverse bytes) (b ∷ []) bs

not_newline : (b : ℕ) (bytes : List ℕ) → b == 0x0a ≡ false → ends_header (b ∷ bytes) ≡ false
not_newline b [] e = refl
not_newline b (x ∷ []) e = refl
not_newline b (x ∷ y ∷ []) e = refl
not_newline b (x ∷ y ∷ z ∷ bytes) e = rw e refl

onto-append : (xs ys bytes : List ℕ) → onto (xs ++ ys) bytes ≡ onto ys (onto xs bytes)
onto-append [] ys bytes = refl
onto-append (x ∷ xs) ys bytes = onto-append xs ys (x ∷ bytes)

read_plain :
    (line : Text) (size : ℕ) (bytes more : List ℕ)
    → IsPlain line
    → size + length line ≤ max_header_bytes
    → read_header_bytes size bytes (line ++ more)
      ≡ read_header_bytes (size + length line) (onto line bytes) more
read_plain [] size bytes more p l = ap (λ n. read_header_bytes n bytes more) (at_zero size)
read_plain (c ∷ cs) size bytes more p l =
    step size c bytes (cs ++ more) (not_newline c bytes p.0.0) (omega (arith, l))
    ∙ read_plain cs (suc size) (c ∷ bytes) more p.1 (omega (arith, l))
    ∙ ap (λ n. read_header_bytes n (onto cs (c ∷ bytes)) more) (move size (length cs))

white_newline : (c : ℕ) → is_whitespace c ≡ false → c == 0x0a ≡ false
unfolding is_whitespace
white_newline c h = ground arith

behind_line :
    (c : ℕ) (bytes : List ℕ) → c == 0x0a ≡ false → ends_header (0x0a ∷ 0x0d ∷ c ∷ bytes) ≡ false
behind_line c [] e = refl
behind_line c (x ∷ bytes) e = rw e refl

-- A line and its line break do not end the header.
read_line :
    (line : Text) (size : ℕ) (bytes more : List ℕ)
    → IsPlain line
    → IsClosed line
    → size + length line + 2 ≤ max_header_bytes
    → read_header_bytes size bytes (line ++ crlf ++ more)
      ≡ read_header_bytes (size + length line + 2) (onto (line ++ crlf) bytes) more
read_line line size bytes more p (body, c, e, w) l =
    let size1 = size + length line in
    let seen : onto line bytes ≡ c ∷ onto body bytes =
      ap (λ z. onto z bytes) e ∙ onto-append body (c ∷ []) bytes in
    ap (read_header_bytes size bytes) (append_assoc line crlf more)
    ∙ read_plain line size bytes (crlf ++ more) p (omega (arith, l))
    ∙ step size1 0x0d (onto line bytes) (0x0a ∷ more) (not_newline 0x0d (onto line bytes) refl)
        (omega (arith, l))
    ∙ step (suc size1) 0x0a (0x0d ∷ onto line bytes) more
        (ap (λ z. ends_header (0x0a ∷ 0x0d ∷ z)) seen
          ∙ behind_line c (onto body bytes) (white_newline c w))
        (omega (arith, l))
    ∙ ap (λ z. read_header_bytes (suc (suc size1)) z more) (sym (onto-append line crlf bytes))
    ∙ ap (λ n. read_header_bytes n (onto (line ++ crlf) bytes) more) (two_more size1)

pub length-broken :
    (line : Text) (lines : List Text)
    → length (broken (line ∷ lines)) ≡ length line + 2 + length (broken lines)
length-broken line lines =
    omega (arith, length-append (line ++ crlf) (broken lines), length-append line crlf)

read_broken :
    (lines : List Text) (size : ℕ) (bytes more : List ℕ)
    → All IsPlain lines
    → All IsClosed lines
    → size + length (broken lines) ≤ max_header_bytes
    → read_header_bytes size bytes (broken lines ++ more)
      ≡ read_header_bytes (size + length (broken lines)) (onto (broken lines) bytes) more
read_broken [] size bytes more p q l = ap (λ n. read_header_bytes n bytes more) (at_zero size)
read_broken (line ∷ lines) size bytes more p q l =
    let total = length-broken line lines in
    let all = onto (broken (line ∷ lines)) bytes in
    ap (read_header_bytes size bytes) (append_assoc (line ++ crlf) (broken lines) more)
    ∙ read_line line size bytes (broken lines ++ more) p.0 q.0 (omega (arith, l, total))
    ∙ read_broken lines (size + length line + 2) (onto (line ++ crlf) bytes) more p.1 q.1
        (omega (arith, l, total))
    ∙ ap (λ z. read_header_bytes (size + length line + 2 + length (broken lines)) z more)
        (sym (onto-append (line ++ crlf) (broken lines) bytes))
    ∙ ap (λ n. read_header_bytes n all more)
        (sizes size (length line) (length (broken lines)) (length (broken (line ∷ lines))) total)

-- The lines without the last line break.
abbrev pub joined : Text → List Text → Text
joined line [] = line
joined line (next ∷ lines) = line ++ crlf ++ joined next lines

pub broken-joined :
    (line : Text) (lines : List Text) → broken (line ∷ lines) ≡ joined line lines ++ crlf
broken-joined line [] = append-nil (line ++ crlf)
broken-joined line (next ∷ lines) =
    ap (λ z. line ++ crlf ++ z) (broken-joined next lines)
    ∙ sym (append_assoc (line ++ crlf) (joined next lines) crlf)

pub joined-IsClosed :
    (line : Text) (lines : List Text) → All IsClosed (line ∷ lines) → IsClosed (joined line lines)
joined-IsClosed line [] q = q.0
joined-IsClosed line (next ∷ lines) q =
    let (body, c, e, w) = joined-IsClosed next lines q.1 in
    (
      line ++ crlf ++ body,
      c,
      ap (λ z. line ++ crlf ++ z) e ∙ sym (append_assoc (line ++ crlf) body (c ∷ [])),
      w,
    )

-- The bytes of the lines and of the empty line behind them are read, and no more.
pub read_header_bytes-broken :
    (line : Text) (lines : List Text) (stream : List ℕ)
    → All IsPlain (line ∷ lines)
    → All IsClosed (line ∷ lines)
    → length (broken (line ∷ lines)) + 2 ≤ max_header_bytes
    → read_header_bytes 0 [] (broken (line ∷ lines) ++ crlf ++ stream)
      ≡ (ok (some (broken (line ∷ lines) ++ crlf)), stream)
unfolding read_header_bytes
read_header_bytes-broken line lines stream p q l =
    let lines_read = broken (line ∷ lines) in
    let size = 0 + length lines_read in
    let seen : onto lines_read [] ≡ 0x0a ∷ 0x0d ∷ onto (joined line lines) [] =
      ap (λ z. onto z []) (broken-joined line lines) ∙ onto-append (joined line lines) crlf [] in
    ap (read_header_bytes 0 []) (append_assoc lines_read crlf stream)
    ∙ read_broken (line ∷ lines) 0 [] (crlf ++ stream) p q (omega (arith, l))
    ∙ step size 0x0d (onto lines_read []) (0x0a ∷ stream)
        (not_newline 0x0d (onto lines_read []) refl) (omega (arith, l))
    ∙ last_byte (suc size) 0x0a (0x0d ∷ onto lines_read []) stream
        (ap (λ z. ends_header (0x0a ∷ 0x0d ∷ z)) seen)
    ∙ ap (λ z. (ok (some z), stream))
        (ap reverse (sym (onto-append lines_read crlf [])) ∙ reverse-onto (lines_read ++ crlf) [])
