-- ===== src/Worker/Frame/Headers.antt =====
-- crates/frances-worker-protocol/src/frame.rs: a header that was written is read back.
use frances.Prelude.{
  ℕ, ◌+◌, ◌^◌, ◌≤◌, ◌<◌, ◌≡◌, refl, ap, ◌∙◌, List, [], ◌∷◌, ◌++◌, append_assoc, append-nil, Option,
  none, some, Bool, true, ◌&&◌, ltb, leb, eq_list, All, All-append, length, length-append, ok,
  arith,
}
use frances.Text.{Text, codes, split_once, as_bytes}
use frances.Text.Decimal.{decimal, parse_u64-decimal, length-decimal}
use frances.Text.Utf8.{IsAscii, as_bytes-ascii, from_utf8-ascii}
use frances.Worker.Frame.{
  Found, crlf, max_header_bytes, header_text, parse_line, parse_lines, split_crlf, header_from,
  parse_header, read_header,
}
use frances.Worker.Frame.Lines.{IsPlain, IsClosed, broken, length-broken, read_header_bytes-broken}
use frances.Worker.Frame.Split.{trim_end-broken, split_crlf-joined}
use frances.Worker.Frame.Values.{
  IsPrintable-IsPlain, IsPrintable-IsAscii, IsValue, decimal-IsValue, value-trimmed, value-closes,
  every, and-true,
}

-- The lines of a header.
abbrev length_line : ℕ → Text
length_line n = codes "Content-Length: " ++ decimal n

abbrev type_line : Text → Text
type_line ty = codes "Content-Type: " ++ ty

abbrev id_lines : Option ℕ → List Text
id_lines none = []
id_lines (some id) = (codes "Content-Id: " ++ decimal id) ∷ []

abbrev lines_of : Text → Option ℕ → List Text
lines_of ty id = type_line ty ∷ id_lines id

regroup : (a k b t : Text) → a ++ k ++ b ++ t ++ k ++ [] ++ k ≡ a ++ k ++ (b ++ t ++ k ++ []) ++ k
regroup a k b t = simp (append_assoc, append-nil)

regroup_id :
    (a k b t d i : Text)
    → a ++ k ++ b ++ t ++ k ++ (d ++ i ++ k) ++ k
      ≡ a ++ k ++ (b ++ t ++ k ++ (d ++ i ++ k ++ [])) ++ k
regroup_id a k b t d i = simp (append_assoc, append-nil)

header_text-broken :
    (ty : Text) (id : Option ℕ) (n : ℕ)
    → header_text ty id n ≡ broken (length_line n ∷ lines_of ty id) ++ crlf
unfolding header_text
header_text-broken ty none n = regroup (length_line n) crlf (codes "Content-Type: ") ty
header_text-broken ty (some id) n =
    regroup_id (length_line n) crlf (codes "Content-Type: ") ty (codes "Content-Id: ") (decimal id)

abbrev empty : Found
empty = record { content_length = none; content_type = none; content_id = none }

parse_length :
    (found : Found) (n : ℕ)
    → n < 2 ^ 64
    → parse_line found (length_line n) ≡ ok (record found { content_length = some n })
unfolding parse_line split_once eq_list
parse_length found n l =
    rw (value-trimmed (decimal n) (decimal-IsValue n), parse_u64-decimal n l) refl

parse_type :
    (found : Found) (ty : Text)
    → IsValue ty
    → parse_line found (type_line ty) ≡ ok (record found { content_type = some ty })
unfolding parse_line split_once eq_list
parse_type found ty v = rw (value-trimmed ty v) refl

parse_id :
    (found : Found) (n : ℕ)
    → n < 2 ^ 64
    → parse_line found (codes "Content-Id: " ++ decimal n)
      ≡ ok (record found { content_id = some n })
unfolding parse_line split_once eq_list
parse_id found n l = rw (value-trimmed (decimal n) (decimal-IsValue n), parse_u64-decimal n l) refl

-- A printable character or a space.
abbrev is_shown : ℕ → Bool
is_shown c = leb 0x20 c && ltb c 0x7f

shown-IsPlain : (s : Text) → every is_shown s ≡ true → IsPlain s
shown-IsPlain [] h = tt
shown-IsPlain (c ∷ cs) h =
    let (first, others) = and-true (is_shown c) (every is_shown cs) h in
    ((ground (arith, first), ground (arith, first)), shown-IsPlain cs others)

shown-IsAscii : (s : Text) → every is_shown s ≡ true → IsAscii s
shown-IsAscii [] h = tt
shown-IsAscii (c ∷ cs) h =
    let (first, others) = and-true (is_shown c) (every is_shown cs) h in
    (ground (arith, first), shown-IsAscii cs others)

-- A name and a value make a line.
record IsLine (line : Text) : Type 0 where
  pub plain : IsPlain line
  pub closed : IsClosed line
  pub ascii : IsAscii line

append-IsLine :
    (name value : Text) → every is_shown name ≡ true → IsValue value → IsLine (name ++ value)
append-IsLine name value h v = record {
  plain = All-append _ name value (shown-IsPlain name h) (IsPrintable-IsPlain value v.0);
  closed = value-closes name value v;
  ascii = All-append _ name value (shown-IsAscii name h) (IsPrintable-IsAscii value v.0);
}

IsLine-IsPlain : (lines : List Text) → All IsLine lines → All IsPlain lines
IsLine-IsPlain [] h = tt
IsLine-IsPlain (line ∷ lines) h = (h.0.plain, IsLine-IsPlain lines h.1)

IsLine-IsClosed : (lines : List Text) → All IsLine lines → All IsClosed lines
IsLine-IsClosed [] h = tt
IsLine-IsClosed (line ∷ lines) h = (h.0.closed, IsLine-IsClosed lines h.1)

broken-IsAscii : (lines : List Text) → All IsLine lines → IsAscii (broken lines)
broken-IsAscii [] h = tt
broken-IsAscii (line ∷ lines) h =
    All-append _ (line ++ crlf) (broken lines) (All-append _ line crlf h.0.ascii (refl, (refl, tt)))
      (broken-IsAscii lines h.1)

-- A u64, if there is one.
abbrev pub IsSmall : Option ℕ → Type 0
IsSmall none = Unit {0}
IsSmall (some id) = (id < 2 ^ 64)

id_lines-IsLine : (id : Option ℕ) → All IsLine (id_lines id)
id_lines-IsLine none = tt
id_lines-IsLine (some id) =
    (append-IsLine (codes "Content-Id: ") (decimal id) refl (decimal-IsValue id), tt)

length-id_lines : (id : Option ℕ) → IsSmall id → length (broken (id_lines id)) ≤ 40
length-id_lines none l = omega arith
length-id_lines (some id) l = omega (
  arith,
  length-broken (codes "Content-Id: " ++ decimal id) [],
  length-append (codes "Content-Id: ") (decimal id),
  length-decimal id l,
)

parse_lines-id :
    (found : Found) (id : Option ℕ)
    → found.content_id ≡ none
    → IsSmall id
    → parse_lines found (id_lines id) ≡ ok (record found { content_id = id })
unfolding parse_lines
parse_lines-id found none e l = ap (λ o. ok (record found { content_id = o })) e
parse_lines-id found (some id) e l = rw (parse_id found id l) refl

module _ (ty : Text) (id : Option ℕ) (n : ℕ) (v : IsValue ty) (size : n < 2 ^ 64)
    (small : IsSmall id) where
  lines_of-IsLine : All IsLine (length_line n ∷ lines_of ty id)
  lines_of-IsLine = (
    append-IsLine (codes "Content-Length: ") (decimal n) refl (decimal-IsValue n),
    (append-IsLine (codes "Content-Type: ") ty refl v, id_lines-IsLine id),
  )

  text-IsAscii : IsAscii (broken (length_line n ∷ lines_of ty id) ++ crlf)
  text-IsAscii =
      All-append _ (broken (length_line n ∷ lines_of ty id)) crlf
        (broken-IsAscii (length_line n ∷ lines_of ty id) lines_of-IsLine) (refl, (refl, tt))

  length-lines_of :
      length ty ≤ 1000 → length (broken (length_line n ∷ lines_of ty id)) + 2 ≤ max_header_bytes
  length-lines_of l = omega (
    arith,
    length-broken (length_line n) (lines_of ty id),
    length-broken (type_line ty) (id_lines id),
    length-append (codes "Content-Length: ") (decimal n),
    length-append (codes "Content-Type: ") ty,
    length-decimal n size,
    length-id_lines id small,
  )

  header_from-lines :
      header_from (length_line n ∷ lines_of ty id)
      ≡ ok (record { content_length = n; content_type = ty; content_id = id })
  unfolding header_from parse_lines
  header_from-lines =
      rw
        (
          parse_length empty n size,
          parse_type (record { content_length = some n; content_type = none; content_id = none }) ty
              v,
          parse_lines-id
              (record { content_length = some n; content_type = some ty; content_id = none }) id
              refl small,
        )
        refl

  parse_header-lines :
      parse_header (broken (length_line n ∷ lines_of ty id) ++ crlf)
      ≡ ok (record { content_length = n; content_type = ty; content_id = id })
  unfolding parse_header
  parse_header-lines =
      rw (from_utf8-ascii (broken (length_line n ∷ lines_of ty id) ++ crlf) text-IsAscii) (
        ap (λ z. header_from (split_crlf z))
          (trim_end-broken (length_line n) (lines_of ty id)
            (IsLine-IsClosed (length_line n ∷ lines_of ty id) lines_of-IsLine))
        ∙ ap header_from (
            split_crlf-joined (length_line n) (lines_of ty id)
              (IsLine-IsPlain (length_line n ∷ lines_of ty id) lines_of-IsLine))
        ∙ header_from-lines)

-- A header for a printable type of at most 1000 characters, a length and an identifier that are u64s:
-- what is written is read back, and the stream goes on behind it.
pub read_header-header_text :
    (ty : Text) (id : Option ℕ) (n : ℕ) (stream : List ℕ)
    → IsValue ty
    → length ty ≤ 1000
    → n < 2 ^ 64
    → IsSmall id
    → read_header (as_bytes (header_text ty id n) ++ stream)
      ≡ (ok (some (record { content_length = n; content_type = ty; content_id = id })), stream)
unfolding read_header
read_header-header_text ty id n stream v l size small =
    let lines = lines_of-IsLine ty id n v size small in
    rw
      (
        header_text-broken ty id n,
        as_bytes-ascii (broken (length_line n ∷ lines_of ty id) ++ crlf)
            (text-IsAscii ty id n v size small),
        read_header_bytes-broken (length_line n) (lines_of ty id) stream
            (IsLine-IsPlain (length_line n ∷ lines_of ty id) lines)
            (IsLine-IsClosed (length_line n ∷ lines_of ty id) lines)
            (length-lines_of ty id n v size small l),
        parse_header-lines ty id n v size small,
      )
      refl
