-- ===== src/Text/Utf8.antt =====
-- `str::from_utf8`, and texts of ASCII characters, whose bytes are their code points.
use frances.Prelude.{
  ℕ, ◌+◌, ◌-◌, ◌*◌, ◌≡◌, refl, ap, List, [], ◌∷◌, Option, none, some, Bool, true, ltb, leb, ◌&&◌,
  not, if◌then◌else◌, All,
}
use frances.Text.{Text, as_bytes}

-- A byte that continues a character.
abbrev continues : ℕ → Bool
continues b = leb 0x80 b && ltb b 0xc0

-- The bytes of a character behind its first, and the values that its length allows for.
abbrev two : ℕ → ℕ → Bool
two a b = leb 0xc2 a && ltb a 0xe0 && continues b

abbrev value_of_three : ℕ → ℕ → ℕ → ℕ
value_of_three a b c = (a - 0xe0) * 0x1000 + (b - 0x80) * 0x40 + (c - 0x80)

abbrev three : ℕ → ℕ → ℕ → Bool
three a b c =
    leb 0xe0 a
    && ltb a 0xf0
    && continues b
    && continues c
    && leb 0x800 (value_of_three a b c)
    && not (leb 0xd800 (value_of_three a b c) && ltb (value_of_three a b c) 0xe000)

abbrev value_of_four : ℕ → ℕ → ℕ → ℕ → ℕ
value_of_four a b c d = (a - 0xf0) * 0x40000 + (b - 0x80) * 0x1000 + (c - 0x80) * 0x40 + (d - 0x80)

abbrev four : ℕ → ℕ → ℕ → ℕ → Bool
four a b c d =
    leb 0xf0 a
    && ltb a 0xf5
    && continues b
    && continues c
    && continues d
    && leb 0x10000 (value_of_four a b c d)
    && ltb (value_of_four a b c d) 0x110000

abbrev before : ℕ → Option Text → Option Text
before c none = none
before c (some cs) = some (c ∷ cs)

unfoldable pub from_utf8 : List ℕ → Option Text
from_utf8 [] = some []
from_utf8 (a ∷ []) = if ltb a 0x80 then some (a ∷ []) else none
from_utf8 (a ∷ b ∷ []) =
    let one = from_utf8 (b ∷ []) in
    if ltb a 0x80
    then before a one
    else if two a b
    then some (((a - 0xc0) * 0x40 + (b - 0x80)) ∷ [])
    else none
from_utf8 (a ∷ b ∷ c ∷ []) =
    let one = from_utf8 (b ∷ c ∷ []) in
    let behind = from_utf8 (c ∷ []) in
    if ltb a 0x80
    then before a one
    else if two a b
    then before ((a - 0xc0) * 0x40 + (b - 0x80)) behind
    else if three a b c
    then some (value_of_three a b c ∷ [])
    else none
from_utf8 (a ∷ b ∷ c ∷ d ∷ bs) =
    let one = from_utf8 (b ∷ c ∷ d ∷ bs) in
    let behind = from_utf8 (c ∷ d ∷ bs) in
    let third = from_utf8 (d ∷ bs) in
    let fourth = from_utf8 bs in
    if ltb a 0x80
    then before a one
    else if two a b
    then before ((a - 0xc0) * 0x40 + (b - 0x80)) behind
    else if three a b c
    then before (value_of_three a b c) third
    else if four a b c d
    then before (value_of_four a b c d) fourth
    else none

-- Every character is of ASCII.
abbrev pub IsAscii : Text → Type 0
IsAscii s = All (λ c. ltb c 0x80 ≡ true) s

pub as_bytes-ascii : (s : Text) → IsAscii s → as_bytes s ≡ s
unfolding as_bytes
as_bytes-ascii [] h = refl
as_bytes-ascii (c ∷ cs) h = rw (h.0) (ap (λ bs. c ∷ bs) (as_bytes-ascii cs h.1))

pub from_utf8-ascii : (s : Text) → IsAscii s → from_utf8 s ≡ some s
unfolding from_utf8
from_utf8-ascii [] h = refl
from_utf8-ascii (a ∷ []) h = rw (h.0) refl
from_utf8-ascii (a ∷ b ∷ []) h = rw (h.0, from_utf8-ascii (b ∷ []) h.1) refl
from_utf8-ascii (a ∷ b ∷ c ∷ []) h = rw (h.0, from_utf8-ascii (b ∷ c ∷ []) h.1) refl
from_utf8-ascii (a ∷ b ∷ c ∷ d ∷ bs) h = rw (h.0, from_utf8-ascii (b ∷ c ∷ d ∷ bs) h.1) refl
