-- ===== src/Edit/Pool.antt =====
-- crates/frances-edit/src/pool.rs: fresh anchors for a file.
pub mod Members
pub mod Mint
use frances.Prelude.{
  ℕ, zero, suc, ◌+◌, List, [], ◌∷◌, Bool, true, false, if◌then◌else◌, eq_list, length,
}
use frances.Edit.Anchor.{Anchor, first, increment}

-- The hash set of anchors is a list; only membership and its size are observed.
abbrev pub contains : List Anchor → Anchor → Bool
contains [] a = false
contains (b ∷ bs) a = if eq_list b a then true else contains bs a

pub record Pool : Type 0 where
  pub used : List Anchor
  pub next : Anchor

unfoldable pub from_used : List Anchor → Pool
from_used used = record { used = used; next = first }

abbrev take_next : Pool → Anchor × Pool
take_next p = (p.next, record { used = p.next ∷ p.used; next = increment p.next })

-- The loop of `mint`, on fuel; with the fuel that `mint` gives it never reaches `zero`.
unfoldable pub mint_loop : ℕ → Pool → Anchor × Pool
mint_loop zero p = take_next p
mint_loop (suc fuel) p =
    let rest = mint_loop fuel (record p { next = increment p.next }) in
    if contains p.used p.next then rest else take_next p

-- The candidates are distinct, so one more than there are used anchors are enough.
unfoldable pub mint : Pool → Anchor × Pool
unfolding mint_loop
mint p = mint_loop (suc (length p.used)) p

unfoldable pub used_count : Pool → ℕ
used_count p = length p.used
