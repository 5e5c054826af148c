-- ===== src/Edit/Pool/Mint.antt =====
-- `mint` returns the least unused anchor from the pool's next one on.
use frances.Prelude.{
  ℕ, zero, suc, ◌+◌, ◌≤◌, ◌<◌, ◌≡◌, refl, List, [], ◌∷◌, true, false, if◌then◌else◌, eq_list,
  eq_list_iff, Bool-cases, inl, inr, arith, leb, length,
}
use native.Mathlib.Decide.{dec_lt}
use frances.Edit.Anchor.{Anchor, increment}
use frances.Edit.Anchor.Rank.{
  IsAnchor, rank, rank-increment, increment-IsAnchor, rank_injective, first-IsAnchor,
}
use frances.Edit.Pool.{contains, Pool, mint_loop, mint, from_used}

pub record IsPool (p : Pool) : Type 0 where
  pub next_anchor : IsAnchor p.next

-- The number of anchors in the list whose rank is at least `r`.
above : ℕ → List Anchor → ℕ
above r [] = 0
above r (a ∷ rest) = if leb r (rank a) then suc (above r rest) else above r rest

above-le : (r : ℕ) (rest : List Anchor) → above r rest ≤ length rest
unfolding above
above-le r [] = omega arith
above-le r (a ∷ rest) = ground (arith, above-le r rest)

above_mono : (r : ℕ) (rest : List Anchor) → above (r + 1) rest ≤ above r rest
unfolding above
above_mono r [] = omega arith
above_mono r (a ∷ rest) = ground (arith, above_mono r rest)

above_drops :
    (c : Anchor) (rest : List Anchor)
    → contains rest c ≡ true
    → above (rank c + 1) rest < above (rank c) rest
unfolding above
above_drops c [] h = cc
above_drops c (a ∷ rest) h = elim (Bool-cases (eq_list a c)) [
  | inl e ↦ rw ((eq_list_iff a c).0 e) (ground (arith, above_mono (rank c) rest))
  | inr e ↦ ground (arith, above_drops c rest)
]

-- What one call of `mint` does.
pub record IsMinted (p : Pool) (r : Anchor × Pool) : Type 0 where
  pub anchor : IsAnchor r.0
  pub fresh : contains p.used r.0 ≡ false
  pub recorded : r.1.used ≡ r.0 ∷ p.used
  pub advanced : r.1.next ≡ increment r.0
  pub from_next : rank p.next ≤ rank r.0
  pub least :
      (b : Anchor)
      → IsAnchor b
      → rank p.next ≤ rank b
      → rank b < rank r.0
      → contains p.used b ≡ true

mint_loop-IsMinted :
    (fuel : ℕ) (p : Pool)
    → IsAnchor p.next
    → above (rank p.next) p.used < fuel
    → IsMinted p (mint_loop fuel p)
unfolding mint_loop
mint_loop-IsMinted zero p h f = absurd (omega arith)
mint_loop-IsMinted (suc fuel) p h f = elim (Bool-cases (contains p.used p.next)) [
  | inl taken ↦
      let step = rank-increment p.next h in
      let drops = above_drops p.next p.used taken in
      let ih =
        mint_loop-IsMinted fuel (record p { next = increment p.next }) (increment-IsAnchor p.next h)
          (rw step (omega arith)) in
      rw taken (record {
        anchor = ih.anchor;
        fresh = ih.fresh;
        recorded = ih.recorded;
        advanced = ih.advanced;
        from_next = omega (arith, ih.from_next);
        least = λ b hb lo hi. elim (dec_lt (rank p.next) (rank b)) [
          | yes later ↦ ih.least b hb (rw step (omega arith)) hi
          | no same ↦ rw (rank_injective b p.next hb h (omega arith)) taken
        ];
      })
  | inr free ↦ rw free (record {
    anchor = h;
    fresh = free;
    recorded = refl;
    advanced = refl;
    from_next = omega arith;
    least = λ b hb lo hi. absurd (omega arith);
  })
]

-- From a valid pool `mint` returns an anchor that was not in use, the least from the pool's next one on, records it,
-- and goes on behind it.
pub mint-IsMinted : (p : Pool) → IsPool p → IsMinted p (mint p)
unfolding mint
mint-IsMinted p h =
    mint_loop-IsMinted (suc (length p.used)) p h.next_anchor
      (omega (arith, above-le (rank p.next) p.used))

pub mint-IsPool : (p : Pool) → IsPool p → IsPool (mint p).1
mint-IsPool p h =
    let m = mint-IsMinted p h in
    record { next_anchor = rw m.advanced (increment-IsAnchor _ m.anchor) }

pub from_used-IsPool : (used : List Anchor) → IsPool (from_used used)
unfolding from_used
from_used-IsPool used = record { next_anchor = first-IsAnchor }
