-- ===== src/Edit/Engine/Minted.antt =====
-- The fresh anchors of a file that is opened for the first time.
use frances.Prelude.{
  ℕ, ◌≤◌, ◌≡◌, refl, List, [], ◌∷◌, true, false, eq_list, eq_list_iff, Bool-cases, inl, inr, arith,
}
use frances.Edit.Anchor.{Anchor}
use frances.Edit.Pool.{Pool, contains, mint}
use frances.Edit.Pool.Members.{count}
use frances.Edit.Pool.Mint.{IsPool, mint-IsMinted, mint-IsPool}
use frances.Edit.State.{LineEntry, hashes, anchors}
use frances.Edit.Engine.{mint_lines}

pub record IsFresh (hs : List ℕ) (pool : Pool) (les : List LineEntry) : Type 0 where
  pub same_hashes : hashes les ≡ hs
  pub distinct : (a : Anchor) → count a (anchors les) ≤ 1
  pub unused : (a : Anchor) → contains pool.used a ≡ true → count a (anchors les) ≡ 0

module _ (p q : Pool) (x : Anchor) (rest : List LineEntry) (fresh : contains p.used x ≡ false)
    (recorded : q.used ≡ x ∷ p.used)
    (unused : (a : Anchor) → contains q.used a ≡ true → count a (anchors rest) ≡ 0) where
  head_once : (a : Anchor) → count a (anchors rest) ≤ 1 → count a (x ∷ anchors rest) ≤ 1
  head_once a once = elim (Bool-cases (eq_list x a)) [
    | inl e ↦ rw e (omega (arith, unused a (rw (recorded, e) refl)))
    | inr e ↦ rw e once
  ]

  head_unused : (a : Anchor) → contains p.used a ≡ true → count a (x ∷ anchors rest) ≡ 0
  head_unused a h = elim (Bool-cases (eq_list x a)) [
    | inl e ↦ absurd (clash (rw (← (eq_list_iff x a).0 e) fresh) h)
    | inr e ↦ rw e (unused a (rw (recorded, e) h))
  ]
    where
      clash : contains p.used a ≡ false → contains p.used a ≡ true → ⊥
      clash f t = cc

-- From a valid pool, the entries for some hashes have these hashes in order, and distinct anchors that
-- were not in use.
pub mint_lines-IsFresh :
    (hs : List ℕ) (pool : Pool) → IsPool pool → IsFresh hs pool (mint_lines hs pool).0
unfolding mint_lines
mint_lines-IsFresh [] pool h = record {
  same_hashes = refl;
  distinct = λ a. omega arith;
  unused = λ a u. refl;
}
mint_lines-IsFresh (hash ∷ hs) pool h =
    let m = mint-IsMinted pool h in
    let ih = mint_lines-IsFresh hs (mint pool).1 (mint-IsPool pool h) in
    record {
      same_hashes = rw ih.same_hashes;
      distinct = λ a.
          head_once pool (mint pool).1 (mint pool).0 _ m.fresh m.recorded ih.unused a
            (ih.distinct a);
      unused = head_unused pool (mint pool).1 (mint pool).0 _ m.fresh m.recorded ih.unused;
    }
