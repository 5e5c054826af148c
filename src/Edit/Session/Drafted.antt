-- ===== src/Edit/Session/Drafted.antt =====
-- The anchors of the draft of a line edit, before a formatter has changed it.
use frances.Prelude.{
  ℕ, zero, suc, ◌<◌, ◌^◌, ◌≤◌, ◌≡◌, refl, List, [], ◌∷◌, some, true, false, eq_list, eq_list_iff,
  get_elem?, drop, length, arith, ok, Bool-cases, inl, inr,
}
use frances.Text.{Text}
use frances.Edit.Anchor.{Anchor}
use frances.Edit.Pool.{Pool, contains, mint}
use frances.Edit.Pool.Members.{count}
use frances.Edit.Pool.Mint.{IsPool, mint-IsMinted, mint-IsPool}
use frances.Edit.State.{LineEntry, FileAnchorState, hashes, anchors}
use frances.Edit.Ops.Trace.{IsTraced, apply_ops-IsTraced}
use frances.Edit.Ops.{EditOp, apply_ops, LineOrigin, carried, inserted}
use frances.Edit.Reconcile.Outcome.{IsAnchored}
use frances.Edit.Session.Anchored.{draft_entries}

-- The carried indices grow, from `lo` on, and are below `n`.
abbrev pub IsGrowing : ℕ → ℕ → List LineOrigin → Type 0
IsGrowing n lo [] = Unit {0}
IsGrowing n lo (carried i ∷ os) = (lo ≤ i) × (i < n) × IsGrowing n (suc i) os
IsGrowing n lo (inserted ∷ os) = IsGrowing n lo os

some_injective : (x y : LineEntry) → some x ≡ some y → x ≡ y
some_injective x y h = cc

count-drop :
    (a : Anchor) (n : ℕ) (les : List LineEntry)
    → count a (anchors (drop n les)) ≤ count a (anchors les)
count-drop a zero les = omega arith
count-drop a (suc n) [] = omega arith
count-drop a (suc n) (le ∷ les) = ground (arith, count-drop a n les)

-- A line from `lo` on counts, and those behind it.
count-drop-at :
    (a : Anchor) (les : List LineEntry) (lo i : ℕ) (le : LineEntry)
    → get_elem? les i ≡ some le
    → lo ≤ i
    → count a (le.anchor ∷ anchors (drop (suc i) les)) ≤ count a (anchors (drop lo les))
count-drop-at a [] lo i le e h = cc
count-drop-at a (l ∷ les) zero zero le e h = rw (some_injective l le e) (omega arith)
count-drop-at a (l ∷ les) (suc lo) zero le e h = absurd (omega arith)
count-drop-at a (l ∷ les) zero (suc i) le e h = ground (arith, count-drop-at a les zero i le e)
count-drop-at a (l ∷ les) (suc lo) (suc i) le e h = count-drop-at a les lo i le e (omega arith)

get_elem?-lt :
    (les : List LineEntry) (i : ℕ) → i < length les → (le : LineEntry) × (get_elem? les i ≡ some le)
get_elem?-lt [] i h = absurd (omega arith)
get_elem?-lt (le ∷ les) zero h = (le, refl)
get_elem?-lt (le ∷ les) (suc i) h = get_elem?-lt les i (omega arith)

clash : (used : List Anchor) (a : Anchor) → contains used a ≡ true → contains used a ≡ false → ⊥
clash used a t f = cc

absent_before :
    (pool : Pool) (a : Anchor)
    → (mint pool).1.used ≡ (mint pool).0 ∷ pool.used
    → contains (mint pool).1.used a ≡ false
    → contains pool.used a ≡ false
absent_before pool a e n = elim (Bool-cases (contains pool.used a)) [
  | inr f ↦ f
  | inl t ↦ absurd (clash (mint pool).1.used a (rw e (ground (arith, t))) n)
]

in_range : (ls : List Text) (i : ℕ) (l : Text) → get_elem? ls i ≡ some l → i < length ls
in_range [] i l h = cc
in_range (x ∷ ls) zero l h = omega arith
in_range (x ∷ ls) (suc i) l h = omega (arith, in_range ls i l h)

-- Entry by entry: a carried line has the anchor of the old line that it is, and an inserted one an
-- anchor that was not in use.
abbrev pub IsKept : List LineEntry → List Anchor → List LineOrigin → List LineEntry → Type 0
IsKept old used [] [] = Unit {0}
IsKept old used (carried i ∷ os) (le ∷ les) =
    ((was : LineEntry) × (get_elem? old i ≡ some was) × (le.anchor ≡ was.anchor))
    × IsKept old used os les
IsKept old used (inserted ∷ os) (le ∷ les) =
    (contains used le.anchor ≡ false) × IsKept old used os les
IsKept old used os les = ⊥

IsKept-fewer :
    (old : List LineEntry) (used more : List Anchor) (os : List LineOrigin) (les : List LineEntry)
    → ((a : Anchor) → contains more a ≡ false → contains used a ≡ false)
    → IsKept old more os les
    → IsKept old used os les
IsKept-fewer old used more [] [] f k = tt
IsKept-fewer old used more [] (le ∷ les) f k = absurd k
IsKept-fewer old used more (carried i ∷ os) [] f k = absurd k
IsKept-fewer old used more (inserted ∷ os) [] f k = absurd k
IsKept-fewer old used more (carried i ∷ os) (le ∷ les) f k =
    (k.0, IsKept-fewer old used more os les f k.1)
IsKept-fewer old used more (inserted ∷ os) (le ∷ les) f k =
    (f le.anchor k.0, IsKept-fewer old used more os les f k.1)

module _ (old : List LineEntry) where
  record IsDraft (lo : ℕ) (pool : Pool) (r : List LineEntry × Pool) : Type 0 where
    pub pool_valid : IsPool r.1
    pub known :
        (a : Anchor)
        → contains pool.used a ≡ true
        → count a (anchors r.0) ≤ count a (anchors (drop lo old))
    pub fresh : (a : Anchor) → contains pool.used a ≡ false → count a (anchors r.0) ≤ 1
    pub in_use : (a : Anchor) → contains r.1.used a ≡ false → count a (anchors r.0) ≡ 0
    pub grown : (a : Anchor) → contains pool.used a ≡ true → contains r.1.used a ≡ true

  abbrev InPool : Pool → Type 0
  InPool pool = (a : Anchor) → contains pool.used a ≡ false → count a (anchors old) ≡ 0

  carried-IsDraft :
      (lo i : ℕ) (le : LineEntry) (h : ℕ) (pool : Pool) (r : List LineEntry × Pool)
      → InPool pool
      → get_elem? old i ≡ some le
      → lo ≤ i
      → IsDraft (suc i) pool r
      → IsDraft lo pool (record { hash = h; anchor = le.anchor } ∷ r.0, r.1)
  carried-IsDraft lo i le h pool r p e l d = record {
    pool_valid = d.pool_valid;
    known = λ a u. ground (arith, count-drop-at a old lo i le e l, d.known a u);
    fresh = λ a n.
        ground (arith, count-drop-at a old lo i le e l, count-drop a lo old, p a n, d.fresh a n);
    in_use = λ a n. elim (Bool-cases (contains pool.used a)) [
      | inl u ↦ absurd (clash r.1.used a (d.grown a u) n)
      | inr f ↦
          ground (arith, count-drop-at a old lo i le e l, count-drop a lo old, p a f, d.in_use a n)
    ];
    grown = d.grown;
  }

  inserted-IsDraft :
      (lo h : ℕ) (pool : Pool) (r : List LineEntry × Pool)
      → IsPool pool
      → InPool pool
      → IsDraft lo (mint pool).1 r
      → IsDraft lo pool (record { hash = h; anchor = (mint pool).0 } ∷ r.0, r.1)
  inserted-IsDraft lo h pool r v p d =
      let m = mint-IsMinted pool v in
      let x = (mint pool).0 in
      let taken : (a : Anchor)
          → contains pool.used a ≡ true
          → contains (mint pool).1.used a ≡ true =
        λ a u. rw m.recorded (ground (arith, u)) in
      let other : (a : Anchor) → contains pool.used a ≡ true → eq_list x a ≡ false = λ a u.
        elim (Bool-cases (eq_list x a)) [
          | inr f ↦ f
          | inl t ↦ absurd (clash pool.used a u (rw (← (eq_list_iff x a).0 t) m.fresh))
        ] in
      record {
        pool_valid = d.pool_valid;
        known = λ a u. rw (other a u) (d.known a (taken a u));
        fresh = λ a n. elim (Bool-cases (eq_list x a)) [
          | inl t ↦
              rw t (omega (arith, d.known a (rw (m.recorded, t) refl), count-drop a lo old, p a n))
          | inr f ↦ rw f (d.fresh a (rw (m.recorded, f) n))
        ];
        in_use = λ a n. elim (Bool-cases (eq_list x a)) [
          | inl t ↦ absurd (clash r.1.used a (d.grown a (rw (m.recorded, t) refl)) n)
          | inr f ↦ rw f (d.in_use a n)
        ];
        grown = λ a u. d.grown a (taken a u);
      }

  draft_entries-IsDraft :
      (lo : ℕ) (origins : List LineOrigin) (hs : List ℕ) (pool : Pool)
      → IsPool pool
      → InPool pool
      → IsGrowing (length old) lo origins
      → length origins ≡ length hs
      → (r : List LineEntry × Pool) × (draft_entries old origins hs pool ≡ ok r)
        × (hashes r.0 ≡ hs)
        × IsKept old pool.used origins r.0
        × IsDraft lo pool r
  unfolding draft_entries
  draft_entries-IsDraft lo [] [] pool v p g e = (
    ([], pool),
    refl,
    refl,
    tt,
    record {
      pool_valid = v;
      known = λ a u. omega arith;
      fresh = λ a n. omega arith;
      in_use = λ a n. refl;
      grown = λ a u. u;
    },
  )
  draft_entries-IsDraft lo [] (h ∷ hs) pool v p g e = absurd (omega arith)
  draft_entries-IsDraft lo (o ∷ os) [] pool v p g e = absurd (omega arith)
  draft_entries-IsDraft lo (carried i ∷ os) (h ∷ hs) pool v p (l, k, g) e =
      let (le, at) = get_elem?-lt old i k in
      let (r, run, same, kept, d) = draft_entries-IsDraft (suc i) os hs pool v p g (omega arith) in
      (
        (record { hash = h; anchor = le.anchor } ∷ r.0, r.1),
        rw (at, run) refl,
        rw same refl,
        ((le, at, refl), kept),
        carried-IsDraft lo i le h pool r p at l d,
      )
  draft_entries-IsDraft lo (inserted ∷ os) (h ∷ hs) pool v p g e =
      let m = mint-IsMinted pool v in
      let (r, run, same, kept, d) =
        draft_entries-IsDraft lo os hs (mint pool).1 (mint-IsPool pool v)
          (λ a n. p a (absent_before pool a m.recorded n)) g (omega arith) in
      (
        (record { hash = h; anchor = (mint pool).0 } ∷ r.0, r.1),
        rw run refl,
        rw same refl,
        (
          m.fresh,
          IsKept-fewer old pool.used (mint pool).1.used os r.0
              (λ a n. absent_before pool a m.recorded n) kept,
        ),
        inserted-IsDraft lo h pool r v p d,
      )

IsTraced-IsGrowing :
    (original : List Text) (lo : ℕ) (ls : List Text) (os : List LineOrigin)
    → IsTraced original lo ls os
    → IsGrowing (length original) lo os × (length os ≡ length ls)
IsTraced-IsGrowing original lo [] [] t = (tt, refl)
IsTraced-IsGrowing original lo [] (o ∷ os) t = absurd t
IsTraced-IsGrowing original lo (l ∷ ls) [] t = absurd t
IsTraced-IsGrowing original lo (l ∷ ls) (carried i ∷ os) t =
    let (g, e) = IsTraced-IsGrowing original (suc i) ls os t.2 in
    ((t.0, in_range original i l t.1, g), omega arith)
IsTraced-IsGrowing original lo (l ∷ ls) (inserted ∷ os) t =
    let (g, e) = IsTraced-IsGrowing original lo ls os t in (g, omega arith)

-- Whatever operations a draft comes from, on fewer than 2^32 lines that have each an entry, with
-- distinct anchors that are all in use in a valid pool: given as many hashes as the draft has lines,
-- the draft's entries are computed without a panic and have these hashes. The entry of a line that was
-- carried has the anchor of the line that it was, that of an inserted line one that was not in use; the
-- anchors are distinct and in use.
pub draft_entries-IsAnchored :
    (st : FileAnchorState) (lines : List Text) (ops : List EditOp) (out : List Text)
    (origins : List LineOrigin) (hs : List ℕ) (pool : Pool)
    → length lines < 2 ^ 32
    → apply_ops st lines ops ≡ ok (out, origins)
    → length st.lines ≡ length lines
    → length hs ≡ length out
    → IsPool pool
    → IsAnchored st.lines pool.used
    → (r : List LineEntry × Pool) × (draft_entries st.lines origins hs pool ≡ ok r)
      × (hashes r.0 ≡ hs)
      × IsKept st.lines pool.used origins r.0
      × IsAnchored r.0 r.1.used
      × IsPool r.1
draft_entries-IsAnchored st lines ops out origins hs pool small run same count_hs v h =
    let (g, n) =
      IsTraced-IsGrowing lines 0 out origins
        (apply_ops-IsTraced st lines ops out origins small run) in
    let (r, e, eh, kept, d) =
      draft_entries-IsDraft st.lines 0 origins hs pool v h.in_use (rw same g) (omega arith) in
    (
      r,
      e,
      eh,
      kept,
      record {
        distinct = λ a. elim (Bool-cases (contains pool.used a)) [
          | inl u ↦ omega (arith, d.known a u, h.distinct a)
          | inr f ↦ d.fresh a f
        ];
        in_use = d.in_use;
      },
      d.pool_valid,
    )
