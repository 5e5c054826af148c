-- ===== src/Config/Binding/Kept.antt =====
-- crates/frances-config/src/binding.rs: refreshes that keep a value.
use frances.Prelude.{
  ℕ, zero, suc, ◌<◌, ◌≡◌, refl, sym, subst, inl, inr, List, [], ◌∷◌, ◌++◌, All, All-append, Option,
  some, false, ◌==◌, ltb, lt_of_ltb, eq_of_test, Bool-cases, Option-cases, get_elem?, arith,
}
use frances.Config.Binding.{
  BindingInner, required, Refresher, BindingRegistry, change_owners, compute_next, refresh_from,
  alive, refresh_each, update,
}

-- A refresher that lives and refreshes the inner binding `i` keeps its value.
abbrev pub Keeps : ℕ → Refresher → Type 0
Keeps i r = 0 < r.owners → r.inner ≡ i → r.policy ≡ required

pub ne_of_lt : (a b : ℕ) → a < b → a == b ≡ false
ne_of_lt a b l = ground arith

pub change_owners-Keeps :
    (i : ℕ) (f : ℕ → ℕ) (n : ℕ) (rs : List Refresher)
    → ((r : Refresher) → get_elem? rs n ≡ some r → 0 < f r.owners → 0 < r.owners)
    → All (Keeps i) rs
    → All (Keeps i) (change_owners f n rs)
unfolding change_owners
change_owners-Keeps i f n [] g h = tt
change_owners-Keeps i f zero (r ∷ rs) g h = (λ l e. h.0 (g r refl l) e, h.1)
change_owners-Keeps i f (suc n) (r ∷ rs) g h = (h.0, change_owners-Keeps i f n rs g h.1)

pub same_owners :
    (o : Option Refresher) (r q : Refresher) → o ≡ some r → o ≡ some q → 0 < r.owners → 0 < q.owners
same_owners o r q e f l = let same : r ≡ q = cc in subst {A = Refresher} (λ x. 0 < x.owners) same l

-- The refresher of a promoted binding keeps the value, whoever owns it.
pub promoted-Keeps :
    (i n : ℕ) (f : ℕ → ℕ) (rs : List Refresher) (q : Refresher)
    → q.policy ≡ required
    → All (Keeps i) (change_owners f n rs)
    → All (Keeps i) (change_owners f n (rs ++ q ∷ []))
unfolding change_owners
promoted-Keeps i zero f [] q p h = (λ l e. p, tt)
promoted-Keeps i (suc n) f [] q p h = (λ l e. p, tt)
promoted-Keeps i zero f (r ∷ rs) q p h = (h.0, All-append (Keeps i) rs (q ∷ []) h.1 (λ l e. p, tt))
promoted-Keeps i (suc n) f (r ∷ rs) q p h = (h.0, promoted-Keeps i n f rs q p h.1)

module _ {C T U M : Type 0} where
  abbrev pub HasValue : BindingInner C T U M → Type 0
  HasValue inner = (u : U) × (inner.value ≡ some u)

  -- The inner binding has a value, and all that refresh it keep it.
  pub record IsSticky (i : ℕ) (s : BindingRegistry C T U M) : Type 0 where
    pub has : HasValue (s.inners i)
    pub kept : All (Keeps i) s.bindings
    pub made : i < s.count

  refresh_required-HasValue :
      (inner : BindingInner C T U M) (next : C)
      → HasValue inner
      → HasValue (refresh_from required inner next)
  unfolding refresh_from
  refresh_required-HasValue inner next h = elim (Option-cases (compute_next inner next)) [
    | inl e ↦ rw (refresh_from, e) h
    | inr (u, e) ↦ rw (refresh_from, e) (u, refl)
  ]

  update-HasValue :
      (i : ℕ) (next : C) (r : Refresher) (inners : ℕ → BindingInner C T U M)
      → (r.inner ≡ i → r.policy ≡ required)
      → HasValue (inners i)
      → HasValue (update inners r.inner (refresh_from r.policy (inners r.inner) next) i)
  update-HasValue i next r inners k h = elim (Bool-cases (i == r.inner)) [
    | inr e ↦ rw e h
    | inl e ↦
        let same = eq_of_test i r.inner e in
        rw (e, k (sym same))
          (refresh_required-HasValue (inners r.inner) next
            (subst (λ j. HasValue (inners j)) same h))
  ]

  pub refresh_each-HasValue :
      (i : ℕ) (next : C) (rs : List Refresher) (inners : ℕ → BindingInner C T U M)
      → All (Keeps i) rs
      → HasValue (inners i)
      → HasValue (refresh_each next (alive rs) inners i)
  unfolding refresh_each
  refresh_each-HasValue i next [] inners k h = h
  refresh_each-HasValue i next (r ∷ rs) inners k h = elim (Bool-cases (ltb 0 r.owners)) [
    | inr e ↦ rw e (refresh_each-HasValue i next rs inners k.1 h)
    | inl e ↦ rw e (
        refresh_each-HasValue i next rs _ k.1
          (update-HasValue i next r inners (k.0 (lt_of_ltb 0 r.owners e)) h))
  ]
