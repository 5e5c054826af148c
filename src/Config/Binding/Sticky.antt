-- ===== src/Config/Binding/Sticky.antt =====
-- crates/frances-config/src/binding.rs: a required binding keeps a value.
use frances.Prelude.{
  ℕ, suc, ◌-◌, ◌<◌, ◌≡◌, refl, subst, inl, inr, All, All-append, Option, some, ◌==◌, Bool-cases,
  Option-cases, get_elem?, Result, ok, err, panic, ◌>>=◌, arith,
}
use frances.Text.{Text}
use frances.Config.Binding.{
  BindingInner, Refresher, BindingRegistry, ConfigBinding, ConfigBindError, process_batch,
  register_new, bind, clone, drop_binding, get, get_required, promote, update, get_or_default,
  map_async, after_map,
}
use frances.Config.Binding.Kept.{
  Keeps, HasValue, IsSticky, change_owners-Keeps, same_owners, promoted-Keeps, ne_of_lt,
  refresh_each-HasValue,
}

module _ {C T U M : Type 0} where
  -- What the program may do to the registry and its bindings. To clone a handle takes one that lives.
  pub data Step (s : BindingRegistry C T U M) : BindingRegistry C T U M → Type 0 where
    refreshes : (next : C) → Step s (process_batch next s)
    binds :
        (path : Text) (initial : Result ConfigBindError (Option U)) (deserialize : C → Option T)
        (identity : T → Result M U)
        → Step s (bind path initial deserialize identity s).1
    clones :
        (b : ConfigBinding) (r : Refresher)
        → get_elem? s.bindings b.refresher ≡ some r
        → 0 < r.owners
        → Step s (clone b s)
    drops : (b : ConfigBinding) → Step s (drop_binding b s)
    promotes : (b : ConfigBinding) → Step s (promote b s).1
    defaults : (default : U) (b : ConfigBinding) → Step s (get_or_default default b s).1
    maps : (f : U → Result M U) (b : ConfigBinding) → Step s (map_async f b s).1

  pub data Steps (s : BindingRegistry C T U M) : BindingRegistry C T U M → Type 0 where
    none_yet : Steps s s
    then : {t u : BindingRegistry C T U M} → Steps s t → Step t u → Steps s u

  drop-IsSticky :
      (i : ℕ) (b : ConfigBinding) (s : BindingRegistry C T U M)
      → IsSticky i s
      → IsSticky i (drop_binding b s)
  unfolding drop_binding
  drop-IsSticky i b s h = record {
    has = h.has;
    kept =
        change_owners-Keeps i (λ n. n - 1) b.refresher s.bindings (λ r g l. omega (arith, l))
          h.kept;
    made = h.made;
  }

  register-IsSticky :
      (i : ℕ) (inner : BindingInner C T U M) (s : BindingRegistry C T U M)
      → IsSticky i s
      → IsSticky i (register_new inner s).1
  unfolding register_new
  register-IsSticky i inner s h = record {
    has = rw (ne_of_lt i s.count h.made) h.has;
    kept = All-append (Keeps i) s.bindings _ h.kept (λ l e. absurd (omega (arith, e, h.made)), tt);
    made = omega (arith, h.made);
  }

  promote-IsSticky :
      (i : ℕ) (b : ConfigBinding) (s : BindingRegistry C T U M)
      → IsSticky i s
      → IsSticky i (promote b s).1
  unfolding promote
  promote-IsSticky i b s h = elim (Option-cases (s.inners b.inner).value) [
    | inl e ↦ rw (promote, e) (drop-IsSticky i b s h)
    | inr (u, e) ↦
        rw (promote, e)
          (drop-IsSticky i b _ (record {
            has = h.has;
            kept = All-append (Keeps i) s.bindings _ h.kept (λ l f. refl, tt);
            made = h.made;
          }))
  ]

  default-HasValue :
      (i j : ℕ) (default : U) (inners : ℕ → BindingInner C T U M)
      → HasValue (inners i)
      → HasValue (update inners j (record (inners j) { value = some default }) i)
  default-HasValue i j default inners h = elim (Bool-cases (i == j)) [
    | inl e ↦ rw e (default, refl)
    | inr e ↦ rw e h
  ]

  defaults-IsSticky :
      (i : ℕ) (default : U) (b : ConfigBinding) (s : BindingRegistry C T U M)
      → IsSticky i s
      → IsSticky i (get_or_default default b s).1
  unfolding get_or_default
  defaults-IsSticky i default b s h = elim (Option-cases (get b s)) [
    | inr (u, e) ↦ rw (get_or_default, e) h
    | inl e ↦
        rw (get_or_default, e)
          (record {
            has = default-HasValue i b.inner default s.inners h.has;
            kept = h.kept;
            made = h.made;
          })
  ]

  map-IsSticky :
      (i : ℕ) (old : BindingInner C T U M) (composed : T → Result M U) (b : ConfigBinding)
      (s : BindingRegistry C T U M) (initial : Result M (Option U))
      → IsSticky i s
      → IsSticky i (after_map old composed b s initial).1
  map-IsSticky i old composed b s (err e) h = drop-IsSticky i b s h
  map-IsSticky i old composed b s panic h = h
  map-IsSticky i old composed b s (ok initial) h = drop-IsSticky i b _ (register-IsSticky i _ s h)

  Step-IsSticky : (i : ℕ) (s t : BindingRegistry C T U M) → IsSticky i s → Step s t → IsSticky i t
  unfolding process_batch bind clone map_async
  Step-IsSticky i s _ h (refreshes next) = record {
    has = refresh_each-HasValue i next s.bindings s.inners h.kept h.has;
    kept = h.kept;
    made = h.made;
  }
  Step-IsSticky i s _ h (binds path (ok initial) deserialize identity) = register-IsSticky i _ s h
  Step-IsSticky i s _ h (binds path (err e) deserialize identity) = h
  Step-IsSticky i s _ h (binds path panic deserialize identity) = h
  Step-IsSticky i s _ h (clones b r g l) = record {
    has = h.has;
    kept =
        change_owners-Keeps i suc b.refresher s.bindings
          (λ q f m. same_owners (get_elem? s.bindings b.refresher) r q g f l) h.kept;
    made = h.made;
  }
  Step-IsSticky i s _ h (drops b) = drop-IsSticky i b s h
  Step-IsSticky i s _ h (promotes b) = promote-IsSticky i b s h
  Step-IsSticky i s _ h (defaults default b) = defaults-IsSticky i default b s h
  Step-IsSticky i s _ h (maps f b) =
      map-IsSticky i (s.inners b.inner) (λ t. (s.inners b.inner).mapper t >>= f) b s _ h

  Steps-IsSticky : (i : ℕ) (s t : BindingRegistry C T U M) → IsSticky i s → Steps s t → IsSticky i t
  Steps-IsSticky i s _ h none_yet = h
  Steps-IsSticky i s t h (then path step) = Step-IsSticky i _ t (Steps-IsSticky i s _ h path) step

  Promoted : Result ConfigBindError ConfigBinding × BindingRegistry C T U M → Type 0
  Promoted (ok c, t) = IsSticky c.inner t
  Promoted (err e, t) = Unit {0}
  Promoted (panic, t) = Unit {0}

  promote-Promoted :
      (b : ConfigBinding) (s : BindingRegistry C T U M)
      → b.inner < s.count
      → All (Keeps b.inner) (drop_binding b s).bindings
      → Promoted (promote b s)
  unfolding Promoted promote drop_binding
  promote-Promoted b s made kept = elim (Option-cases (s.inners b.inner).value) [
    | inl e ↦ rw (promote, Promoted, e) tt
    | inr (u, e) ↦
        rw (promote, Promoted, e)
          (record {
            has = (u, e);
            kept = promoted-Keeps b.inner b.refresher (λ n. n - 1) s.bindings _ refl kept;
            made = made;
          })
  ]

  -- A binding is promoted. When, with its handle dropped, no refresher that lives and would take the
  -- value away is left for the same inner binding, then the required binding has a value for ever:
  -- whatever the program does from then on with any bindings, and whatever the configuration becomes,
  -- reading it does not panic.
  pub promote-get_required :
      (b c : ConfigBinding) (s t u : BindingRegistry C T U M)
      → b.inner < s.count
      → All (Keeps b.inner) (drop_binding b s).bindings
      → promote b s ≡ (ok c, t)
      → Steps t u
      → (v : U) × (get_required c u ≡ ok v)
  unfolding Promoted get_required get
  promote-get_required b c s t u made kept h path =
      let sticky = subst Promoted h (promote-Promoted b s made kept) in
      let (v, e) = (Steps-IsSticky c.inner t u sticky path).has in (v, rw e refl)
