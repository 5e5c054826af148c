-- ===== src/Config/Binding.antt =====
-- crates/frances-config/src/binding.rs and handle.rs: values bound to paths of the configuration, and
-- the registry that refreshes them.
mod Kept
pub mod Sticky
pub mod Tests
use frances.Prelude.{
  ℕ, zero, suc, ◌+◌, ◌-◌, ◌%◌, ◌^◌, List, [], ◌∷◌, ◌++◌, Option, none, some, Bool, true, false,
  if◌then◌else◌, ltb, ◌==◌, length, get_elem?, Result, ok, err, panic, ◌>>=◌, expect,
}
use frances.Text.{Text}

-- `C` is a configuration, `T` what is read from it, `U` a value shown to readers, for all bindings,
-- and `M` an error of a mapper.
pub record BindingInner (C T U M : Type 0) : Type 0 where
  pub path : Text
  pub value : Option U
  pub notify : ℕ
  pub deserialize : C → Option T
  pub mapper : T → Result M U

pub data Policy : Type 0 where
  optional : Policy
  required : Policy

-- A refresher of the inner binding of that number. The registry holds it weakly: it lives while there
-- are owners.
pub record Refresher : Type 0 where
  pub policy : Policy
  pub inner : ℕ
  pub owners : ℕ

-- The registry, the inner bindings `0` to `count - 1`, and the snapshot.
pub record BindingRegistry (C T U M : Type 0) : Type 0 where
  pub bindings : List Refresher
  pub inners : ℕ → BindingInner C T U M
  pub count : ℕ
  pub snapshot : C

-- A handle names its inner binding and its refresher by their numbers.
pub record ConfigBinding : Type 0 where
  pub inner : ℕ
  pub refresher : ℕ

-- The error of a required path that is absent; the others come from reading a value, with a message.
pub data ConfigBindError : Type 0 where
  required_section : Text → ConfigBindError
  not_read : Text → Text → ConfigBindError

abbrev update : {A : Type 0} → (ℕ → A) → ℕ → A → ℕ → A
update f i a j = if j == i then a else f j

-- One owner more or less for the refresher of that number.
unfoldable pub change_owners : (ℕ → ℕ) → ℕ → List Refresher → List Refresher
change_owners f n [] = []
change_owners f zero (r ∷ rs) = record r { owners = f r.owners } ∷ rs
change_owners f (suc n) (r ∷ rs) = r ∷ change_owners f n rs

abbrev told : ℕ → ℕ
told notify = (notify + 1) % 2 ^ 64

abbrev pub alive : List Refresher → List Refresher
alive [] = []
alive (r ∷ rs) = let rest = alive rs in if ltb 0 r.owners then r ∷ rest else rest

abbrev initial_of : {T U M : Type 0} → Option T → (T → Result M U) → Result M (Option U)
initial_of none composed = ok none
initial_of (some t) composed = composed t >>= λ u. ok (some u)

module _ {C T U M : Type 0} where
  unfoldable pub compute_next : BindingInner C T U M → C → Option U
  compute_next inner snapshot = elim (inner.deserialize snapshot) [
    | none ↦ none
    | some t ↦ elim (inner.mapper t) [ ok u ↦ some u | err e ↦ none | panic ↦ none ]
  ]

  unfoldable pub refresh_from : Policy → BindingInner C T U M → C → BindingInner C T U M
  unfolding compute_next
  refresh_from optional inner snapshot = record inner {
    value = compute_next inner snapshot;
    notify = told inner.notify;
  }
  refresh_from required inner snapshot = elim (compute_next inner snapshot) [
    | some next ↦ record inner { value = some next; notify = told inner.notify }
    | none ↦ inner
  ]

  unfoldable pub refresh_each :
      C → List Refresher → (ℕ → BindingInner C T U M) → ℕ → BindingInner C T U M
  unfolding refresh_from
  refresh_each snapshot [] inners = inners
  refresh_each snapshot (r ∷ rs) inners =
      refresh_each snapshot rs
        (update inners r.inner (refresh_from r.policy (inners r.inner) snapshot))

  -- The refresh walks the refreshers that live. The others leave the registry; they stay in the list
  -- here, for the numbers of the handles.
  unfoldable pub refresh_all : C → BindingRegistry C T U M → BindingRegistry C T U M
  unfolding refresh_each
  refresh_all next s = record s { inners = refresh_each next (alive s.bindings) s.inners }

  -- A batch of events has led to the configuration `next`.
  unfoldable pub process_batch : C → BindingRegistry C T U M → BindingRegistry C T U M
  unfolding refresh_all
  process_batch next s = refresh_all next (record s { snapshot = next })

  -- A new inner binding with its first refresher.
  unfoldable pub register_new :
      BindingInner C T U M → BindingRegistry C T U M → ConfigBinding × BindingRegistry C T U M
  register_new inner s = (
    record { inner = s.count; refresher = length s.bindings },
    record s {
      inners = update s.inners s.count inner;
      count = suc s.count;
      bindings = s.bindings ++ record { policy = optional; inner = s.count; owners = 1 } ∷ [];
    },
  )

  -- `bind`: `initial` is what reading the path's present value gives, none when it is absent.
  unfoldable pub bind :
      Text
      → Result ConfigBindError (Option U)
      → (C → Option T)
      → (T → Result M U)
      → BindingRegistry C T U M
      → Result ConfigBindError ConfigBinding × BindingRegistry C T U M
  unfolding register_new
  bind path (err e) deserialize identity s = (err e, s)
  bind path panic deserialize identity s = (panic, s)
  bind path (ok initial) deserialize identity s =
      let (b, t) =
        register_new
          (record {
            path = path;
            value = initial;
            notify = 0;
            deserialize = deserialize;
            mapper = identity;
          })
          s in
      (ok b, t)

  unfoldable pub clone : ConfigBinding → BindingRegistry C T U M → BindingRegistry C T U M
  unfolding change_owners
  clone b s = record s { bindings = change_owners suc b.refresher s.bindings }

  unfoldable pub drop_binding : ConfigBinding → BindingRegistry C T U M → BindingRegistry C T U M
  unfolding change_owners
  drop_binding b s = record s { bindings = change_owners (λ n. n - 1) b.refresher s.bindings }

  -- `ConfigBinding::get` and `RequiredConfigBinding::get`
  unfoldable pub get : ConfigBinding → BindingRegistry C T U M → Option U
  get b s = (s.inners b.inner).value

  unfoldable pub get_required : ConfigBinding → BindingRegistry C T U M → Result ConfigBindError U
  unfolding get
  get_required b s = expect (get b s)

  -- The handle is dropped with its refresher, whether the promotion succeeds or not.
  unfoldable pub promote :
      ConfigBinding
      → BindingRegistry C T U M
      → Result ConfigBindError ConfigBinding × BindingRegistry C T U M
  unfolding drop_binding
  promote b s = elim (s.inners b.inner).value [
    | none ↦ (err (required_section (s.inners b.inner).path), drop_binding b s)
    | some u ↦ (
      ok (record { inner = b.inner; refresher = length s.bindings }),
      drop_binding b (record s {
        bindings = s.bindings ++ record { policy = required; inner = b.inner; owners = 1 } ∷ [];
      }),
    )
  ]

  unfoldable pub get_or_default :
      U → ConfigBinding → BindingRegistry C T U M → U × BindingRegistry C T U M
  unfolding get
  get_or_default default b s = elim (get b s) [
    | some u ↦ (u, s)
    | none ↦ (
      default,
      record s {
        inners = update s.inners b.inner (record (s.inners b.inner) { value = some default });
      },
    )
  ]

  abbrev after_map :
      BindingInner C T U M
      → (T → Result M U)
      → ConfigBinding
      → BindingRegistry C T U M
      → Result M (Option U)
      → Result M ConfigBinding × BindingRegistry C T U M
  after_map old composed b s (err e) = (err e, drop_binding b s)
  after_map old composed b s panic = (panic, s)
  after_map old composed b s (ok initial) =
      let (fresh, t) =
        register_new
          (record {
            path = old.path;
            value = initial;
            notify = 0;
            deserialize = old.deserialize;
            mapper = composed;
          })
          s in
      (ok fresh, drop_binding b t)

  -- A new inner binding, with `f` behind the mappers so far.
  unfoldable pub map_async :
      (U → Result M U)
      → ConfigBinding
      → BindingRegistry C T U M
      → Result M ConfigBinding × BindingRegistry C T U M
  unfolding register_new drop_binding
  map_async f b s =
      let old = s.inners b.inner in
      let composed : T → Result M U = λ t. old.mapper t >>= f in
      after_map old composed b s (initial_of (old.deserialize s.snapshot) composed)
