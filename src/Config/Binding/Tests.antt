-- ===== src/Config/Binding/Tests.antt =====
-- A required binding of a path that goes away, and one with a clone of the handle left.
use frances.Prelude.{ℕ, ◌<◌, ◌≡◌, refl, [], Option, none, some, Result, ok, panic, arith}
use frances.Text.{codes}
use frances.Config.Binding.{
  BindingInner, BindingRegistry, ConfigBinding, bind, clone, promote, process_batch, get_required,
  drop_binding,
}
use frances.Prelude.{All}
use frances.Config.Binding.Kept.{Keeps}
use frances.Config.Binding.Sticky.{none_yet, then, refreshes, promote-get_required}

-- The configuration is the value at the path.
abbrev reads : Option ℕ → Option ℕ
reads c = c

abbrev keeps : ℕ → Result ℕ ℕ
keeps n = ok n

abbrev Registry : Type 0
Registry = BindingRegistry (Option ℕ) ℕ ℕ ℕ

abbrev nothing_bound : BindingInner (Option ℕ) ℕ ℕ ℕ
nothing_bound = record {
  path = codes "p";
  value = none;
  notify = 0;
  deserialize = reads;
  mapper = keeps;
}

abbrev start : Registry
start = record { bindings = []; inners = λ i. nothing_bound; count = 0; snapshot = some 5 }

abbrev bound : ConfigBinding
bound = record { inner = 0; refresher = 0 }

abbrev sure : ConfigBinding
sure = record { inner = 0; refresher = 1 }

abbrev one_bound : Registry
unfolding bind
one_bound = (bind (codes "p") (ok (some 5)) reads keeps start).1

abbrev promoted : Registry
unfolding promote
promoted = (promote bound one_bound).1

promotes : promote bound one_bound ≡ (ok sure, promoted)
unfolding promote one_bound promoted
promotes = refl

drop_binding-Keeps : All (Keeps 0) (drop_binding bound one_bound).bindings
unfolding drop_binding one_bound
drop_binding-Keeps = (λ l e. absurd (omega (arith, l)), tt)

is_made : 0 < one_bound.count
unfolding one_bound
is_made = omega arith

promote-get_required_example : (v : ℕ) × (get_required sure (process_batch none promoted) ≡ ok v)
promote-get_required_example =
    promote-get_required bound sure one_bound promoted (process_batch none promoted) is_made
      drop_binding-Keeps promotes (then none_yet (refreshes none))

-- The clone's refresher lives on and takes the value away.
clone_left :
    get_required sure (process_batch none (promote bound (clone bound one_bound)).1) ≡ panic
unfolding get_required process_batch promote clone one_bound
clone_left = refl
