-- ===== src/Core/PathUtil.antt =====
-- crates/frances-core/src/path_util.rs: whether a path lies in a directory.
pub mod Within
mod Tests
use frances.Prelude.{
  ℕ, List, [], ◌∷◌, ◌++◌, Option, none, some, Bool, true, false, ◌||◌, ◌&&◌, eq_list,
}
use frances.Text.{Text}

-- `std::path::Component` on Unix.
pub data Component : Type 0 where
  root_dir : Component
  cur_dir : Component
  parent_dir : Component
  normal : Text → Component

unfoldable pub eq_component : Component → Component → Bool
eq_component root_dir root_dir = true
eq_component cur_dir cur_dir = true
eq_component parent_dir parent_dir = true
eq_component (normal a) (normal b) = eq_list a b
eq_component c d = false

-- The components of a `std::path::Path`, the last one first.
abbrev pub Components : Type 0
Components = List Component

unfoldable pub eq_path : Components → Components → Bool
unfolding eq_component
eq_path [] [] = true
eq_path (c ∷ cs) (d ∷ ds) = eq_component c d && eq_path cs ds
eq_path cs ds = false

-- `Path::starts_with`.
unfoldable pub starts_with : Components → Components → Bool
unfolding eq_path
starts_with [] base = eq_path [] base
starts_with (c ∷ cs) base = eq_path (c ∷ cs) base || starts_with cs base

-- `PathBuf::push` of each name, the first one first.
unfoldable pub push_all : List Text → Components → Components
push_all [] path = path
push_all (name ∷ names) path = push_all names (normal name ∷ path)

-- The canonical path, if there is one, with the names; else what comes of walking on.
abbrev pub pushed : List Text → Option Components → Option Components → Option Components
pushed suffix further (some c) = some (push_all suffix c)
pushed suffix further none = further

unfoldable pub lies_in : Option Components → Option Components → Bool
unfolding starts_with
lies_in (some canonical_ancestor) (some canonical_descendant) =
    starts_with canonical_descendant canonical_ancestor
lies_in (some canonical_ancestor) none = false
lies_in none descendant = false

-- `canonicalize` is `Path::canonicalize`, without the reason why it fails.
module _ (canonicalize : Components → Option Components) where
  -- The loop, with the names taken off so far, the last one first.
  unfoldable pub walk_up : Components → List Text → Option Components
  walk_up [] suffix = pushed suffix none (canonicalize [])
  walk_up (normal name ∷ parent) suffix =
      pushed suffix (walk_up parent (name ∷ suffix)) (canonicalize (normal name ∷ parent))
  walk_up (other ∷ parent) suffix = pushed suffix none (canonicalize (other ∷ parent))

  unfoldable pub longest_existing_canonicalize : Components → Option Components
  unfolding walk_up
  longest_existing_canonicalize path = elim (canonicalize path) [
    | some c ↦ some c
    | none ↦ walk_up path []
  ]

  unfoldable pub is_within : Components → Components → Bool
  unfolding longest_existing_canonicalize
  is_within ancestor descendant =
      lies_in (canonicalize ancestor) (longest_existing_canonicalize descendant)
