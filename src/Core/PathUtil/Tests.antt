-- ===== src/Core/PathUtil/Tests.antt =====
-- Paths in a directory, and out of it.
use frances.Prelude.{◌≡◌, refl, [], ◌∷◌, Option, none, some, false, if◌then◌else◌, eq_list}
use frances.Text.{codes}
use frances.Core.PathUtil.{
  root_dir, parent_dir, normal, Components, eq_path, lies_in, push_all, is_within,
}

abbrev home : Components
home = normal (codes "home") ∷ root_dir ∷ []

abbrev link : Components
link = normal (codes "link") ∷ home

-- There are `/home` and the link `/home/link` to `/tmp`.
unfoldable canonicalize : Components → Option Components
unfolding eq_path
canonicalize path =
    if eq_path path home
    then some home
    else if eq_path path link
    then some (normal (codes "tmp") ∷ root_dir ∷ [])
    else none

abbrev created : Components
created = normal (codes "b") ∷ normal (codes "a") ∷ home

links_out : is_within canonicalize home (normal (codes "b") ∷ link) ≡ false
unfolding is_within canonicalize eq_list lies_in push_all
links_out = refl

parents_out : is_within canonicalize home (parent_dir ∷ created) ≡ false
unfolding is_within canonicalize eq_list lies_in push_all
parents_out = refl
