-- ===== src/Core/PathUtil/Within.antt =====
-- crates/frances-core/src/path_util.rs: what is found to lie in a directory does so.
use frances.Prelude.{◌≡◌, List, [], ◌∷◌, Option, none, some}
use frances.Text.{Text}
use frances.Core.PathUtil.{normal, Components, push_all}

module _ (canonicalize : Components → Option Components) where
  -- Below a path, nothing exists of what the names lead to, one after the other.
  unfoldable pub IsMissing : List Text → Components → Type 0
  IsMissing [] path = Unit
  IsMissing (name ∷ names) path =
      (canonicalize (normal name ∷ path) ≡ none) × IsMissing names (normal name ∷ path)

  -- A path is made of a longest part that exists, here with its canonical form, and names below it.
  pub record Found (path resolved : Components) : Type 0 where
    pub existing : Components
    pub canonical : Components
    pub names : List Text
    pub made : path ≡ push_all names existing
    pub exists : canonicalize existing ≡ some canonical
    pub missing : IsMissing names existing
    pub result : resolved ≡ push_all names canonical
