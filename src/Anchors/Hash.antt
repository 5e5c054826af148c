-- ===== src/Anchors/Hash.antt =====
-- crates/frances-anchors/src/hash.rs: the hashes of a file's lines. XxHash3_64 is a parameter.
pub mod Laws
use frances.Prelude.{ℕ, ◌+◌, ◌%◌, ◌^◌, List, [], ◌∷◌, if◌then◌else◌}
use frances.Text.{Text, trim, is_empty, as_bytes}

-- `XxHash3_64::oneshot` and `oneshot_with_seed`, over bytes.
pub record Hasher : Type 0 where
  pub oneshot : List ℕ → ℕ
  pub oneshot_with_seed : ℕ → List ℕ → ℕ

module _ (H : Hasher) where
  open H use {oneshot, oneshot_with_seed}

  unfoldable pub hash_line : Text → ℕ
  hash_line content = oneshot (as_bytes (trim content))

  -- `blank_idx` counts the blank lines so far; it is a u64.
  unfoldable pub hash_lines_from : ℕ → List Text → List ℕ
  hash_lines_from blank_idx [] = []
  hash_lines_from blank_idx (line ∷ lines) =
      if is_empty (trim line)
      then oneshot_with_seed ((blank_idx + 1) % 2 ^ 64) []
        ∷ hash_lines_from ((blank_idx + 1) % 2 ^ 64) lines
      else oneshot (as_bytes (trim line)) ∷ hash_lines_from blank_idx lines

  unfoldable pub hash_lines : List Text → List ℕ
  unfolding hash_lines_from
  hash_lines lines = hash_lines_from 0 lines
