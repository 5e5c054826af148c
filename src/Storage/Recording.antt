-- ===== src/Storage/Recording.antt =====
-- What crates/frances-storage/src/lib.rs relies on of the database engine.
use frances.Prelude.{ℕ, suc, ◌≡◌, List, [], ◌∷◌, ◌++◌, map, All, ok}
use frances.Prelude.Int.{ℤ, ◌<ℤ◌, as_i64}
use frances.Text.{Text}
use frances.Storage.Turso.{integer, text, Engine}
use frances.Storage.{Migration, AppliedRow, checksum}

-- What the code relies on of the engine: the table read in the order of the versions, through
-- transactions that change nothing else of it. `IsApart` tells the SQL that does not touch the table.
pub record IsRecording {C T R E : Type 0} (engine : Engine C T R E) (IsApart : Text → Type 0)
    : Type 0 where
  pub table : C → List ℕ → List AppliedRow
  pub tx_table : T → List ℕ → List AppliedRow
  pub row : AppliedRow → R
  pub selects :
      (c : C) (entity : List ℕ)
      → engine.select_applied c entity ≡ ok (map (λ r. ok (row r)) (table c entity))
  pub versions : (r : AppliedRow) → engine.get_value (row r) 0 ≡ ok (integer r.version)
  pub names : (r : AppliedRow) → engine.get_value (row r) 1 ≡ ok (text r.name)
  pub checksums : (r : AppliedRow) → engine.get_value (row r) 2 ≡ ok (integer r.checksum)
  pub begins :
      (c : C) (t : T)
      → engine.unchecked_transaction c ≡ ok t
      → (entity : List ℕ) → tx_table t entity ≡ table c entity
  pub executes :
      (t u : T) (sql : Text)
      → IsApart sql
      → engine.execute_batch t sql ≡ ok u
      → (entity : List ℕ) → tx_table u entity ≡ tx_table t entity
  pub inserts :
      (t u : T) (entity : List ℕ) (r : AppliedRow) (applied_at : ℤ)
      → engine.insert t entity r.version r.name r.checksum applied_at ≡ ok u
      → All (λ q. q.version <ℤ r.version) (tx_table t entity)
      → tx_table u entity ≡ tx_table t entity ++ r ∷ []
  pub commits :
      (t : T) (c : C)
      → engine.commit t ≡ ok c
      → (entity : List ℕ) → table c entity ≡ tx_table t entity

-- The rows begin with those.
abbrev pub IsPrefix : List AppliedRow → List AppliedRow → Type 0
IsPrefix xs ys = (rest : List AppliedRow) × (xs ++ rest ≡ ys)

module _ {C T R E : Type 0} (engine : Engine C T R E) where
  abbrev pub declared_row : ℕ → Migration → AppliedRow
  declared_row i m = record { version = as_i64 i; name = m.name; checksum = checksum engine m.sql }

  -- The rows of the migrations, from the index `i`.
  abbrev pub declared : ℕ → List Migration → List AppliedRow
  declared i [] = []
  declared i (m ∷ ms) = declared_row i m ∷ declared (suc i) ms
