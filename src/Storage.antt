-- ===== src/Storage.antt =====
-- crates/frances-storage/src/lib.rs: the migrations of a database. Each entity has a list of them;
-- the table `_migrations` records those that were applied.
pub mod Turso
pub mod Run
pub mod Recording
mod Checked
mod Applied
pub mod Migrations
pub mod Tests
use frances.Prelude.{
  ℕ, suc, List, [], ◌∷◌, Bool, if◌then◌else◌, eq_list, not, length, get_elem?, Result, ok, err,
  panic, ◌>>=◌, ◌>>◌, fail_if, map_err, expect,
}
use frances.Prelude.Int.{ℤ, as_i64, as_u64, eq_ℤ}
use frances.Text.{Text, codes, as_bytes}
use frances.Storage.Turso.{Value, integer, text, Engine}

pub record Migration : Type 0 where
  pub name : Text
  pub sql : Text

pub record EntitySchema : Type 0 where
  pub entity : List ℕ
  pub migrations : List Migration

-- The fields in the order of the source; the engine's own errors are of the type `E`.
pub data MigrationError (E : Type 0) : Type 0 where
  turso : E → MigrationError E
  declared_shrunk : List ℕ → ℕ → ℕ → MigrationError E
  version_mismatch : List ℕ → ℕ → ℤ → ℤ → MigrationError E
  renamed : List ℕ → ℕ → Text → Text → MigrationError E
  checksum_mismatch : List ℕ → ℕ → Text → ℕ → ℕ → MigrationError E
  non_integer_column : Text → Value → MigrationError E
  non_text_column : Text → Value → MigrationError E

pub record AppliedRow : Type 0 where
  pub version : ℤ
  pub name : Text
  pub checksum : ℤ

module _ {C T R E : Type 0} (engine : Engine C T R E) where
  unfoldable pub checksum : Text → ℤ
  checksum sql = as_i64 (engine.xxh3 (as_bytes sql))

  abbrev only_integer : Text → Value → Result (MigrationError E) ℤ
  only_integer column (integer v) = ok v
  only_integer column found = err (non_integer_column column found)

  unfoldable pub expect_i64 : R → ℕ → Text → Result (MigrationError E) ℤ
  expect_i64 row idx column = map_err turso (engine.get_value row idx) >>= only_integer column

  abbrev only_text : Text → Value → Result (MigrationError E) Text
  only_text column (text t) = ok t
  only_text column found = err (non_text_column column found)

  unfoldable pub expect_text : R → ℕ → Text → Result (MigrationError E) Text
  expect_text row idx column = map_err turso (engine.get_value row idx) >>= only_text column

  unfoldable pub applied_row : R → Result (MigrationError E) AppliedRow
  unfolding expect_i64 expect_text
  applied_row row = do
    version ← expect_i64 row 0 (codes "version")
    name ← expect_text row 1 (codes "name")
    sum ← expect_i64 row 2 (codes "checksum")
    ok (record { version = version; name = name; checksum = sum })

  -- The loop over the rows, each of which may fail to come.
  unfoldable pub read_rows : List (Result E R) → Result (MigrationError E) (List AppliedRow)
  unfolding applied_row
  read_rows [] = ok []
  read_rows (next ∷ rows) = do
    row ← map_err turso next
    first ← applied_row row
    others ← read_rows rows
    ok (first ∷ others)

  unfoldable pub load_applied : C → List ℕ → Result (MigrationError E) (List AppliedRow)
  unfolding read_rows
  load_applied c entity = map_err turso (engine.select_applied c entity) >>= read_rows

  unfoldable pub check_row :
      List ℕ → ℕ → AppliedRow → Migration → Result (MigrationError E) (Unit {0})
  unfolding checksum
  check_row entity i row declared = do
    fail_if (not (eq_ℤ row.version (as_i64 i))) (version_mismatch entity i (as_i64 i) row.version)
    fail_if (not (eq_list row.name declared.name)) (renamed entity i row.name declared.name)
    fail_if (not (eq_ℤ row.checksum (checksum declared.sql))) (
        checksum_mismatch entity i declared.name (as_u64 row.checksum)
          (as_u64 (checksum declared.sql)))

  -- The loop over the recorded rows, from the index `i`.
  unfoldable pub check_rows :
      List ℕ → List Migration → ℕ → List AppliedRow → Result (MigrationError E) (Unit {0})
  unfolding check_row
  check_rows entity migrations i [] = ok tt
  check_rows entity migrations i (row ∷ rows) = do
    declared ← expect (get_elem? migrations i)
    check_row entity i row declared
    check_rows entity migrations (suc i) rows

  -- One transaction: the migration and its row.
  unfoldable pub transact : List ℕ → ℕ → Migration → C → Result E C
  unfolding checksum
  transact entity i m c = do
    tx ← engine.unchecked_transaction c
    tx ← engine.execute_batch tx m.sql
    tx ← engine.insert tx entity (as_i64 i) m.name (checksum m.sql) (engine.now_ns tx)
    engine.commit tx
