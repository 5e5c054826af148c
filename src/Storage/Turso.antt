-- ===== src/Storage/Turso.antt =====
-- The database engine and the hash function that crates/frances-storage/src/lib.rs calls.
use frances.Prelude.{ℕ, List, Result}
use frances.Prelude.Int.{ℤ}
use frances.Text.{Text}

-- A column's value; the source tells integers and texts from all others.
pub data Value : Type 0 where
  integer : ℤ → Value
  text : Text → Value
  other : Value

-- `C` is a connection's state, `T` that of an open transaction, `R` a row and `E` an error. A
-- transaction works on its own state: one that is dropped, or fails to commit, is rolled back.
pub record Engine (C T R E : Type 0) : Type 0 where
  pub create_table : C → Result E (Unit {0}) × C
  pub select_applied : C → List ℕ → Result E (List (Result E R))
  pub get_value : R → ℕ → Result E Value
  pub unchecked_transaction : C → Result E T
  pub execute_batch : T → Text → Result E T
  pub insert : T → List ℕ → ℤ → Text → ℤ → ℤ → Result E T
  pub commit : T → Result E C
  pub now_ns : T → ℤ
  pub xxh3 : List ℕ → ℕ
