-- ===== src/Storage/Applied.antt =====
-- crates/frances-storage/src/lib.rs: what the loop over new migrations records.
use frances.Prelude.{
  ℕ, suc, ◌+◌, ◌^◌, ◌<◌, ◌≤◌, ◌≡◌, refl, sym, ap, subst, ◌∙◌, List, [], ◌∷◌, ◌++◌, map,
  append_assoc, append-nil, length, length-append, take, All, All-append, Result, ok, err, panic,
  >>=-eq-ok, arith,
}
use frances.Prelude.Action.{after, ◌>>=◌, ◌>>◌}
use frances.Prelude.Int.{◌<ℤ◌, as_i64, as_i64-small}
use frances.Text.{Text}
use frances.Storage.Turso.{Engine}
use frances.Storage.{
  Migration, MigrationError, AppliedRow, checksum, expect_i64, expect_text, applied_row, read_rows,
  load_applied, transact,
}
use frances.Storage.Run.{apply_from, settle}
use frances.Storage.Recording.{IsRecording, IsPrefix, declared_row, declared}

module _ {C T R E : Type 0} (engine : Engine C T R E) where
  below-next :
      (i : ℕ) (xs : List AppliedRow)
      → suc i < 2 ^ 63
      → All (λ q. q.version <ℤ as_i64 i) xs
      → All (λ q. q.version <ℤ as_i64 (suc i)) xs
  below-next i [] l h = tt
  below-next i (x ∷ xs) l h = (
    rw (as_i64-small (suc i) l) (omega (arith, rw (as_i64-small i (omega arith)) at h.0)),
    below-next i xs l h.1,
  )

  pub length-declared : (i : ℕ) (ms : List Migration) → length (declared engine i ms) ≡ length ms
  length-declared i [] = refl
  length-declared i (m ∷ ms) = ap suc (length-declared (suc i) ms)

  pub prefix-length :
      (i : ℕ) (xs : List AppliedRow) (ms : List Migration)
      → IsPrefix xs (declared engine i ms)
      → length xs ≤ length ms
  prefix-length i xs ms (rest, e) =
      omega (arith, length-append xs rest, length-declared i ms, ap length e)

  move : (i n : ℕ) → suc i + n ≡ i + suc n
  move i n = omega arith

  pub declared-below :
      (i k : ℕ) (m : Migration) → i < k → k < 2 ^ 63 → (declared_row engine i m).version <ℤ as_i64 k
  declared-below i k m l b = rw (as_i64-small k b, as_i64-small i (omega arith)) (omega arith)

  pub prefix-below :
      (i : ℕ) (xs : List AppliedRow) (ms : List Migration)
      → i + length ms < 2 ^ 63
      → IsPrefix xs (declared engine i ms)
      → All (λ q. q.version <ℤ as_i64 (i + length xs)) xs
  prefix-below i [] ms l p = tt
  prefix-below i (x ∷ xs) [] l p = cc (p.1)
  prefix-below i (x ∷ xs) (m ∷ ms) l p =
      let same : x ≡ declared_row engine i m = cc (p.1) in
      let others : IsPrefix xs (declared engine (suc i) ms) = (p.0, cc (p.1)) in
      (
        rw same (
            declared-below i (i + suc (length xs)) m (omega arith)
              (omega (arith, prefix-length (suc i) xs ms others))),
        subst (λ n. All (λ q. q.version <ℤ as_i64 n) xs) (move i (length xs))
            (prefix-below (suc i) xs ms (omega arith) others),
      )

  module _ {IsApart : Text → Type 0} (laws : IsRecording engine IsApart) (entity : List ℕ) where
    transact-table :
        (i : ℕ) (m : Migration) (c d : C)
        → IsApart m.sql
        → All (λ q. q.version <ℤ as_i64 i) (laws.table c entity)
        → transact engine entity i m c ≡ ok d
        → laws.table d entity ≡ laws.table c entity ++ declared_row engine i m ∷ []
    unfolding transact
    transact-table i m c d apart below h =
        let (t, begun, h) = >>=-eq-ok (engine.unchecked_transaction c) _ h in
        let (u, done, h) = >>=-eq-ok (engine.execute_batch t m.sql) _ h in
        let (v, inserted, h) =
          >>=-eq-ok
            (engine.insert u entity (as_i64 i) m.name (checksum engine m.sql) (engine.now_ns u)) _
            h in
        let same = laws.executes t u m.sql apart done entity ∙ laws.begins c t begun entity in
        laws.commits v d h entity
        ∙ laws.inserts u v entity (declared_row engine i m) (engine.now_ns u) inserted
            (rw same below)
        ∙ ap (λ rows. rows ++ declared_row engine i m ∷ []) same

    unfoldable pub IsApplied :
        C → ℕ → List Migration → Result (MigrationError E) (Unit {0}) × C → Type 0
    IsApplied c i ms (ok x, d) = (laws.table d entity ≡ laws.table c entity ++ declared engine i ms)
    IsApplied c i ms (err e, d) =
        (k : ℕ) × (laws.table d entity ≡ laws.table c entity ++ declared engine i (take k ms))
    IsApplied c i ms (panic, d) =
        (k : ℕ) × (laws.table d entity ≡ laws.table c entity ++ declared engine i (take k ms))

    one_more :
        (t b a l : List AppliedRow) (r : AppliedRow) → t ≡ b ++ l → b ≡ a ++ r ∷ [] → t ≡ a ++ r ∷ l
    one_more t b a l r h e = h ∙ ap (λ rows. rows ++ l) e ∙ append_assoc a (r ∷ []) l

    IsApplied-later :
        (c d : C) (i : ℕ) (m : Migration) (ms : List Migration)
        (r : Result (MigrationError E) (Unit {0}) × C)
        → laws.table d entity ≡ laws.table c entity ++ declared_row engine i m ∷ []
        → IsApplied d (suc i) ms r
        → IsApplied c i (m ∷ ms) r
    unfolding IsApplied
    IsApplied-later c d i m ms (ok x, t) e h = one_more _ _ _ _ _ h e
    IsApplied-later c d i m ms (err x, t) e (k, h) = (suc k, one_more _ _ _ _ _ h e)
    IsApplied-later c d i m ms (panic, t) e (k, h) = (suc k, one_more _ _ _ _ _ h e)

    apply_first :
        (c : C) (i : ℕ) (m : Migration) (ms : List Migration) (r : Result E C)
        → transact engine entity i m c ≡ r
        → ((d : C)
            → transact engine entity i m c ≡ ok d
            → IsApplied c i (m ∷ ms) (apply_from engine entity (suc i) ms d))
        → IsApplied c i
            (m ∷ ms)
            (after (settle engine c r) (λ _. apply_from engine entity (suc i) ms))
    unfolding IsApplied
    apply_first c i m ms (ok d) e next = next d e
    apply_first c i m ms (err x) e next = (0, sym (append-nil (laws.table c entity)))
    apply_first c i m ms panic e next = (0, sym (append-nil (laws.table c entity)))

    pub apply_from-IsApplied :
        (i : ℕ) (ms : List Migration) (c : C)
        → All (λ m. IsApart m.sql) ms
        → i + length ms < 2 ^ 63
        → All (λ q. q.version <ℤ as_i64 i) (laws.table c entity)
        → IsApplied c i ms (apply_from engine entity i ms c)
    unfolding IsApplied apply_from ◌>>=◌ ◌>>◌
    apply_from-IsApplied i [] c apart l below = sym (append-nil (laws.table c entity))
    apply_from-IsApplied i (m ∷ ms) c apart l below =
        apply_first c i m ms (transact engine entity i m c) refl (λ d e.
          let grown = transact-table i m c d apart.0 below e in
          IsApplied-later c d i m ms (apply_from engine entity (suc i) ms d) grown (
            apply_from-IsApplied (suc i) ms d apart.1 (omega arith) (
              rw grown (
                All-append (λ q. q.version <ℤ as_i64 (suc i)) (laws.table c entity)
                  (declared_row engine i m ∷ [])
                  (below-next i (laws.table c entity) (omega arith) below)
                  (declared-below i (suc i) m (omega arith) (omega arith), tt)))))

    applied_row-row : (r : AppliedRow) → applied_row engine (laws.row r) ≡ ok r
    unfolding applied_row expect_i64 expect_text
    applied_row-row r = rw (laws.versions r, laws.names r, laws.checksums r) refl

    read_rows-rows :
        (rows : List AppliedRow) → read_rows engine (map (λ r. ok (laws.row r)) rows) ≡ ok rows
    unfolding read_rows
    read_rows-rows [] = refl
    read_rows-rows (r ∷ rows) = rw (applied_row-row r, read_rows-rows rows) refl

    pub load_applied-table : (c : C) → load_applied engine c entity ≡ ok (laws.table c entity)
    unfolding load_applied
    load_applied-table c = rw (laws.selects c entity) (read_rows-rows (laws.table c entity))
