-- ===== src/Storage/Run.antt =====
-- crates/frances-storage/src/lib.rs: `run` and `run_all`.
use frances.Prelude.{
  ℕ, suc, List, [], ◌∷◌, ltb, length, drop, Result, ok, err, panic, fail_if, map_err,
}
use frances.Prelude.Action.{Action, after, ◌>>=◌, ◌>>◌, return, lift}
use frances.Storage.Turso.{Engine}
use frances.Storage.{
  Migration, EntitySchema, MigrationError, turso, declared_shrunk, load_applied, check_rows,
  transact,
}

module _ {C T R E : Type 0} (engine : Engine C T R E) where
  unfoldable pub ensure_table : Action (MigrationError E) C (Unit {0})
  ensure_table c = let (r, after_it) = engine.create_table c in (map_err turso r, after_it)

  abbrev pub settle : C → Result E C → Result (MigrationError E) (Unit {0}) × C
  settle c (ok t) = (ok tt, t)
  settle c (err e) = (err (turso e), c)
  settle c panic = (panic, c)

  unfoldable pub apply_from : List ℕ → ℕ → List Migration → Action (MigrationError E) C (Unit {0})
  unfolding transact ◌>>=◌ ◌>>◌
  apply_from entity i [] = return tt
  apply_from entity i (m ∷ ms) =
      (λ c. settle c (transact engine entity i m c)) >> apply_from entity (suc i) ms

  unfoldable pub run : EntitySchema → Action (MigrationError E) C (Unit {0})
  unfolding load_applied check_rows apply_from ◌>>=◌ ◌>>◌
  run schema c =
      after (load_applied engine c schema.entity, c)
        (λ applied. do
          lift (
              fail_if (ltb (length schema.migrations) (length applied))
                (declared_shrunk schema.entity (length applied) (length schema.migrations)))
          lift (check_rows engine schema.entity schema.migrations 0 applied)
          apply_from schema.entity (length applied) (drop (length applied) schema.migrations))

  abbrev run_each : List EntitySchema → Action (MigrationError E) C (Unit {0})
  run_each [] = return tt
  run_each (schema ∷ schemas) = run schema >> run_each schemas

  unfoldable pub run_all : List EntitySchema → Action (MigrationError E) C (Unit {0})
  unfolding ensure_table run ◌>>=◌ ◌>>◌
  run_all schemas = ensure_table >> run_each schemas
