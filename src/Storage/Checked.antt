-- ===== src/Storage/Checked.antt =====
-- crates/frances-storage/src/lib.rs: the check of the recorded migrations against the declared.
use frances.Prelude.{
  get_elem?-drop, ℕ, suc, ◌≤◌, ◌≡◌, refl, ◌⊎◌, inl, inr, List, [], ◌∷◌, length, drop, Bool-cases,
  eq_list, eq_list_refl, eq_list→eq, ok, err, arith,
}
use frances.Prelude.Int.{as_u64, as_i64, eq_ℤ, eq_ℤ_refl, eq_ℤ→eq}
use frances.Storage.Turso.{Engine}
use frances.Storage.{
  Migration, MigrationError, AppliedRow, checksum, check_row, check_rows, version_mismatch, renamed,
  checksum_mismatch,
}
use frances.Storage.Recording.{IsPrefix, declared_row, declared}

row_eq :
    (a b : AppliedRow) → a.version ≡ b.version → a.name ≡ b.name → a.checksum ≡ b.checksum → a ≡ b
row_eq a b v n s = cc

module _ {C T R E : Type 0} (engine : Engine C T R E) (entity : List ℕ) where
  check_row_refl :
      (i : ℕ) (m : Migration) → check_row engine entity i (declared_row engine i m) m ≡ ok tt
  unfolding check_row
  check_row_refl i m =
      rw (eq_ℤ_refl (as_i64 i), eq_list_refl m.name, eq_ℤ_refl (checksum engine m.sql)) refl

  -- A row is checked without a panic, and passes only if it is the declared one.
  check_row-cases :
      (i : ℕ) (row : AppliedRow) (m : Migration)
      → (row ≡ declared_row engine i m)
        ⊎ ((x : MigrationError E) × (check_row engine entity i row m ≡ err x))
  unfolding check_row
  check_row-cases i row m = elim (Bool-cases (eq_ℤ row.version (as_i64 i))) [
    | inr e ↦ inr (version_mismatch entity i (as_i64 i) row.version, rw e refl)
    | inl e ↦ elim (Bool-cases (eq_list row.name m.name)) [
      | inr f ↦ inr (renamed entity i row.name m.name, rw (e, f) refl)
      | inl f ↦ elim (Bool-cases (eq_ℤ row.checksum (checksum engine m.sql))) [
        | inr g ↦ inr (
          checksum_mismatch entity i m.name (as_u64 row.checksum) (as_u64 (checksum engine m.sql)),
          rw (e, f, g) refl,
        )
        | inl g ↦ inl (
            row_eq row (declared_row engine i m) (eq_ℤ→eq row.version (as_i64 i) e)
              (eq_list→eq row.name m.name f) (eq_ℤ→eq row.checksum (checksum engine m.sql) g))
      ]
    ]
  ]

  unfoldable pub Checked : List Migration → ℕ → List AppliedRow → List Migration → Type 0
  Checked all i rows ms =
      (IsPrefix rows (declared engine i ms) × (check_rows engine entity all i rows ≡ ok tt))
      ⊎ (¬ IsPrefix rows (declared engine i ms)
          × ((x : MigrationError E) × (check_rows engine entity all i rows ≡ err x)))

  pub check_rows-Checked :
      (all : List Migration) (i : ℕ) (rows : List AppliedRow) (ms : List Migration)
      → drop i all ≡ ms
      → length rows ≤ length ms
      → Checked all i rows ms
  unfolding Checked check_rows
  check_rows-Checked all i [] ms h l = inl ((declared engine i ms, refl), refl)
  check_rows-Checked all i (r ∷ rows) [] h l = absurd (omega arith)
  check_rows-Checked all i (r ∷ rows) (m ∷ ms) h l =
      let found = get_elem?-drop i all m ms h in
      elim (check_row-cases i r m) [
        | inr (x, e) ↦ inr (λ p. cc (p.1, check_row_refl i m, e), (x, rw (found.0, e) refl))
        | inl e ↦ elim (check_rows-Checked all (suc i) rows ms found.1 (omega arith)) [
          | inl (p, f) ↦ inl ((p.0, cc (e, p.1)), rw (found.0, e, check_row_refl i m, f) refl)
          | inr (n, (x, f)) ↦
              inr (λ q. n (q.0, cc (q.1)), (x, rw (found.0, e, check_row_refl i m, f) refl))
        ]
      ]
