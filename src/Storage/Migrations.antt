-- ===== src/Storage/Migrations.antt =====
-- crates/frances-storage/src/lib.rs: what is recorded after `run`.
use frances.Prelude.{
  take-length, lt_of_ltb, le_of_ltb, ℕ, zero, suc, ◌+◌, ◌-◌, ◌^◌, ◌<◌, ◌≤◌, ◌≡◌, refl, sym, ap, ◌∙◌,
  ◌⊎◌, inl, inr, List, [], ◌∷◌, ◌++◌, append_assoc, append-nil, length, length-drop, drop-length,
  take, drop, All-drop, All, Bool-cases, ltb, Result, ok, err, panic, arith,
}
use native.Mathlib.Nat.{zero-add}
use frances.Prelude.Action.{◌>>=◌, ◌>>◌}
use frances.Text.{Text}
use frances.Storage.Turso.{Engine}
use frances.Storage.{Migration, EntitySchema, MigrationError, AppliedRow, declared_shrunk}
use frances.Storage.Run.{apply_from, run}
use frances.Storage.Recording.{IsRecording, IsPrefix, declared}
use frances.Storage.Checked.{Checked, check_rows-Checked}
use frances.Storage.Applied.{
  IsApplied, apply_from-IsApplied, load_applied-table, prefix-below, prefix-length, length-declared,
}

fits : (n l m : ℕ) → m ≡ l - n → n ≤ l → l < 2 ^ 63 → n + m < 2 ^ 63
fits n l m e h s = omega arith

at_zero : (i : ℕ) → i + 0 ≡ i
at_zero i = omega arith

move : (i n : ℕ) → suc i + n ≡ i + suc n
move i n = omega arith

module _ {C T R E : Type 0} (engine : Engine C T R E) where
  declared-take :
      (i k : ℕ) (ms : List Migration)
      → IsPrefix (declared engine i (take k ms)) (declared engine i ms)
  declared-take i zero ms = (declared engine i ms, refl)
  declared-take i (suc k) [] = ([], refl)
  declared-take i (suc k) (m ∷ ms) = let (rest, e) = declared-take (suc i) k ms in (rest, cc (e))

  -- What is declared behind the recorded rows.
  declared-drop :
      (i : ℕ) (xs : List AppliedRow) (ms : List Migration)
      → IsPrefix xs (declared engine i ms)
      → xs ++ declared engine (i + length xs) (drop (length xs) ms) ≡ declared engine i ms
  declared-drop i [] ms p = ap (λ n. declared engine n ms) (at_zero i)
  declared-drop i (x ∷ xs) [] (rest, e) = cc
  declared-drop i (x ∷ xs) (m ∷ ms) (rest, e) =
      let same = declared-drop (suc i) xs ms (rest, cc (e)) in
      cc (e, same, ap (λ n. declared engine n (drop (length xs) ms)) (move i (length xs)))

  module _ {IsApart : Text → Type 0} (laws : IsRecording engine IsApart)
      (schema : EntitySchema) where
    abbrev pub recorded : C → List AppliedRow
    recorded c = laws.table c schema.entity

    abbrev pub wanted : List AppliedRow
    wanted = declared engine 0 schema.migrations

    Started : C → Type 0
    Started c =
        (IsPrefix (recorded c) wanted
          × (run engine schema c
              ≡ apply_from engine schema.entity (length (recorded c))
                  (drop (length (recorded c)) schema.migrations) c))
        ⊎ (¬ IsPrefix (recorded c) wanted
            × ((x : MigrationError E) × (run engine schema c ≡ (err x, c))))

    run-Started : (c : C) → Started c
    unfolding Started Checked run ◌>>=◌ ◌>>◌
    run-Started c = elim (Bool-cases (ltb (length schema.migrations) (length (recorded c)))) [
      | inl e ↦ inr (
        λ p.
            omega (arith, prefix-length engine 0 (recorded c) schema.migrations p, lt_of_ltb _ _ e),
        (
          declared_shrunk schema.entity (length (recorded c)) (length schema.migrations),
          rw (load_applied-table engine laws schema.entity c, e) refl,
        ),
      )
      | inr e ↦
          elim (check_rows-Checked engine schema.entity schema.migrations 0 (recorded c)
            schema.migrations refl (le_of_ltb _ _ e)) [
              | inl (p, f) ↦ inl (p, rw (load_applied-table engine laws schema.entity c, e, f) refl)
              | inr (n, (x, f)) ↦
                  inr (n, (x, rw (load_applied-table engine laws schema.entity c, e, f) refl))
            ]
    ]

    left_over :
        (c : C)
        → IsPrefix (recorded c) wanted
        → recorded c
            ++ declared engine (length (recorded c)) (drop (length (recorded c)) schema.migrations)
          ≡ wanted
    left_over c p = rw zero-add at (declared-drop 0 (recorded c) schema.migrations p)

    module _ (apart : All (λ m. IsApart m.sql) schema.migrations)
        (small : length schema.migrations < 2 ^ 63) where
      -- What the loop does when it starts behind the recorded rows.
      run-IsApplied :
          (c : C)
          → IsPrefix (recorded c) wanted
          → IsApplied engine laws schema.entity c
              (length (recorded c))
              (drop (length (recorded c)) schema.migrations)
              (run engine schema c)
      unfolding Started
      run-IsApplied c p = elim (run-Started c) [
        | inr (n, f) ↦ absurd (n p)
        | inl (q, e) ↦ rw e (
            apply_from-IsApplied engine laws schema.entity _ _ c
              (All-drop (λ m. IsApart m.sql) (length (recorded c)) schema.migrations apart)
              (fits (length (recorded c)) (length schema.migrations)
                (length (drop (length (recorded c)) schema.migrations))
                (length-drop (length (recorded c)) schema.migrations)
                (prefix-length engine 0 (recorded c) schema.migrations p) small)
              (rw zero-add at
                (prefix-below engine 0 (recorded c) schema.migrations (rw zero-add small) p)))
      ]

      grown :
          (c d : C) (i : ℕ) (ms : List Migration)
          → recorded c ++ declared engine i ms ≡ wanted
          → (k : ℕ) × (recorded d ≡ recorded c ++ declared engine i (take k ms))
          → IsPrefix (recorded c) (recorded d) × IsPrefix (recorded d) wanted
      grown c d i ms e (k, h) =
          let (rest, f) = declared-take i k ms in
          (
            (declared engine i (take k ms), sym h),
            (
              rest,
              ap (λ rows. rows ++ rest) h
                  ∙ append_assoc (recorded c) (declared engine i (take k ms)) rest
                  ∙ ap (λ rows. recorded c ++ rows) f
                  ∙ e,
            ),
          )

      IsApplied-grown :
          (c : C) (i : ℕ) (ms : List Migration) (r : Result (MigrationError E) (Unit {0}) × C)
          → recorded c ++ declared engine i ms ≡ wanted
          → IsApplied engine laws schema.entity c i ms r
          → IsPrefix (recorded c) (recorded r.1) × IsPrefix (recorded r.1) wanted
      unfolding IsApplied
      IsApplied-grown c i ms (ok x, d) e h = grown c d i ms e (length ms, rw (take-length ms) h)
      IsApplied-grown c i ms (err x, d) e h = grown c d i ms e h
      IsApplied-grown c i ms (panic, d) e h = grown c d i ms e h

      -- When the recorded migrations are the first of the declared ones, then whatever comes of the
      -- run, also an error in the middle: what was recorded stays, and what is recorded are the first
      -- of the declared ones.
      pub run-IsPrefix :
          (c : C)
          → IsPrefix (recorded c) wanted
          → IsPrefix (recorded c) (recorded (run engine schema c).1)
            × IsPrefix (recorded (run engine schema c).1) wanted
      run-IsPrefix c p =
          IsApplied-grown c (length (recorded c)) (drop (length (recorded c)) schema.migrations)
            (run engine schema c) (left_over c p) (run-IsApplied c p)

      run-again : (c : C) → recorded c ≡ wanted → run engine schema c ≡ (ok tt, c)
      unfolding Started apply_from
      run-again c h = elim (run-Started c) [
        | inr (n, f) ↦ absurd (n ([], append-nil (recorded c) ∙ h))
        | inl (p, e) ↦
            rw
              (
                e,
                ap length h ∙ length-declared engine 0 schema.migrations,
                drop-length schema.migrations,
              )
              refl
      ]

      -- A run that succeeds has recorded exactly the declared migrations, with the names and checksums
      -- in their order, and to run it again succeeds and changes nothing.
      pub run-recorded :
          (c d : C)
          → run engine schema c ≡ (ok tt, d)
          → (recorded d ≡ wanted) × (run engine schema d ≡ (ok tt, d))
      unfolding Started IsApplied
      run-recorded c d h = elim (run-Started c) [
        | inr (n, (x, e)) ↦ cc (h, e)
        | inl (p, e) ↦
            let all : recorded d ≡ wanted = rw h at (run-IsApplied c p) ∙ left_over c p in
            (all, run-again d all)
      ]

    -- When the recorded migrations are not the first of the declared ones, a run fails and changes
    -- nothing.
    pub run-refused :
        (c : C)
        → ¬ IsPrefix (recorded c) wanted
        → (x : MigrationError E) × (run engine schema c ≡ (err x, c))
    unfolding Started
    run-refused c n = elim (run-Started c) [ inl (p, e) ↦ absurd (n p) | inr (m, f) ↦ f ]
