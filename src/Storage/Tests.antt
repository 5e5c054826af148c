-- ===== src/Storage/Tests.antt =====
-- Runs of the migrations on an engine in memory.
use frances.Prelude.{
  ℕ, ◌≡◌, refl, sym, ap, ◌∙◌, List, [], ◌∷◌, ◌++◌, map, ◌==◌, if◌then◌else◌, eq_list, eq_list_refl,
  Bool-cases, inl, inr, ok, err, ok_injective, arith, length,
}
use frances.Prelude.Int.{pos, as_i64}
use frances.Text.{Text, codes, as_bytes}
use frances.Storage.Turso.{integer, text, Engine}
use frances.Storage.{EntitySchema, MigrationError, AppliedRow, checksum}
use frances.Storage.Run.{run}
use frances.Storage.Recording.{IsRecording, IsPrefix}
use frances.Storage.Migrations.{recorded, wanted, run-IsPrefix, run-recorded, run-refused}

-- A connection is the list of the rows with their entities; the SQL `bad` fails.
abbrev Rows : Type 0
Rows = List (List ℕ × AppliedRow)

abbrev rows_of : Rows → List ℕ → List AppliedRow
rows_of [] entity = []
rows_of ((e, r) ∷ rows) entity =
    let rest = rows_of rows entity in if eq_list e entity then r ∷ rest else rest

abbrev memory : Engine Rows Rows AppliedRow Text
memory = record {
  create_table = λ c. (ok tt, c);
  select_applied = λ c entity. ok (map (λ r. ok r) (rows_of c entity));
  get_value = λ r i.
      ok (if i == 0 then integer r.version else if i == 1 then text r.name else integer r.checksum);
  unchecked_transaction = ok;
  execute_batch = λ t sql. if eq_list sql (codes "bad") then err (codes "syntax") else ok t;
  insert = λ t entity version name sum at.
      ok (t ++ (entity, record { version = version; name = name; checksum = sum }) ∷ []);
  commit = ok;
  now_ns = λ t. pos 0;
  xxh3 = length;
}

rows_of-append :
    (rows : Rows) (entity : List ℕ) (r : AppliedRow)
    → rows_of (rows ++ (entity, r) ∷ []) entity ≡ rows_of rows entity ++ r ∷ []
rows_of-append [] entity r = rw (eq_list_refl entity) refl
rows_of-append ((e, q) ∷ rows) entity r = elim (Bool-cases (eq_list e entity)) [
  | inl f ↦ rw (f, rows_of-append rows entity r) refl
  | inr f ↦ rw (f, rows_of-append rows entity r) refl
]

executed :
    (t u : Rows) (sql : Text)
    → (if eq_list sql (codes "bad") then err (codes "syntax") else ok t) ≡ ok u
    → u ≡ t
executed t u sql h = elim (Bool-cases (eq_list sql (codes "bad"))) [
  | inl e ↦ cc (rw e at h)
  | inr e ↦ cc (rw e at h)
]

memory-IsRecording : IsRecording memory (λ sql. Unit {0})
memory-IsRecording = record {
  table = rows_of;
  tx_table = rows_of;
  row = λ r. r;
  selects = λ c entity. refl;
  versions = λ r. refl;
  names = λ r. refl;
  checksums = λ r. refl;
  begins = λ c t h entity. ap (λ rows. rows_of rows entity) (sym (ok_injective h));
  executes = λ t u sql apart h entity. ap (λ rows. rows_of rows entity) (executed t u sql h);
  inserts = λ t u entity r at h below.
      ap (λ rows. rows_of rows entity) (sym (ok_injective h)) ∙ rows_of-append t entity r;
  commits = λ t c h entity. ap (λ rows. rows_of rows entity) (sym (ok_injective h));
}

abbrev notes : EntitySchema
notes = record {
  entity = 7 ∷ [];
  migrations =
      record { name = codes "1.sql"; sql = codes "create" }
      ∷ record { name = codes "2.sql"; sql = codes "alter" }
      ∷ [];
}

abbrev first : List ℕ × AppliedRow
first = (7 ∷ [], record { version = pos 0; name = codes "1.sql"; checksum = pos 6 })

abbrev second : List ℕ × AppliedRow
second = (7 ∷ [], record { version = pos 1; name = codes "2.sql"; checksum = pos 5 })

runs : run memory notes (first ∷ []) ≡ (ok tt, first ∷ second ∷ [])
unfolding run checksum eq_list as_i64 as_bytes
runs = refl

starts :
    IsPrefix
      (recorded memory memory-IsRecording notes (first ∷ []))
      (wanted memory memory-IsRecording notes)
unfolding checksum as_i64 as_bytes memory-IsRecording eq_list
starts = (second.1 ∷ [], refl)

misplaced :
    ¬ IsPrefix
      (recorded memory memory-IsRecording notes (second ∷ []))
      (wanted memory memory-IsRecording notes)
unfolding checksum as_i64 as_bytes memory-IsRecording eq_list
misplaced (rest, h) = cc

-- The second migration is applied behind the first.
run-recorded_example :
    (recorded memory memory-IsRecording notes (first ∷ second ∷ [])
      ≡ wanted memory memory-IsRecording notes)
    × (run memory notes (first ∷ second ∷ []) ≡ (ok tt, first ∷ second ∷ []))
run-recorded_example =
    run-recorded memory memory-IsRecording notes (tt, (tt, tt)) (omega arith) (first ∷ [])
      (first ∷ second ∷ []) runs

run-IsPrefix_example :
    IsPrefix
      (recorded memory memory-IsRecording notes (first ∷ []))
      (recorded memory memory-IsRecording notes (run memory notes (first ∷ [])).1)
    × IsPrefix
        (recorded memory memory-IsRecording notes (run memory notes (first ∷ [])).1)
        (wanted memory memory-IsRecording notes)
run-IsPrefix_example =
    run-IsPrefix memory memory-IsRecording notes (tt, (tt, tt)) (omega arith) (first ∷ []) starts

-- The second migration stands at the first place.
run-refused_example :
    (x : MigrationError Text) × (run memory notes (second ∷ []) ≡ (err x, second ∷ []))
run-refused_example = run-refused memory memory-IsRecording notes (second ∷ []) misplaced
