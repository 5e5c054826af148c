-- ===== src/Edit/Engine/Opening.antt =====
-- crates/frances-edit/src/engine.rs: each way of opening a file, over a store that works.
use frances.Prelude.{
  ℕ, ◌<◌, ◌^◌, ◌≡◌, refl, sym, ap, ap₂, ◌∙◌, inl, inr, List, [], ◌∷◌, ◌++◌, append-nil, none, some,
  true, ◌==◌, ◌&&◌, length, length-map, arith, ok, Bool-cases, Option-cases,
}
use mathlib.Core.Option
use frances.Prelude.Action.{Action, ◌>>=◌, ◌>>◌}
use frances.Text.{Text}
use frances.Anchors.Hash.{Hasher, hash_lines}
use frances.Anchors.Hash.Laws.{length-hash_lines}
use frances.Edit.Anchor.{Anchor}
use frances.Edit.Pool.{from_used, contains}
use frances.Edit.Pool.Mint.{from_used-IsPool}
use frances.Edit.State.{FilePath, LineEntry, FileAnchorState, hashes, anchors, content_digest}
use frances.Edit.Diff.{Differ, IsScript}
use frances.Edit.Reconcile.{ReconcileOutcome}
use frances.Edit.Reconcile.Outcome.{reconcile-IsReconciled}
use frances.Edit.Store.{AnchorStore, StoreError}
use frances.Edit.Store.Reliable.{IsReliable, Meta, state_of}
use frances.Edit.Engine.{
  mint_lines, load_pool, tombstone_any, open_changed, open_drifted, open_cold, open_state,
}
use frances.Edit.Engine.Opened.{
  IsStored, IsUnchanged, IsOpened, stored-IsAnchored, pooled, all_remembered,
}
use frances.Edit.Engine.Minted.{mint_lines-IsFresh}

eq_of_test : (a b : ℕ) → a == b ≡ true → a ≡ b
eq_of_test a b h = ground arith

both_of_test : (a b c d : ℕ) → a == b && c == d ≡ true → (a ≡ b) × (c ≡ d)
both_of_test a b c d h = (ground arith, ground arith)

module _ (H : Hasher) (D : Differ) {S : Type 0} (store : AnchorStore S) (R : IsReliable store) where
  open R use {lines, meta, buried, used, loads, uses, used_members, saves, replaces, tombstones}

  -- The call succeeds, with a state as `IsOpened` says.
  abbrev pub Opens : S → FilePath → List Text → ℕ → ℕ → Action StoreError S FileAnchorState → Type 0
  Opens s path disk mtime_ns size run =
      (state : FileAnchorState) × (t : S) × (run s ≡ (ok state, t))
      × IsOpened H R s t path disk mtime_ns size state

  bury :
      (s : S) (path : FilePath) (gone : List Anchor)
      → (t : S) × (tombstone_any H D store path gone s ≡ (ok tt, t))
        × (lines t path ≡ lines s path)
        × (meta t path ≡ meta s path)
        × ((a : Anchor)
            → contains (buried s path ++ gone) a ≡ true
            → contains (buried t path) a ≡ true)
  bury s path [] = (s, refl, refl, refl, λ a h. rw append-nil at h)
  bury s path (x ∷ xs) =
      let (t, e, l, m, b) = tombstones s path (x ∷ xs) in (t, e, l, m, λ a h. b a ∙ h)

  -- A state with the stored lines, when only the meta has changed.
  kept_lines :
      (s t : S) (path : FilePath) (disk : List Text) (mtime_ns size digest : ℕ)
      → IsStored R s path
      → (m : Meta) × (meta s path ≡ some m) × IsUnchanged H m disk mtime_ns size
      → lines t path ≡ lines s path
      → meta t path ≡ some (mtime_ns, size, digest)
      → buried t path ≡ buried s path
      → IsOpened H R s t path disk mtime_ns size
          (state_of path (lines s path) (mtime_ns, size, digest))
  kept_lines s t path disk mtime_ns size digest h unchanged el em eb = record {
    stored_lines = el;
    stored_meta = em;
    same_path = refl;
    current = (refl, refl);
    distinct = h.distinct;
    remembered = λ a u.
        used_members t path a
        ∙ ap₂ (λ les gone. contains (anchors les ++ gone) a) el eb
        ∙ sym (used_members s path a)
        ∙ u;
    not_reused = λ a u. omega arith;
    content = inr (refl, unchanged);
  }

  abbrev changed_state : ReconcileOutcome → ℕ → ℕ → FileAnchorState
  changed_state r mtime_ns size = record r.state { mtime_ns = mtime_ns; size = size }

  fits_u32 :
      (les : List LineEntry) (disk : List Text)
      → hashes les ≡ hash_lines H disk
      → length disk < 2 ^ 32
      → length les < 2 ^ 32
  fits_u32 les disk e h = omega (
    arith,
    length-map (λ le. le.hash) les,
    ap (λ (xs : List ℕ). length xs) e,
    length-hash_lines H disk,
  )

  module _ (scripts : (xs ys : List ℕ) → IsScript xs ys 0 0 (D.diff_hashes xs ys)) where
    Opens-changed :
        (s : S) (path : FilePath) (m : Meta) (disk : List Text) (mtime_ns size : ℕ)
        → IsStored R s path
        → length disk < 2 ^ 32
        → Opens s path disk mtime_ns size
            (open_changed H D store (state_of path (lines s path) m) path disk mtime_ns size)
    unfolding ◌>>=◌ ◌>>◌ open_changed load_pool
    Opens-changed s path m disk mtime_ns size h small =
        let c = state_of path (lines s path) m in
        let (r, er, h₁, _) =
          reconcile-IsReconciled H D c disk (from_used (used s path)) none
            (from_used-IsPool (used s path)) (stored-IsAnchored R s path h) tt (scripts _ _) in
        let state = changed_state r.0 mtime_ns size in
        let (t₁, e₁, l₁, m₁, b₁) =
          replaces s path state (fits_u32 state.lines disk h₁.disk_hashes small) in
        let (t₂, e₂, l₂, m₂, b₂) = bury t₁ path r.0.tombstoned in
        (
          state,
          t₂,
          rw (uses s path, er, e₁, e₂) refl,
          record {
            stored_lines = l₂ ∙ l₁;
            stored_meta = m₂ ∙ m₁;
            same_path = h₁.same_path;
            current = (refl, refl);
            distinct = h₁.anchored.distinct;
            remembered =
                all_remembered R s t₂ path state.lines r.0.tombstoned (l₂ ∙ l₁)
                  (λ a u. b₂ a (rw b₁ u))
                  λ a u. omega (arith, h₁.carried_or_tombstoned a (pooled R s path a u));
            not_reused = λ a u. omega (arith, h₁.carried_or_tombstoned a (pooled R s path a u));
            content = inl h₁.disk_hashes;
          },
        )

    Opens-cold :
        (s : S) (path : FilePath) (disk : List Text) (mtime_ns size : ℕ)
        → IsStored R s path
        → meta s path ≡ none
        → length disk < 2 ^ 32
        → Opens s path disk mtime_ns size (open_cold H D store path disk mtime_ns size)
    unfolding ◌>>=◌ ◌>>◌ open_cold load_pool
    Opens-cold s path disk mtime_ns size h unknown small =
        let pool = from_used (used s path) in
        let fresh = mint_lines-IsFresh (hash_lines H disk) pool (from_used-IsPool (used s path)) in
        let les = (mint_lines (hash_lines H disk) pool).0 in
        let state : FileAnchorState = record {
          path = path;
          mtime_ns = mtime_ns;
          size = size;
          content_digest = content_digest H (hash_lines H disk);
          lines = les;
        } in
        let (t, e, l, m, b) = replaces s path state (fits_u32 les disk fresh.same_hashes small) in
        (
          state,
          t,
          rw (uses s path, e) refl,
          record {
            stored_lines = l;
            stored_meta = m;
            same_path = refl;
            current = (refl, refl);
            distinct = fresh.distinct;
            remembered =
                all_remembered R s t path les [] l (λ a u. rw b (rw append-nil at u))
                  λ a u. rw (h.unknown unknown) (omega arith);
            not_reused = λ a u. omega (arith, fresh.unused a (pooled R s path a u));
            content = inl fresh.same_hashes;
          },
        )

    Opens-drifted :
        (s : S) (path : FilePath) (m : Meta) (disk : List Text) (mtime_ns size : ℕ)
        → IsStored R s path
        → meta s path ≡ some m
        → length disk < 2 ^ 32
        → Opens s path disk mtime_ns size
            (open_drifted H D store (state_of path (lines s path) m) path disk mtime_ns size)
    unfolding ◌>>=◌ ◌>>◌ open_drifted
    Opens-drifted s path m disk mtime_ns size h known small =
        elim (Bool-cases (m.2 == content_digest H (hash_lines H disk))) [
          | inr e ↦ rw e (Opens-changed s path m disk mtime_ns size h small)
          | inl e ↦
              let digest = content_digest H (hash_lines H disk) in
              let (t, es, l, em, b) = saves s path mtime_ns size digest in
              (
                state_of path (lines s path) (mtime_ns, size, m.2),
                t,
                rw (e, es) refl,
                kept_lines s t path disk mtime_ns size m.2 h
                    (m, known, inr (eq_of_test m.2 digest e)) l (rw (eq_of_test m.2 digest e) em) b,
              )
        ]

    pub Opens-state :
        (s : S) (path : FilePath) (disk : List Text) (mtime_ns size : ℕ)
        → IsStored R s path
        → length disk < 2 ^ 32
        → Opens s path disk mtime_ns size (
            open_state H D store
              (Option.map (state_of path (lines s path)) (meta s path))
              path
              disk
              mtime_ns
              size)
    unfolding ◌>>=◌ ◌>>◌ open_state
    Opens-state s path disk mtime_ns size h small = elim (Option-cases (meta s path)) [
      | inl unknown ↦ rw unknown (Opens-cold s path disk mtime_ns size h unknown small)
      | inr (m, known) ↦ rw known (elim (Bool-cases (m.0 == mtime_ns && m.1 == size)) [
        | inr e ↦ rw e (Opens-drifted s path m disk mtime_ns size h known small)
        | inl e ↦
            let (p, q) = both_of_test m.0 mtime_ns m.1 size e in
            (
              state_of path (lines s path) (mtime_ns, size, m.2),
              s,
              rw (e, p, q) refl,
              kept_lines s s path disk mtime_ns size m.2 h (m, known, inl (p, q)) refl
                  (rw (← p, ← q) known) refl,
            )
      ])
    ]
