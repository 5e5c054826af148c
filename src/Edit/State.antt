-- ===== src/Edit/State.antt =====
-- crates/frances-edit/src/state.rs: the anchored state of one file.
use frances.Prelude.{
  ℕ, suc, ◌/◌, ◌%◌, ◌^◌, List, [], ◌∷◌, ◌++◌, Option, none, some, map, get_elem?, if◌then◌else◌,
  eq_list,
}
use mathlib.Core.Option
use frances.Text.{Text}
use frances.Edit.Anchor.{Anchor}
use frances.Anchors.Hash.{Hasher}

-- A path is opaque here; texts are compared.
abbrev pub FilePath : Type 0
FilePath = Text

pub record LineEntry : Type 0 where
  pub hash : ℕ
  pub anchor : Anchor

-- `mtime_ns` is an i64, which is only copied and compared: its bit pattern stands for it.
pub record FileAnchorState : Type 0 where
  pub path : FilePath
  pub mtime_ns : ℕ
  pub size : ℕ
  pub content_digest : ℕ
  pub lines : List LineEntry

abbrev pub hashes : List LineEntry → List ℕ
hashes = map (λ le. le.hash)

abbrev pub anchors : List LineEntry → List Anchor
anchors = map (λ le. le.anchor)

unfoldable pub line_hashes : FileAnchorState → List ℕ
line_hashes s = hashes s.lines

unfoldable pub anchor_at : FileAnchorState → ℕ → Option Anchor
anchor_at s line_no = Option.map (λ le. le.anchor) (get_elem? s.lines line_no)

-- `Iterator::position`
unfoldable pub position : List LineEntry → Anchor → Option ℕ
position [] a = none
position (le ∷ les) a = if eq_list le.anchor a then some 0 else Option.map suc (position les a)

-- The index is cast to u32.
unfoldable pub find_anchor : FileAnchorState → Anchor → Option ℕ
unfolding position
find_anchor s a = Option.map (λ i. i % 2 ^ 32) (position s.lines a)

-- `u64::to_le_bytes`
abbrev le_bytes : ℕ → List ℕ
le_bytes h =
    (h % 256)
    ∷ (h / 2 ^ 8 % 256)
    ∷ (h / 2 ^ 16 % 256)
    ∷ (h / 2 ^ 24 % 256)
    ∷ (h / 2 ^ 32 % 256)
    ∷ (h / 2 ^ 40 % 256)
    ∷ (h / 2 ^ 48 % 256)
    ∷ (h / 2 ^ 56 % 256)
    ∷ []

abbrev hash_bytes : List ℕ → List ℕ
hash_bytes [] = []
hash_bytes (h ∷ hs) = le_bytes h ++ hash_bytes hs

unfoldable pub content_digest : Hasher → List ℕ → ℕ
content_digest H line_hashes = H.oneshot (hash_bytes line_hashes)
