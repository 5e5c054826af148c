-- ===== src/Edit/LoopGuard.antt =====
-- crates/frances-edit/src/loop_guard.rs: the set of read-style calls since the last write.
use frances.Prelude.{
  ℕ, ◌≡◌, refl, List, [], ◌∷◌, Bool, true, false, ◌&&◌, ◌==◌, if◌then◌else◌, arith,
}

-- `mtime_ns` is an i64; its bit pattern stands for it, as it is only compared.
pub data LoopKey : Type 0 where
  read : ℕ → ℕ → ℕ → LoopKey
  search_key : ℕ → LoopKey

pub data LoopKind : Type 0 where
  read_file read_raw search_kind : LoopKind

-- `#[repr(u8)]`
unfoldable pub discriminant : LoopKind → ℕ
discriminant read_file = 0
discriminant read_raw = 1
discriminant search_kind = 2

-- The derived equality: a `read` never equals a search.
unfoldable pub eq_key : LoopKey → LoopKey → Bool
eq_key (read a m s) (read b n t) = a == b && m == n && s == t
eq_key (search_key a) (search_key b) = a == b
eq_key _ _ = false

abbrev pub LoopSet : Type 0
LoopSet = List LoopKey

unfoldable pub contains : LoopSet → LoopKey → Bool
unfolding eq_key
contains [] k = false
contains (j ∷ js) k = if eq_key j k then true else contains js k

unfoldable pub record_key : LoopSet → LoopKey → LoopSet
record_key s k = k ∷ s

unfoldable pub clear : LoopSet → LoopSet
clear s = []

pub eq_key_iff : (j k : LoopKey) → eq_key j k ≡ true → j ≡ k
unfolding eq_key
eq_key_iff (read a m s) (read b n t) h = ground arith
eq_key_iff (search_key a) (search_key b) h = ground arith
eq_key_iff (read a m s) (search_key b) h = cc
eq_key_iff (search_key a) (read b n t) h = cc

pub eq_key_refl : (k : LoopKey) → eq_key k k ≡ true
unfolding eq_key
eq_key_refl (read a m s) = ground arith
eq_key_refl (search_key a) = ground arith

-- After a record exactly that key is added.
pub contains-record_key :
    (s : LoopSet) (j k : LoopKey)
    → contains (record_key s j) k ≡ (if eq_key j k then true else contains s k)
unfolding contains record_key
contains-record_key s j k = refl
