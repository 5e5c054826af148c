-- ===== src/Edit/Session/Resolve.antt =====
-- What `resolve_anchor` makes of a line as `render_file` shows it.
use frances.Prelude.{
  ℕ, zero, suc, ◌<◌, ◌≤◌, ◌%◌, ◌^◌, ◌≡◌, ◌≢◌, refl, sym, ◌∙◌, List, [], ◌∷◌, ◌++◌, none, some,
  eq_list, eq_list_refl, get_elem?, All, arith, ok, >>=-eq-ok, expect, expect-eq-ok, ok_injective,
  subst, Bool-cases, inl, inr, true,
}
use frances.Text.{Text, split_once, join, trim}
use frances.Text.Split.{IsFree, split_once-append}
use frances.Anchors.Words.{word}
use frances.Anchors.Words.Lookup.{IsDictionary}
use frances.Edit.Anchor.{Anchor, hyphen, words_of, to_string}
use frances.Edit.Anchor.Rank.{IsAnchor}
use frances.Edit.Anchor.Bytes.{IsPlain, from_str-to_string}
use frances.Edit.Pool.Members.{count, IsDistinct}
use frances.Edit.State.{FilePath, LineEntry, FileAnchorState, anchors, position, find_anchor}
use frances.Edit.Render.{anchor_sep}
use frances.Edit.Session.Working.{newline, resolve_anchor}

some_injective : {A : Type 0} {x y : A} → some x ≡ some y → x ≡ y
some_injective h = cc

-- An anchor stands where its first occurrence is, and a distinct one nowhere else.
count_at :
    (les : List LineEntry) (i : ℕ) (le : LineEntry)
    → get_elem? les i ≡ some le
    → 1 ≤ count le.anchor (anchors les)
count_at [] i le h = cc
count_at (e ∷ les) zero le h = rw (some_injective h, eq_list_refl le.anchor) (omega arith)
count_at (e ∷ les) (suc i) le h = ground (arith, count_at les i le h)

position-distinct :
    (les : List LineEntry) (i : ℕ) (le : LineEntry)
    → IsDistinct (anchors les)
    → get_elem? les i ≡ some le
    → position les le.anchor ≡ some i
unfolding position
position-distinct [] i le d h = cc
position-distinct (e ∷ les) zero le d h = rw (some_injective h, eq_list_refl le.anchor) refl
position-distinct (e ∷ les) (suc i) le d h = elim (Bool-cases (eq_list e.anchor le.anchor)) [
  | inl t ↦ absurd (twice t (count_at les i le h) (d le.anchor))
  | inr f ↦ rw (f, position-distinct les i le rest h) refl
]
  where
    twice :
        eq_list e.anchor le.anchor ≡ true
        → 1 ≤ count le.anchor (anchors les)
        → count le.anchor (anchors (e ∷ les)) ≤ 1
        → ⊥
    twice t p q = ground arith

    rest : IsDistinct (anchors les)
    rest a = ground (arith, d a)

split_once-free : (sep : ℕ) (s : Text) → IsFree sep s → split_once sep s ≡ none
unfolding split_once
split_once-free sep [] h = refl
split_once-free sep (c ∷ cs) h = ground (arith, split_once-free sep cs h.1)

IsFree-append : (sep : ℕ) (s t : Text) → IsFree sep s → IsFree sep t → IsFree sep (s ++ t)
IsFree-append sep [] t h k = k
IsFree-append sep (c ∷ cs) t h k = (h.0, IsFree-append sep cs t h.1 k)

IsFree-join :
    (sep : ℕ) (ws : List Text)
    → hyphen ≢ sep
    → All (IsFree sep) ws
    → IsFree sep (join (hyphen ∷ []) ws)
unfolding join
IsFree-join sep [] n h = tt
IsFree-join sep (w ∷ []) n h = h.0
IsFree-join sep (w ∷ v ∷ ws) n h = IsFree-append sep w _ h.0 (n, IsFree-join sep (v ∷ ws) n h.1)

mod_small : (n : ℕ) → n < 2 ^ 32 → n % 2 ^ 32 ≡ n
mod_small n h = omega arith

-- No word of the dictionary holds the character.
abbrev pub IsWithout : ℕ → List Text → Type 0
IsWithout sep dict = (i : ℕ) (w : Text) → word dict i ≡ some w → IsFree sep w

words_of-IsFree :
    (sep : ℕ) (dict : List Text) (a : Anchor) (ws : List Text)
    → IsWithout sep dict
    → words_of dict a ≡ ok ws
    → All (IsFree sep) ws
unfolding words_of
words_of-IsFree sep dict [] ws f h = subst (All (IsFree sep)) (ok_injective h) tt
words_of-IsFree sep dict (i ∷ is) ws f h =
    let (w, e, h₁) = >>=-eq-ok (expect (word dict i)) _ h in
    let (rest, g, h₂) = >>=-eq-ok (words_of dict is) _ h₁ in
    subst (All (IsFree sep)) (ok_injective h₂)
      (f i w (expect-eq-ok (word dict i) w e), words_of-IsFree sep dict is rest f g)

to_string-IsFree :
    (sep : ℕ) (dict : List Text) (a : Anchor) (name : Text)
    → hyphen ≢ sep
    → IsWithout sep dict
    → to_string dict a ≡ ok name
    → IsFree sep name
unfolding to_string
to_string-IsFree sep dict a name n f h =
    let (ws, e, h₁) = >>=-eq-ok (words_of dict a) _ h in
    subst (IsFree sep) (ok_injective h₁) (IsFree-join sep ws n (words_of-IsFree sep dict a ws f e))

module _ (dict : List Text) (d : IsDictionary dict) (plain : IsPlain dict)
    (no_newline : IsWithout newline dict) (no_sep : IsWithout anchor_sep dict) where
  -- Over a dictionary of distinct words that hold no hyphen, newline or separator and are not empty: a
  -- line below index 2^32 of a file with distinct anchors, shown as its valid anchor, the separator
  -- and its content without newlines, is resolved to that anchor and its index.
  pub resolve_anchor-rendered :
      (state : FileAnchorState) (lines : List Text) (path : FilePath) (i : ℕ) (le : LineEntry)
      (line name : Text)
      → IsDistinct (anchors state.lines)
      → i < 2 ^ 32
      → get_elem? state.lines i ≡ some le
      → get_elem? lines i ≡ some line
      → IsAnchor le.anchor
      → IsFree newline line
      → to_string dict le.anchor ≡ ok name
      → resolve_anchor dict (name ++ anchor_sep ∷ line) state lines path ≡ ok (le.anchor, i)
  unfolding resolve_anchor find_anchor
  resolve_anchor-rendered state lines path i le line name distinct small at_i line_i valid one_line
        shown =
      let (name', e, parsed) = from_str-to_string dict d plain le.anchor valid in
      let same : name' ≡ name = ok_injective (sym e ∙ shown) in
      let whole : IsFree newline (name ++ anchor_sep ∷ line) =
        IsFree-append newline name (anchor_sep ∷ line)
          (to_string-IsFree newline dict le.anchor name (omega arith) no_newline shown)
          (omega arith, one_line) in
      rw
        (
          resolve_anchor,
          split_once-free newline (name ++ anchor_sep ∷ line) whole,
          split_once-append anchor_sep name line
              (to_string-IsFree anchor_sep dict le.anchor name (omega arith) no_sep shown),
          ← same,
          parsed,
          position-distinct state.lines i le distinct at_i,
          mod_small i small,
          line_i,
          eq_list_refl (trim line),
        )
        refl
