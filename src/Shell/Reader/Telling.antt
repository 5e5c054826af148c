-- ===== src/Shell/Reader/Telling.antt =====
-- crates/frances-shell/src/reader.rs: what one `ship` puts to what the sink has.
use frances.Prelude.{
  ℕ, zero, suc, ◌≤◌, ◌<◌, ◌≡◌, refl, sym, ap, ◌∙◌, ◌⊎◌, inl, inr, List, [], ◌∷◌, ◌++◌, append_assoc,
  append-nil, map, some, length, take, drop, leb, le_of_leb, lt_of_leb, Bool-cases, arith,
}
use frances.Shell.Reader.{ReadEvent, output, OutputReader, slice, ship}

abbrev pub concat : List (List ℕ) → List ℕ
concat [] = []
concat (x ∷ xs) = x ++ concat xs

concat-append : (xs : List (List ℕ)) (y : List ℕ) → concat (xs ++ y ∷ []) ≡ concat xs ++ y
concat-append [] y = append-nil y
concat-append (x ∷ xs) y =
    ap (λ z. x ++ z) (concat-append xs y) ∙ sym (append_assoc x (concat xs) y)

map-output :
    (xs : List (List ℕ)) (y : List ℕ) → map output (xs ++ y ∷ []) ≡ map output xs ++ output y ∷ []
map-output [] y = refl
map-output (x ∷ xs) y = ap (λ z. output x ∷ z) (map-output xs y)

take-slice :
    {A : Type 0} (a b : ℕ) (xs : List A) → a ≤ b → take a xs ++ drop a (take b xs) ≡ take b xs
take-slice zero b xs l = refl
take-slice (suc a) zero xs l = absurd (omega arith)
take-slice (suc a) (suc b) [] l = refl
take-slice (suc a) (suc b) (x ∷ xs) l = ap (λ z. x ∷ z) (take-slice a b xs (omega arith))

pub take-more :
    {A : Type 0} (n : ℕ) (xs ys : List A) → n ≤ length xs → take n (xs ++ ys) ≡ take n xs
take-more zero xs ys l = refl
take-more (suc n) [] ys l = absurd (omega arith)
take-more (suc n) (x ∷ xs) ys l = ap (λ z. x ∷ z) (take-more n xs ys (omega arith))

lt_weaken : (a b : ℕ) → a < b → a ≤ b
lt_weaken a b l = omega arith

-- Behind the events `log` the sink has the first `shipped` bytes of the buffer, as output events.
pub record IsTelling (log : List ReadEvent) (r : OutputReader) : Type 0 where
  pub chunks : List (List ℕ)
  pub told : r.sink ≡ some (log ++ map output chunks)
  pub sent : concat chunks ≡ take r.shipped r.buf
  pub inside : r.shipped ≤ length r.buf

-- After `ship end`: the same with `end` bytes, or with as many as before if those are more.
pub record IsShipped (log : List ReadEvent) (r t : OutputReader) (end : ℕ) : Type 0 where
  pub telling : IsTelling log t
  pub same_buf : t.buf ≡ r.buf
  pub same_sentinel : t.sentinel ≡ r.sentinel
  pub counted : (t.shipped ≡ end) ⊎ ((t.shipped ≡ r.shipped) × (end ≤ r.shipped))

pub ship-IsShipped :
    (log : List ReadEvent) (r : OutputReader) (end : ℕ)
    → IsTelling log r
    → end ≤ length r.buf
    → IsShipped log r (ship r end) end
unfolding ship
ship-IsShipped log r end h l = elim (Bool-cases (leb end r.shipped)) [
  | inl e ↦
      rw (h.told, e)
        (record {
          telling = record { chunks = h.chunks; told = refl; sent = h.sent; inside = h.inside };
          same_buf = refl;
          same_sentinel = refl;
          counted = inr (refl, le_of_leb end r.shipped e);
        })
  | inr e ↦
      rw (h.told, e)
        (record {
          telling = record {
            chunks = h.chunks ++ slice r.shipped end r.buf ∷ [];
            told = ap some (
                append_assoc log (map output h.chunks) (output (slice r.shipped end r.buf) ∷ [])
                ∙ ap (λ z. log ++ z) (sym (map-output h.chunks (slice r.shipped end r.buf))));
            sent =
                concat-append h.chunks (slice r.shipped end r.buf)
                ∙ ap (λ z. z ++ slice r.shipped end r.buf) h.sent
                ∙ take-slice r.shipped end r.buf
                    (lt_weaken r.shipped end (lt_of_leb end r.shipped e));
            inside = l;
          };
          same_buf = refl;
          same_sentinel = refl;
          counted = inl refl;
        })
]

-- `ship end` that had not gone past `end` has shipped as many bytes.
pub exactly :
    (log : List ReadEvent) (r t : OutputReader) (end : ℕ)
    → IsShipped log r t end
    → r.shipped ≤ end
    → t.shipped ≡ end
exactly log r t end w l = elim (w.counted) [ inl e ↦ e | inr (e, g) ↦ omega (arith, e, g, l) ]
