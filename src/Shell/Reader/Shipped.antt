-- ===== src/Shell/Reader/Shipped.antt =====
-- crates/frances-shell/src/reader.rs: what the sink is sent, and what the caller gets.
use frances.Prelude.{
  ℕ, ◌+◌, ◌-◌, ◌≤◌, ◌≡◌, refl, sym, ap, ◌∙◌, ◌⊎◌, inl, inr, List, [], ◌∷◌, ◌++◌, map, Option, none,
  some, length, length-append, take, drop, arith, take-length,
}
use frances.Shell.{Sentinel, SentinelMatch, max_match_len, find}
use frances.Shell.Reader.{
  ReadOutcome, QuietReason, finished, fell_quiet, ended, ReadEvent, output, quiet, done, dead,
  OutputReader, ship, emit_terminal, ship_safe, take_match, take_quiet, take_eof, Arrival, bytes,
  failed, late, Turn,
}
use frances.Shell.Reader.Located.{find-inside}
use frances.Shell.Reader.Received.{IsReceived}
use frances.Shell.Reader.Telling.{concat, take-more, IsTelling, IsShipped, ship-IsShipped, exactly}

abbrev pub terminal : ReadOutcome → ReadEvent
terminal (finished out code) = done code
terminal (fell_quiet out reason) = quiet reason
terminal (ended out) = dead

-- What the caller gets: all of the bytes, or what stands before the sentinel, and the buffer goes on
-- behind it. The sink was sent the same bytes; with a sentinel, if it is not longer than the reader
-- allows for.
abbrev pub Conveyed : Sentinel → List ℕ → List ℕ → ReadOutcome → OutputReader → Type 0
Conveyed s all sent (finished out code) t =
    (m : SentinelMatch) × (find s all ≡ some m)
    × (out ≡ take m.output_len all)
    × (code ≡ m.exit_code)
    × (t.buf ≡ drop m.consumed all)
    × (m.consumed ≤ m.output_len + max_match_len s → sent ≡ out)
Conveyed s all sent (fell_quiet out reason) t = (out ≡ all) × (t.buf ≡ []) × (sent ≡ out)
Conveyed s all sent (ended out) t = (out ≡ all) × (t.buf ≡ []) × (sent ≡ out)

-- The events are output events and one at the end, which tells the outcome.
pub record IsTold (s : Sentinel) (all : List ℕ) (log : List ReadEvent) (outcome : ReadOutcome)
    (t : OutputReader) : Type 0 where
  pub chunks : List (List ℕ)
  pub told : t.sink ≡ some (log ++ map output chunks ++ terminal outcome ∷ [])
  pub conveyed : Conveyed s all (concat chunks) outcome t
  pub reset : t.shipped ≡ 0

-- They are those of what was received.
pub record IsReported {IoError : Type 0} (s : Sentinel) (limit cap_at : Option ℕ) (began last : ℕ)
    (buf : List ℕ) (turns : List (Turn IoError)) (log : List ReadEvent) (outcome : ReadOutcome)
    (t : OutputReader) : Type 0 where
  pub all : List ℕ
  pub received : IsReceived s limit cap_at began last buf turns all outcome
  pub told : IsTold s all log outcome t

-- The state between the turns.
pub record IsReading (s : Sentinel) (log : List ReadEvent) (r : OutputReader) : Type 0 where
  pub telling : IsTelling log r
  pub same : r.sentinel ≡ s
  pub nothing : find s r.buf ≡ none
  pub reserved : r.shipped ≤ length r.buf - max_match_len s

pub Arrival-cases :
    {IoError : Type 0} (a : Arrival IoError)
    → (a ≡ bytes [])
      ⊎ (((b : ℕ) × (bs : List ℕ) × (a ≡ bytes (b ∷ bs)))
          ⊎ (((e : IoError) × (a ≡ failed e)) ⊎ (a ≡ late)))
Arrival-cases (bytes []) = inl refl
Arrival-cases (bytes (b ∷ bs)) = inr (inl (b, bs, refl))
Arrival-cases (failed e) = inr (inr (inl (e, refl)))
Arrival-cases late = inr (inr (inr refl))

module _ (s : Sentinel) (log : List ReadEvent) where
  pub take_match-IsTold :
      (r : OutputReader) (m : SentinelMatch)
      → IsTelling log r
      → find s r.buf ≡ some m
      → (m.consumed ≤ m.output_len + max_match_len s → r.shipped ≤ m.output_len)
      → IsTold s r.buf log (take_match r m).0 (take_match r m).1
  unfolding take_match emit_terminal
  take_match-IsTold r m h f timely =
      let (ordered, fits) = find-inside s r.buf m f in
      let w = ship-IsShipped log r m.output_len h (omega (arith, ordered, fits)) in
      record {
        chunks = w.telling.chunks;
        told = rw w.telling.told refl;
        conveyed = (
          m,
          f,
          ap (take m.output_len) w.same_buf,
          refl,
          ap (drop m.consumed) w.same_buf,
          λ short.
              w.telling.sent
              ∙ ap (λ n. take n (ship r m.output_len).buf)
                  (exactly log r (ship r m.output_len) m.output_len w (timely short)),
        );
        reset = refl;
      }

  -- Everything in the buffer is shipped, whatever the terminal event.
  emptied :
      (r : OutputReader) (event : ReadEvent)
      → IsTelling log r
      → (chunks : List (List ℕ)) × ((emit_terminal (ship r (length r.buf)) event).sink
          ≡ some (log ++ map output chunks ++ event ∷ []))
        × (concat chunks ≡ (ship r (length r.buf)).buf)
        × ((ship r (length r.buf)).buf ≡ r.buf)
  unfolding emit_terminal
  emptied r event h =
      let w = ship-IsShipped log r (length r.buf) h (omega arith) in
      (
        w.telling.chunks,
        rw w.telling.told refl,
        w.telling.sent
            ∙ ap (λ n. take n (ship r (length r.buf)).buf)
                (exactly log r (ship r (length r.buf)) (length r.buf) w h.inside
                  ∙ ap length (sym w.same_buf))
            ∙ take-length (ship r (length r.buf)).buf,
        w.same_buf,
      )

  pub take_quiet-IsTold :
      (r : OutputReader) (reason : QuietReason)
      → IsTelling log r
      → IsTold s r.buf log (take_quiet r reason).0 (take_quiet r reason).1
  unfolding take_quiet emit_terminal
  take_quiet-IsTold r reason h =
      let (chunks, told, sent, all) = emptied r (quiet reason) h in
      record { chunks = chunks; told = told; conveyed = (all, refl, sent); reset = refl }

  pub take_eof-IsTold :
      (r : OutputReader) → IsTelling log r → IsTold s r.buf log (take_eof r).0 (take_eof r).1
  unfolding take_eof emit_terminal
  take_eof-IsTold r h =
      let (chunks, told, sent, all) = emptied r dead h in
      record { chunks = chunks; told = told; conveyed = (all, refl, sent); reset = refl }

  pub extend-IsTelling :
      (r : OutputReader) (c : List ℕ)
      → IsTelling log r
      → IsTelling log (record r { buf = r.buf ++ c })
  extend-IsTelling r c h = record {
    chunks = h.chunks;
    told = h.told;
    sent = h.sent ∙ sym (take-more r.shipped r.buf c h.inside);
    inside = omega (arith, h.inside, length-append r.buf c);
  }

  reserve :
      (r t : OutputReader)
      → r.sentinel ≡ s
      → IsShipped log r t (length r.buf - max_match_len r.sentinel)
      → r.shipped ≤ length r.buf - max_match_len s
      → t.shipped ≤ length t.buf - max_match_len s
  reserve r t e w l = elim (w.counted) [
    | inl f ↦ omega (arith, f, ap length w.same_buf, ap max_match_len e)
    | inr (f, g) ↦ omega (arith, f, l, ap length w.same_buf)
  ]

  pub ship_safe-IsReading :
      (r : OutputReader) (c : List ℕ)
      → IsReading s log r
      → find s (r.buf ++ c) ≡ none
      → IsReading s log (ship_safe (record r { buf = r.buf ++ c }))
        × ((ship_safe (record r { buf = r.buf ++ c })).buf ≡ r.buf ++ c)
  unfolding ship_safe
  ship_safe-IsReading r c h n =
      let grown : OutputReader = record r { buf = r.buf ++ c } in
      let w =
        ship-IsShipped log grown (length grown.buf - max_match_len grown.sentinel)
          (extend-IsTelling r c h.telling) (omega arith) in
      (
        record {
          telling = w.telling;
          same = w.same_sentinel ∙ h.same;
          nothing = ap (find s) w.same_buf ∙ n;
          reserved =
              reserve grown (ship_safe grown) h.same w
                (omega (arith, h.reserved, length-append r.buf c));
        },
        w.same_buf,
      )
