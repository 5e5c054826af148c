-- ===== src/Shell/Reader/Reported.antt =====
-- crates/frances-shell/src/reader.rs: the sink and the caller are told what was received.
use frances.Prelude.{
  ℕ, ◌≤◌, ◌≡◌, refl, sym, ap, subst, ◌∙◌, inl, inr, List, [], ◌∷◌, ◌++◌, append-nil, Option, some,
  length, take, Bool-cases, Option-cases, arith,
}
use frances.Shell.{Sentinel, SentinelMatch, find}
use frances.Shell.Reader.{
  ReadOutcome, ReadEvent, OutputReader, bytes, late, ship_safe, take_match, take_quiet, take_eof,
  due, finish, no_output, max_elapsed, Turn, Progress, waiting, returned, broken, read_loop,
  read_until_sentinel,
}
use frances.Shell.Reader.Located.{find-held}
use frances.Shell.Reader.Telling.{IsTelling}
use frances.Shell.Reader.Received.{
  IsReceived, matched, closed, no_more, too_long, more, waited, event_at,
}
use frances.Shell.Reader.Shipped.{
  IsTold, IsReported, IsReading, Arrival-cases, take_match-IsTold, take_quiet-IsTold,
  take_eof-IsTold, extend-IsTelling, ship_safe-IsReading,
}

-- A match that more bytes have brought.
matched-IsTold :
    (s : Sentinel) (log : List ReadEvent)
    → 1 ≤ length s.suffix
    → (r : OutputReader) (c : List ℕ) (m : SentinelMatch) → IsReading s log r
    → find s (r.buf ++ c) ≡ some m
    → IsTold s
        (r.buf ++ c)
        log
        (take_match (record r { buf = r.buf ++ c }) m).0
        (take_match (record r { buf = r.buf ++ c }) m).1
matched-IsTold s log ends r c m h f =
    let late_end = find-held s ends r.buf c m h.nothing f in
    take_match-IsTold s log (record r { buf = r.buf ++ c }) m (extend-IsTelling s log r c h.telling)
      f (λ short. omega (arith, late_end, short, h.reserved))

module _ {IoError : Type 0} (s : Sentinel) (log : List ReadEvent) (ends : 1 ≤ length s.suffix)
    (limit cap_at : Option ℕ) (began : ℕ) where
  -- A run that returns has reported, and one that goes on or fails has the sink at the output.
  Reports : ℕ → List ℕ → List (Turn IoError) → Progress IoError × OutputReader → Type 0
  Reports last buf turns (waiting, t) = IsTelling log t
  Reports last buf turns (returned outcome, t) =
      IsReported s limit cap_at began last buf turns log outcome t
  Reports last buf turns (broken e, t) = IsTelling log t

  -- A turn before those of a run.
  Reports-before :
      (last later : ℕ) (buf grown : List ℕ) (turn : Turn IoError) (turns : List (Turn IoError))
      (run : Progress IoError × OutputReader)
      → ((all : List ℕ) (outcome : ReadOutcome)
          → IsReceived s limit cap_at began later grown turns all outcome
          → IsReceived s limit cap_at began last buf (turn ∷ turns) all outcome)
      → Reports later grown turns run
      → Reports last buf (turn ∷ turns) run
  unfolding Reports
  Reports-before last later buf grown turn turns (waiting, t) step h = h
  Reports-before last later buf grown turn turns (returned outcome, t) step h = record {
    all = h.all;
    received = step h.all outcome h.received;
    told = h.told;
  }
  Reports-before last later buf grown turn turns (broken e, t) step h = h

  -- Bytes come, with a match or without.
  bytes-Reports :
      (last : ℕ) (r : OutputReader) (turn : Turn IoError) (turns : List (Turn IoError)) (b : ℕ)
      (bs : List ℕ)
      → IsReading s log r
      → event_at s limit cap_at began last turn ≡ bytes (b ∷ bs)
      → ((t : OutputReader)
          → IsReading s log t
          → Reports turn.later t.buf turns (read_loop limit cap_at began turn.later t turns))
      → Reports last r.buf (turn ∷ turns) (read_loop limit cap_at began last r (turn ∷ turns))
  unfolding Reports read_loop take_match
  bytes-Reports last r turn turns b bs h e rest =
      let run = read_loop limit cap_at began last r (turn ∷ turns) in
      let grown : OutputReader = record r { buf = r.buf ++ b ∷ bs } in
      elim (Option-cases (find r.sentinel (r.buf ++ b ∷ bs))) [
        | inl n ↦
            let eq : run ≡ read_loop limit cap_at began turn.later (ship_safe grown) turns =
              rw (read_loop, e, n) refl in
            let (reading, same_buf) = ship_safe-IsReading s log r (b ∷ bs) h (rw h.same at n) in
            subst (Reports last r.buf (turn ∷ turns)) (sym eq) (
              Reports-before last turn.later r.buf (r.buf ++ b ∷ bs) turn turns
                (read_loop limit cap_at began turn.later (ship_safe grown) turns)
                (λ all outcome. more turn b bs h.nothing e)
                (subst
                  (λ buf.
                    Reports turn.later buf turns
                      (read_loop limit cap_at began turn.later (ship_safe grown) turns))
                  same_buf (rest (ship_safe grown) reading)))
        | inr (m, f) ↦
            let eq : run ≡ finish (take_match grown m) = rw (read_loop, e, f) refl in
            let found : find s (r.buf ++ b ∷ bs) ≡ some m = rw h.same at f in
            subst (Reports last r.buf (turn ∷ turns)) (sym eq) (record {
              all = r.buf ++ b ∷ bs;
              received = more turn b bs h.nothing e (matched m found);
              told = matched-IsTold s log ends r (b ∷ bs) m h found;
            })
      ]

  -- The deadline comes first.
  late-Reports :
      (last : ℕ) (r : OutputReader) (turn : Turn IoError) (turns : List (Turn IoError))
      → IsReading s log r
      → event_at s limit cap_at began last turn ≡ late
      → Reports last r.buf turns (read_loop limit cap_at began last r turns)
      → Reports last r.buf (turn ∷ turns) (read_loop limit cap_at began last r (turn ∷ turns))
  unfolding Reports read_loop take_quiet
  late-Reports last r turn turns h e rest =
      let run = read_loop limit cap_at began last r (turn ∷ turns) in
      elim (Bool-cases (due limit last turn.later)) [
        | inl f ↦
            let eq : run ≡ finish (take_quiet r no_output) = rw (read_loop, e, f) refl in
            subst (Reports last r.buf (turn ∷ turns)) (sym eq) (record {
              all = r.buf;
              received = no_more turn h.nothing e f;
              told = take_quiet-IsTold s log r no_output h.telling;
            })
        | inr f ↦ elim (Bool-cases (due cap_at began turn.later)) [
          | inl g ↦
              let eq : run ≡ finish (take_quiet r max_elapsed) = rw (read_loop, e, f, g) refl in
              subst (Reports last r.buf (turn ∷ turns)) (sym eq) (record {
                all = r.buf;
                received = too_long turn h.nothing e f g;
                told = take_quiet-IsTold s log r max_elapsed h.telling;
              })
          | inr g ↦
              let eq : run ≡ read_loop limit cap_at began last r turns =
                rw (read_loop, e, f, g) refl in
              subst (Reports last r.buf (turn ∷ turns)) (sym eq) (
                Reports-before last last r.buf r.buf turn turns
                  (read_loop limit cap_at began last r turns)
                  (λ all outcome. waited turn h.nothing e f g) rest)
        ]
      ]

  read_loop-Reports :
      (last : ℕ) (r : OutputReader) (turns : List (Turn IoError))
      → IsReading s log r
      → Reports last r.buf turns (read_loop limit cap_at began last r turns)
  unfolding Reports read_loop take_eof
  read_loop-Reports last r [] h = h.telling
  read_loop-Reports last r (turn ∷ turns) h =
      let run = read_loop limit cap_at began last r (turn ∷ turns) in
      elim (Arrival-cases (event_at s limit cap_at began last turn)) [
        | inl e ↦
            let eq : run ≡ finish (take_eof r) = rw (read_loop, e) refl in
            subst (Reports last r.buf (turn ∷ turns)) (sym eq) (record {
              all = r.buf;
              received = closed turn h.nothing e;
              told = take_eof-IsTold s log r h.telling;
            })
        | inr (inl (b, bs, e)) ↦
            bytes-Reports last r turn turns b bs h e (λ t k. read_loop-Reports turn.later t turns k)
        | inr (inr (inl (x, e))) ↦
            let eq : run ≡ (broken x, r) = rw (read_loop, e) refl in
            subst (Reports last r.buf (turn ∷ turns)) (sym eq) h.telling
        | inr (inr (inr e)) ↦ late-Reports last r turn turns h e (read_loop-Reports last r turns h)
      ]

  read_until_sentinel-Reports :
      (r : OutputReader) (turns : List (Turn IoError))
      → r.sentinel ≡ s
      → r.sink ≡ some log
      → r.shipped ≡ 0
      → Reports began r.buf turns (read_until_sentinel limit cap_at began r turns)
  unfolding Reports read_until_sentinel take_match
  read_until_sentinel-Reports r turns es el ez =
      let run = read_until_sentinel limit cap_at began r turns in
      let telling : IsTelling log r = record {
        chunks = [];
        told = el ∙ ap some (sym (append-nil log));
        sent = ap (λ n. take n r.buf) (sym ez);
        inside = omega (arith, ez);
      } in
      elim (Option-cases (find r.sentinel r.buf)) [
        | inl n ↦
            let eq : run ≡ read_loop limit cap_at began began r turns =
              rw (read_until_sentinel, n) refl in
            subst (Reports began r.buf turns) (sym eq) (
              read_loop-Reports began r turns (record {
                telling = telling;
                same = es;
                nothing = rw es at n;
                reserved = omega (arith, ez);
              }))
        | inr (m, f) ↦
            let eq : run ≡ finish (take_match r m) = rw (read_until_sentinel, f) refl in
            let found : find s r.buf ≡ some m = rw es at f in
            subst (Reports began r.buf turns) (sym eq) (record {
              all = r.buf;
              received = matched m found;
              told = take_match-IsTold s log r m telling found (λ short. omega (arith, ez));
            })
      ]

-- A reader with a sink, to which nothing of its buffer was shipped, for a sentinel with a suffix: when
-- `read_until_sentinel` returns, the bytes that it goes by are those that it had and, in order, all that
-- came before the outcome, and the outcome is the first of these: a match among them, the end of the
-- stream, the limit for waiting, or that for the whole run. With a match the caller gets what stands
-- before it and its code, and the buffer goes on behind it; else the caller gets all of the bytes, and
-- the buffer is empty. The sink has been sent output events and then the one event that tells the outcome.
-- Together the output events are the output that the caller gets, with a match if that is not longer than
-- the reader allows for.
pub read_until_sentinel-IsReported :
    {IoError : Type 0} (limit cap_at : Option ℕ) (began : ℕ) (r t : OutputReader)
    (turns : List (Turn IoError)) (log : List ReadEvent) (outcome : ReadOutcome)
    → 1 ≤ length r.sentinel.suffix
    → r.sink ≡ some log
    → r.shipped ≡ 0
    → read_until_sentinel limit cap_at began r turns ≡ (returned outcome, t)
    → IsReported r.sentinel limit cap_at began began r.buf turns log outcome t
unfolding Reports
read_until_sentinel-IsReported limit cap_at began r t turns log outcome ends el ez h =
    let told =
      read_until_sentinel-Reports r.sentinel log ends limit cap_at began r turns refl el ez in
    rw h at told
