-- ===== src/Shell/Reader/Received.antt =====
-- crates/frances-shell/src/reader.rs: what the reader is given, and how that comes to an outcome.
use frances.Prelude.{ℕ, ◌≡◌, List, [], ◌∷◌, ◌++◌, Option, none, some, true, false}
use frances.Prelude.Int.{ℤ}
use frances.Shell.{Sentinel, SentinelMatch, find}
use frances.Shell.Reader.{
  ReadOutcome, finished, fell_quiet, ended, no_output, max_elapsed, Arrival, bytes, late,
  next_deadline, event_of, due, Turn,
}

-- From the bytes `buf` and the turns to come, since `last` without new bytes: `all` are these bytes and, in
-- order, all that come before the outcome, which is the first of these: a match among them, the end of the
-- stream, the limit for waiting, or that for the whole run.
module _ {IoError : Type 0} (s : Sentinel) (limit cap_at : Option ℕ) (began : ℕ) where
  -- What a turn comes to, with the deadline that it has.
  abbrev pub event_at : ℕ → Turn IoError → Arrival IoError
  event_at last turn = event_of (next_deadline limit cap_at began last turn.now) turn.arrival

  pub data IsReceived : ℕ → List ℕ → List (Turn IoError) → List ℕ → ReadOutcome → Type 0 where
    matched :
        {last : ℕ} {buf : List ℕ} {turns : List (Turn IoError)} {out : List ℕ} {code : ℤ}
        (m : SentinelMatch)
        → find s buf ≡ some m
        → IsReceived last buf turns buf (finished out code)
    closed :
        {last : ℕ} {buf : List ℕ} {turns : List (Turn IoError)} {out : List ℕ} (turn : Turn IoError)
        → find s buf ≡ none
        → event_at last turn ≡ bytes []
        → IsReceived last buf (turn ∷ turns) buf (ended out)
    no_more :
        {last : ℕ} {buf : List ℕ} {turns : List (Turn IoError)} {out : List ℕ} (turn : Turn IoError)
        → find s buf ≡ none
        → event_at last turn ≡ late
        → due limit last turn.later ≡ true
        → IsReceived last buf (turn ∷ turns) buf (fell_quiet out no_output)
    too_long :
        {last : ℕ} {buf : List ℕ} {turns : List (Turn IoError)} {out : List ℕ} (turn : Turn IoError)
        → find s buf ≡ none
        → event_at last turn ≡ late
        → due limit last turn.later ≡ false
        → due cap_at began turn.later ≡ true
        → IsReceived last buf (turn ∷ turns) buf (fell_quiet out max_elapsed)
    more :
        {last : ℕ} {buf : List ℕ} {turns : List (Turn IoError)} {all : List ℕ}
        {outcome : ReadOutcome} (turn : Turn IoError) (b : ℕ) (bs : List ℕ)
        → find s buf ≡ none
        → event_at last turn ≡ bytes (b ∷ bs)
        → IsReceived turn.later (buf ++ b ∷ bs) turns all outcome
        → IsReceived last buf (turn ∷ turns) all outcome
    waited :
        {last : ℕ} {buf : List ℕ} {turns : List (Turn IoError)} {all : List ℕ}
        {outcome : ReadOutcome} (turn : Turn IoError)
        → find s buf ≡ none
        → event_at last turn ≡ late
        → due limit last turn.later ≡ false
        → due cap_at began turn.later ≡ false
        → IsReceived last buf turns all outcome
        → IsReceived last buf (turn ∷ turns) all outcome
