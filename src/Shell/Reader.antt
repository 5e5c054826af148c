-- ===== src/Shell/Reader.antt =====
-- crates/frances-shell/src/reader.rs: reading a script's output up to the sentinel.
pub mod Located
pub mod Received
pub mod Telling
pub mod Shipped
pub mod Reported
pub mod Ending
mod Tests
use frances.Prelude.{
  ℕ, ◌+◌, ◌-◌, List, [], ◌∷◌, ◌++◌, Option, none, some, Bool, true, false, if◌then◌else◌, leb, ◌==◌,
  length, take, drop,
}
use mathlib.Core.Option
use frances.Prelude.Int.{ℤ}
use frances.Shell.{Sentinel, SentinelMatch, max_match_len, find}

pub data QuietReason : Type 0 where
  no_output : QuietReason
  max_elapsed : QuietReason

pub data ReadOutcome : Type 0 where
  finished : List ℕ → ℤ → ReadOutcome
  fell_quiet : List ℕ → QuietReason → ReadOutcome
  ended : List ℕ → ReadOutcome

pub data ReadEvent : Type 0 where
  output : List ℕ → ReadEvent
  quiet : QuietReason → ReadEvent
  done : ℤ → ReadEvent
  dead : ReadEvent

-- The sink is given by the events that were sent to it.
pub record OutputReader : Type 0 where
  pub sentinel : Sentinel
  pub buf : List ℕ
  pub sink : Option (List ReadEvent)
  pub shipped : ℕ

unfoldable pub new_reader : Sentinel → OutputReader
new_reader sentinel = record { sentinel = sentinel; buf = []; sink = none; shipped = 0 }

unfoldable pub set_sink : OutputReader → Option (List ReadEvent) → OutputReader
set_sink r sink = record r { sink = sink; shipped = 0 }

-- `buf[a..b]`, for bounds in the buffer.
abbrev pub slice : ℕ → ℕ → List ℕ → List ℕ
slice a b buf = drop a (take b buf)

unfoldable pub ship : OutputReader → ℕ → OutputReader
ship r end = elim r.sink [
  | none ↦ r
  | some sent ↦
      if leb end r.shipped
      then r
      else record r { sink = some (sent ++ output (slice r.shipped end r.buf) ∷ []); shipped = end }
]

unfoldable pub emit_terminal : OutputReader → ReadEvent → OutputReader
emit_terminal r event = record r { sink = Option.map (λ sent. sent ++ event ∷ []) r.sink }

unfoldable pub ship_safe : OutputReader → OutputReader
unfolding ship
ship_safe r = ship r (length r.buf - max_match_len r.sentinel)

unfoldable pub take_match : OutputReader → SentinelMatch → ReadOutcome × OutputReader
unfolding ship emit_terminal
take_match r m =
    let told = emit_terminal (ship r m.output_len) (done m.exit_code) in
    (
      finished (take m.output_len told.buf) m.exit_code,
      record told { buf = drop m.consumed told.buf; shipped = 0 },
    )

unfoldable pub take_quiet : OutputReader → QuietReason → ReadOutcome × OutputReader
unfolding ship emit_terminal
take_quiet r reason =
    let told = emit_terminal (ship r (length r.buf)) (quiet reason) in
    (fell_quiet told.buf reason, record told { buf = []; shipped = 0 })

unfoldable pub take_eof : OutputReader → ReadOutcome × OutputReader
unfolding ship emit_terminal
take_eof r =
    let told = emit_terminal (ship r (length r.buf)) dead in
    (ended told.buf, record told { buf = []; shipped = 0 })

-- What a read comes to: bytes, none at the end of the stream, an error, or the deadline first.
pub data Arrival (IoError : Type 0) : Type 0 where
  bytes : List ℕ → Arrival IoError
  failed : IoError → Arrival IoError
  late : Arrival IoError

-- A turn of the loop: the time when it begins, what comes and the time then.
pub record Turn (IoError : Type 0) : Type 0 where
  pub now : ℕ
  pub arrival : Arrival IoError
  pub later : ℕ

pub data Progress (IoError : Type 0) : Type 0 where
  waiting : Progress IoError
  returned : ReadOutcome → Progress IoError
  broken : IoError → Progress IoError

-- What is left until the next deadline.
abbrev left_until : ℕ → ℕ → ℕ → ℕ
left_until limit since now = limit - (now - since)

abbrev pub due : Option ℕ → ℕ → ℕ → Bool
due none since now = false
due (some limit) since now = leb limit (now - since)

abbrev sooner : Option ℕ → Option ℕ → Option ℕ
sooner none b = b
sooner (some a) none = some a
sooner (some a) (some b) = some (if leb a b then a else b)

unfoldable pub next_deadline : Option ℕ → Option ℕ → ℕ → ℕ → ℕ → Option ℕ
next_deadline limit cap_at start last now =
    sooner (Option.map (λ q. left_until q last now) limit)
      (Option.map (λ q. left_until q start now) cap_at)

module _ {IoError : Type 0} where
  abbrev pub finish : ReadOutcome × OutputReader → Progress IoError × OutputReader
  finish (outcome, r) = (returned outcome, r)

  -- When a deadline has passed nothing is read.
  unfoldable pub event_of : Option ℕ → Arrival IoError → Arrival IoError
  event_of none arrival = arrival
  event_of (some d) arrival = if d == 0 then late else arrival

  -- The loop over turns, which wait for more when there are none left. `start` is when it began and
  -- `last` when the last bytes came.
  unfoldable pub read_loop :
      Option ℕ
      → Option ℕ
      → ℕ
      → ℕ
      → OutputReader
      → List (Turn IoError)
      → Progress IoError × OutputReader
  unfolding take_match take_quiet take_eof ship_safe next_deadline event_of
  read_loop limit cap_at start last r [] = (waiting, r)
  read_loop limit cap_at start last r (turn ∷ turns) =
      elim (event_of (next_deadline limit cap_at start last turn.now) turn.arrival) [
        | bytes [] ↦ finish (take_eof r)
        | bytes (b ∷ bs) ↦
            let grown = record r { buf = r.buf ++ b ∷ bs } in
            elim (find r.sentinel (r.buf ++ b ∷ bs)) [
              | some m ↦ finish (take_match grown m)
              | none ↦ read_loop limit cap_at start turn.later (ship_safe grown) turns
            ]
        | failed e ↦ (broken e, r)
        | late ↦
            let again = read_loop limit cap_at start last r turns in
            if due limit last turn.later
            then finish (take_quiet r no_output)
            else if due cap_at start turn.later
            then finish (take_quiet r max_elapsed)
            else again
      ]

  unfoldable pub read_until_sentinel :
      Option ℕ → Option ℕ → ℕ → OutputReader → List (Turn IoError) → Progress IoError × OutputReader
  unfolding read_loop take_match
  read_until_sentinel limit cap_at start r turns = elim (find r.sentinel r.buf) [
    | some m ↦ finish (take_match r m)
    | none ↦ read_loop limit cap_at start start r turns
  ]
