-- ===== src/Shell/Reader/Tests.antt =====
-- Runs of the reader: the sentinel in two parts, and a time limit.
use frances.Prelude.{ℕ, ◌≡◌, ◌≢◌, refl, List, [], ◌∷◌, ◌++◌, some, none, arith}
use frances.Prelude.Int.{pos}
use frances.Text.{codes}
use frances.Shell.{Sentinel, newline, find, max_match_len}
use frances.Shell.Reader.{
  OutputReader, finished, Turn, bytes, late, waiting, returned, read_until_sentinel, output, done,
}
use frances.Shell.Reader.Shipped.{IsReported}
use frances.Shell.Reader.Reported.{read_until_sentinel-IsReported}
use frances.Shell.Reader.Ending.{read_until_sentinel-returns}

abbrev mark : Sentinel
mark = record { prefix = codes "F_"; suffix = newline ∷ [] }

abbrev reader : OutputReader
reader = record { sentinel = mark; buf = []; sink = some []; shipped = 0 }

abbrev first : List ℕ
first = codes "a long line of output" ++ newline ∷ codes "F"

abbrev second : List ℕ
second = codes "_0" ++ newline ∷ codes "b"

abbrev turns : List (Turn ℕ)
turns =
    record { now = 0; arrival = bytes first; later = 1 }
    ∷ record { now = 1; arrival = bytes second; later = 2 }
    ∷ []

abbrev last_state : OutputReader
last_state = record {
  sentinel = mark;
  buf = codes "b";
  sink = some (output (codes "a long l") ∷ output (codes "ine of output") ∷ done (pos 0) ∷ []);
  shipped = 0;
}

-- What was held back is sent when the sentinel has come.
runs :
    read_until_sentinel none none 0 reader turns
    ≡ (returned (finished (codes "a long line of output") (pos 0)), last_state)
unfolding read_until_sentinel find max_match_len
runs = refl

read_until_sentinel-IsReported_example :
    IsReported mark none none 0 0 [] turns []
      (finished (codes "a long line of output") (pos 0))
      last_state
read_until_sentinel-IsReported_example =
    read_until_sentinel-IsReported none none 0 reader last_state turns []
      (finished (codes "a long line of output") (pos 0)) (omega arith) refl refl runs

abbrev over : Turn ℕ
over = record { now = 9; arrival = late; later = 9 }

read_until_sentinel-returns_example :
    (read_until_sentinel none
      (some 7)
      1
      reader
      (record { now = 1; arrival = bytes first; later = 2 } ∷ over ∷ [])).0
    ≢ waiting
read_until_sentinel-returns_example =
    read_until_sentinel-returns none 7 1 reader
      (record { now = 1; arrival = bytes first; later = 2 } ∷ []) [] over (omega arith)
      (omega arith)
