-- ===== src/Core/Tests.antt =====
-- A run of the cut.
use frances.Prelude.{◌+◌, ◌≤◌, length, false}
use frances.Text.{codes}
use frances.Core.LogFmt.{Truncated, fmt, length-fmt}

abbrev cut : Truncated
cut = record { n = 4; keep_head = false; text = codes "abcdefghij" }

length-fmt_example : length (fmt cut) ≤ 4 + 1
length-fmt_example = length-fmt cut
