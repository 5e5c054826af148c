-- ===== src/Shell.antt =====
-- crates/frances-shell/src/proto.rs: how the end of a script is found in its output, and how values
-- are quoted for the shell.
pub mod Framing
pub mod Quoting
pub mod Script
pub mod Reader
pub mod Tests
use frances.Prelude.{
  ℕ, zero, suc, ◌+◌, ◌-◌, ◌*◌, ◌^◌, List, [], ◌∷◌, ◌++◌, Option, none, some, Bool, true, false, leb,
  ltb, ◌==◌, ◌&&◌, ◌||◌, if◌then◌else◌, length,
}
use frances.Prelude.Int.{ℤ, pos, negsuc}
pub use frances.Text.Decimal.{is_digit, value_from}
use frances.Text.{Text, codes, as_bytes, is_empty}

-- `b'\n'`
abbrev pub newline : ℕ
newline = 0x0a

pub record Sentinel : Type 0 where
  pub prefix : List ℕ
  pub suffix : List ℕ

pub record SentinelMatch : Type 0 where
  pub output_len : ℕ
  pub consumed : ℕ
  pub exit_code : ℤ

unfoldable pub new : Text → Sentinel
unfolding as_bytes
new nonce = record {
  prefix = as_bytes (codes "__F_" ++ nonce ++ codes "_");
  suffix = codes "__" ++ newline ∷ [];
}

unfoldable pub max_match_len : Sentinel → ℕ
max_match_len s = 1 + length s.prefix + 11 + length s.suffix

-- `starts_with`, with what comes behind.
unfoldable pub strip_prefix : List ℕ → List ℕ → Option (List ℕ)
strip_prefix [] buf = some buf
strip_prefix (p ∷ ps) [] = none
strip_prefix (p ∷ ps) (b ∷ bs) = if p == b then strip_prefix ps bs else none

-- The digits at the front, and what comes behind them.
unfoldable pub span_digits : List ℕ → List ℕ × List ℕ
span_digits [] = ([], [])
span_digits (b ∷ bs) =
    let (digits, rest) = span_digits bs in if is_digit b then (b ∷ digits, rest) else ([], b ∷ bs)

-- `str::parse::<i32>` on a sign and digits: `none` outside of the range.
unfoldable pub parse_i32 : Bool → List ℕ → Option ℤ
parse_i32 minus digits =
    let n = value_from 0 digits in
    if minus
    then (if leb n (2 ^ 31) then some (if n == 0 then pos 0 else negsuc (n - 1)) else none)
    else (if ltb n (2 ^ 31) then some (pos n) else none)

abbrev pub sign : List ℕ → Bool × List ℕ
sign [] = (false, [])
sign (b ∷ bs) = if b == 0x2d then (true, bs) else (false, b ∷ bs)

abbrev pub sign_len : Bool → ℕ
sign_len minus = if minus then 1 else 0

-- What stands behind the prefix: `none` if it is no number, so that the search goes on.
abbrev pub at_number :
    Sentinel → ℕ → Bool → List ℕ × List ℕ → Option SentinelMatch → Option SentinelMatch
at_number s i minus (digits, rest) later =
    if is_empty digits then later else elim (strip_prefix s.suffix rest) [
      | none ↦ none
      | some behind ↦ elim (parse_i32 minus digits) [
        | none ↦ none
        | some code ↦ some (record {
          output_len = i;
          consumed = i + 1 + length s.prefix + sign_len minus + length digits + length s.suffix;
          exit_code = code;
        })
      ]
    ]

-- The loop, at index `i` of the buffer.
unfoldable pub find_from : Sentinel → ℕ → List ℕ → Option SentinelMatch
unfolding strip_prefix span_digits
find_from s i [] = none
find_from s i (b ∷ bs) =
    let later = find_from s (i + 1) bs in
    if b == newline
    then elim (strip_prefix s.prefix bs) [
      | none ↦ later
      | some behind ↦
          let (minus, number) = sign behind in at_number s i minus (span_digits number) later
    ]
    else later

unfoldable pub find : Sentinel → List ℕ → Option SentinelMatch
unfolding find_from parse_i32
find s buf = find_from s 0 buf

abbrev quote : ℕ
quote = 0x27

abbrev backslash : ℕ
backslash = 0x5c

unfoldable pub quoted : Text → Text
quoted [] = quote ∷ []
quoted (c ∷ cs) =
    if c == quote then quote ∷ backslash ∷ quote ∷ quote ∷ quoted cs else c ∷ quoted cs

unfoldable pub shell_single_quote : Text → Text
unfolding quoted
shell_single_quote s = quote ∷ quoted s

abbrev is_name_start : ℕ → Bool
is_name_start c = (leb 0x41 c && leb c 0x5a) || (leb 0x61 c && leb c 0x7a) || c == 0x5f

abbrev all_name : Text → Bool
all_name [] = true
all_name (c ∷ cs) = (is_name_start c || is_digit c) && all_name cs

unfoldable pub is_bash_name : Text → Bool
is_bash_name [] = false
is_bash_name (c ∷ cs) = is_name_start c && all_name cs
