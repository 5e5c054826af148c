-- ===== src/Shell/Tests.antt =====
-- Runs of the search and of the quotation.
use frances.Prelude.{ℕ, ◌≡◌, refl, List, [], ◌∷◌, ◌++◌, some, arith, length}
use frances.Text.{codes}
use frances.Text.Split.{IsFree}
use frances.Shell.{newline, find, shell_single_quote}
use frances.Shell.Framing.{IsQuiet, sentinel, frame, framed, find-framed}
use frances.Shell.Quoting.{outside, unquote, unquote-shell_single_quote}

abbrev output : List ℕ
output = codes "done"

prefix-IsFree : IsFree newline (codes "__F_ab_")
prefix-IsFree = (
  omega arith,
  (omega arith, (omega arith, (omega arith, (omega arith, (omega arith, (omega arith, tt)))))),
)

output-IsQuiet : IsQuiet (sentinel (codes "__F_ab_") (codes "_\n") 0x5f 0x34 (0x32 ∷ [])) output
output-IsQuiet = (
  λ e. absurd (omega arith),
  (λ e. absurd (omega arith), (λ e. absurd (omega arith), (λ e. absurd (omega arith), tt))),
)

-- The exit code 42.
find-framed_example :
    find
      (sentinel (codes "__F_ab_") (codes "_\n") 0x5f 0x34 (0x32 ∷ []))
      (output ++ frame (codes "__F_ab_") (codes "_\n") 0x5f 0x34 (0x32 ∷ []) [])
    ≡ some (framed (codes "__F_ab_") (codes "_\n") 0x5f 0x34 (0x32 ∷ []) (length output))
find-framed_example =
    find-framed (codes "__F_ab_") (codes "_\n") 0x5f 0x34 (0x32 ∷ []) (refl, (refl, tt)) refl
      (omega arith) prefix-IsFree output [] output-IsQuiet

unquote-shell_single_quote_example :
    unquote outside (shell_single_quote (codes "it's")) ≡ some (codes "it's")
unquote-shell_single_quote_example = unquote-shell_single_quote (codes "it's")
