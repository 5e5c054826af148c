-- ===== src/Shell/Quoting.antt =====
-- What the shell reads back from a quoted word.
use frances.Prelude.{
  ℕ, ◌≡◌, refl, [], ◌∷◌, Option, none, some, true, ◌==◌, if◌then◌else◌, arith, Bool-cases, inl, inr,
}
use mathlib.Core.Option
use frances.Text.{Text}
use frances.Shell.{quoted, shell_single_quote}

pub data Mode : Type 0 where
  outside inside escaped : Mode

-- The shell's rules for a word: outside of quotes a backslash takes the next character as it is, and
-- a quote opens; inside, all characters stand for themselves, up to the closing quote. Any other
-- character outside of quotes would be read in some other way, and there is no value.
unfoldable pub unquote : Mode → Text → Option Text
unquote outside [] = some []
unquote inside [] = none
unquote escaped [] = none
unquote outside (c ∷ cs) =
    let opened = unquote inside cs in
    let taken = unquote escaped cs in
    if c == 0x27 then opened else if c == 0x5c then taken else none
unquote inside (c ∷ cs) =
    let closed = unquote outside cs in
    let more = unquote inside cs in if c == 0x27 then closed else Option.map (λ t. c ∷ t) more
unquote escaped (c ∷ cs) = Option.map (λ t. c ∷ t) (unquote outside cs)

eq_of_test : (a b : ℕ) → a == b ≡ true → a ≡ b
eq_of_test a b h = ground arith

unquote-quoted : (s : Text) → unquote inside (quoted s) ≡ some s
unfolding quoted unquote
unquote-quoted [] = refl
unquote-quoted (c ∷ cs) = elim (Bool-cases (c == 0x27)) [
  | inl e ↦ rw (e, unquote-quoted cs, eq_of_test c 0x27 e) refl
  | inr e ↦ rw (e, e, unquote-quoted cs) refl
]

-- The shell reads any text back from its quotation.
pub unquote-shell_single_quote : (s : Text) → unquote outside (shell_single_quote s) ≡ some s
unfolding shell_single_quote unquote
unquote-shell_single_quote s = unquote-quoted s
