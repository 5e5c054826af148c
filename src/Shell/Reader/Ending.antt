-- ===== src/Shell/Reader/Ending.antt =====
-- crates/frances-shell/src/reader.rs: the reader does not wait for ever.
use frances.Prelude.{
  ℕ, ◌+◌, ◌≤◌, ◌≡◌, ◌≢◌, refl, sym, ap, subst, inl, inr, List, [], ◌∷◌, ◌++◌, Option, none, some,
  Bool, true, false, Bool-cases, Option-cases, arith,
}
use frances.Shell.{find}
use frances.Shell.Reader.{
  OutputReader, Arrival, late, next_deadline, event_of, due, finish, no_output, max_elapsed,
  take_match, take_quiet, take_eof, ship_safe, Turn, Progress, waiting, returned, broken, read_loop,
  read_until_sentinel,
}
use frances.Shell.Reader.Shipped.{Arrival-cases}

due_at : (max began later : ℕ) → began + max ≤ later → due (some max) began later ≡ true
due_at max began later l = ground arith

module _ {IoError : Type 0} where
  -- When the time is over, nothing is read.
  late_at :
      (limit : Option ℕ) (max began last now : ℕ) (arrival : Arrival IoError)
      → began + max ≤ now
      → event_of (next_deadline limit (some max) began last now) arrival ≡ late
  unfolding event_of next_deadline
  late_at none max began last now arrival l = ground arith
  late_at (some q) max began last now arrival l = ground arith

  is_over : Progress IoError → Bool
  is_over waiting = false
  is_over (returned outcome) = true
  is_over (broken e) = true

  over→returned : (p : Progress IoError) → is_over p ≡ true → p ≢ waiting
  unfolding is_over
  over→returned p h e = cc (h, ap is_over e)

  IsOver : Progress IoError × OutputReader → Type 0
  IsOver r = (is_over r.0 ≡ true)

  module _ (limit : Option ℕ) (max began : ℕ) (final : Turn IoError) (more : List (Turn IoError))
      (over : began + max ≤ final.now) (forward : final.now ≤ final.later) where
    read_loop-IsOver :
        (last : ℕ) (r : OutputReader) (turns : List (Turn IoError))
        → IsOver (read_loop limit (some max) began last r (turns ++ final ∷ more))
    unfolding IsOver is_over read_loop
    read_loop-IsOver last r [] =
        let run = read_loop limit (some max) began last r (final ∷ more) in
        let e = late_at limit max began last final.now final.arrival over in
        elim (Bool-cases (due limit last final.later)) [
          | inl f ↦
              let eq : run ≡ finish (take_quiet r no_output) = rw (read_loop, e, f) refl in
              subst IsOver (sym eq) refl
          | inr f ↦
              let g = due_at max began final.later (omega (arith, over, forward)) in
              let eq : run ≡ finish (take_quiet r max_elapsed) = rw (read_loop, e, f, g) refl in
              subst IsOver (sym eq) refl
        ]
    read_loop-IsOver last r (turn ∷ turns) =
        let run = read_loop limit (some max) began last r (turn ∷ turns ++ final ∷ more) in
        elim (Arrival-cases
          (event_of (next_deadline limit (some max) began last turn.now) turn.arrival)) [
            | inl e ↦
                let eq : run ≡ finish (take_eof r) = rw (read_loop, e) refl in
                subst IsOver (sym eq) refl
            | inr (inl (b, bs, e)) ↦
                let grown : OutputReader = record r { buf = r.buf ++ b ∷ bs } in
                elim (Option-cases (find r.sentinel (r.buf ++ b ∷ bs))) [
                  | inl n ↦
                      let eq : run
                          ≡ read_loop limit (some max) began turn.later (ship_safe grown)
                              (turns ++ final ∷ more) =
                        rw (read_loop, e, n) refl in
                      subst IsOver (sym eq) (read_loop-IsOver turn.later (ship_safe grown) turns)
                  | inr (m, f) ↦
                      let eq : run ≡ finish (take_match grown m) = rw (read_loop, e, f) refl in
                      subst IsOver (sym eq) refl
                ]
            | inr (inr (inl (x, e))) ↦
                let eq : run ≡ (broken x, r) = rw (read_loop, e) refl in subst IsOver (sym eq) refl
            | inr (inr (inr e)) ↦ elim (Bool-cases (due limit last turn.later)) [
              | inl f ↦
                  let eq : run ≡ finish (take_quiet r no_output) = rw (read_loop, e, f) refl in
                  subst IsOver (sym eq) refl
              | inr f ↦ elim (Bool-cases (due (some max) began turn.later)) [
                | inl g ↦
                    let eq : run ≡ finish (take_quiet r max_elapsed) =
                      rw (read_loop, e, f, g) refl in
                    subst IsOver (sym eq) refl
                | inr g ↦
                    let eq : run ≡ read_loop limit (some max) began last r (turns ++ final ∷ more) =
                      rw (read_loop, e, f, g) refl in
                    subst IsOver (sym eq) (read_loop-IsOver last r turns)
              ]
            ]
          ]

-- With a maximum time, whatever arrives in the turns before: once a turn begins when the maximum is
-- over, `read_until_sentinel` waits no longer. It has returned by then, or failed on a read error.
pub read_until_sentinel-returns :
    {IoError : Type 0} (limit : Option ℕ) (max began : ℕ) (r : OutputReader)
    (turns more : List (Turn IoError)) (final : Turn IoError)
    → began + max ≤ final.now
    → final.now ≤ final.later
    → (read_until_sentinel limit (some max) began r (turns ++ final ∷ more)).0 ≢ waiting
unfolding read_until_sentinel IsOver is_over
read_until_sentinel-returns limit max began r turns more final over forward =
    let ended = read_loop-IsOver limit max began final more over forward began r turns in
    let run = read_until_sentinel limit (some max) began r (turns ++ final ∷ more) in
    elim (Option-cases (find r.sentinel r.buf)) [
      | inl n ↦
          let eq : run ≡ read_loop limit (some max) began began r (turns ++ final ∷ more) =
            rw (read_until_sentinel, n) refl in
          over→returned run.0 (subst IsOver (sym eq) ended)
      | inr (m, f) ↦
          let eq : run ≡ finish (take_match r m) = rw (read_until_sentinel, f) refl in
          over→returned run.0 (subst IsOver (sym eq) refl)
    ]
