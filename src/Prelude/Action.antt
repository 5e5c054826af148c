-- ===== src/Prelude/Action.antt =====
-- Code that changes a state and may fail: its changes stand also when it fails.
use frances.Prelude.Results.{Result, ok, err, panic}
use mathlib.Core.Path.{◌≡◌, refl}

abbrev pub Action {ℓ} : Type 0 → Type 0 → Type ℓ → Type ℓ
Action E S A = S → Result E A × S

infixl 5 ◌>>=◌ ◌>>◌
abbrev pub after {ℓ κ} :
    {E S : Type 0} {A : Type ℓ} {B : Type κ} → Result E A × S → (A → Action E S B) → Result E B × S
after (ok a, s) f = f a s
after (err e, s) f = (err e, s)
after (panic, s) f = (panic, s)

unfoldable pub ◌>>=◌ {ℓ κ} :
    {E S : Type 0} {A : Type ℓ} {B : Type κ} → Action E S A → (A → Action E S B) → Action E S B
(m >>= f) s = after (m s) f

unfoldable pub ◌>>◌ {ℓ κ} :
    {E S : Type 0} {A : Type ℓ} {B : Type κ} → Action E S A → Action E S B → Action E S B
unfolding ◌>>=◌
m >> k = m >>= λ _. k

abbrev pub return {ℓ} : {E S : Type 0} {A : Type ℓ} → A → Action E S A
return a s = (ok a, s)

-- A result that no state is changed for.
abbrev pub lift {ℓ} : {E S : Type 0} {A : Type ℓ} → Result E A → Action E S A
lift r s = (r, s)

abbrev pub throw {ℓ} : {E S : Type 0} {A : Type ℓ} → E → Action E S A
throw e s = (err e, s)

-- The code after a call, when the whole has succeeded.
pub after-eq-ok {ℓ κ} :
    {E S : Type 0} {A : Type ℓ} {B : Type κ} (r : Result E A × S) (f : A → Action E S B) {b : B}
    {t : S}
    → after r f ≡ (ok b, t)
    → (a : A) × (s : S) × (r ≡ (ok a, s)) × (f a s ≡ (ok b, t))
after-eq-ok (ok a, s) f h = (a, s, refl, h)
after-eq-ok (err e, s) f h = cc
after-eq-ok (panic, s) f h = cc
