-- ===== src/Prelude/Io.antt =====
-- Coroutines that read and change a state and may raise: what was done before a raise stays done.
use geberit_aquaclean.Prelude.Errors.{Error, Result, ok, err}

abbrev pub and_run : {S A B : Type 0} → Result A × S → (A → S → Result B × S) → Result B × S
and_run (err e, s) f = (err e, s)
and_run (ok a, s) f = f a s

infixl 5 ◌>>=◌ ◌>>◌
abbrev pub ◌>>=◌ : {S A B : Type 0} → (S → Result A × S) → (A → S → Result B × S) → S → Result B × S
◌>>=◌ m f s = and_run (m s) f

abbrev pub ◌>>◌ :
    {S B : Type 0} → (S → Result (Unit {0}) × S) → (S → Result B × S) → S → Result B × S
◌>>◌ m k = m >>= λ _. k

abbrev pub ret : {S A : Type 0} → A → S → Result A × S
ret a s = (ok a, s)

abbrev pub raise : {S A : Type 0} → Error → S → Result A × S
raise e s = (err e, s)

-- A call that does no input or output.
abbrev pub pure : {S A : Type 0} → Result A → S → Result A × S
pure r s = (r, s)
