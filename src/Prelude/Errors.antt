-- ===== src/Prelude/Errors.antt =====
-- Python's exceptions as values. A function that may raise returns a `Result`.
use mathlib.Core.Option.{Option, none, some}

pub data Error : Type 0 where
  value_error index_error key_error attribute_error type_error : Error
  timeout_error io_error struct_error exception : Error

-- A value, or what was raised instead of it.
pub data Result {ℓ} (A : Type ℓ) : Type ℓ where
  err : Error → Result A
  ok : A → Result A

infixl 5 ◌>>=◌
abbrev pub ◌>>=◌ {ℓ ℓ'} : {A : Type ℓ} {B : Type ℓ'} → Result A → (A → Result B) → Result B
err raised >>= next = err raised
ok value >>= next = next value

-- A read that raises `e` where there is nothing to read.
abbrev pub require {ℓ} : {A : Type ℓ} → Option A → Error → Result A
require none e = err e
require (some a) e = ok a
