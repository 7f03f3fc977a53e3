-- ===== src/Prelude/Bytes.antt =====
-- Python's `bytes` and `bytearray` as lists of numbers, and the reads and conversions on them.
use Prim.Native.Nat.{ℕ, ◌+◌, ◌-◌, ◌*◌, ◌/◌, ◌%◌, ◌<◌, bit_or}
use mathlib.Core.Path.{◌≡◌, ◌∙◌}
use mathlib.Core.List.{List, [], ◌∷◌}
use native.Mathlib.Omega.{arith}
use geberit_aquaclean.Prelude.Lists.{get_elem?, take, drop, All}
use geberit_aquaclean.Prelude.Errors.{Result, index_error, require}
use geberit_aquaclean.Prelude.Bits.{◌<<<◌, bit_or-shift}

abbrev pub Bytes : Type 0
Bytes = List ℕ

abbrev pub IsByte : ℕ → Type 0
IsByte b = b < 256

abbrev pub IsBytes : Bytes → Type 0
IsBytes = All IsByte

-- data[i], which raises IndexError out of range.
abbrev pub at : Bytes → ℕ → Result ℕ
at xs i = require (get_elem? xs i) index_error

-- data[i:j] with 0 <= i <= j: what is out of range is left out.
abbrev pub slice : ℕ → ℕ → Bytes → Bytes
slice i j xs = take (j - i) (drop i xs)

-- int.from_bytes(data, 'little'), which is 0 on no bytes.
unfoldable pub from_le : Bytes → ℕ
from_le [] = 0
from_le (b ∷ bs) = b + 256 * from_le bs

-- struct.pack('<I', n) where n is below 2 ^ 32.
unfoldable pub to_le4 : ℕ → Bytes
to_le4 n = n % 256 ∷ n / 256 % 256 ∷ n / 65536 % 256 ∷ n / 16777216 % 256 ∷ []

pub from_le-to_le4 : (n : ℕ) → n < 4294967296 → from_le (to_le4 n) ≡ n
unfolding from_le to_le4
from_le-to_le4 n h = omega arith

abbrev pub IsWord : ℕ → Type 0
IsWord w = w < 65536

-- A checksum's two bytes, low one first, joined again by `lo | (hi << 8)`.
pub word_join : (w : ℕ) → bit_or (w % 256) (w / 256 % 256 <<< 8) ≡ w % 65536
word_join w = bit_or-shift 8 (w % 256) (w / 256 % 256) (omega arith) ∙ omega arith
