-- ===== src/Security/AesCtr.antt =====
-- AriendiSecurity.py, `_AesCtrState`. AES itself is the `cryptography` package's: the parameter
-- `aes key block` is `Cipher(AES(key), ECB()).encryptor().update(block)`.
pub mod Stream
pub mod Counter
use geberit_aquaclean.Prelude.{
  ℕ, ◌+◌, ◌*◌, ◌/◌, ◌%◌, ◌^◌, bit_and, bit_xor, List, [], ◌∷◌, ◌++◌, leb, if◌then◌else◌, take, drop,
  get_or,
}
use geberit_aquaclean.Prelude.Bytes.{Bytes, slice}
use mathlib.Core.List.{foldl}

pub record AesCtrState : Type 0 where
  pub key : Bytes
  pub counter : Bytes
  pub ks : Bytes
  pub pos : ℕ

-- int.from_bytes(data, 'big')
abbrev pub from_be : Bytes → ℕ
from_be = foldl (λ acc b. acc * 256 + b) 0

-- n.to_bytes(4, 'big') for n below 2 ^ 32
unfoldable pub to_be4 : ℕ → Bytes
to_be4 n = n / 16777216 % 256 ∷ n / 65536 % 256 ∷ n / 256 % 256 ∷ n % 256 ∷ []

-- Only the last four bytes of the counter count.
unfoldable pub increment : Bytes → Bytes
increment counter =
    take 12 counter
    ++ (to_be4 (bit_and (from_be (slice 12 16 counter) + 1) 0xffff_ffff) ++ drop 16 counter)

module _ (aes : Bytes → Bytes → Bytes) where
  unfoldable pub init : Bytes → Bytes → AesCtrState
  init key nonce2 = record { key = key; counter = increment nonce2; ks = aes key nonce2; pos = 0 }

  pub next_block : AesCtrState → AesCtrState
  next_block s = record s { counter = increment s.counter; ks = aes s.key s.counter; pos = 0 }

  -- A block has 16 bytes, so the read at `pos` below 16 is in range.
  pub process_byte : AesCtrState → ℕ → ℕ × AesCtrState
  process_byte s b =
      let s' = if leb 16 s.pos then next_block s else s in
      (bit_xor b (get_or s'.ks s'.pos 0), record s' { pos = s'.pos + 1 })

  pub process : AesCtrState → Bytes → Bytes × AesCtrState
  process s [] = ([], s)
  process s (b ∷ bs) =
      let (x, s') = process_byte s b in let (xs, s'') = process s' bs in (x ∷ xs, s'')
