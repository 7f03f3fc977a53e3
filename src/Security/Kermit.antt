-- ===== src/Security/Kermit.antt =====
-- AriendiSecurity.py, `_crc16_kermit`, and the two checksum bytes behind a message.
use geberit_aquaclean.Prelude.{
  ℕ, zero, suc, ◌+◌, ◌-◌, bit_and, bit_or, bit_xor, ◌≡◌, refl, ◌∙◌, [], ◌∷◌, ◌++◌, arith, ◌==◌,
  if◌then◌else◌, length, length-append, take, get_or, take-append_of_length, All-append,
}
use geberit_aquaclean.Prelude.Bits.{◌>>>◌, ◌<<<◌, bit_and_byte, bit_xor-lt}
use geberit_aquaclean.Prelude.Bytes.{Bytes, IsByte, IsBytes, IsWord, word_join}
use mathlib.Core.List.{foldl}

-- One round of the inner loop.
unfoldable pub crc_bit : ℕ → ℕ
crc_bit crc = if bit_and crc 1 == 1 then bit_xor (crc >>> 1) 0x8408 else crc >>> 1

-- `for _ in range(n)`.
crc_bits : ℕ → ℕ → ℕ
crc_bits zero crc = crc
crc_bits (suc n) crc = crc_bits n (crc_bit crc)

crc_byte : ℕ → ℕ → ℕ
crc_byte crc byte = crc_bits 8 (bit_xor crc byte)

unfoldable pub crc16_kermit : Bytes → ℕ
unfolding crc_byte crc_bits crc_bit
crc16_kermit data' = foldl crc_byte 0 data'

-- `bytes([crc & 0xFF, (crc >> 8) & 0xFF])`
unfoldable pub crc_bytes : ℕ → Bytes
crc_bytes crc = bit_and crc 0xff ∷ bit_and (crc >>> 8) 0xff ∷ []

crc_bit-IsWord : (crc : ℕ) → IsWord crc → IsWord (crc_bit crc)
unfolding crc_bit
crc_bit-IsWord crc h = ground (arith, bit_xor-lt 16 (crc >>> 1) 0x8408 (omega arith) (omega arith))

crc_bits-IsWord : (n crc : ℕ) → IsWord crc → IsWord (crc_bits n crc)
unfolding crc_bits
crc_bits-IsWord zero crc h = h
crc_bits-IsWord (suc n) crc h = crc_bits-IsWord n (crc_bit crc) (crc_bit-IsWord crc h)

fold-IsWord :
    (data' : Bytes) (crc : ℕ) → IsBytes data' → IsWord crc → IsWord (foldl crc_byte crc data')
unfolding crc_byte
fold-IsWord [] crc hs h = h
fold-IsWord (b ∷ bs) crc (hb, hs) h =
    fold-IsWord bs (crc_byte crc b) hs
      (crc_bits-IsWord 8 (bit_xor crc b) (bit_xor-lt 16 crc b h (omega arith)))

-- The checksum of bytes fits sixteen bits, so its two bytes hold all of it.
pub crc16_kermit-IsWord : (data' : Bytes) → IsBytes data' → IsWord (crc16_kermit data')
unfolding crc16_kermit
crc16_kermit-IsWord data' h = fold-IsWord data' 0 h (omega arith)

pub crc_bytes-IsBytes : (crc : ℕ) → IsBytes (crc_bytes crc)
unfolding crc_bytes
crc_bytes-IsBytes crc = omega (arith, bit_and_byte crc, bit_and_byte (crc >>> 8))

pub length-crc_bytes : (crc : ℕ) → length (crc_bytes crc) ≡ 2
unfolding crc_bytes
length-crc_bytes crc = refl

-- The check of a decoded message: `decoded[-2] | (decoded[-1] << 8)` against the checksum of
-- `decoded[:-2]`. It is made only where `decoded` has two bytes at least.
abbrev pub body_of : Bytes → Bytes
body_of decoded = take (length decoded - 2) decoded

unfoldable pub crc_received : Bytes → ℕ
crc_received decoded =
    let n = length decoded in bit_or (get_or decoded (n - 2) 0) (get_or decoded (n - 1) 0 <<< 8)

length-with_crc : (body : Bytes) (crc : ℕ) → length (body ++ crc_bytes crc) ≡ length body + 2
length-with_crc body crc = omega (arith, length-append body (crc_bytes crc), length-crc_bytes crc)

-- What was sent is the body, and the checksum sent is the one received.
pub body_of-with_crc : (body : Bytes) (crc : ℕ) → body_of (body ++ crc_bytes crc) ≡ body
body_of-with_crc body crc =
    take-append_of_length body (crc_bytes crc) (omega (arith, length-with_crc body crc))

get_or-append : (xs ys : Bytes) (i d : ℕ) → get_or (xs ++ ys) (length xs + i) d ≡ get_or ys i d
get_or-append [] ys i d = let e : 0 + i ≡ i = omega arith in rw e refl
get_or-append (x ∷ xs) ys i d =
    let e : suc (length xs) + i ≡ suc (length xs + i) = omega arith in
    rw e (get_or-append xs ys i d)

pub crc_received-with_crc :
    (body : Bytes) (crc : ℕ) → IsWord crc → crc_received (body ++ crc_bytes crc) ≡ crc
unfolding crc_received crc_bytes
crc_received-with_crc body crc h =
    rw (before, after, low, high, bit_and_byte crc, bit_and_byte (crc >>> 8))
      (word_join crc ∙ omega arith)
  where
    before : length (body ++ crc_bytes crc) - 2 ≡ length body + 0
    before = omega (arith, length-with_crc body crc)

    after : length (body ++ crc_bytes crc) - 1 ≡ length body + 1
    after = omega (arith, length-with_crc body crc)

    low : get_or (body ++ crc_bytes crc) (length body + 0) 0 ≡ bit_and crc 0xff
    low = get_or-append body (crc_bytes crc) 0 0

    high : get_or (body ++ crc_bytes crc) (length body + 1) 0 ≡ bit_and (crc >>> 8) 0xff
    high = get_or-append body (crc_bytes crc) 1 0

-- A message with its checksum behind it.
unfoldable pub sealed : Bytes → Bytes
sealed raw = raw ++ crc_bytes (crc16_kermit raw)

pub sealed-IsBytes : (raw : Bytes) → IsBytes raw → IsBytes (sealed raw)
unfolding sealed
sealed-IsBytes raw h =
    All-append IsByte raw (crc_bytes (crc16_kermit raw)) h (crc_bytes-IsBytes (crc16_kermit raw))

pub length-sealed : (raw : Bytes) → length (sealed raw) ≡ length raw + 2
unfolding sealed
length-sealed raw = length-with_crc raw (crc16_kermit raw)

pub body_of-sealed : (raw : Bytes) → body_of (sealed raw) ≡ raw
unfolding sealed
body_of-sealed raw = body_of-with_crc raw (crc16_kermit raw)

pub crc_received-sealed : (raw : Bytes) → IsBytes raw → crc_received (sealed raw) ≡ crc16_kermit raw
unfolding sealed
crc_received-sealed raw h = crc_received-with_crc raw (crc16_kermit raw) (crc16_kermit-IsWord raw h)
