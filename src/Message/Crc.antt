-- ===== src/Message/Crc.antt =====
-- CrcMessage.py. A message is an object whose `body` has 256 bytes, and more where `create` is
-- given more.
pub mod RoundTrip
use geberit_aquaclean.Prelude.{
  ℕ, zero, suc, ◌+◌, ◌-◌, ◌*◌, ◌/◌, ◌%◌, ◌^◌, min, bit_and, bit_or, bit_xor, Bool, [], ◌∷◌, ◌++◌,
  ◌==◌, ltb, if◌then◌else◌, length, drop, replicate, Result, ok, err, index_error, value_error,
  ◌>>=◌,
}
use geberit_aquaclean.Prelude.Bits.{◌>>>◌, ◌<<<◌}
use geberit_aquaclean.Prelude.Bytes.{Bytes, at, slice}

pub record CrcMessage : Type 0 where
  pub id : ℕ
  pub segments : ℕ
  pub crc16_hi : ℕ
  pub crc16_lo : ℕ
  pub len_hi : ℕ
  pub len_lo : ℕ
  pub body : Bytes

-- One round of `crc16_calculation`.
unfoldable pub crc_round : ℕ → ℕ → ℕ
crc_round i2 b =
    let a =
      bit_xor (bit_or (bit_and (i2 <<< 8) 0xff00) (bit_and (i2 >>> 8) 0xff)) (bit_and b 0xff) in
    let c = bit_and (bit_xor a (bit_and a 0xff >>> 4)) 0xffff in
    let d = bit_and (bit_xor c (c <<< 8 <<< 4)) 0xffff in
    bit_and (bit_xor d (bit_and d 0xff <<< 4 <<< 1)) 0xffff

-- `for i3 in range(length)`, which raises IndexError past the end of `data`.
unfoldable pub crc_rounds : ℕ → Bytes → ℕ → Result ℕ
crc_rounds i2 rest zero = ok i2
crc_rounds i2 [] (suc n) = err index_error
crc_rounds i2 (b ∷ rest) (suc n) = crc_rounds (crc_round i2 b) rest n

unfoldable pub crc16_calculation : Bytes → ℕ → Result ℕ
unfolding crc_rounds
crc16_calculation data' n = crc_rounds 4660 data' n

-- `data[:n] = new`, a slice assignment from the front.
abbrev pub assign_front : ℕ → Bytes → Bytes → Bytes
assign_front n new old = new ++ drop n old

-- bytearray(256)
unfoldable pub blank_body : Bytes
blank_body = replicate 256 0

unfoldable pub create_from_bytes : Bytes → Result CrcMessage
create_from_bytes data' = do
  id ← at data' 0
  segments ← at data' 1
  len_hi ← at data' 2
  len_lo ← at data' 3
  crc16_hi ← at data' 4
  crc16_lo ← at data' 5
  let n = min (len_hi * 256 + len_lo) 256
  ok (record {
    id = id;
    segments = segments;
    crc16_hi = crc16_hi;
    crc16_lo = crc16_lo;
    len_hi = len_hi;
    len_lo = len_lo;
    body = assign_front n (slice 6 (6 + n) data') blank_body;
  })

unfoldable pub create : ℕ → ℕ → Bytes → Result CrcMessage
create message_id message_segment data' = do
  let body = assign_front (length data') data' blank_body
  var7 ← crc16_calculation body (length data')
  ok (record {
    id = message_id;
    segments = message_segment;
    crc16_hi = var7 / 256;
    crc16_lo = var7 % 256;
    len_hi = length data' / 256;
    len_lo = length data' % 256;
    body = body;
  })

abbrev pub size_of_header : ℕ
size_of_header = 6

-- `bytearray(262)` with its header bytes and `var3[6:262] = self.body`. An item of a bytearray
-- outside 0..255 raises ValueError.
unfoldable pub byte_item : ℕ → Result ℕ
byte_item n = if ltb n 256 then ok n else err value_error

unfoldable pub serialize : CrcMessage → Result Bytes
serialize m = do
  b0 ← byte_item m.id
  b1 ← byte_item m.segments
  b2 ← byte_item m.len_hi
  b3 ← byte_item m.len_lo
  b4 ← byte_item m.crc16_hi
  b5 ← byte_item m.crc16_lo
  ok (b0 ∷ b1 ∷ b2 ∷ b3 ∷ b4 ∷ b5 ∷ m.body)

unfoldable pub is_valid : CrcMessage → Result Bool
is_valid m = do
  i2 ← crc16_calculation m.body ((m.len_hi <<< 8) + m.len_lo)
  ok (i2 == (m.crc16_hi <<< 8) + m.crc16_lo)
