-- ===== src/Message/Crc/RoundTrip.antt =====
-- `create`, `serialize`, `create_from_bytes` and `is_valid` fit together.
use geberit_aquaclean.Prelude.{
  ℕ, ◌+◌, ◌-◌, ◌*◌, ◌/◌, ◌%◌, ◌≤◌, min, ◌≡◌, refl, ap, ◌∙◌, true, [], ◌∷◌, ◌++◌, arith, ◌==◌,
  length, take, drop, take-append_of_length, ok, ◌>>=◌,
}
use geberit_aquaclean.Prelude.Bits.{bit_and-le}
use geberit_aquaclean.Prelude.Bytes.{Bytes, IsWord, IsByte}
use geberit_aquaclean.Message.Crc.{
  CrcMessage, crc_round, crc_rounds, crc16_calculation, create, create_from_bytes, byte_item,
  serialize, is_valid, blank_body,
}

-- The checksum of the first `n` bytes, where there are so many.
unfoldable pub crc_of : ℕ → Bytes → ℕ
crc_of i2 [] = i2
crc_of i2 (b ∷ bs) = crc_of (crc_round i2 b) bs

crc_round-IsWord : (i2 b : ℕ) → IsWord (crc_round i2 b)
unfolding crc_round
crc_round-IsWord i2 b = omega (arith, bit_and-le _ 0xffff)

crc_of-IsWord : (bs : Bytes) (i2 : ℕ) → IsWord i2 → IsWord (crc_of i2 bs)
unfolding crc_of
crc_of-IsWord [] i2 h = h
crc_of-IsWord (b ∷ bs) i2 h = crc_of-IsWord bs (crc_round i2 b) (crc_round-IsWord i2 b)

crc_rounds-crc_of :
    (bs rest : Bytes) (i2 : ℕ) → crc_rounds i2 (bs ++ rest) (length bs) ≡ ok (crc_of i2 bs)
unfolding crc_rounds crc_of
crc_rounds-crc_of [] rest i2 = refl
crc_rounds-crc_of (b ∷ bs) rest i2 = crc_rounds-crc_of bs rest (crc_round i2 b)

-- The message that `create` makes.
abbrev pub created : ℕ → ℕ → Bytes → CrcMessage
created message_id message_segment data' = record {
  id = message_id;
  segments = message_segment;
  crc16_hi = crc_of 4660 data' / 256;
  crc16_lo = crc_of 4660 data' % 256;
  len_hi = length data' / 256;
  len_lo = length data' % 256;
  body = data' ++ drop (length data') blank_body;
}

pub create_lem : (i seg : ℕ) (data' : Bytes) → create i seg data' ≡ ok (created i seg data')
unfolding create crc16_calculation
create_lem i seg data' = rw (crc_rounds-crc_of data' (drop (length data') blank_body) 4660) refl

-- A created message passes its own check.
pub is_valid-created : (i seg : ℕ) (data' : Bytes) → is_valid (created i seg data') ≡ ok true
unfolding is_valid crc16_calculation
is_valid-created i seg data' =
    let total : length data' / 256 * 256 + length data' % 256 ≡ length data' = omega arith in
    let same : (crc_of 4660 data' == crc_of 4660 data' / 256 * 256 + crc_of 4660 data' % 256)
        ≡ true =
      ground arith in
    rw (total, crc_rounds-crc_of data' (drop (length data') blank_body) 4660) (ap ok same)

byte_item_ok : (n : ℕ) → IsByte n → byte_item n ≡ ok n
unfolding byte_item
byte_item_ok n h = ground arith

-- The bytes of a created message on the wire.
abbrev pub wire : ℕ → ℕ → Bytes → Bytes
wire i seg data' =
    i
    ∷ seg
    ∷ length data' / 256
    ∷ length data' % 256
    ∷ crc_of 4660 data' / 256
    ∷ crc_of 4660 data' % 256
    ∷ (data' ++ drop (length data') blank_body)

pub serialize-created :
    (i seg : ℕ) (data' : Bytes)
    → IsByte i
    → IsByte seg
    → length data' ≤ 256
    → serialize (created i seg data') ≡ ok (wire i seg data')
unfolding serialize
serialize-created i seg data' hi hs hl =
    let n : ℕ = length data' in
    let crc : ℕ = crc_of 4660 data' in
    let word : IsWord crc = crc_of-IsWord data' 4660 (omega arith) in
    rw
      (
        byte_item_ok i hi,
        byte_item_ok seg hs,
        byte_item_ok (n / 256) (omega arith),
        byte_item_ok (n % 256) (omega arith),
        byte_item_ok (crc / 256) (omega arith),
        byte_item_ok (crc % 256) (omega arith),
      )
      refl

pub create_from_bytes-wire :
    (i seg : ℕ) (data' : Bytes)
    → length data' ≤ 256
    → create_from_bytes (wire i seg data') ≡ ok (created i seg data')
unfolding create_from_bytes
create_from_bytes-wire i seg data' hl =
    let n : ℕ = length data' in
    let count : min (n / 256 * 256 + n % 256) 256 ≡ n = omega arith in
    let width : 6 + n - 6 ≡ n = omega arith in
    rw (count, width, take-append_of_length data' (drop n blank_body) refl) refl

-- What `create` makes of at most 256 bytes, with id and segment bytes, holds them, passes its own check,
-- and is read back unchanged from what `serialize` makes of it.
pub create_from_bytes-serialize :
    (i seg : ℕ) (data' : Bytes)
    → IsByte i
    → IsByte seg
    → length data' ≤ 256
    → (m : CrcMessage) × (create i seg data' ≡ ok m)
      × (m.id ≡ i)
      × (m.segments ≡ seg)
      × (take (length data') m.body ≡ data')
      × (is_valid m ≡ ok true)
      × ((serialize m >>= create_from_bytes) ≡ ok m)
create_from_bytes-serialize i seg data' hi hs hl = (
  created i seg data',
  create_lem i seg data',
  refl,
  refl,
  take-append_of_length data' (drop (length data') blank_body) refl,
  is_valid-created i seg data',
  ap (λ r. r >>= create_from_bytes) (serialize-created i seg data' hi hs hl)
      ∙ create_from_bytes-wire i seg data' hl,
)
