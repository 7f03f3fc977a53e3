-- ===== src/Ble20/Address.antt =====
-- Ble20Client.py, `encode_address` and `decode_address`: a data point and its instance on the wire.
pub mod RoundTrip
use geberit_aquaclean.Prelude.{
  ℕ, ◌+◌, bit_and, bit_or, Option, none, some, [], ◌∷◌, ltb, if◌then◌else◌, Result, ok, err, ◌>>=◌,
  value_error,
}
use geberit_aquaclean.Prelude.Bits.{◌>>>◌, ◌<<<◌}
use geberit_aquaclean.Prelude.Bytes.{Bytes, at}

-- `bytes([...])` raises ValueError on an instance that is not a byte.
unfoldable pub encode_address : ℕ → Option ℕ → Result Bytes
encode_address dp_id none = ok (bit_and dp_id 0xff ∷ bit_and (dp_id >>> 8) 0x7f ∷ [])
encode_address dp_id (some instance_id) =
    if ltb instance_id 256
    then ok (bit_and dp_id 0xff ∷ bit_or (bit_and (dp_id >>> 8) 0x7f) 0x80 ∷ instance_id ∷ [])
    else err value_error

-- The data point, the instance, and the offset behind the address.
unfoldable pub decode_address : Bytes → ℕ → Result (ℕ × Option ℕ × ℕ)
decode_address data' offset = do
  lo ← at data' offset
  hi ← at data' (offset + 1)
  let dp_id = bit_or (bit_and hi 0x7f <<< 8) lo
  if ltb 0 (bit_and hi 0x80)
      then (at data' (offset + 2) >>= λ i. ok (dp_id, some i, offset + 3))
      else ok (dp_id, none, offset + 2)
