-- ===== src/Api/Settings/RoundTrip.antt =====
-- What a setting is written as, and read back from.
use geberit_aquaclean.Prelude.{ℕ, ◌%◌, ◌/◌, ◌≡◌, refl, ◌∷◌, ◌++◌, arith, lt→ltb, ok}
use geberit_aquaclean.Prelude.Bytes.{Bytes, IsByte, from_le}
use geberit_aquaclean.Message.Crc.{byte_item}
use geberit_aquaclean.Api.Settings.{
  bytes_of, setting_value, setting_bytes, set_stored_common_setting, set_active_common_setting,
  set_stored_profile_setting,
}

-- The two bytes that are written are read back as the value modulo 2 ^ 16.
pub setting_value-setting_bytes :
    (value : ℕ) (rest : Bytes) → setting_value (setting_bytes value ++ rest) ≡ value % 65536
unfolding setting_value setting_bytes from_le
setting_value-setting_bytes value rest = omega arith

byte_item-byte : (n : ℕ) → IsByte n → byte_item n ≡ ok n
unfolding byte_item
byte_item-byte n h = rw (lt→ltb n 256 h) refl

-- The three writes raise nothing where the id is a byte, whatever the value, and end with its bytes.
pub set_setting-payloads :
    (id value : ℕ)
    → IsByte id
    → ((set_stored_common_setting id value).payload ≡ ok (id ∷ setting_bytes value))
      × ((set_active_common_setting id value).payload ≡ ok (id ∷ setting_bytes value))
      × ((set_stored_profile_setting id value).payload ≡ ok (0 ∷ id ∷ setting_bytes value))
unfolding set_stored_common_setting set_active_common_setting set_stored_profile_setting bytes_of
    setting_bytes
set_setting-payloads id value h =
    let low = byte_item-byte (value % 256) (omega arith) in
    let high = byte_item-byte (value / 256 % 256) (omega arith) in
    (
      rw (byte_item-byte id h, low, high) refl,
      rw (byte_item-byte id h, low, high) refl,
      rw (byte_item-byte id h, low, high) refl,
    )
