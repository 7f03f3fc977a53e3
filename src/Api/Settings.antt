-- ===== src/Api/Settings.antt =====
-- GetStoredCommonSetting.py, SetStoredCommonSetting.py, SetActiveCommonSetting.py,
-- SetStoredProfileSetting.py, SetCommand.py, SubscribeNotifications.py, and `_GetStoredProfileCall53`
-- of AquaCleanBaseClient.py. A profile setting and a command are given by their numbers.
pub mod RoundTrip
use geberit_aquaclean.Prelude.{ℕ, ◌/◌, ◌%◌, List, [], ◌∷◌, Result, ok, ◌>>=◌, take}
use geberit_aquaclean.Prelude.Bytes.{Bytes, from_le}
use geberit_aquaclean.Message.Crc.{byte_item}
use geberit_aquaclean.Api.Call.{ApiCall, call}

-- `bytes([...])`, which raises ValueError where a number is no byte.
unfoldable pub bytes_of : List ℕ → Result Bytes
unfolding byte_item
bytes_of [] = ok []
bytes_of (n ∷ numbers) = do b ← byte_item n; bytes ← bytes_of numbers; ok (b ∷ bytes)

unfoldable pub get_stored_common_setting : ℕ → ApiCall
unfolding bytes_of
get_stored_common_setting setting_id = call 0x01 0x51 0x01 (bytes_of (setting_id ∷ []))

-- `int.from_bytes(bytes(data[:2]), 'little')`
unfoldable pub setting_value : Bytes → ℕ
unfolding from_le
setting_value data' = from_le (take 2 data')

-- `[value & 0xFF, (value >> 8) & 0xFF]`
unfoldable pub setting_bytes : ℕ → List ℕ
setting_bytes value = value % 256 ∷ value / 256 % 256 ∷ []

unfoldable pub set_stored_common_setting : ℕ → ℕ → ApiCall
unfolding bytes_of setting_bytes
set_stored_common_setting setting_id value =
    call 0x01 0x52 0x01 (bytes_of (setting_id ∷ setting_bytes value))

unfoldable pub set_active_common_setting : ℕ → ℕ → ApiCall
unfolding bytes_of setting_bytes
set_active_common_setting setting_id value =
    call 0x01 0x0b 0x01 (bytes_of (setting_id ∷ setting_bytes value))

-- `profile_id` is 0.
unfoldable pub set_stored_profile_setting : ℕ → ℕ → ApiCall
unfolding bytes_of setting_bytes
set_stored_profile_setting profile_setting value =
    call 0x01 0x54 0x01 (bytes_of (0 ∷ profile_setting ∷ setting_bytes value))

unfoldable pub get_stored_profile_call : ℕ → ApiCall
unfolding bytes_of
get_stored_profile_call setting_id = call 0x01 0x53 0x01 (bytes_of (0 ∷ setting_id ∷ []))

unfoldable pub set_command : ℕ → ApiCall
unfolding bytes_of
set_command command = call 0x01 0x09 0x00 (bytes_of (command ∷ []))

abbrev pub pre_payloads : List Bytes
pre_payloads =
    (0x04 ∷ 0x01 ∷ 0x03 ∷ 0x04 ∷ 0x05 ∷ [])
    ∷ (0x04 ∷ 0x06 ∷ 0x07 ∷ 0x08 ∷ 0x09 ∷ [])
    ∷ (0x04 ∷ 0x0a ∷ 0x0b ∷ 0x0c ∷ 0x0e ∷ [])
    ∷ (0x01 ∷ 0x0f ∷ 0x00 ∷ 0x00 ∷ 0x00 ∷ [])
    ∷ []

abbrev pub payloads : List Bytes
payloads =
    (0x04 ∷ 0x01 ∷ 0x03 ∷ 0x04 ∷ 0x05 ∷ [])
    ∷ (0x04 ∷ 0x06 ∷ 0x07 ∷ 0x08 ∷ 0x09 ∷ [])
    ∷ (0x04 ∷ 0x0a ∷ 0x0b ∷ 0x0c ∷ 0x0e ∷ [])
    ∷ (0x02 ∷ 0x0f ∷ 0x0d ∷ 0x00 ∷ 0x00 ∷ [])
    ∷ []

abbrev pub subscribe_notifications : Bytes → ℕ → ApiCall
subscribe_notifications payload proc = call 0x01 proc 0x01 (ok payload)
