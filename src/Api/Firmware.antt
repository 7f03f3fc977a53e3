-- ===== src/Api/Firmware.antt =====
-- GetFirmwareVersionList.py and GetSOCApplicationVersions.py: versions and their texts.
pub mod Reading
use geberit_aquaclean.Prelude.{
  ℕ, ◌+◌, ◌*◌, ◌/◌, ◌%◌, Option, none, some, List, [], ◌∷◌, ◌++◌, ltb, if◌then◌else◌, length, ok,
}
use geberit_aquaclean.Prelude.Bytes.{Bytes}
use geberit_aquaclean.Prelude.Dict.{lookup, insert}
use geberit_aquaclean.Api.Call.{ApiCall, call}
use geberit_aquaclean.Api.Text.{Text, in_range, str, hex2}

-- Eight ids behind their number, and zeros up to thirteen bytes.
abbrev pub firmware_payload : Bytes
firmware_payload =
    0x08 ∷ 0x01 ∷ 0x03 ∷ 0x04 ∷ 0x05 ∷ 0x06 ∷ 0x07 ∷ 0x08 ∷ 0x09 ∷ 0x00 ∷ 0x00 ∷ 0x00 ∷ 0x00 ∷ []

abbrev pub get_firmware_version_list : Bytes → ApiCall
get_firmware_version_list payload = call 0x01 0x0e 0x01 (ok payload)

pub record Component : Type 0 where
  pub version : Text
  pub build : ℕ

abbrev pub Components : Type 0
Components = List (ℕ × Component)

-- `chr(v) if 0x20 <= v <= 0x7E else f"{v:02X}"`
unfoldable pub shown : ℕ → Text
unfolding hex2
shown v = if in_range 0x20 0x7e v then v ∷ [] else hex2 v

unfoldable pub component_of : ℕ → ℕ → ℕ → Component
unfolding shown
component_of v1 v2 build = record { version = shown v1 ++ shown v2; build = build }

-- `while pos + 4 <= len(data) and len(components) < count`, from `data[pos:]` on. The last record may
-- lack its fifth byte.
unfoldable pub firmware_records : ℕ → Bytes → Components → Components
unfolding component_of
firmware_records count (id ∷ v1 ∷ v2 ∷ build ∷ []) components =
    if ltb (length components) count
    then insert id (component_of v1 v2 build) components
    else components
firmware_records count (id ∷ v1 ∷ v2 ∷ build ∷ reserved ∷ rest) components =
    let more = firmware_records count rest (insert id (component_of v1 v2 build) components) in
    if ltb (length components) count then more else components
firmware_records count _ components = components

-- `f"RS{version}.0 TS{build}"`
unfoldable pub version_text : Text → ℕ → Text
unfolding str
version_text version build = b'R' ∷ b'S' ∷ (version ++ b'.' ∷ b'0' ∷ b' ' ∷ b'T' ∷ b'S' ∷ str build)

unfoldable pub main_version : Option Component → Option Text
unfolding version_text
main_version none = none
main_version (some c) = some (version_text c.version c.build)

pub record FirmwareVersions : Type 0 where
  pub components : Components
  pub main : Option Text

unfoldable pub firmware_versions : Components → FirmwareVersions
unfolding main_version
firmware_versions components = record {
  components = components;
  main = main_version (lookup 1 components);
}

-- `result` of GetFirmwareVersionList.
unfoldable pub firmware_result : Bytes → FirmwareVersions
unfolding firmware_records firmware_versions
firmware_result [] = firmware_versions []
firmware_result (count ∷ rest) = firmware_versions (firmware_records count rest [])

abbrev pub get_soc_application_versions : ApiCall
get_soc_application_versions = call 0x01 0x81 0x01 (ok [])

-- `data.hex()`
abbrev pub lower_digit : ℕ → ℕ
lower_digit n = if ltb n 10 then n + 48 else n + 87

unfoldable pub hex : Bytes → Text
hex [] = []
hex (b ∷ bytes) = lower_digit (b / 16) ∷ lower_digit (b % 16) ∷ hex bytes

-- `result` of GetSOCApplicationVersions. Less than three bytes are shown in hexadecimal.
unfoldable pub soc_versions_result : Bytes → Text
unfolding version_text shown hex
soc_versions_result (b0 ∷ b1 ∷ b2 ∷ []) = version_text (shown b0 ++ shown b1) b2
soc_versions_result (b0 ∷ b1 ∷ b2 ∷ b3 ∷ rest) = version_text (shown b0 ++ shown b1) (b2 + b3 * 256)
soc_versions_result data' = hex data'
