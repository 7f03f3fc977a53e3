-- ===== src/Client/Alba/Base.antt =====
-- AlbaBaseClient.py, apart from what shows times and from the statistics.
pub mod Reads
pub mod Parameters
use geberit_aquaclean.Prelude.{
  ℕ, ◌+◌, ◌-◌, ◌%◌, ◌^◌, Bool, not, Option, none, some, List, [], ◌∷◌, ◌++◌, ◌==◌, ltb, leb,
  if◌then◌else◌, map, length, replicate, set, get_or, Result, ok, err, struct_error, timeout_error,
}
use geberit_aquaclean.Prelude.Bytes.{Bytes, from_le, to_le4}
use geberit_aquaclean.Prelude.Dict.{lookup, insert}
use geberit_aquaclean.Api.Text.{Text, str, text_of}
use geberit_aquaclean.Api.Parameters.{SystemParameterList}
use geberit_aquaclean.Api.Firmware.{FirmwareVersions, version_text}
use geberit_aquaclean.Ble20.Client.{Ble20, Io, ◌>>=◌, ◌>>◌, ret, raise, pure}
use geberit_aquaclean.Ble20.Requests.{
  read, write, caught, optional, poll_state, dp_user_detection_status, dp_anal_shower_status,
}

abbrev pub dp_lady_shower_status : ℕ
dp_lady_shower_status = 872

-- `struct.unpack_from('<I', raw)[0] if len(raw) >= 4 else (raw[0] if raw else 0)`
unfoldable pub number_of : Bytes → ℕ
unfolding from_le
number_of [] = 0
number_of (b0 ∷ b1 ∷ b2 ∷ b3 ∷ rest) = from_le (b0 ∷ b1 ∷ b2 ∷ b3 ∷ [])
number_of (b ∷ rest) = b

abbrev pub number_or_zero : Option Bytes → ℕ
number_or_zero none = 0
number_or_zero (some raw) = number_of raw

abbrev pub spl_dpid : List (Option ℕ)
spl_dpid =
    some dp_user_detection_status
    ∷ none
    ∷ some dp_lady_shower_status
    ∷ some dp_anal_shower_status
    ∷ none
    ∷ none
    ∷ none
    ∷ none
    ∷ []

-- `_u32` of `get_system_parameter_list_async`.
unfoldable pub spl_value : List (ℕ × Bytes) → Option ℕ → ℕ
unfolding number_of
spl_value state none = 0
spl_value state (some dp_id) = number_or_zero (lookup dp_id state)

-- `1 if status >= 3 else 0`
abbrev pub active : ℕ → ℕ
active status = if leb 3 status then 1 else 0

unfoldable pub all_parameters : List (ℕ × Bytes) → List ℕ
unfolding spl_value
all_parameters state =
    let all_data = map (spl_value state) spl_dpid ++ replicate 4 0 in
    let lady = set all_data 2 (active (get_or all_data 2 0)) in
    set lady 3 (active (get_or lady 3 0))

-- The values of the parameters that are asked for, filled up to twelve; all of them where no parameter
-- is named, or twelve or more are.
unfoldable pub select_parameters : List ℕ → List ℕ → List ℕ
select_parameters all_data [] = all_data
select_parameters all_data (p ∷ params) =
    if ltb (length (p ∷ params)) 12
    then map (λ i. get_or all_data i 0) (p ∷ params) ++ replicate (12 - length (p ∷ params)) 0
    else all_data

unfoldable pub get_system_parameter_list_async : List ℕ → Io SystemParameterList
unfolding all_parameters select_parameters
get_system_parameter_list_async params = do
  state ← poll_state
  ret (record { a = 0; data_array = select_parameters (all_parameters state) params })

-- `get_firmware_version_list_async`, where any exception of the two reads gives none.
unfoldable pub read_versions : Io FirmwareVersions
unfolding number_of version_text
read_versions = do
  raw_rs ← read 8 none
  raw_ts ← read 9 none
  ret (record {
    components = [];
    main = some (version_text (str (number_of raw_rs)) (number_of raw_ts));
  })

abbrev pub get_firmware_version_list_async : Io (Option FirmwareVersions)
get_firmware_version_list_async = optional read_versions

-- The settings that have a data point, in the order in which they are read.
abbrev pub profile_setting_dpid : List (ℕ × ℕ)
profile_setting_dpid = (1, 583) ∷ (2, 580) ∷ (4, 581) ∷ (6, 582) ∷ []

unfoldable pub read_settings : List (ℕ × ℕ) → List (ℕ × ℕ) → Io (List (ℕ × ℕ))
unfolding number_of caught
read_settings [] ps = ret ps
read_settings (setting ∷ settings) ps = do
  raw ← optional (read setting.1 none)
  read_settings settings (insert setting.0 (number_or_zero raw) ps)

unfoldable pub get_stored_profile_settings_async : Io (List (ℕ × ℕ))
unfolding read_settings
get_stored_profile_settings_async = read_settings profile_setting_dpid []

-- A setting without a data point raises BLEPeripheralTimeoutError.
unfoldable pub set_stored_profile_setting_async : ℕ → ℕ → Io (Unit {0})
set_stored_profile_setting_async setting_id value = elim (lookup setting_id profile_setting_dpid) [
  | none ↦ raise timeout_error
  | some dp_id ↦ write dp_id (value % 256 ∷ []) none
]

-- `_u32` of the readers: nothing where the read raises or returns no byte.
unfoldable pub number_read : Option Bytes → Option ℕ
unfolding number_of
number_read none = none
number_read (some []) = none
number_read (some (b ∷ bytes)) = some (number_of (b ∷ bytes))

unfoldable pub read_number : ℕ → Io (Option ℕ)
unfolding number_read caught
read_number dp_id = do raw ← optional (read dp_id none); ret (number_read raw)

abbrev pub truth : Option ℕ → Option Bool
truth none = none
truth (some n) = some (not (n == 0))

-- `labels.get(n, str(n)) if n is not None else None`
unfoldable pub label : List (ℕ × Text) → Option ℕ → Option Text
unfolding str
label labels none = none
label labels (some n) = elim (lookup n labels) [ none ↦ some (str n) | some text ↦ some text ]

abbrev pub spray_labels : List (ℕ × Text)
spray_labels =
    (0, text_of "Error")
    ∷ (1, text_of "Disabled")
    ∷ (2, text_of "Ready")
    ∷ (3, text_of "Arm Extending")
    ∷ (4, text_of "Cleaning")
    ∷ (5, text_of "Arm Retracting")
    ∷ []

abbrev pub descaling_labels : List (ℕ × Text)
descaling_labels =
    (0, text_of "Idle")
    ∷ (1, text_of "Preparing")
    ∷ (2, text_of "Waiting for descaler")
    ∷ (3, text_of "Running")
    ∷ (4, text_of "Done")
    ∷ []

-- The dict of `get_misc_state_fast_async`.
pub record MiscState : Type 0 where
  pub active_intensity : Option ℕ
  pub active_position : Option ℕ
  pub active_temperature : Option ℕ
  pub active_oscillation : Option Bool
  pub spray_arm_cleaning_status_raw : Option ℕ
  pub spray_arm_cleaning_status : Option Text
  pub descaling_status_raw : Option ℕ
  pub descaling_status : Option Text
  pub days_until_next_descaling : Option ℕ
  pub unaccounted_shower_cycles : Option ℕ
  pub user_detection_status : Option Bool

unfoldable pub get_misc_state_fast_async : Io MiscState
unfolding read_number label
get_misc_state_fast_async = do
  intensity ← read_number 571
  position ← read_number 573
  temperature ← read_number 575
  osc ← read_number 577
  sac ← read_number 567
  ds ← read_number 585
  days ← read_number 589
  cycles ← read_number 588
  ud ← read_number dp_user_detection_status
  ret (record {
    active_intensity = intensity;
    active_position = position;
    active_temperature = temperature;
    active_oscillation = truth osc;
    spray_arm_cleaning_status_raw = sac;
    spray_arm_cleaning_status = label spray_labels sac;
    descaling_status_raw = ds;
    descaling_status = label descaling_labels ds;
    days_until_next_descaling = days;
    unaccounted_shower_cycles = cycles;
    user_detection_status = truth ud;
  })

-- `struct.pack('<I', value) if value > 255 else bytes([value & 0xFF])`
unfoldable pub dp_bytes : ℕ → Result Bytes
unfolding to_le4
dp_bytes value =
    if ltb 255 value
    then (if ltb value 4294967296 then ok (to_le4 value) else err struct_error)
    else ok (value ∷ [])

unfoldable pub write_dp_async : ℕ → ℕ → Io (Unit {0})
unfolding dp_bytes
write_dp_async dp_id value = do data' ← pure (dp_bytes value); write dp_id data' none
