-- ===== src/Client/Alba/Misc.antt =====
-- AlbaBaseClient.py, `get_misc_state_async`, whose dict is in five parts. The library's `strftime` on a
-- number of seconds is the parameter `utc_time`, without a value where it raises.
pub mod Whole
use geberit_aquaclean.Prelude.{ℕ, zero, suc, Bool, Option, none, some, List, [], ◌∷◌}
use geberit_aquaclean.Prelude.Bytes.{Bytes}
use geberit_aquaclean.Api.Text.{Text, str, text_of}
use geberit_aquaclean.Api.Firmware.{hex}
use geberit_aquaclean.Ble20.Client.{Io, ◌>>=◌, ret}
use geberit_aquaclean.Ble20.Requests.{read, optional, caught, dp_user_detection_status}
use geberit_aquaclean.Client.Alba.Base.{read_number, truth, label, spray_labels, descaling_labels}

-- `_ts`: no time for 0.
unfoldable pub time_of : (ℕ → Option Text) → Option ℕ → Option Text
unfolding str
time_of utc_time none = none
time_of utc_time (some zero) = none
time_of utc_time (some (suc v)) = elim (utc_time (suc v)) [
  | none ↦ some (str (suc v))
  | some text ↦ some text
]

abbrev pub lock_labels : List (ℕ × Text)
lock_labels = (0, text_of "Unlocked") ∷ (1, text_of "Pre-locked") ∷ (2, text_of "Locked") ∷ []

abbrev pub registration_labels : List (ℕ × Text)
registration_labels = (0, text_of "None") ∷ (1, text_of "Basic") ∷ (2, text_of "Full") ∷ []

pub record ShowerState : Type 0 where
  pub active_intensity : Option ℕ
  pub active_position : Option ℕ
  pub active_temperature : Option ℕ
  pub active_oscillation : Option Bool
  pub spray_arm_cleaning_status_raw : Option ℕ
  pub spray_arm_cleaning_status : Option Text

unfoldable pub read_shower : Io ShowerState
unfolding read_number label
read_shower = do
  sac ← read_number 567
  intensity ← read_number 571
  position ← read_number 573
  temperature ← read_number 575
  oscillation ← read_number 577
  ret (record {
    active_intensity = intensity;
    active_position = position;
    active_temperature = temperature;
    active_oscillation = truth oscillation;
    spray_arm_cleaning_status_raw = sac;
    spray_arm_cleaning_status = label spray_labels sac;
  })

pub record DescalingState : Type 0 where
  pub descaling_status_raw : Option ℕ
  pub descaling_status : Option Text
  pub days_until_next_descaling : Option ℕ
  pub descaling_cycles : Option ℕ
  pub credits_until_next_descaling : Option ℕ
  pub descaling_device_lock_remaining_days : Option ℕ
  pub descaling_device_relock_remaining_cycles : Option ℕ
  pub descaling_device_lock_status_raw : Option ℕ
  pub descaling_device_lock_status : Option Text
  pub unaccounted_shower_cycles : Option ℕ
  pub timestamp_last_descaling : Option Text
  pub timestamp_last_descaling_request : Option Text

unfoldable pub read_descaling : (ℕ → Option Text) → Io DescalingState
unfolding read_number label time_of
read_descaling utc_time = do
  ds_raw ← read_number 585
  days ← read_number 589
  cycles ← read_number 592
  credits ← read_number 781
  remaining_days ← read_number 977
  remaining_cycles ← read_number 979
  desc_lock_raw ← read_number 983
  unaccounted ← read_number 588
  last ← read_number 590
  last_request ← read_number 591
  ret (record {
    descaling_status_raw = ds_raw;
    descaling_status = label descaling_labels ds_raw;
    days_until_next_descaling = days;
    descaling_cycles = cycles;
    credits_until_next_descaling = credits;
    descaling_device_lock_remaining_days = remaining_days;
    descaling_device_relock_remaining_cycles = remaining_cycles;
    descaling_device_lock_status_raw = desc_lock_raw;
    descaling_device_lock_status = label lock_labels desc_lock_raw;
    unaccounted_shower_cycles = unaccounted;
    timestamp_last_descaling = time_of utc_time last;
    timestamp_last_descaling_request = time_of utc_time last_request;
  })

pub record OperationState : Type 0 where
  pub user_detection_status : Option Bool
  pub rtc_time : Option Text
  pub operation_time_total_s : Option ℕ
  pub operation_time_since_power_up_s : Option ℕ

unfoldable pub read_operation : (ℕ → Option Text) → Io OperationState
unfolding read_number time_of
read_operation utc_time = do
  ud ← read_number dp_user_detection_status
  rtc_raw ← read_number 15
  op_total ← read_number 148
  op_up ← read_number 149
  ret (record {
    user_detection_status = truth ud;
    rtc_time = time_of utc_time rtc_raw;
    operation_time_total_s = op_total;
    operation_time_since_power_up_s = op_up;
  })

pub record ErrorState : Type 0 where
  pub error_power_supply : Option Bool
  pub error_water_heater : Option Bool
  pub error_level_control : Option Bool
  pub error_user_detection : Option Bool
  pub error_water_pump : Option Bool
  pub error_spray_arm_drive : Option Bool
  pub error_maintenance_request : Option Bool
  pub error_descaling : Option Bool

unfoldable pub read_errors : Io ErrorState
unfolding read_number
read_errors = do
  power_supply ← read_number 93
  water_heater ← read_number 764
  level_control ← read_number 765
  user_detection ← read_number 766
  water_pump ← read_number 789
  spray_arm_drive ← read_number 790
  maintenance_request ← read_number 820
  descaling ← read_number 982
  ret (record {
    error_power_supply = truth power_supply;
    error_water_heater = truth water_heater;
    error_level_control = truth level_control;
    error_user_detection = truth user_detection;
    error_water_pump = truth water_pump;
    error_spray_arm_drive = truth spray_arm_drive;
    error_maintenance_request = truth maintenance_request;
    error_descaling = truth descaling;
  })

pub record ModeState : Type 0 where
  pub demo_mode : Option Bool
  pub showroom_mode : Option Bool
  pub dry_run_mode : Option Bool
  pub product_registration_level_raw : Option ℕ
  pub product_registration_level : Option Text
  pub fw_rs_version : Option ℕ
  pub fw_ts_version : Option ℕ
  pub hw_rs_version : Option ℕ
  pub mcu_version : Option ℕ
  pub pairing_secret_hex : Option Text

-- `raw_secret.hex() if raw_secret else None`
unfoldable pub hex_read : Option Bytes → Option Text
unfolding hex
hex_read none = none
hex_read (some []) = none
hex_read (some (b ∷ bytes)) = some (hex (b ∷ bytes))

unfoldable pub read_modes : Io ModeState
unfolding read_number label hex_read caught
read_modes = do
  demo ← read_number 795
  showroom ← read_number 803
  dry_run ← read_number 810
  prod_reg_raw ← read_number 796
  fw_rs ← read_number 8
  fw_ts ← read_number 9
  hw_rs ← read_number 10
  mcu ← read_number 69
  raw_secret ← optional (read 12 none)
  ret (record {
    demo_mode = truth demo;
    showroom_mode = truth showroom;
    dry_run_mode = truth dry_run;
    product_registration_level_raw = prod_reg_raw;
    product_registration_level = label registration_labels prod_reg_raw;
    fw_rs_version = fw_rs;
    fw_ts_version = fw_ts;
    hw_rs_version = hw_rs;
    mcu_version = mcu;
    pairing_secret_hex = hex_read raw_secret;
  })

pub record FullState : Type 0 where
  pub shower : ShowerState
  pub descaling : DescalingState
  pub operation : OperationState
  pub errors : ErrorState
  pub modes : ModeState

unfoldable pub get_misc_state_async : (ℕ → Option Text) → Io FullState
unfolding read_shower read_descaling read_operation read_errors read_modes
get_misc_state_async utc_time = do
  shower ← read_shower
  descaling ← read_descaling utc_time
  operation ← read_operation utc_time
  errors ← read_errors
  modes ← read_modes
  ret (record {
    shower = shower;
    descaling = descaling;
    operation = operation;
    errors = errors;
    modes = modes;
  })
