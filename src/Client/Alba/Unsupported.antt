-- ===== src/Client/Alba/Unsupported.antt =====
-- What AlbaClient.py and AlbaBaseClient.py offer for the interface of the other models only: methods that
-- raise BLEPeripheralTimeoutError, and calls that return the same whatever the device is.
use geberit_aquaclean.Prelude.{ℕ, Option, none, List, [], timeout_error}
use geberit_aquaclean.Api.Text.{Text}
use geberit_aquaclean.Ble20.Client.{Io, ret, raise}
use geberit_aquaclean.Client.Alba.Base.{set_stored_profile_setting_async}

-- The methods of AlbaClient that call `_unsupported`.
pub data UnsupportedMethod : Type 0 where
  toggle_dryer toggle_orientation_light reset_filter_counter : UnsupportedMethod
  trigger_flush_manually start_cleaning_device execute_next_cleaning_step : UnsupportedMethod
  start_lid_position_calibration lid_position_offset_save : UnsupportedMethod
  lid_position_offset_increment lid_position_offset_decrement : UnsupportedMethod
  set_stored_common_setting get_anal_shower_position get_anal_shower_pressure : UnsupportedMethod
  get_water_temperature get_lady_shower_position get_lady_shower_pressure : UnsupportedMethod
  get_dryer_state get_oscilation_state get_odour_extraction_state : UnsupportedMethod
  set_odour_extraction_state get_dryer_temperature get_dryer_spray_intensity : UnsupportedMethod
  get_wc_seat_heat get_system_flush_state : UnsupportedMethod

unfoldable pub unsupported : UnsupportedMethod → Io (Unit {0})
unsupported name = raise timeout_error

-- The calls of AlbaBaseClient that raise.
pub data UnsupportedCall : Type 0 where
  get_filter_status_async get_statistics_descale_async set_command_async : UnsupportedCall

unfoldable pub unsupported_call : UnsupportedCall → Io (Unit {0})
unsupported_call name = raise timeout_error

abbrev pub get_device_initial_operation_date : Io Text
get_device_initial_operation_date = ret []

abbrev pub get_soc_application_versions_async : Io (Option Text)
get_soc_application_versions_async = ret none

abbrev pub get_stored_common_settings_async : Io (List (ℕ × ℕ))
get_stored_common_settings_async = ret []

abbrev pub get_node_list_async : Io (Option (List ℕ))
get_node_list_async = ret none

abbrev pub set_stored_profile_setting : ℕ → ℕ → Io (Unit {0})
set_stored_profile_setting sid val = set_stored_profile_setting_async sid val
