-- ===== src/Client/Device/Methods.antt =====
-- AquaCleanClient.py, the methods that send a command or set a value, and the getters. These call methods
-- that AquaCleanBaseClient does not have, so each of them raises AttributeError.
use geberit_aquaclean.Prelude.{ℕ, Bool, err, attribute_error}
use geberit_aquaclean.Client.Calls.{
  set_command_async, set_stored_common_setting_async, set_active_common_setting_async,
}
use geberit_aquaclean.Client.Device.{Commands, command_value, Io, base, pure}

-- `await self.base_client.SetCommandAsync(...)`
abbrev pub send_command : Commands → Io (Unit {0})
send_command command = base (set_command_async (command_value command))

abbrev pub toggle_anal_shower : Io (Unit {0})
toggle_anal_shower = send_command Commands.toggle_anal_shower

abbrev pub toggle_lady_shower : Io (Unit {0})
toggle_lady_shower = send_command Commands.toggle_lady_shower

abbrev pub toggle_dryer : Io (Unit {0})
toggle_dryer = send_command Commands.toggle_dryer

abbrev pub toggle_lid_position : Io (Unit {0})
toggle_lid_position = send_command Commands.toggle_lid_position

abbrev pub toggle_orientation_light : Io (Unit {0})
toggle_orientation_light = send_command Commands.toggle_orientation_light

abbrev pub set_orientation_light_mode : ℕ → Io (Unit {0})
set_orientation_light_mode mode = base (set_active_common_setting_async 3 mode)

abbrev pub stop : Io (Unit {0})
stop = send_command Commands.stop

abbrev pub toggle_odour_extraction : Io (Unit {0})
toggle_odour_extraction = send_command Commands.odour_extraction

abbrev pub odour_extraction_run_on : Io (Unit {0})
odour_extraction_run_on = send_command Commands.odour_extraction_run_on

abbrev pub reset_filter_counter : Io (Unit {0})
reset_filter_counter = send_command Commands.reset_filter_counter

abbrev pub trigger_flush_manually : Io (Unit {0})
trigger_flush_manually = send_command Commands.trigger_flush_manually

abbrev pub prepare_descaling : Io (Unit {0})
prepare_descaling = send_command Commands.prepare_descaling

abbrev pub confirm_descaling : Io (Unit {0})
confirm_descaling = send_command Commands.confirm_descaling

abbrev pub cancel_descaling : Io (Unit {0})
cancel_descaling = send_command Commands.cancel_descaling

abbrev pub postpone_descaling : Io (Unit {0})
postpone_descaling = send_command Commands.postpone_descaling

abbrev pub start_cleaning_device : Io (Unit {0})
start_cleaning_device = send_command Commands.start_cleaning_device

abbrev pub execute_next_cleaning_step : Io (Unit {0})
execute_next_cleaning_step = send_command Commands.execute_next_cleaning_step

abbrev pub start_lid_position_calibration : Io (Unit {0})
start_lid_position_calibration = send_command Commands.start_lid_position_calibration

abbrev pub lid_position_offset_save : Io (Unit {0})
lid_position_offset_save = send_command Commands.lid_position_offset_save

abbrev pub lid_position_offset_increment : Io (Unit {0})
lid_position_offset_increment = send_command Commands.lid_position_offset_increment

abbrev pub lid_position_offset_decrement : Io (Unit {0})
lid_position_offset_decrement = send_command Commands.lid_position_offset_decrement

abbrev pub set_stored_common_setting : ℕ → ℕ → Io (Unit {0})
set_stored_common_setting setting_id value = base (set_stored_common_setting_async setting_id value)

abbrev pub get_anal_shower_position : Io ℕ
get_anal_shower_position = pure (err attribute_error)

abbrev pub get_water_temperature : Io ℕ
get_water_temperature = pure (err attribute_error)

abbrev pub get_lady_shower_position : Io ℕ
get_lady_shower_position = pure (err attribute_error)

abbrev pub get_lady_shower_pressure : Io ℕ
get_lady_shower_pressure = pure (err attribute_error)

abbrev pub get_dryer_state : Io Bool
get_dryer_state = pure (err attribute_error)

abbrev pub get_oscilation_state : Io Bool
get_oscilation_state = pure (err attribute_error)

abbrev pub get_odour_extraction_state : Io Bool
get_odour_extraction_state = pure (err attribute_error)

abbrev pub set_odour_extraction_state : Bool → Io (Unit {0})
set_odour_extraction_state state = pure (err attribute_error)

abbrev pub get_dryer_temperature : Io ℕ
get_dryer_temperature = pure (err attribute_error)

abbrev pub get_dryer_spray_intensity : Io ℕ
get_dryer_spray_intensity = pure (err attribute_error)

abbrev pub get_wc_seat_heat : Io ℕ
get_wc_seat_heat = pure (err attribute_error)

abbrev pub get_system_flush_state : Io Bool
get_system_flush_state = pure (err attribute_error)
