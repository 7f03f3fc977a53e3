-- ===== src/Client/Device.antt =====
-- AquaCleanClient.py with Commands.py and ProfileSettings.py, and DeviceStateChangedEventArgs of
-- IAquaCleanClient.py. The events that the client fires are listed in the order in which they are fired.

pub mod Heard
pub mod Poll
pub mod Methods
use geberit_aquaclean.Prelude.{
  ℕ, Bool, true, false, not, ◌&&◌, ◌||◌, Option, none, some, List, [], ◌∷◌, ◌++◌, ◌==◌, leb,
  if◌then◌else◌, get_elem?, Result, ok, err, ◌>>=◌ as then_try, require, index_error, value_error,
}
use geberit_aquaclean.Api.Text.{Text}
use geberit_aquaclean.Api.Parameters.{SystemParameterList}
use geberit_aquaclean.Api.Identity.{DeviceIdentification}
use geberit_aquaclean.Api.Firmware.{FirmwareVersions}
use geberit_aquaclean.Client.Base.{BaseClient}
use geberit_aquaclean.Client.Calls as Calls
use geberit_aquaclean.Client.Calls.{
  subscribe_notifications_async, get_system_parameter_list_async,
  get_soc_application_versions_async, get_device_identification_async,
  get_device_initial_operation_date_async, get_firmware_version_list_async,
  set_stored_profile_setting_async,
}

pub record DeviceStateChangedEventArgs : Type 0 where
  pub is_user_sitting : Option Bool
  pub is_anal_shower_running : Option Bool
  pub is_lady_shower_running : Option Bool
  pub is_dryer_running : Option Bool
  pub lid_offset_position : Option ℕ
  pub shower_arm_offset_position : Option ℕ

abbrev pub same_flag : Option Bool → Option Bool → Bool
same_flag none none = true
same_flag (some true) (some true) = true
same_flag (some false) (some false) = true
same_flag _ _ = false

abbrev pub same_number : Option ℕ → Option ℕ → Bool
same_number none none = true
same_number (some m) (some n) = m == n
same_number _ _ = false

-- `__eq__`
unfoldable pub same_args : DeviceStateChangedEventArgs → DeviceStateChangedEventArgs → Bool
same_args x y =
    same_flag x.is_user_sitting y.is_user_sitting
    && (same_flag x.is_anal_shower_running y.is_anal_shower_running
        && (same_flag x.is_lady_shower_running y.is_lady_shower_running
            && (same_flag x.is_dryer_running y.is_dryer_running
                && (same_number x.lid_offset_position y.lid_offset_position
                    && same_number x.shower_arm_offset_position y.shower_arm_offset_position))))

pub data ClientEvent : Type 0 where
  soc_application_versions_read : Text → ClientEvent
  device_identification_read : DeviceIdentification → ClientEvent
  device_initial_operation_date_read : Text → ClientEvent
  device_state_changed : DeviceStateChangedEventArgs → ClientEvent

pub record AquaCleanClient : Type 0 where
  pub base_client : BaseClient
  pub last_device_state_changed_event_args : Option DeviceStateChangedEventArgs
  pub sap_number : Text
  pub serial_number : Text
  pub production_date : Text
  pub description : Text
  pub initial_operation_date : Text
  pub soc_application_versions : Option Text
  pub firmware_versions : Option FirmwareVersions
  pub fired : List ClientEvent

abbrev pub Io : Type 0 → Type 0
Io A = AquaCleanClient → Option (Result A × AquaCleanClient)

abbrev pub and_run :
    {A B : Type 0}
    → Option (Result A × AquaCleanClient)
    → (A → Io B)
    → Option (Result B × AquaCleanClient)
and_run none f = none
and_run (some (err e, c)) f = some (err e, c)
and_run (some (ok a, c)) f = f a c

infixl 5 ◌>>=◌ ◌>>◌
abbrev pub ◌>>=◌ : {A B : Type 0} → Io A → (A → Io B) → Io B
◌>>=◌ m f c = and_run (m c) f

abbrev pub ◌>>◌ : {B : Type 0} → Io (Unit {0}) → Io B → Io B
◌>>◌ m k = m >>= λ _. k

abbrev pub ret : {A : Type 0} → A → Io A
ret a c = some (ok a, c)

abbrev pub update : (AquaCleanClient → AquaCleanClient) → Io (Unit {0})
update f c = some (ok tt, f c)

abbrev pub pure : {A : Type 0} → Result A → Io A
pure r c = some (r, c)

-- A call of the base client.
abbrev pub with_base :
    {A : Type 0}
    → AquaCleanClient
    → Option (Result A × BaseClient)
    → Option (Result A × AquaCleanClient)
with_base c none = none
with_base c (some (r, b)) = some (r, record c { base_client = b })

abbrev pub base : {A : Type 0} → Calls.Io A → Io A
base m c = with_base c (m c.base_client)

abbrev pub fire : ClientEvent → AquaCleanClient → AquaCleanClient
fire event c = record c { fired = c.fired ++ event ∷ [] }

-- `connect` behind `connect_async`: nothing for a variant A without a handshake, and no subscription for
-- one with it.
unfoldable pub subscribe_unless : Bool → Io (Unit {0})
subscribe_unless true = ret tt
subscribe_unless false = base subscribe_notifications_async

unfoldable pub fetch : Io (Unit {0})
fetch = do
  versions ← base get_soc_application_versions_async
  update (λ c.
      fire (soc_application_versions_read versions)
        (record c { soc_application_versions = some versions }))
  identification ← base get_device_identification_async
  update (λ c. fire (device_identification_read identification) (record c {
    sap_number = identification.sap_number;
    serial_number = identification.serial_number;
    production_date = identification.production_date;
    description = identification.description;
  }))
  date ← base get_device_initial_operation_date_async
  update (λ c.
      fire (device_initial_operation_date_read date) (record c { initial_operation_date = date }))
  firmware ← base (get_firmware_version_list_async none)
  update (λ c. record c { firmware_versions = some firmware })

unfoldable pub after_connect : Bool → Bool → Io (Unit {0})
unfolding subscribe_unless fetch
after_connect is_variant_a arendi_handshake_done =
    if is_variant_a && not arendi_handshake_done
    then ret tt
    else (do subscribe_unless is_variant_a; fetch)

-- `connect_ble_only` behind `connect_async`.
unfoldable pub after_connect_ble_only : Bool → Bool → Io (Unit {0})
unfolding subscribe_unless
after_connect_ble_only is_variant_a arendi_handshake_done =
    if is_variant_a && not arendi_handshake_done then ret tt else subscribe_unless is_variant_a

abbrev pub spl_params_mera_comfort : List ℕ
spl_params_mera_comfort = 0 ∷ 1 ∷ 2 ∷ 3 ∷ 4 ∷ 5 ∷ 6 ∷ 7 ∷ 12 ∷ 13 ∷ []

abbrev pub item : SystemParameterList → ℕ → Result ℕ
item l i = require (get_elem? l.data_array i) index_error

abbrev pub flag : ℕ → Option Bool
flag n = some (not (n == 0))

-- The arguments of the event, which reads the fields in this order.
unfoldable pub state_args : SystemParameterList → Result DeviceStateChangedEventArgs
state_args l = then_try (item l 0) (λ sitting. then_try (item l 3) (λ anal.
    then_try (item l 2) (λ lady. then_try (item l 1) (λ dryer. then_try (item l 8) (λ lid.
      then_try (item l 9) (λ arm. ok (record {
        is_user_sitting = flag sitting;
        is_anal_shower_running = flag anal;
        is_lady_shower_running = flag lady;
        is_dryer_running = flag dryer;
        lid_offset_position = some lid;
        shower_arm_offset_position = some arm;
      })))))))

-- `new if new != old else None`
abbrev pub changed : Option Bool → Option Bool → Option Bool
changed new old = if same_flag new old then none else new

unfoldable pub partial_update :
    DeviceStateChangedEventArgs → DeviceStateChangedEventArgs → DeviceStateChangedEventArgs
partial_update dsc ldsc = record {
  is_user_sitting = changed dsc.is_user_sitting ldsc.is_user_sitting;
  is_anal_shower_running = changed dsc.is_anal_shower_running ldsc.is_anal_shower_running;
  is_lady_shower_running = changed dsc.is_lady_shower_running ldsc.is_lady_shower_running;
  is_dryer_running = changed dsc.is_dryer_running ldsc.is_dryer_running;
  lid_offset_position = none;
  shower_arm_offset_position = none;
}

-- What is fired for the new state, given the last.
unfoldable pub announced :
    Option DeviceStateChangedEventArgs
    → DeviceStateChangedEventArgs
    → List DeviceStateChangedEventArgs
unfolding same_args partial_update
announced none dsc = dsc ∷ []
announced (some ldsc) dsc = if same_args dsc ldsc then [] else partial_update dsc ldsc ∷ []

unfoldable pub fire_each : List DeviceStateChangedEventArgs → AquaCleanClient → AquaCleanClient
fire_each [] c = c
fire_each (args ∷ rest) c = fire_each rest (fire (device_state_changed args) c)

-- `_state_changed_timer_elapsed` behind the request.
unfoldable pub note_state : DeviceStateChangedEventArgs → AquaCleanClient → AquaCleanClient
unfolding announced fire_each
note_state args c = record (fire_each (announced c.last_device_state_changed_event_args args) c) {
  last_device_state_changed_event_args = some args;
}

unfoldable pub state_changed_timer_elapsed : Io (Unit {0})
unfolding state_args note_state
state_changed_timer_elapsed = do
  result ← base (get_system_parameter_list_async spl_params_mera_comfort)
  args ← pure (state_args result)
  update (note_state args)

-- Commands.py
pub data Commands : Type 0 where
  start_cleaning_device execute_next_cleaning_step toggle_anal_shower toggle_lady_shower : Commands
  toggle_dryer toggle_orientation_light stop odour_extraction odour_extraction_run_on : Commands
  trigger_flush_manually reset_filter_counter postpone_descaling prepare_descaling : Commands
  confirm_descaling cancel_descaling start_lid_position_calibration : Commands
  lid_position_offset_increment lid_position_offset_decrement lid_position_offset_save : Commands
  toggle_lid_position : Commands

abbrev pub command_value : Commands → ℕ
command_value start_cleaning_device = 4
command_value execute_next_cleaning_step = 5
command_value toggle_anal_shower = 0
command_value toggle_lady_shower = 1
command_value toggle_dryer = 2
command_value toggle_orientation_light = 20
command_value stop = 3
command_value odour_extraction = 12
command_value odour_extraction_run_on = 13
command_value trigger_flush_manually = 37
command_value reset_filter_counter = 47
command_value postpone_descaling = 9
command_value prepare_descaling = 6
command_value confirm_descaling = 7
command_value cancel_descaling = 8
command_value start_lid_position_calibration = 33
command_value lid_position_offset_increment = 35
command_value lid_position_offset_decrement = 36
command_value lid_position_offset_save = 34
command_value toggle_lid_position = 10

-- ProfileSettings.py: the numbers of the members.
abbrev pub is_profile_setting : ℕ → Bool
is_profile_setting setting_id = leb setting_id 10 || setting_id == 13

-- `ProfileSettings(setting_id)` raises ValueError where there is no such member.
unfoldable pub set_stored_profile_setting : ℕ → ℕ → Io (Unit {0})
set_stored_profile_setting setting_id value =
    if is_profile_setting setting_id
    then base (set_stored_profile_setting_async setting_id value)
    else pure (err value_error)
