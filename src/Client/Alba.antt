-- ===== src/Client/Alba.antt =====
-- AlbaClient.py, and its AlbaBaseClient in Alba/Base. The events are listed in the order in which they are
-- fired. What is not supported on Alba raises BLEPeripheralTimeoutError.
pub mod Base
pub mod Connect
pub mod Shower
pub mod Identity
pub mod Misc
pub mod Stats
pub mod Unsupported
use geberit_aquaclean.Prelude.{
  ℕ, Bool, false, not, Option, none, some, List, [], ◌∷◌, ◌++◌, ◌==◌, leb, if◌then◌else◌, Result,
  ok,
}
use geberit_aquaclean.Prelude.Bytes.{Bytes}
use geberit_aquaclean.Prelude.Dict.{lookup}
use geberit_aquaclean.Api.Firmware.{FirmwareVersions}
use geberit_aquaclean.Ble20.Client.{Ble20, Io, ◌>>=◌, ◌>>◌}
use geberit_aquaclean.Ble20.Requests.{
  read, write, caught, optional, poll_state, capabilities, event_storage_inventory,
  dp_user_detection_status, dp_anal_shower_status,
}
use geberit_aquaclean.Ble20.Inventory.{Inventory, inventory}
use geberit_aquaclean.Client.Device.{DeviceStateChangedEventArgs, same_args, changed}
use geberit_aquaclean.Client.Alba.Base.{
  dp_lady_shower_status, get_firmware_version_list_async, write_dp_async,
}

pub record AlbaClient : Type 0 where
  pub ble20 : Ble20
  pub inventory : Inventory
  pub base_inventory : Inventory
  pub firmware_versions : Option FirmwareVersions
  pub last_device_state_changed_event_args : Option DeviceStateChangedEventArgs
  pub fired : List DeviceStateChangedEventArgs

-- A call of the Ble20 client.
abbrev pub with_ble20 : {A : Type 0} → AlbaClient → Result A × Ble20 → Result A × AlbaClient
with_ble20 c (r, ble20) = (r, record c { ble20 = ble20 })

abbrev pub lift : {A : Type 0} → Io A → AlbaClient → Result A × AlbaClient
lift m c = with_ble20 c (m c.ble20)

abbrev pub update : (AlbaClient → AlbaClient) → AlbaClient → Result (Unit {0}) × AlbaClient
update f c = (ok tt, f c)

abbrev pub use_inventory : Inventory → AlbaClient → AlbaClient
use_inventory found c = record c { inventory = found; base_inventory = found }

-- An inventory that is given is used, then the one that the client has; an empty one counts as none.
unfoldable pub choose_inventory :
    Inventory → Inventory → AlbaClient → Result (Unit {0}) × AlbaClient
choose_inventory (entry ∷ given) cached = update (use_inventory (entry ∷ given))
choose_inventory [] (entry ∷ cached) = update (use_inventory (entry ∷ cached))
choose_inventory [] [] = do found ← lift inventory; update (use_inventory found)

-- What `post_connect` does once it has an inventory. `get_firmware_version_list_async` catches what its
-- reads raise.
unfoldable pub initialise : AlbaClient → Result (Unit {0}) × AlbaClient
unfolding caught
initialise = do
  caps ← lift capabilities
  stored ← lift (optional (event_storage_inventory caps))
  versions ← lift get_firmware_version_list_async
  update (λ c. record c { firmware_versions = versions })

unfoldable pub post_connect : Inventory → AlbaClient → Result (Unit {0}) × AlbaClient
unfolding choose_inventory initialise
post_connect given = do λ (c : AlbaClient). choose_inventory given c.inventory c; initialise

abbrev pub first_nonzero : Option Bytes → Bool
first_nonzero none = false
first_nonzero (some []) = false
first_nonzero (some (b ∷ bytes)) = not (b == 0)

-- The state that `_state_changed_timer_elapsed` makes of a poll.
unfoldable pub alba_args : List (ℕ × Bytes) → DeviceStateChangedEventArgs
alba_args state = record {
  is_user_sitting = some (first_nonzero (lookup dp_user_detection_status state));
  is_anal_shower_running = some (first_nonzero (lookup dp_anal_shower_status state));
  is_lady_shower_running = some (first_nonzero (lookup dp_lady_shower_status state));
  is_dryer_running = some false;
  lid_offset_position = none;
  shower_arm_offset_position = none;
}

unfoldable pub alba_update :
    DeviceStateChangedEventArgs → DeviceStateChangedEventArgs → DeviceStateChangedEventArgs
alba_update args prev = record {
  is_user_sitting = changed args.is_user_sitting prev.is_user_sitting;
  is_anal_shower_running = changed args.is_anal_shower_running prev.is_anal_shower_running;
  is_lady_shower_running = changed args.is_lady_shower_running prev.is_lady_shower_running;
  is_dryer_running = none;
  lid_offset_position = none;
  shower_arm_offset_position = none;
}

-- What is fired, given the last state.
unfoldable pub alba_announced :
    Option DeviceStateChangedEventArgs
    → DeviceStateChangedEventArgs
    → List DeviceStateChangedEventArgs
unfolding same_args alba_update
alba_announced none args = args ∷ []
alba_announced (some prev) args = if same_args args prev then [] else alba_update args prev ∷ []

unfoldable pub note_state : DeviceStateChangedEventArgs → AlbaClient → AlbaClient
unfolding alba_announced
note_state args c = record c {
  last_device_state_changed_event_args = some args;
  fired = c.fired ++ alba_announced c.last_device_state_changed_event_args args;
}

unfoldable pub state_changed_timer_elapsed : AlbaClient → Result (Unit {0}) × AlbaClient
unfolding alba_args note_state
state_changed_timer_elapsed = do state ← lift poll_state; update (note_state (alba_args state))

abbrev pub dp_start_stop_anal_shower : ℕ
dp_start_stop_anal_shower = 563

abbrev pub dp_start_stop_lady_shower : ℕ
dp_start_stop_lady_shower = 868

abbrev pub first_or_zero : Option Bytes → ℕ
first_or_zero none = 0
first_or_zero (some []) = 0
first_or_zero (some (b ∷ bytes)) = b

-- The value that stops a shower that runs, and starts one that does not, or whose status cannot be read.
unfoldable pub anal_toggle : Option Bytes → Bytes
anal_toggle raw = (if leb 3 (first_or_zero raw) then 0 else 1) ∷ []

unfoldable pub toggle_anal_shower : Io (Unit {0})
unfolding anal_toggle caught
toggle_anal_shower = do
  raw ← optional (read dp_anal_shower_status none)
  write dp_start_stop_anal_shower (anal_toggle raw) none

unfoldable pub lady_toggle : Option Bytes → Bytes
lady_toggle raw = (if first_or_zero raw == 0 then 1 else 0) ∷ []

unfoldable pub toggle_lady_shower : Io (Unit {0})
unfolding lady_toggle caught
toggle_lady_shower = do
  raw ← optional (read dp_start_stop_lady_shower none)
  write dp_start_stop_lady_shower (lady_toggle raw) none

abbrev pub toggle_lid_position : Io (Unit {0})
toggle_lid_position = write 1009 (0x01 ∷ []) none

abbrev pub prepare_descaling : Io (Unit {0})
prepare_descaling = write 584 (0x01 ∷ []) none

abbrev pub confirm_descaling : Io (Unit {0})
confirm_descaling = write 584 (0x01 ∷ []) none

abbrev pub cancel_descaling : Io (Unit {0})
cancel_descaling = write 584 (0x00 ∷ []) none

abbrev pub postpone_descaling : Io (Unit {0})
postpone_descaling = write 978 [] none

abbrev pub start_stop_spray_arm_cleaning : ℕ → Io (Unit {0})
start_stop_spray_arm_cleaning value = write_dp_async 566 value

abbrev pub set_active_intensity : ℕ → Io (Unit {0})
set_active_intensity value = write_dp_async 570 value

abbrev pub set_active_position : ℕ → Io (Unit {0})
set_active_position value = write_dp_async 572 value

abbrev pub set_active_temperature : ℕ → Io (Unit {0})
set_active_temperature value = write_dp_async 574 value

abbrev pub set_active_oscillation : ℕ → Io (Unit {0})
set_active_oscillation value = write_dp_async 576 value

-- `sync_rtc` at the time `ts`.
abbrev pub sync_rtc : ℕ → Io (Unit {0})
sync_rtc ts = write_dp_async 270 ts

abbrev pub reset_device : Io (Unit {0})
reset_device = write 62 [] none

abbrev pub start_bootloader : Io (Unit {0})
start_bootloader = write 83 [] none

abbrev pub restart_device : Io (Unit {0})
restart_device = write 153 [] none

abbrev pub load_profile : Io (Unit {0})
load_profile = write_dp_async 569 0

abbrev pub start_user_session : Io (Unit {0})
start_user_session = write 802 [] none
