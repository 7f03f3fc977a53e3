-- ===== src/Client/Calls.antt =====
-- AquaCleanBaseClient.py: the calls around `send_request`. Each sends a request and reads the bytes of the
-- context that the client then holds; `GetStoredProfileCall53` is in Api/Settings.
pub mod Prepared
pub mod Answers
pub mod Framed
use geberit_aquaclean.Prelude.{
  ℕ, Bool, true, false, Option, none, some, List, [], ◌∷◌, Result, ok, err, attribute_error,
}
use geberit_aquaclean.Prelude.Bytes.{Bytes}
use geberit_aquaclean.Prelude.Dict.{insert}
use geberit_aquaclean.Message.Service.{MessageContext}
use geberit_aquaclean.Api.Call.{ApiCall}
use geberit_aquaclean.Api.Text.{Text}
use geberit_aquaclean.Api.Parameters.{
  SystemParameterList, get_system_parameter_list, parameters_result,
}
use geberit_aquaclean.Api.Filter.{FilterStatus, get_filter_status, filter_result}
use geberit_aquaclean.Api.Identity.{
  DeviceIdentification, get_device_identification, identification_result,
  get_device_initial_operation_date, operation_date_result,
}
use geberit_aquaclean.Api.Firmware.{
  FirmwareVersions, firmware_payload, get_firmware_version_list, firmware_result,
  get_soc_application_versions, soc_versions_result,
}
use geberit_aquaclean.Api.Reports.{
  NodeList, get_node_list, node_list_result, StatisticsDescale, get_statistics_descale,
  descale_result,
}
use geberit_aquaclean.Api.Settings.{
  get_stored_common_setting, setting_value, set_stored_common_setting, set_active_common_setting,
  set_stored_profile_setting, get_stored_profile_call, set_command, subscribe_notifications,
  pre_payloads, payloads,
}
use geberit_aquaclean.Client.Base.{BaseClient, send_request}

-- A coroutine of the client, and none where it waits for as long as another request is open.
abbrev pub Io : Type 0 → Type 0
Io A = BaseClient → Option (Result A × BaseClient)

abbrev pub and_run :
    {A B : Type 0} → Option (Result A × BaseClient) → (A → Io B) → Option (Result B × BaseClient)
and_run none f = none
and_run (some (err e, c)) f = some (err e, c)
and_run (some (ok a, c)) f = f a c

infixl 5 ◌>>=◌ ◌>>◌
abbrev pub ◌>>=◌ : {A B : Type 0} → Io A → (A → Io B) → Io B
◌>>=◌ m f c = and_run (m c) f

abbrev pub ◌>>◌ : {B : Type 0} → Io (Unit {0}) → Io B → Io B
◌>>◌ m k = m >>= λ _. k

abbrev pub ret : {A : Type 0} → A → Io A
ret a c = some (ok a, c)

abbrev pub holding : BaseClient → MessageContext → Bytes → BaseClient
holding c context bytes = record c {
  message_context = some (record context { result_bytes = bytes });
}

-- What a reader makes of `message_context.result_bytes`, which it may change where they stand.
unfoldable pub read_context :
    {A : Type 0} → (Bytes → Result A × Bytes) → Option MessageContext → Io A
read_context reader none c = some (err attribute_error, c)
read_context reader (some context) c =
    let r = reader context.result_bytes in some (r.0, holding c context r.1)

abbrev pub read_response : {A : Type 0} → (Bytes → Result A × Bytes) → Io A
read_response reader c = read_context reader c.message_context c

abbrev pub only_reads : {A : Type 0} → (Bytes → Result A) → Bytes → Result A × Bytes
only_reads reader bytes = (reader bytes, bytes)

-- A request, and what is read from the response.
unfoldable pub ask : {A : Type 0} → Bool → ApiCall → (Bytes → Result A × Bytes) → Io A
unfolding read_context
ask send_as_first_cons api_call reader = do
  send_request send_as_first_cons api_call
  read_response reader

unfoldable pub send_each : List Bytes → ℕ → Io (Unit {0})
send_each [] proc = ret tt
send_each (payload ∷ rest) proc = do
  send_request false (subscribe_notifications payload proc)
  send_each rest proc

unfoldable pub subscribe_notifications_async : Io (Unit {0})
unfolding send_each
subscribe_notifications_async = do send_each pre_payloads 0x11; send_each payloads 0x13

abbrev pub iphone_profile_setting_ids : List ℕ
iphone_profile_setting_ids = 2 ∷ 1 ∷ 3 ∷ 4 ∷ 6 ∷ 7 ∷ 5 ∷ 8 ∷ 0 ∷ 9 ∷ 13 ∷ []

-- `for sid in ...`: one request each, and its value in the dict.
unfoldable pub settings_loop : (ℕ → ApiCall) → List ℕ → List (ℕ × ℕ) → Io (List (ℕ × ℕ))
unfolding ask
settings_loop api_call [] settings = ret settings
settings_loop api_call (sid ∷ sids) settings = do
  value ← ask false (api_call sid) (only_reads (λ bytes. ok (setting_value bytes)))
  settings_loop api_call sids (insert sid value settings)

unfoldable pub get_stored_profile_settings_async : Io (List (ℕ × ℕ))
unfolding settings_loop
get_stored_profile_settings_async = do
  ps ← settings_loop get_stored_profile_call iphone_profile_setting_ids []
  λ c. some (ok ps, record c { profile_settings = ps })

abbrev pub common_setting_ids : List ℕ
common_setting_ids = 2 ∷ 1 ∷ 3 ∷ 0 ∷ 4 ∷ 6 ∷ 7 ∷ []

unfoldable pub get_stored_common_settings_async : Io (List (ℕ × ℕ))
unfolding settings_loop
get_stored_common_settings_async = settings_loop get_stored_common_setting common_setting_ids []

unfoldable pub get_system_parameter_list_async : List ℕ → Io SystemParameterList
unfolding ask
get_system_parameter_list_async parameter_list =
    ask true (get_system_parameter_list parameter_list) parameters_result

-- The context and the procedure of the response are overwritten, by texts of these characters.
unfoldable pub as_operation_date : Option MessageContext → Io (Unit {0})
as_operation_date none c = some (err attribute_error, c)
as_operation_date (some context) c = some (
  ok tt,
  record c { message_context = some (record context { context = 0x00; procedure = 0x86 }) },
)

unfoldable pub get_device_initial_operation_date_async : Io Text
unfolding read_context as_operation_date
get_device_initial_operation_date_async = do
  send_request false get_device_initial_operation_date
  λ c. as_operation_date c.message_context c
  read_response (only_reads operation_date_result)

unfoldable pub get_device_identification_async : Io DeviceIdentification
unfolding ask
get_device_identification_async = ask false get_device_identification identification_result

abbrev pub set_command_async : ℕ → Io (Unit {0})
set_command_async command = send_request false (set_command command)

abbrev pub set_stored_profile_setting_async : ℕ → ℕ → Io (Unit {0})
set_stored_profile_setting_async profile_setting value =
    send_request false (set_stored_profile_setting profile_setting value)

abbrev pub set_stored_common_setting_async : ℕ → ℕ → Io (Unit {0})
set_stored_common_setting_async setting_id value =
    send_request false (set_stored_common_setting setting_id value)

abbrev pub set_active_common_setting_async : ℕ → ℕ → Io (Unit {0})
set_active_common_setting_async setting_id value =
    send_request false (set_active_common_setting setting_id value)

unfoldable pub get_statistics_descale_async : Io StatisticsDescale
unfolding ask
get_statistics_descale_async =
    ask false get_statistics_descale (only_reads (λ bytes. ok (descale_result bytes)))

unfoldable pub get_node_list_async : Io NodeList
unfolding ask
get_node_list_async = ask false get_node_list (only_reads (λ bytes. ok (node_list_result bytes)))

unfoldable pub get_soc_application_versions_async : Io Text
unfolding ask
get_soc_application_versions_async =
    ask false get_soc_application_versions (only_reads (λ bytes. ok (soc_versions_result bytes)))

unfoldable pub get_filter_status_async : Io FilterStatus
unfolding ask
get_filter_status_async =
    ask false get_filter_status (only_reads (λ bytes. ok (filter_result bytes)))

-- An empty payload counts as none.
unfoldable pub payload_or_default : Option Bytes → Bytes
payload_or_default none = firmware_payload
payload_or_default (some []) = firmware_payload
payload_or_default (some (b ∷ bytes)) = b ∷ bytes

unfoldable pub get_firmware_version_list_async : Option Bytes → Io FirmwareVersions
unfolding ask payload_or_default
get_firmware_version_list_async payload =
    ask true (get_firmware_version_list (payload_or_default payload))
      (only_reads (λ bytes. ok (firmware_result bytes)))
