-- ===== src/Api/Identity.antt =====
-- GetDeviceIdentification.py with Dtos/DeviceIdentification.py, and GetDeviceInitialOperationDate.py.
pub mod Reading
use geberit_aquaclean.Prelude.{List, [], ◌∷◌, Result, ok, type_error}
use geberit_aquaclean.Prelude.Bytes.{Bytes}
use geberit_aquaclean.Prelude.Io.{◌>>=◌, ret, raise}
use geberit_aquaclean.Api.Call.{ApiCall, call}
use geberit_aquaclean.Api.Text.{Text, clean_text}
use geberit_aquaclean.Api.Deserializer.{Io, Field, str_field, Value, str_value, deserialize}

pub record DeviceIdentification : Type 0 where
  pub sap_number : Text
  pub serial_number : Text
  pub production_date : Text
  pub description : Text

abbrev pub get_device_identification : ApiCall
get_device_identification = call 0x00 0x82 0x01 (ok [])

-- The default values have these lengths.
abbrev pub device_identification_fields : List Field
device_identification_fields = str_field 12 ∷ str_field 20 ∷ str_field 10 ∷ str_field 40 ∷ []

unfoldable pub device_identification_of : List Value → Io DeviceIdentification
device_identification_of (str_value a ∷ str_value b ∷ str_value c ∷ str_value d ∷ []) =
    ret (record { sap_number = a; serial_number = b; production_date = c; description = d })
device_identification_of _ = raise type_error

-- `result`
unfoldable pub identification_result : Io DeviceIdentification
unfolding device_identification_of
identification_result = do
  values ← deserialize device_identification_fields
  device_identification_of values

abbrev pub get_device_initial_operation_date : ApiCall
get_device_initial_operation_date = call 0x00 0x86 0x01 (ok [])

-- `result`
unfoldable pub operation_date_result : Bytes → Result Text
unfolding clean_text
operation_date_result data' = clean_text data'
