-- ===== src/Api/Parameters.antt =====
-- GetSystemParameterList.py and Dtos/SystemParameterList.py.
pub mod Reading
pub mod Payload
use geberit_aquaclean.Prelude.{
  ℕ, ◌+◌, min, List, [], ◌∷◌, length, take, replicate, set, Result, ok, ◌>>=◌ as bind, type_error,
}
use geberit_aquaclean.Prelude.Bytes.{Bytes}
use geberit_aquaclean.Prelude.Io.{◌>>=◌, ret, raise}
use geberit_aquaclean.Message.Crc.{byte_item}
use geberit_aquaclean.Api.Call.{ApiCall, call}
use geberit_aquaclean.Api.Deserializer.{
  Io, Field, int_field, ints_field, Value, int_value, ints_value, deserialize, deserialize_to_int,
}

pub record SystemParameterList : Type 0 where
  pub a : ℕ
  pub data_array : List ℕ

-- `for i in range(arg_count): data[i + 1] = self.parameter_list[i]`, from `data[i]` on.
unfoldable pub put_parameters : ℕ → List ℕ → Bytes → Result Bytes
put_parameters i [] data' = ok data'
put_parameters i (parameter ∷ parameters) data' =
    bind (byte_item parameter) (λ b. put_parameters (i + 1) parameters (set data' i b))

-- `get_payload`
unfoldable pub parameters_payload : List ℕ → Result Bytes
unfolding put_parameters
parameters_payload parameter_list =
    let arg_count = min (length parameter_list) 12 in
    put_parameters 1 (take arg_count parameter_list) (set (replicate 13 0) 0 arg_count)

abbrev pub get_system_parameter_list : List ℕ → ApiCall
get_system_parameter_list parameter_list = call 0x01 0x0d 0x01 (parameters_payload parameter_list)

abbrev pub system_parameter_list_fields : List Field
system_parameter_list_fields = int_field ∷ ints_field ∷ []

-- The object of which `deserialize` has set the fields.
unfoldable pub parameter_list_of : List Value → Io SystemParameterList
parameter_list_of (int_value n ∷ ints_value values ∷ []) =
    ret (record { a = n; data_array = values })
parameter_list_of _ = raise type_error

-- `result`. It reads the first four bytes again, for the log.
unfoldable pub parameters_result : Io SystemParameterList
unfolding parameter_list_of
parameters_result = do
  values ← deserialize system_parameter_list_fields
  ds_result ← parameter_list_of values
  ds_int ← deserialize_to_int 0 4
  ret ds_result
