-- ===== src/Ble20/Identification.antt =====
-- Ble20Client.py, `get_device_identification`: thirteen optional reads, decoded field by field.
pub mod Whole
use geberit_aquaclean.Prelude.{
  ℕ, ◌+◌, Bool, false, Option, none, some, List, [], ◌∷◌, ◌++◌, ◌==◌, ltb, leb, if◌then◌else◌,
  length, map,
}
use geberit_aquaclean.Prelude.Bytes.{Bytes, slice, from_le}
use geberit_aquaclean.Prelude.Dict.{lookup}
use geberit_aquaclean.Prelude.Int.{ℤ, pos, to_signed}
use geberit_aquaclean.Ble20.Client.{Ble20, Io, ◌>>=◌, ret}
use geberit_aquaclean.Ble20.Inventory.{Inventory}
use geberit_aquaclean.Ble20.Requests.{read, optional, caught}

-- A text, as code points.
abbrev pub Text : Type 0
Text = List ℕ

-- The field `device_sap_number`, declared as a string, holds a number where the type is no string.
pub data SapNumber : Type 0 where
  text : Text → SapNumber
  number : ℤ → SapNumber

pub record Ble20DeviceIdentification : Type 0 where
  pub name : Option Text
  pub device_series : Option ℕ
  pub device_variant : Option ℕ
  pub device_boot_variant : Option ℕ
  pub device_model : Option ℕ
  pub device_number : Option ℤ
  pub device_unique_id : Option ℤ
  pub fw_rs_version : Option Text
  pub fw_ts_version : Option ℤ
  pub device_production_date : Option ℤ
  pub device_sap_number : Option SapNumber
  pub sales_product_sap_number : Option Text
  pub sales_product_serial_number : Option Text

-- A byte stays if one behind it stays, or if it is no zero.
abbrev pub rstrip_keep : ℕ → Bytes → Bytes
rstrip_keep b [] = if b == 0 then [] else b ∷ []
rstrip_keep b (c ∷ cs) = b ∷ c ∷ cs

-- `raw.rstrip(b'\x00')`
unfoldable pub rstrip : Bytes → Bytes
rstrip [] = []
rstrip (b ∷ bs) = rstrip_keep b (rstrip bs)

-- `decode('ascii', errors='replace')`
abbrev pub ascii : ℕ → ℕ
ascii b = if ltb b 128 then b else 0xfffd

unfoldable pub non_empty : Text → Option Text
non_empty [] = none
non_empty (c ∷ cs) = some (c ∷ cs)

unfoldable pub as_str : Option Bytes → Option Text
unfolding rstrip non_empty
as_str none = none
as_str (some raw) = non_empty (map ascii (rstrip raw))

unfoldable pub as_u8 : Option Bytes → Option ℕ
as_u8 none = none
as_u8 (some []) = none
as_u8 (some (b ∷ raw)) = some b

-- Four bytes, or two, or one, whichever there are.
unfoldable pub as_u32 : Option Bytes → Option ℤ
as_u32 none = none
as_u32 (some []) = none
as_u32 (some (b ∷ raw)) =
    if leb 4 (length (b ∷ raw))
    then some (pos (from_le (slice 0 4 (b ∷ raw))))
    else if leb 2 (length (b ∷ raw))
    then some (pos (from_le (slice 0 2 (b ∷ raw))))
    else some (pos b)

-- The same, signed, except for a single byte.
unfoldable pub as_i32 : Option Bytes → Option ℤ
as_i32 none = none
as_i32 (some []) = none
as_i32 (some (b ∷ raw)) =
    if leb 4 (length (b ∷ raw))
    then some (to_signed 31 (from_le (slice 0 4 (b ∷ raw))))
    else if leb 2 (length (b ∷ raw))
    then some (to_signed 15 (from_le (slice 0 2 (b ∷ raw))))
    else some (pos b)

abbrev pub dp_type_string : ℕ
dp_type_string = 8

abbrev pub dp_type_signed : ℕ
dp_type_signed = 15

-- `_datatype`, which is -1 where the inventory does not say.
unfoldable pub datatype_of : Option Inventory → ℕ → Option ℕ
datatype_of none dp_id = none
datatype_of (some inv) dp_id = elim (lookup dp_id inv) [
  | none ↦ none
  | some entry ↦ some entry.datatype
]

abbrev pub is_type : Option ℕ → ℕ → Bool
is_type none t = false
is_type (some s) t = s == t

unfoldable pub as_auto : Option Inventory → Option Bytes → ℕ → Option ℤ
unfolding datatype_of as_i32 as_u32
as_auto inv raw dp_id =
    if is_type (datatype_of inv dp_id) dp_type_signed then as_i32 raw else as_u32 raw

unfoldable pub sap_number : Option Inventory → Option Bytes → Option SapNumber
unfolding datatype_of as_str as_u32
sap_number inv none = none
sap_number inv (some []) = none
sap_number inv (some (b ∷ raw)) =
    if is_type (datatype_of inv 4) dp_type_string
    then elim (as_str (some (b ∷ raw))) [ none ↦ none | some s ↦ some (text s) ]
    else elim (as_u32 (some (b ∷ raw))) [ none ↦ none | some n ↦ some (number n) ]

unfoldable pub get_device_identification : Option Inventory → Io Ble20DeviceIdentification
unfolding as_auto as_str as_u8 as_u32 sap_number caught
get_device_identification inv = do
  name_raw ← optional (read 16 none)
  series_raw ← optional (read 0 none)
  variant_raw ← optional (read 1 none)
  prod_date_raw ← optional (read 3 none)
  number_raw ← optional (read 2 none)
  sap_raw ← optional (read 4 none)
  fw_rs_raw ← optional (read 8 none)
  fw_ts_raw ← optional (read 9 none)
  model_raw ← optional (read 304 none)
  unique_raw ← optional (read 236 none)
  boot_raw ← optional (read 337 none)
  prod_sap_raw ← optional (read 371 none)
  prod_serial_raw ← optional (read 369 none)
  ret (record {
    name = as_str name_raw;
    device_series = as_u8 series_raw;
    device_variant = as_u8 variant_raw;
    device_boot_variant = as_u8 boot_raw;
    device_model = as_u8 model_raw;
    device_number = as_auto inv number_raw 2;
    device_unique_id = as_u32 unique_raw;
    fw_rs_version = as_str fw_rs_raw;
    fw_ts_version = as_u32 fw_ts_raw;
    device_production_date = as_u32 prod_date_raw;
    device_sap_number = sap_number inv sap_raw;
    sales_product_sap_number = as_str prod_sap_raw;
    sales_product_serial_number = as_str prod_serial_raw;
  })
