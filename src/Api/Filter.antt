-- ===== src/Api/Filter.antt =====
-- GetFilterStatus.py: the records of the filter's maintenance.
pub mod Reading
use geberit_aquaclean.Prelude.{ℕ, Option, [], ◌∷◌, ltb, if◌then◌else◌, length, ok}
use geberit_aquaclean.Prelude.Bytes.{Bytes, from_le}
use geberit_aquaclean.Api.Call.{ApiCall, call}
use geberit_aquaclean.Api.Records.{Records}
use geberit_aquaclean.Prelude.Dict.{lookup, insert}

-- The payload: eight ids behind their number, and zeros up to thirteen bytes.
abbrev pub filter_payload : Bytes
filter_payload =
    0x08 ∷ 0x00 ∷ 0x01 ∷ 0x02 ∷ 0x03 ∷ 0x07 ∷ 0x08 ∷ 0x09 ∷ 0x0a ∷ 0x00 ∷ 0x00 ∷ 0x00 ∷ 0x00 ∷ []

abbrev pub get_filter_status : ApiCall
get_filter_status = call 0x01 0x59 0x01 (ok filter_payload)

pub record FilterStatus : Type 0 where
  pub days_until_filter_change : Option ℕ
  pub last_filter_reset : Option ℕ
  pub next_filter_change : Option ℕ
  pub filter_reset_count : Option ℕ
  pub raw_records : Records

-- `while pos + 4 < len(data) and len(records) < count`, from `data[pos:]` on.
unfoldable pub filter_records : ℕ → Bytes → Records → Records
filter_records count (id ∷ b0 ∷ b1 ∷ b2 ∷ b3 ∷ rest) records =
    let more = filter_records count rest (insert id (from_le (b0 ∷ b1 ∷ b2 ∷ b3 ∷ [])) records) in
    if ltb (length records) count then more else records
filter_records count _ records = records

unfoldable pub filter_status : Records → FilterStatus
filter_status records = record {
  days_until_filter_change = lookup 7 records;
  last_filter_reset = lookup 8 records;
  next_filter_change = lookup 9 records;
  filter_reset_count = lookup 10 records;
  raw_records = records;
}

-- `result`.
unfoldable pub filter_result : Bytes → FilterStatus
unfolding filter_records filter_status
filter_result [] = filter_status []
filter_result (count ∷ rest) = filter_status (filter_records count rest [])
