-- ===== src/Api/Reports.antt =====
-- GetNodeList.py, and GetStatisticsDescale.py with Dtos/StatisticsDescale.py.
pub mod Reading
use geberit_aquaclean.Prelude.{ℕ, ◌-◌, min, List, [], ◌∷◌, length, map, take, ok}
use geberit_aquaclean.Prelude.Bytes.{Bytes, slice, from_le}
use geberit_aquaclean.Api.Call.{ApiCall, call}
use geberit_aquaclean.Api.Text.{Text, hex2}

abbrev pub get_node_list : ApiCall
get_node_list = call 0x01 0x05 0x01 (ok [])

pub record NodeList : Type 0 where
  pub count : ℕ
  pub node_ids : List Text

-- `f"0x{data[i]:02X}"`
unfoldable pub node_text : ℕ → Text
unfolding hex2
node_text b = b'0' ∷ b'x' ∷ hex2 b

-- `result` of GetNodeList.
unfoldable pub node_list_result : Bytes → NodeList
unfolding node_text
node_list_result [] = record { count = 0; node_ids = [] }
node_list_result (count ∷ rest) = record {
  count = count;
  node_ids = map node_text (take (min count (length rest)) rest);
}

abbrev pub get_statistics_descale : ApiCall
get_statistics_descale = call 0x01 0x45 0x01 (ok [])

pub record StatisticsDescale : Type 0 where
  pub unposted_shower_cycles : ℕ
  pub days_until_next_descale : ℕ
  pub days_until_shower_restricted : ℕ
  pub shower_cycles_until_confirmation : ℕ
  pub date_time_at_last_descale : ℕ
  pub date_time_at_last_descale_prompt : ℕ
  pub number_of_descale_cycles : ℕ

-- `result` of GetStatisticsDescale. What is missing at the end counts as 0.
unfoldable pub descale_result : Bytes → StatisticsDescale
unfolding from_le
descale_result data' = record {
  unposted_shower_cycles = from_le (slice 0 1 data');
  days_until_next_descale = from_le (slice 1 3 data');
  days_until_shower_restricted = from_le (slice 3 5 data');
  shower_cycles_until_confirmation = from_le (slice 5 6 data');
  date_time_at_last_descale = from_le (slice 6 10 data');
  date_time_at_last_descale_prompt = from_le (slice 10 14 data');
  number_of_descale_cycles = from_le (slice 14 16 data');
}
