-- ===== src/Ble20/Inventory.antt =====
-- Ble20Client.py, `inventory`: the table of a device's data points.
use geberit_aquaclean.Prelude.{
  ℕ, zero, suc, ◌+◌, bit_and, Bool, Option, List, [], ◌∷◌, ◌==◌, ltb, if◌then◌else◌, length, drop,
  get_or, Result, ok, err, timeout_error, struct_error,
}
use geberit_aquaclean.Prelude.Bytes.{Bytes, at, slice, from_le}
use geberit_aquaclean.Prelude.Dict.{insert}
use geberit_aquaclean.Prelude.Int.{ℤ, to_signed}
use geberit_aquaclean.Ble20.Address.{decode_address}
use geberit_aquaclean.Ble20.Client.{
  Io, ◌>>=◌, ◌>>◌, ret, raise, pure, recv, send, pending, await_frame,
}

abbrev pub inventory_cmd : ℕ
inventory_cmd = 0x00

abbrev pub inventory_count : ℕ
inventory_count = 0x01

abbrev pub inventory_data : ℕ
inventory_data = 0x02

pub record Entry : Type 0 where
  pub instance_id : Option ℕ
  pub version : ℕ
  pub datatype : ℕ
  pub min_s : ℤ
  pub max_s : ℤ
  pub min_u : ℕ
  pub max_u : ℕ
  pub is_internal : Bool
  pub behavior : ℕ

-- struct.unpack_from, which raises where the bytes are too few.
unfoldable pub unpack_le : ℕ → Bytes → ℕ → Result ℕ
unpack_le size data' offset =
    if ltb (length data') (offset + size)
    then err struct_error
    else ok (from_le (slice offset (offset + size) data'))

-- The entry of a payload, which has eleven bytes at least, so that every read is in range.
unfoldable pub entry_of : Option ℕ → Bytes → Entry
entry_of instance_id payload =
    let min = from_le (slice 2 6 payload) in
    let max = from_le (slice 6 10 payload) in
    let flags = get_or payload 10 0 in
    record {
      instance_id = instance_id;
      version = get_or payload 0 0;
      datatype = get_or payload 1 0;
      min_s = to_signed 31 min;
      max_s = to_signed 31 max;
      min_u = min;
      max_u = max;
      is_internal = ltb 0 (bit_and flags 0x80);
      behavior = bit_and flags 0x7f;
    }

abbrev pub Inventory : Type 0
Inventory = List (ℕ × Entry)

-- What a data frame adds. A short one counts as received and adds nothing.
unfoldable pub add_data : Bytes → Inventory → Result Inventory
unfolding entry_of
add_data frame result = elim (decode_address frame 1) [
  | err e ↦ err e
  | ok (dp_id, instance_id, off) ↦
      if ltb (length (drop off frame)) 11
      then ok result
      else ok (insert dp_id (entry_of instance_id (drop off frame)) result)
]

-- `while received < count`, with `left` frames still to be received, on fuel.
unfoldable pub collect : ℕ → ℕ → Inventory → Io Inventory
unfolding add_data
collect n zero result = ret result
collect zero (suc left) result = raise timeout_error
collect (suc n) (suc left) result = do
  frame ← recv
  cmd ← pure (at frame 0)
  next ← pure (if cmd == inventory_data then add_data frame result else ok result)
  collect n (if cmd == inventory_data then left else suc left) next

unfoldable pub inventory : Io Inventory
unfolding collect unpack_le
inventory = do
  send (inventory_cmd ∷ 0x00 ∷ [])
  frame ← await_frame (λ cmd. cmd == inventory_count)
  count ← pure (unpack_le 2 frame 1)
  (λ c. collect (suc (pending c)) count [] c)
