-- ===== src/Api/Deserializer.antt =====
-- Deserializer.py. The reads are coroutines on the bytes, since `deserialize_to_int` reverses the bytes
-- that it reads where they stand.
pub mod Int
use geberit_aquaclean.Prelude.{
  ℕ, zero, suc, ◌+◌, ◌-◌, ◌*◌, ◌/◌, bit_or, List, [], ◌∷◌, ◌++◌, length, take, drop, reverse_onto,
  Result, ok,
}
use geberit_aquaclean.Prelude.Bits.{◌<<<◌}
use geberit_aquaclean.Prelude.Bytes.{Bytes, at, slice}
use geberit_aquaclean.Prelude.Io.{◌>>=◌, ret, pure}
use geberit_aquaclean.Api.Text.{Text, clean_text}

-- A coroutine on the bytes of a response.
abbrev pub Io : Type 0 → Type 0
Io A = Bytes → Result A × Bytes

-- `data[position:position + length] = reversed(data[position:position + length])`
unfoldable pub reverse_at : ℕ → ℕ → Bytes → Bytes
reverse_at position size data' =
    take position data'
    ++ reverse_onto (take size (drop position data')) (drop (position + size) data')

-- `for i in range(position, position + length): var0 = (var0 << 8) | data[i]`
unfoldable pub join_from : ℕ → ℕ → ℕ → Io ℕ
join_from i zero var0 = ret var0
join_from i (suc n) var0 = do
  b ← λ (data' : Bytes). (at data' i, data')
  join_from (suc i) n (bit_or (var0 <<< 8) b)

unfoldable pub deserialize_to_int : ℕ → ℕ → Io ℕ
unfolding reverse_at join_from
deserialize_to_int position size data' = join_from position size 0 (reverse_at position size data')

-- The types of a class's fields. A text has the length of the field's default value.
pub data Field : Type 0 where
  int_field : Field
  str_field : ℕ → Field
  ints_field : Field

pub data Value : Type 0 where
  int_value : ℕ → Value
  str_value : Text → Value
  ints_value : List ℕ → Value

-- `for i in range(array_size)`: `n` rounds, from `i` on.
unfoldable pub read_numbers : ℕ → ℕ → ℕ → List ℕ → Io (List ℕ)
unfolding deserialize_to_int
read_numbers start_pos i zero value = ret value
read_numbers start_pos i (suc n) value = do
  number ← deserialize_to_int (i * 5 + 1 + start_pos) 4
  read_numbers start_pos (suc i) n (value ++ number ∷ [])

-- The fields from `start_pos` on. A list takes what is left of the data.
unfoldable pub deserialize_from : ℕ → List Field → Io (List Value)
unfolding read_numbers clean_text
deserialize_from start_pos [] = ret []
deserialize_from start_pos (int_field ∷ fields) = do
  data' ← λ (d : Bytes). (ok d, d)
  value ← pure (at data' start_pos)
  rest ← deserialize_from (start_pos + 1) fields
  ret (int_value value ∷ rest)
deserialize_from start_pos (str_field size ∷ fields) = do
  data' ← λ (d : Bytes). (ok d, d)
  value ← pure (clean_text (slice start_pos (start_pos + size) data'))
  rest ← deserialize_from (start_pos + size) fields
  ret (str_value value ∷ rest)
deserialize_from start_pos (ints_field ∷ fields) = do
  data' ← λ (d : Bytes). (ok d, d)
  value ← read_numbers start_pos 0 ((length data' - start_pos) / 5) []
  rest ← deserialize_from (length data') fields
  ret (ints_value value ∷ rest)

unfoldable pub deserialize : List Field → Io (List Value)
unfolding deserialize_from
deserialize = deserialize_from 0
