-- ===== src/Security/Cobs.antt =====
-- AriendiSecurity.py, `_cobs_encode` and `_cobs_decode`: byte stuffing without zero bytes.
pub mod RoundTrip
pub mod Shape
use geberit_aquaclean.Prelude.{
  ℕ, zero, suc, ◌+◌, ◌-◌, List, [], ◌∷◌, ◌++◌, ◌==◌, if◌then◌else◌, length, set, Result, ok, err,
  value_error,
}
use geberit_aquaclean.Prelude.Bytes.{Bytes}
use mathlib.Core.List.{foldl}

-- The local variables of `_cobs_encode`.
pub record Encoder : Type 0 where
  pub result : Bytes
  pub code_pos : ℕ
  pub code : ℕ

-- `result[code_pos] = code`, and a new placeholder behind it.
abbrev pub next_group : Encoder → Encoder
next_group e = record {
  result = set e.result e.code_pos e.code ++ (0 ∷ []);
  code_pos = length (set e.result e.code_pos e.code);
  code = 1;
}

abbrev pub append_byte : Encoder → ℕ → Encoder
append_byte e byte = record e { result = e.result ++ (byte ∷ []); code = e.code + 1 }

unfoldable pub encode_byte : Encoder → ℕ → Encoder
encode_byte e byte =
    if byte == 0
    then next_group e
    else if e.code + 1 == 0xff
    then next_group (append_byte e byte)
    else append_byte e byte

abbrev pub encoder_start : Encoder
encoder_start = record { result = 0 ∷ []; code_pos = 0; code = 1 }

unfoldable pub cobs_encode : Bytes → Bytes
unfolding encode_byte
cobs_encode data' = let e = foldl encode_byte encoder_start data' in set e.result e.code_pos e.code

-- The loop of `_cobs_decode` inside a group with the given code: `left` bytes are still to be
-- copied. At 0 the group is over, and the next byte, if there is one, is the next group's code.
unfoldable pub decode_group : ℕ → ℕ → Bytes → Bytes → Result Bytes
decode_group code zero [] result = ok result
decode_group code zero (next ∷ rest) result =
    let result' = if code == 0xff then result else result ++ (0 ∷ []) in
    let more = decode_group next (next - 1) rest result' in
    if next == 0 then err value_error else more
decode_group code (suc left) [] result = err value_error
decode_group code (suc left) (b ∷ rest) result = decode_group code left rest (result ++ (b ∷ []))

unfoldable pub cobs_decode : Bytes → Result Bytes
unfolding decode_group
cobs_decode [] = ok []
cobs_decode (code ∷ rest) =
    if code == 0 then err value_error else decode_group code (code - 1) rest []
