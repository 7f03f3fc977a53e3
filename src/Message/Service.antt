-- ===== src/Message/Service.antt =====
-- Message.py, MessageContext.py and MessageService.py: messages parsed and built.
pub mod Parse
pub mod Rejects
pub mod Padded
use geberit_aquaclean.Prelude.{
  ℕ, ◌+◌, ◌-◌, ◌*◌, ◌||◌, Option, none, some, ◌∷◌, ◌==◌, ltb, if◌then◌else◌, length, Result, ok,
  err, ◌>>=◌, exception, attribute_error, require,
}
use geberit_aquaclean.Prelude.Bytes.{Bytes, at, slice}
use geberit_aquaclean.Message.Crc.{CrcMessage, create, create_from_bytes, is_valid, size_of_header}

abbrev pub blemsg_id_plain_rsp : ℕ
blemsg_id_plain_rsp = 2

abbrev pub blemsg_id_plain_ntf : ℕ
blemsg_id_plain_ntf = 3

abbrev pub blemsg_id_crc_req : ℕ
blemsg_id_crc_req = 4

abbrev pub blemsg_id_crc_rsp : ℕ
blemsg_id_crc_rsp = 5

abbrev pub blemsg_id_crc_ntf : ℕ
blemsg_id_crc_ntf = 6

-- `Message.create_from_stream`, which returns None for a request and for an unknown id.
unfoldable pub create_from_stream : Bytes → Result (Option CrcMessage)
create_from_stream data' = do
  kind ← at data' 0
  if kind == blemsg_id_plain_rsp || kind == blemsg_id_plain_ntf
      then err exception
      else if kind == blemsg_id_crc_rsp || kind == blemsg_id_crc_ntf
      then (create_from_bytes data' >>= λ m. ok (some m))
      else ok none

-- The attribute `result` is always None.
pub record MessageContext : Type 0 where
  pub context : ℕ
  pub procedure : ℕ
  pub result_bytes : Bytes

unfoldable pub parse_message2 : ℕ → ℕ → Bytes → MessageContext
parse_message2 context procedure data' = record {
  context = context;
  procedure = procedure;
  result_bytes = data';
}

-- The branch for responses. `is_valid` is evaluated, and what it returns is only logged.
unfoldable pub parse_response : CrcMessage → Result MessageContext
unfolding parse_message2
parse_response m = do
  valid ← is_valid m
  context ← at m.body 2
  procedure ← at m.body 3
  arg_byte_length ← at m.body 4
  ok (parse_message2 context procedure (slice 5 (5 + arg_byte_length) m.body))

-- `message.id` raises AttributeError where there is no message.
unfoldable pub parse_message1 : Bytes → Result (Option MessageContext)
parse_message1 data' = do
  found ← create_from_stream data'
  message ← require found attribute_error
  if message.id == 5 then (parse_response message >>= λ c. ok (some c)) else ok none

-- `is_zero - 1 + (is_one - 1) * 16`, and 256 more where that is negative.
unfoldable pub segment_byte : ℕ → ℕ → ℕ
segment_byte is_zero is_one =
    let n = is_zero + is_one * 16 in if ltb n 17 then 256 + n - 17 else n - 17

unfoldable pub build_message_segment_of_type : ℕ → Bytes → ℕ → ℕ → Result (Option CrcMessage)
unfolding segment_byte
build_message_segment_of_type message_id data' is_zero is_one =
    if message_id == 4
    then (if ltb 256 (size_of_header + length data')
        then ok none
        else (create message_id (segment_byte is_zero is_one) data' >>= λ m. ok (some m)))
    else ok none

unfoldable pub build_message : Bytes → Result (Option CrcMessage)
unfolding build_message_segment_of_type
build_message data' = build_message_segment_of_type 4 data' 0x00 0x01
