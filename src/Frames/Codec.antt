-- ===== src/Frames/Codec.antt =====
-- FrameFactory.py and the classes of Frames/Frames: frames of twenty bytes, read and written.
pub mod RoundTrip
use geberit_aquaclean.Prelude.{
  ℕ, ◌+◌, bit_and, bit_or, Bool, true, false, [], ◌∷◌, ◌++◌, ◌==◌, ltb, if◌then◌else◌, replicate,
  take, drop, Result, ok, err, ◌>>=◌, value_error, exception,
}
use geberit_aquaclean.Prelude.Bits.{◌>>>◌, ◌<<<◌}
use geberit_aquaclean.Prelude.Bytes.{Bytes, at, slice}
use geberit_aquaclean.Message.Crc.{byte_item}

pub data FrameType : Type 0 where
  single : FrameType
  first : FrameType
  cons : FrameType
  control : FrameType
  info : FrameType

unfoldable pub value : FrameType → ℕ
value single = 0
value first = 1
value cons = 2
value control = 3
value info = 4

-- `frame_type(n)`, which raises ValueError on what is no member.
unfoldable pub frame_type : ℕ → Result FrameType
frame_type n =
    if n == 0
    then ok single
    else if n == 1
    then ok first
    else if n == 2
    then ok cons
    else if n == 3
    then ok control
    else if n == 4
    then ok info
    else err value_error

-- The attributes that every frame has.
pub record Header : Type 0 where
  pub frame_type : FrameType
  pub has_message_type_byte_b4 : Bool
  pub sub_frame_count_or_index : ℕ
  pub is_sub_frame_count : Bool

unfoldable pub header_byte : Header → ℕ
unfolding value
header_byte h =
    bit_or
      (bit_or (bit_or (value h.frame_type <<< 5) (if h.has_message_type_byte_b4 then 16 else 0))
        (h.sub_frame_count_or_index <<< 1))
      (if h.is_sub_frame_count then 1 else 0)

-- `serialize_hdr`: the header byte and nineteen zeros.
unfoldable pub serialize_hdr : Header → Result Bytes
unfolding header_byte
serialize_hdr h = do b ← byte_item (header_byte h); ok (b ∷ replicate 19 0)

-- The attributes that `create_frame_from_bytes` sets on every frame it makes.
unfoldable pub header_of : FrameType → ℕ → Header
header_of t b = record {
  frame_type = t;
  has_message_type_byte_b4 = ltb 0 (bit_and b 16);
  sub_frame_count_or_index = bit_and (b >>> 1) 3;
  is_sub_frame_count = ltb 0 (bit_and b 1);
}

-- The attributes of `FirstConsFrame`, whose lower-case flags are read at other bit positions.
pub record FirstConsFrame : Type 0 where
  pub payload : Bytes
  pub frame_count_or_number : ℕ
  pub is_sub_frame_count : Bool
  pub sub_frame_count_or_index : ℕ
  pub has_message_type_byte_b4 : Bool

unfoldable pub create_first_cons_frame : Bytes → Result FirstConsFrame
create_first_cons_frame data' = do
  b ← at data' 0
  n ← at data' 1
  ok (record {
    payload = slice 2 20 data';
    frame_count_or_number = n;
    is_sub_frame_count = ltb 0 (bit_and b 0x80);
    sub_frame_count_or_index = bit_and (b >>> 5) 3;
    has_message_type_byte_b4 = ltb 0 (bit_and b 8);
  })

pub record FlowControlFrame : Type 0 where
  pub error_code : ℕ
  pub unackd_frame_limit : ℕ
  pub transaction_latency : ℕ
  pub ackd_frame_bitmask : Bytes

unfoldable pub create_flow_control_frame : Bytes → Result FlowControlFrame
create_flow_control_frame data' = do
  error_code ← at data' 1
  limit ← at data' 2
  latency ← at data' 3
  ok (record {
    error_code = error_code;
    unackd_frame_limit = limit;
    transaction_latency = latency;
    ackd_frame_bitmask = slice 4 12 data';
  })

pub record InfoFrame : Type 0 where
  pub info_frm_type : ℕ
  pub proto_version : ℕ
  pub max_packet_len : ℕ
  pub max_packet_count : ℕ
  pub capa_flags0 : ℕ
  pub capa_flags1 : ℕ
  pub mode_flags0 : ℕ
  pub mode_flags1 : ℕ
  pub ctrl_flags0 : ℕ
  pub ctrl_flags1 : ℕ
  pub cmd : ℕ
  pub rs_hi : ℕ
  pub rs_lo : ℕ
  pub ts_hi : ℕ
  pub ts_lo : ℕ

unfoldable pub create_info_frame : Bytes → Result InfoFrame
create_info_frame data' = do
  b1 ← at data' 1
  b2 ← at data' 2
  b3 ← at data' 3
  b4 ← at data' 4
  b5 ← at data' 5
  b6 ← at data' 6
  b7 ← at data' 7
  b8 ← at data' 8
  b9 ← at data' 9
  b10 ← at data' 10
  b11 ← at data' 11
  b12 ← at data' 12
  b13 ← at data' 13
  b14 ← at data' 14
  b15 ← at data' 15
  ok (record {
    info_frm_type = b1;
    proto_version = b2;
    max_packet_len = b3;
    max_packet_count = b4;
    capa_flags0 = b5;
    capa_flags1 = b6;
    mode_flags0 = b7;
    mode_flags1 = b8;
    ctrl_flags0 = b9;
    ctrl_flags1 = b10;
    cmd = b11;
    rs_hi = b12;
    rs_lo = b13;
    ts_hi = b14;
    ts_lo = b15;
  })

pub data Frame : Type 0 where
  single_frame : Header → Bytes → Frame
  first_cons_frame : Header → FirstConsFrame → Frame
  flow_control_frame : Header → FlowControlFrame → Frame
  info_frame : Header → InfoFrame → Frame

unfoldable pub create_of_type : FrameType → Header → Bytes → Result Frame
create_of_type single h data' = ok (single_frame h (slice 1 20 data'))
create_of_type first h data' = create_first_cons_frame data' >>= λ f. ok (first_cons_frame h f)
create_of_type cons h data' = create_first_cons_frame data' >>= λ f. ok (first_cons_frame h f)
create_of_type control h data' =
    create_flow_control_frame data' >>= λ f. ok (flow_control_frame h f)
create_of_type info h data' = create_info_frame data' >>= λ f. ok (info_frame h f)

-- `CreateFrameFromBytes`. It makes a frame of each type, so it never returns None.
unfoldable pub create_frame_from_bytes : Bytes → Result Frame
unfolding header_of create_of_type
create_frame_from_bytes data' = do
  b ← at data' 0
  t ← frame_type (bit_and (b >>> 5) 7)
  create_of_type t (header_of t b) data'

-- `var1[i:j] = new` in a frame of twenty bytes.
abbrev pub put_slice : ℕ → ℕ → Bytes → Bytes → Bytes
put_slice i j new old = take i old ++ new ++ drop j old

-- The items of an info frame, each of which must be a byte.
unfoldable pub byte_items : Bytes → Result Bytes
byte_items [] = ok []
byte_items (x ∷ xs) = do b ← byte_item x; bs ← byte_items xs; ok (b ∷ bs)

abbrev pub info_items : InfoFrame → Bytes
info_items f =
    f.info_frm_type ∷ f.proto_version ∷ f.max_packet_len ∷ f.max_packet_count ∷ f.capa_flags0
    ∷ f.capa_flags1 ∷ f.mode_flags0 ∷ f.mode_flags1 ∷ f.ctrl_flags0 ∷ f.ctrl_flags1 ∷ f.cmd
    ∷ f.rs_hi ∷ f.rs_lo ∷ f.ts_hi ∷ f.ts_lo ∷ []

unfoldable pub serialize : Frame → Result Bytes
unfolding serialize_hdr byte_items
serialize (single_frame h payload) = do var1 ← serialize_hdr h; ok (put_slice 1 20 payload var1)
serialize (first_cons_frame h f) = err exception
serialize (flow_control_frame h f) = do
  var1 ← serialize_hdr h
  bs ← byte_items (f.error_code ∷ f.unackd_frame_limit ∷ f.transaction_latency ∷ [])
  ok (put_slice 4 12 f.ackd_frame_bitmask (put_slice 1 4 bs var1))
serialize (info_frame h f) = do
  var1 ← serialize_hdr h
  bs ← byte_items (info_items f)
  ok (put_slice 1 16 bs var1)

-- `BuildControlFrame`, where `AckdFrameBitmask[:8] = bitmap[:8]` replaces the eight bytes.
unfoldable pub build_control_frame : Bytes → Frame
build_control_frame bitmap =
    flow_control_frame
      (record {
        frame_type = control;
        has_message_type_byte_b4 = true;
        sub_frame_count_or_index = 0;
        is_sub_frame_count = false;
      })
      (record {
        error_code = 0;
        unackd_frame_limit = 8;
        transaction_latency = 0;
        ackd_frame_bitmask = take 8 bitmap;
      })

-- `BuildSingleFrame`.
unfoldable pub build_single_frame : Bytes → Frame
build_single_frame data' =
    single_frame
      (record {
        frame_type = single;
        has_message_type_byte_b4 = true;
        sub_frame_count_or_index = 0;
        is_sub_frame_count = true;
      })
      (take 19 data' ++ drop 19 (replicate 19 0))
