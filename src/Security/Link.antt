-- ===== src/Security/Link.antt =====
-- AriendiSecurity.py, the class `AriendiSecurity` below the handshake: HDLC frames, the receive
-- buffer, the inner stream of messages, and the exchange of data.
--
-- The state is the object's fields. `ack_send_fn` says whether `_ack_send_fn` is set; what it is
-- called with, in a task of the running loop, is listed in `acks`.
pub mod Buffer
pub mod Frames
use geberit_aquaclean.Prelude.{
  ℕ, zero, suc, ◌+◌, ◌-◌, ◌*◌, ◌/◌, ◌%◌, ◌^◌, bit_and, bit_or, Bool, false, ◌&&◌, Option, none,
  some, List, [], ◌∷◌, ◌++◌, ◌==◌, ltb, if◌then◌else◌, length, drop, get_or, Result, ok, err,
}
use geberit_aquaclean.Prelude.Bits.{◌>>>◌, ◌<<<◌}
use geberit_aquaclean.Prelude.Bytes.{Bytes}
use geberit_aquaclean.Security.Kermit.{crc16_kermit, sealed, crc_received, body_of}
use geberit_aquaclean.Security.Cobs.{cobs_encode, cobs_decode}
use geberit_aquaclean.Security.AesCtr.{AesCtrState}
use mathlib.Core.Option

pub data FrameKind : Type 0 where
  i_frame u_frame : FrameKind

-- The tuples ('I', ctrl, payload) and ('U', ctrl, payload) of `_rx_queue`.
pub record RxFrame : Type 0 where
  pub kind : FrameKind
  pub ctrl : ℕ
  pub payload : Bytes

pub record Security : Type 0 where
  pub rx_buf : Bytes
  pub rx_queue : List RxFrame
  pub tx_seq : ℕ
  pub rx_ack : ℕ
  pub rx_cipher : Option AesCtrState
  pub tx_cipher : Option AesCtrState
  pub inner_cobs_buf : Bytes
  pub ack_send_fn : Bool
  pub handshake_done : Bool
  pub acks : List Bytes

-- `__init__`; `reset` assigns the same values, and `acks` is no field of the object.
abbrev pub fresh : Security
fresh = record {
  rx_buf = [];
  rx_queue = [];
  tx_seq = 0;
  rx_ack = 0;
  rx_cipher = none;
  tx_cipher = none;
  inner_cobs_buf = [];
  ack_send_fn = false;
  handshake_done = false;
  acks = [];
}

unfoldable pub reset : Security → Security
reset s = record fresh { acks = s.acks }

-- `_u_ctrl`, `_i_ctrl` and `_s_ctrl_rr`
unfoldable pub u_ctrl : ℕ → ℕ
u_ctrl type_code =
    bit_or (bit_or (bit_and (type_code <<< 3) 0xe0) (bit_and (type_code <<< 2) 0x0c)) 0x03

unfoldable pub i_ctrl : Security → ℕ
i_ctrl s = bit_or (bit_and (s.rx_ack <<< 5) 0xe0) (bit_and (s.tx_seq <<< 1) 0x0e)

unfoldable pub s_ctrl_rr : Security → ℕ
s_ctrl_rr s = bit_or (bit_and (s.rx_ack <<< 5) 0xe0) 0x01

-- A message with its checksum, stuffed, between two delimiters: `_build_att` and the inner frame
-- of `wrap_for_send`.
unfoldable pub frame_of : Bytes → Bytes
frame_of raw = 0 ∷ (cobs_encode (sealed raw) ++ (0 ∷ []))

unfoldable pub build_att : ℕ → Bytes → Bytes
build_att ctrl payload = frame_of (ctrl ∷ payload)

unfoldable pub att_u : ℕ → Bytes
att_u hdlc_type = build_att (u_ctrl hdlc_type) []

unfoldable pub att_i : Security → Bytes → Bytes × Security
att_i s sec_payload = (build_att (i_ctrl s) sec_payload, record s { tx_seq = (s.tx_seq + 1) % 8 })

unfoldable pub att_s_rr : Security → Bytes
att_s_rr s = build_att (s_ctrl_rr s) []

-- An I-frame is queued, and once the handshake is done it is acknowledged.
unfoldable pub queue_i_frame : Security → ℕ → Bytes → Security
queue_i_frame s ctrl payload =
    let s' = record s {
      rx_ack = (bit_and (ctrl >>> 1) 0x07 + 1) % 8;
      rx_queue = s.rx_queue ++ (record { kind = i_frame; ctrl = ctrl; payload = payload } ∷ []);
    } in
    if s.handshake_done && s.ack_send_fn
    then record s' { acks = s'.acks ++ (att_s_rr s' ∷ []) }
    else s'

unfoldable pub queue_u_frame : Security → ℕ → Bytes → Security
queue_u_frame s ctrl payload = record s {
  rx_queue = s.rx_queue ++ (record { kind = u_frame; ctrl = ctrl; payload = payload } ∷ []);
}

-- The end of an iteration of `_process_rx_buf`: what a frame with this control byte does.
unfoldable pub dispatch : Security → ℕ → Bytes → Security
dispatch s ctrl payload =
    if bit_and ctrl 0x01 == 0
    then queue_i_frame s ctrl payload
    else if bit_and ctrl 0x03 == 0x03
    then queue_u_frame s ctrl payload
    else s

-- `decoded[0]` and `decoded[1:-2]`, where `decoded` has three bytes at least.
unfoldable pub handle_decoded : Security → Bytes → Security
handle_decoded s decoded =
    if ltb (length decoded) 3
    then s
    else if crc_received decoded == crc16_kermit (body_of decoded)
    then dispatch s (get_or decoded 0 0) (drop 1 (body_of decoded))
    else s

-- A frame that cannot be decoded is dropped.
unfoldable pub after_decode : Security → Result Bytes → Security
after_decode s (ok decoded) = handle_decoded s decoded
after_decode s (err _) = s

-- Two delimiters in a row hold no frame.
unfoldable pub handle_content : Security → Bytes → Security
unfolding after_decode
handle_content s [] = s
handle_content s (b ∷ content) = after_decode s (cobs_decode (b ∷ content))

-- `buf[buf.find(0):]`, and nothing where there is no zero.
unfoldable pub skip : Bytes → Bytes
skip [] = []
skip (b ∷ bs) = if b == 0 then b ∷ bs else skip bs

-- `buf[:end]` and `buf[end:]` for `end = buf.find(0)`.
unfoldable pub split_zero : Bytes → Option (Bytes × Bytes)
split_zero [] = none
split_zero (b ∷ bs) =
    if b == 0
    then some ([], b ∷ bs)
    else Option.map (λ (p : Bytes × Bytes). (b ∷ p.0, p.1)) (split_zero bs)

-- The loop of `_process_rx_buf`, on fuel: each iteration takes a byte of the buffer at least.
unfoldable pub process_rx_loop : ℕ → Security → Security
process_rx_loop zero s = s
process_rx_loop (suc fuel) s = elim (skip s.rx_buf) [
  | [] ↦ record s { rx_buf = [] }
  | z ∷ tail ↦ elim (split_zero tail) [
    | none ↦ record s { rx_buf = z ∷ tail }
    | some (content, rest) ↦
        process_rx_loop fuel (handle_content (record s { rx_buf = rest }) content)
  ]
]

unfoldable pub process_rx_buf : Security → Security
process_rx_buf s = process_rx_loop (length s.rx_buf + 1) s

-- The first two lines of `feed_att_bytes`.
unfoldable pub receive : Security → Bytes → Security
receive s data' = process_rx_buf (record s { rx_buf = s.rx_buf ++ data' })
