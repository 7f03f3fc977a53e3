-- ===== src/Examples.antt =====
-- Test data, and concrete runs.
mod Alba
mod Handshake
mod Mera
mod Requests
mod Calls
mod AlbaClient
mod Statistics
mod Firmware
mod ApiMode
use geberit_aquaclean.Prelude.{
  take, replicate, get_elem?, ◌⊎◌, ℕ, zero, suc, ◌&&◌, sym, ◌+◌, ◌*◌, ◌%◌, ◌≤◌, ◌<◌, ◌≡◌, ◌≢◌, refl,
  Bool, true, false, none, some, List, [], ◌∷◌, ◌++◌, map, inr, arith, All, ltb, if◌then◌else◌,
  length, ok, ◌>>=◌,
}
use geberit_aquaclean.Prelude.Bytes.{Bytes, IsBytes}
use geberit_aquaclean.Security.Cobs.{cobs_encode, cobs_decode}
use geberit_aquaclean.Security.Cobs.RoundTrip.{cobs_decode-cobs_encode}
use geberit_aquaclean.Security.Cobs.Shape.{length-cobs_encode}
use geberit_aquaclean.Security.AesCtr.{AesCtrState, init, process}
use geberit_aquaclean.Security.AesCtr.Counter.{ctr_mode, process-ctr_mode}
use geberit_aquaclean.Security.Link.{Security, fresh, receive, process_rx_buf}
use geberit_aquaclean.Security.Link.Buffer.{scan, hunting, process_rx_buf-scan, receive-append}
use geberit_aquaclean.Security.Session.{feed_inner_cobs, feed_att_bytes, wrap_for_send}
use geberit_aquaclean.Security.Session.Inner.{feed_inner_cobs-append}
use geberit_aquaclean.Security.Session.Conversation.{converse, converse-Paired}
use geberit_aquaclean.Security.Session.Deliver.{Paired, wrapped, feed_att_bytes-wrap_for_send}
use geberit_aquaclean.Message.Crc.{CrcMessage, create, is_valid, serialize, create_from_bytes}
use geberit_aquaclean.Message.Crc.RoundTrip.{created, create_from_bytes-serialize}
use geberit_aquaclean.Message.Service.{parse_message1}
use geberit_aquaclean.Message.Service.Parse.{response_body, parse_message1-serialize}
use geberit_aquaclean.Frames.Validation.{mark_transaction_ok_packets}
use geberit_aquaclean.Frames.Validation.Marks.{confirmed, mark_transaction_ok_packets-confirmed}
use geberit_aquaclean.Ble20.Address.{encode_address, decode_address}
use geberit_aquaclean.Ble20.Address.RoundTrip.{decode_address-encode_address}
use geberit_aquaclean.Frames.Codec
use geberit_aquaclean.Frames.Codec.RoundTrip
use geberit_aquaclean.Frames.Collector.{
  FrameData, empty_collector, find, add_frames, start_transaction,
}
use geberit_aquaclean.Frames.Collector.Assembly.{
  concat, IsReport, IsFrameOf, start_transaction-IsReport,
}
use geberit_aquaclean.Frames.Collector.Stored.{none≢some}
use geberit_aquaclean.Frames.Collector.Arrival.{
  IsCompletion, IsDistinct, start_transaction-IsCompletion,
}

-- A block function in place of AES.
abbrev pub toy_aes : Bytes → Bytes → Bytes
toy_aes key block = map (λ b. (b * 3 + 7) % 256) block

map-IsBytes : (block : Bytes) → IsBytes (map (λ b. (b * 3 + 7) % 256) block)
map-IsBytes [] = tt
map-IsBytes (b ∷ bs) = (omega arith, map-IsBytes bs)

pub toy_aes-IsBytes : (key block : Bytes) → IsBytes (toy_aes key block)
toy_aes-IsBytes key block = map-IsBytes block

unfoldable pub every_byte : Bytes → Bool
every_byte [] = true
every_byte (b ∷ bs) = ltb b 256 && every_byte bs

pub every_byte-IsBytes : (bs : Bytes) → every_byte bs ≡ true → IsBytes bs
unfolding every_byte
every_byte-IsBytes [] h = tt
every_byte-IsBytes (b ∷ bs) h = (ground arith, every_byte-IsBytes bs (ground arith))

abbrev nonce : Bytes
nonce = 9 ∷ 8 ∷ 7 ∷ 6 ∷ 5 ∷ 4 ∷ 3 ∷ 2 ∷ 1 ∷ 0 ∷ 11 ∷ 12 ∷ 255 ∷ 255 ∷ 255 ∷ 254 ∷ []

nonce-IsBytes : IsBytes nonce
unfolding every_byte
nonce-IsBytes = every_byte-IsBytes nonce refl

abbrev cipher_state : AesCtrState
cipher_state = record { key = []; counter = nonce; ks = nonce; pos = 3 }

abbrev pub payload : Bytes
payload = 1 ∷ 0 ∷ 255 ∷ []

pub payload-IsBytes : IsBytes payload
unfolding every_byte
payload-IsBytes = every_byte-IsBytes payload refl

abbrev sender : Security
sender = record fresh {
  tx_cipher = some cipher_state;
  tx_seq = 7;
  rx_ack = 3;
  handshake_done = true;
}

abbrev receiver : Security
receiver = record fresh {
  rx_cipher = some cipher_state;
  rx_buf = 0 ∷ [];
  ack_send_fn = true;
  handshake_done = true;
}

abbrev sender_and_receiver : Paired toy_aes sender receiver
sender_and_receiver = record {
  cipher = cipher_state;
  sends = refl;
  reads = refl;
  cipher_bytes = nonce-IsBytes;
  sequenced = record { tx = omega arith; rx = omega arith };
  done = refl;
  idle = inr refl;
  queue = refl;
  inner = refl;
}

feed_att_bytes-wrap_for_send_example :
    (wrap_for_send toy_aes sender payload ≡ ok (wrapped toy_aes cipher_state sender payload))
    × ((feed_att_bytes toy_aes receiver (wrapped toy_aes cipher_state sender payload).0).0
        ≡ ok (payload ∷ []))
    × Paired toy_aes
        (wrapped toy_aes cipher_state sender payload).1
        (feed_att_bytes toy_aes receiver (wrapped toy_aes cipher_state sender payload).0).1
feed_att_bytes-wrap_for_send_example =
    feed_att_bytes-wrap_for_send toy_aes toy_aes-IsBytes sender receiver payload sender_and_receiver
      payload-IsBytes

converse-Paired_example :
    converse toy_aes sender receiver (payload ∷ [] ∷ payload ∷ [])
    ≡ ok (payload ∷ [] ∷ payload ∷ [])
converse-Paired_example =
    converse-Paired toy_aes toy_aes-IsBytes sender receiver (payload ∷ [] ∷ payload ∷ [])
      sender_and_receiver (omega arith, (tt, (omega arith, tt)))

process-ctr_mode_example :
    (process toy_aes (init toy_aes [] nonce) payload).0 ≡ ctr_mode toy_aes [] nonce 0 payload
process-ctr_mode_example = process-ctr_mode toy_aes [] nonce refl nonce-IsBytes payload

cobs_decode-cobs_encode_example : cobs_decode (cobs_encode payload) ≡ ok payload
cobs_decode-cobs_encode_example = cobs_decode-cobs_encode payload

length-cobs_encode_example :
    (length payload + 1 ≤ length (cobs_encode payload))
    × (length (cobs_encode payload) * 254 ≤ 255 * length payload + 254)
length-cobs_encode_example = length-cobs_encode payload

process_rx_buf-scan_example : process_rx_buf receiver ≡ scan hunting receiver.rx_buf receiver
process_rx_buf-scan_example = process_rx_buf-scan receiver

receive-append_example :
    receive (receive receiver payload) payload ≡ receive receiver (payload ++ payload)
receive-append_example = receive-append receiver payload payload

feed_inner_cobs-append_example : feed_inner_cobs receiver (payload ++ payload) ≡ (
  (feed_inner_cobs receiver payload).0
      ++ (feed_inner_cobs (feed_inner_cobs receiver payload).1 payload).0,
  (feed_inner_cobs (feed_inner_cobs receiver payload).1 payload).1,
)
feed_inner_cobs-append_example = feed_inner_cobs-append receiver payload payload

create_from_bytes-serialize_example :
    (m : CrcMessage) × (create 4 255 payload ≡ ok m)
    × (m.id ≡ 4)
    × (m.segments ≡ 255)
    × (take (length payload) m.body ≡ payload)
    × (is_valid m ≡ ok true)
    × ((serialize m >>= create_from_bytes) ≡ ok m)
create_from_bytes-serialize_example =
    create_from_bytes-serialize 4 255 payload (omega arith) (omega arith) (omega arith)

parse_message1-serialize_example :
    (serialize (created 5 0 (response_body 0 0 1 0x82 payload)) >>= parse_message1)
    ≡ ok (some (record { context = 1; procedure = 0x82; result_bytes = payload }))
parse_message1-serialize_example =
    parse_message1-serialize 0 0 0 1 0x82 payload (omega arith) (omega arith)

abbrev info_data : Codec.InfoFrame
info_data = record {
  info_frm_type = 1;
  proto_version = 32;
  max_packet_len = 20;
  max_packet_count = 64;
  capa_flags0 = 1;
  capa_flags1 = 2;
  mode_flags0 = 3;
  mode_flags1 = 4;
  ctrl_flags0 = 5;
  ctrl_flags1 = 6;
  cmd = 7;
  rs_hi = 8;
  rs_lo = 9;
  ts_hi = 10;
  ts_lo = 11;
}

abbrev info : Codec.Frame
info =
    Codec.info_frame
      (record {
        frame_type = Codec.info;
        has_message_type_byte_b4 = true;
        sub_frame_count_or_index = 2;
        is_sub_frame_count = false;
      })
      info_data

info-IsWritable : RoundTrip.IsWritable info
unfolding RoundTrip.IsWritable every_byte
info-IsWritable = (refl, omega arith, every_byte-IsBytes (Codec.info_items info_data) refl)

create_frame_from_bytes-serialize_example :
    (Codec.serialize info >>= Codec.create_frame_from_bytes) ≡ ok info
create_frame_from_bytes-serialize_example =
    RoundTrip.create_frame_from_bytes-serialize info info-IsWritable

-- A message of three frames, which arrive last one first.
abbrev frames : List Bytes
frames = payload ∷ (2 ∷ []) ∷ (3 ∷ 4 ∷ []) ∷ []

abbrev arrivals : FrameData
arrivals = (2, 3 ∷ 4 ∷ []) ∷ (0, payload) ∷ (1, 2 ∷ []) ∷ []

arrivals-IsFrameOf : All (IsFrameOf frames) arrivals
unfolding IsFrameOf
arrivals-IsFrameOf = (refl, (refl, (refl, tt)))

arrivals-IsDistinct : IsDistinct arrivals
unfolding IsDistinct find
arrivals-IsDistinct = (refl, (refl, (refl, tt)))

all_arrive : (j : ℕ) → j < 3 → find j arrivals ≢ none
unfolding find
all_arrive zero h e = none≢some payload (sym e)
all_arrive (suc zero) h e = none≢some (2 ∷ []) (sym e)
all_arrive (suc (suc zero)) h e = none≢some (3 ∷ 4 ∷ []) (sym e)
all_arrive (suc (suc (suc j))) h e = absurd (omega arith)

start_transaction-IsReport_example :
    All (IsReport frames) (start_transaction empty_collector 3).events
    × All
        (IsReport frames)
        (add_frames (start_transaction empty_collector 3).collector arrivals).events
start_transaction-IsReport_example =
    start_transaction-IsReport frames empty_collector arrivals tt arrivals-IsFrameOf

start_transaction-IsCompletion_example :
    IsCompletion
      (add_frames (start_transaction empty_collector 3).collector arrivals)
      (concat frames)
start_transaction-IsCompletion_example =
    start_transaction-IsCompletion frames empty_collector arrivals refl (omega arith) (omega arith)
      refl arrivals-IsFrameOf arrivals-IsDistinct all_arrive

mark_transaction_ok_packets-confirmed_example :
    ((mark_transaction_ok_packets 10 (0x05 ∷ 0x02 ∷ []) (replicate 12 1)).1 ≡ none)
    × (get_elem? (mark_transaction_ok_packets 10 (0x05 ∷ 0x02 ∷ []) (replicate 12 1)).0 9 ≡ (
        if ltb 9 10
        then confirmed (0x05 ∷ 0x02 ∷ []) (replicate 12 1) 9
        else get_elem? (replicate 12 1) 9))
mark_transaction_ok_packets-confirmed_example =
    mark_transaction_ok_packets-confirmed 10 (0x05 ∷ 0x02 ∷ []) (replicate 12 1) 9 (omega arith)
      (omega arith)

decode_address-encode_address_example :
    (encode_address 0x0171 (some 3) >>= λ address.
    decode_address ((0x11 ∷ []) ++ (address ++ payload)) 1)
    ≡ ok (0x0171, some 3, 4)
decode_address-encode_address_example =
    decode_address-encode_address 0x0171 (some 3) (0x11 ∷ []) payload (omega arith)
