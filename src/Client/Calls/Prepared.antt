-- ===== src/Client/Calls/Prepared.antt =====
-- Which requests can be built.
use geberit_aquaclean.Prelude.{ℕ, ◌≤◌, ◌≡◌, refl, Bool, true, false, ◌∷◌, ltb, length, arith, ok}
use geberit_aquaclean.Prelude.Bytes.{Bytes, IsByte, slice}
use geberit_aquaclean.Message.Crc.{byte_item}
use geberit_aquaclean.Message.Crc.RoundTrip.{wire, serialize-created}
use geberit_aquaclean.Message.Service.Parse.{build_message_lem}
use geberit_aquaclean.Frames.Codec
use geberit_aquaclean.Frames.Codec.{build_single_frame}
use geberit_aquaclean.Api.Call.{call}
use geberit_aquaclean.Client.Base.{build_payload, prepare, as_first_cons}

byte_item-byte : (n : ℕ) → IsByte n → byte_item n ≡ ok n
unfolding byte_item
byte_item-byte n h = ground arith

-- The frame of a request can be written, whatever the bytes of its message.
frame_written :
    (first_cons : Bool) (bytes : Bytes)
    → (frame : Bytes) × (Codec.serialize (as_first_cons first_cons (build_single_frame bytes))
        ≡ ok frame)
unfolding as_first_cons build_single_frame Codec.serialize byte_item
frame_written true bytes = (_, refl)
frame_written false bytes = (_, refl)

-- At most 246 bytes of payload fit a request.
pub prepare_total :
    (first_cons : Bool) (context procedure node : ℕ) (payload : Bytes)
    → IsByte context
    → IsByte procedure
    → IsByte node
    → length payload ≤ 246
    → (out : Bytes × Bytes) × (prepare first_cons (call context procedure node (ok payload))
        ≡ ok out)
unfolding prepare build_payload
prepare_total first_cons context procedure node payload hc hp hn h =
    let data' : Bytes = node ∷ context ∷ procedure ∷ length payload ∷ payload in
    let bytes : Bytes = wire 4 255 data' in
    let (frame, written) = frame_written first_cons bytes in
    let fits : ltb 250 (length data') ≡ false = ground arith in
    (
      (frame, 0x12 ∷ slice 19 38 bytes),
      rw
          (
            byte_item-byte node hn,
            byte_item-byte context hc,
            byte_item-byte procedure hp,
            byte_item-byte (length payload) (omega arith),
            build_message_lem data',
            fits,
            serialize-created 4 255 data' (omega arith) (omega arith) (omega arith),
            written,
          )
          refl,
    )
