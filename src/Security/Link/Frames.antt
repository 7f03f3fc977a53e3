-- ===== src/Security/Link/Frames.antt =====
-- Control bytes, and a frame that `_build_att` makes, read back by `_process_rx_buf`.
use geberit_aquaclean.Prelude.{
  ℕ, ◌+◌, ◌*◌, ◌/◌, ◌%◌, ◌<◌, ◌≡◌, refl, ap, ◌∙◌, true, false, [], ◌∷◌, arith, ◌==◌, ==_refl, ltb,
  length, get_or, bit_and, bit_or,
}
use geberit_aquaclean.Prelude.Bits.{◌<<<◌, all_below, all_below→eq, bit_and-one}
use geberit_aquaclean.Prelude.Bytes.{Bytes, IsBytes}
use geberit_aquaclean.Security.Kermit.{
  crc16_kermit, sealed, sealed-IsBytes, length-sealed, body_of-sealed, crc_received-sealed,
}
use geberit_aquaclean.Security.Cobs.{cobs_encode, cobs_decode}
use geberit_aquaclean.Security.Cobs.RoundTrip.{cobs_decode-cobs_encode}
use geberit_aquaclean.Security.Cobs.Shape.{cobs_encode_without_zero, length-cobs_encode}
use geberit_aquaclean.Security.Link.{
  Security, i_ctrl, frame_of, build_att, after_decode, handle_content, handle_decoded, dispatch,
  queue_i_frame, receive,
}
use geberit_aquaclean.Security.Link.Buffer.{IsIdle, receive_frame}

-- The two sequence numbers count modulo 8.
pub record IsSequenced (s : Security) : Type 0 where
  pub tx : s.tx_seq < 8
  pub rx : s.rx_ack < 8

i_ctrl_table :
    (x : ℕ)
    → x < 64
    → bit_or (bit_and (x / 8 <<< 5) 0xe0) (bit_and (x % 8 <<< 1) 0x0e) ≡ x / 8 * 32 + x % 8 * 2
unfolding all_below
i_ctrl_table = all_below→eq 64 _ _ refl

-- The control byte of an I-frame holds both numbers, each in its own field.
pub i_ctrl_lem : (s : Security) → IsSequenced s → i_ctrl s ≡ s.rx_ack * 32 + s.tx_seq * 2
unfolding i_ctrl
i_ctrl_lem s h =
    let x : ℕ = s.rx_ack * 8 + s.tx_seq in
    let high : x / 8 ≡ s.rx_ack = omega (arith, h.tx) in
    let low : x % 8 ≡ s.tx_seq = omega (arith, h.tx) in
    rw (high, low) at (i_ctrl_table x (omega (arith, h.tx, h.rx)))

handle_decoded-sealed :
    (s : Security) (ctrl : ℕ) (payload : Bytes)
    → IsBytes (ctrl ∷ payload)
    → handle_decoded s (sealed (ctrl ∷ payload)) ≡ dispatch s ctrl payload
unfolding handle_decoded
handle_decoded-sealed s ctrl payload h =
    let raw : Bytes = ctrl ∷ payload in
    let long : ltb (length (sealed raw)) 3 ≡ false = ground (arith, length-sealed raw) in
    rw (long, body_of-sealed raw, crc_received-sealed raw h, ==_refl (crc16_kermit raw), first) refl
  where
    first : get_or (sealed (ctrl ∷ payload)) 0 0 ≡ ctrl
    first = unfold sealed in refl

handle_content-after_decode :
    (s : Security) (content : Bytes)
    → 0 < length content
    → handle_content s content ≡ after_decode s (cobs_decode content)
unfolding handle_content
handle_content-after_decode s [] h = absurd (omega arith)
handle_content-after_decode s (b ∷ bs) h = refl

abbrev pub idle_after : Security → Security
idle_after s = record s { rx_buf = 0 ∷ [] }

-- A frame made of bytes is dispatched by the receiver that gets it while idle.
pub receive-build_att :
    (s : Security) (ctrl : ℕ) (payload : Bytes)
    → IsBytes (ctrl ∷ payload)
    → IsIdle s
    → receive s (build_att ctrl payload) ≡ idle_after (dispatch s ctrl payload)
unfolding build_att frame_of
receive-build_att s ctrl payload h idle =
    let raw : Bytes = ctrl ∷ payload in
    let content : Bytes = cobs_encode (sealed raw) in
    let bytes : IsBytes (sealed raw) = sealed-IsBytes raw h in
    let handled : handle_content s content ≡ dispatch s ctrl payload =
      handle_content-after_decode s content (omega (arith, length-cobs_encode (sealed raw)))
      ∙ ap (after_decode s) (cobs_decode-cobs_encode (sealed raw))
      ∙ unfold after_decode in handle_decoded-sealed s ctrl payload h in
    receive_frame content s (cobs_encode_without_zero (sealed raw) bytes) idle
    ∙ ap idle_after handled

-- A frame with an even control byte is an I-frame.
pub dispatch_even :
    (r : Security) (ctrl : ℕ) (payload : Bytes)
    → ctrl % 2 ≡ 0
    → dispatch r ctrl payload ≡ queue_i_frame r ctrl payload
unfolding dispatch
dispatch_even r ctrl payload e =
    let even : (bit_and ctrl 0x01 == 0) ≡ true = ground (arith, bit_and-one ctrl) in rw even refl
