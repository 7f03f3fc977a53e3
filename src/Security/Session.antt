-- ===== src/Security/Session.antt =====
-- AriendiSecurity.py, the exchange of data after the handshake: `_feed_inner_cobs`,
-- `feed_att_bytes` and `wrap_for_send`.
pub mod Inner
pub mod Deliver
pub mod Conversation
pub mod Whole
use geberit_aquaclean.Prelude.{
  ℕ, zero, suc, ◌+◌, Option, none, some, List, [], ◌∷◌, ◌++◌, ◌==◌, ltb, if◌then◌else◌, length,
  drop, Result, ok, err, attribute_error,
}
use geberit_aquaclean.Prelude.Bytes.{Bytes}
use geberit_aquaclean.Security.Kermit.{crc16_kermit, crc_received, body_of}
use geberit_aquaclean.Security.Cobs.{cobs_decode}
use geberit_aquaclean.Security.AesCtr.{process}
use geberit_aquaclean.Security.Link.{
  Security, RxFrame, FrameKind, i_frame, u_frame, frame_of, att_i, receive, split_zero,
}

-- `if _crc16_kermit(decoded[:-2]) == crc_recv: results.append(decoded[:-2])`
unfoldable pub accept_decoded : Result Bytes → List Bytes
accept_decoded (err _) = []
accept_decoded (ok decoded) =
    if ltb (length decoded) 2
    then []
    else if crc16_kermit (body_of decoded) == crc_received decoded
    then body_of decoded ∷ []
    else []

-- What one iteration appends to `results`. A leading delimiter is discarded.
unfoldable pub inner_results : Bytes → List Bytes
unfolding accept_decoded
inner_results [] = []
inner_results (b ∷ content) = accept_decoded (cobs_decode (b ∷ content))

-- `while 0 in self._inner_cobs_buf`, on fuel: each iteration takes a byte at least.
unfoldable pub inner_loop : ℕ → Bytes → List Bytes → List Bytes × Bytes
inner_loop zero buf results = (results, buf)
inner_loop (suc fuel) buf results = elim (split_zero buf) [
  | none ↦ (results, buf)
  | some (content, rest) ↦ inner_loop fuel (drop 1 rest) (results ++ inner_results content)
]

unfoldable pub feed_inner_cobs : Security → Bytes → List Bytes × Security
feed_inner_cobs s data' =
    let buf = s.inner_cobs_buf ++ data' in
    let (results, left) = inner_loop (length buf + 1) buf [] in
    (results, record s { inner_cobs_buf = left })

abbrev pub sec_encrypted : ℕ
sec_encrypted = 0x20

-- `ft == 'I' and payload and payload[0] == _SEC_ENCRYPTED`, with `payload[1:]`.
unfoldable pub encrypted_part : FrameKind → Bytes → Option Bytes
encrypted_part i_frame [] = none
encrypted_part i_frame (b ∷ rest) = if b == sec_encrypted then some rest else none
encrypted_part u_frame payload = none

module _ (aes : Bytes → Bytes → Bytes) where
  -- `self._rx_cipher.process`, which raises AttributeError before the handshake has set a cipher.
  unfoldable pub decrypt : Security → Bytes → Result (Bytes × Security)
  decrypt s ciphertext = elim s.rx_cipher [
    | none ↦ err attribute_error
    | some c ↦
        let (plain, c') = process aes c ciphertext in ok (plain, record s { rx_cipher = some c' })
  ]

  -- The loop over the queue. The frame at hand is off the queue when its handling begins.
  unfoldable pub drain_queue : List RxFrame → Security → List Bytes → Result (List Bytes) × Security
  drain_queue [] s results = (ok results, record s { rx_queue = [] })
  drain_queue (f ∷ fs) s results = elim (encrypted_part f.kind f.payload) [
    | none ↦ drain_queue fs s results
    | some ciphertext ↦ elim (decrypt s ciphertext) [
      | err e ↦ (err e, record s { rx_queue = fs })
      | ok (plain, s') ↦
          let (messages, s'') = feed_inner_cobs s' plain in drain_queue fs s'' (results ++ messages)
    ]
  ]

  unfoldable pub feed_att_bytes : Security → Bytes → Result (List Bytes) × Security
  feed_att_bytes s data' =
      let s' = receive s data' in
      if s'.handshake_done then drain_queue s'.rx_queue s' [] else (ok [], s')

  unfoldable pub wrap_for_send : Security → Bytes → Result (Bytes × Security)
  wrap_for_send s geberit_payload = elim s.tx_cipher [
    | none ↦ err attribute_error
    | some c ↦
        let (ciphertext, c') = process aes c (frame_of geberit_payload) in
        ok (att_i (record s { tx_cipher = some c' }) (sec_encrypted ∷ ciphertext))
  ]
