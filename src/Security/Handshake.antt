-- ===== src/Security/Handshake.antt =====
-- AriendiSecurity.py, the handshake: `_await_u_frame`, `_await_i_security` and `perform_handshake`,
-- with `_hkdf`, `_aes_cmac` and the X25519 keys, which are the package `cryptography`'s, as parameters.
--
-- `incoming` are the notifications that have still to come while the handshake waits; when none is
-- left, a wait ends by its timeout. The keys' parameters: `public_key private` are the public key's
-- bytes, and `exchange private public` reads a public key's bytes and makes the shared secret of
-- the two, or raises.
pub mod Keeps
pub mod Authentic
pub mod Steps
pub mod Agreed
use geberit_aquaclean.Prelude.{
  ℕ, ◌+◌, bit_xor, Bool, true, false, ◌&&◌, Option, none, some, List, [], ◌∷◌, ◌++◌, ◌==◌, ltb,
  if◌then◌else◌, length, Result, ok, err, value_error, timeout_error,
}
use geberit_aquaclean.Prelude.Io.{◌>>=◌, ◌>>◌, raise, pure}
use geberit_aquaclean.Prelude.Bytes.{Bytes, slice}
use geberit_aquaclean.Security.AesCtr.{init}
use geberit_aquaclean.Security.Link.{
  Security, RxFrame, i_frame, u_frame, u_ctrl, att_u, att_i, att_s_rr,
}
use geberit_aquaclean.Security.Session.{feed_att_bytes}

abbrev pub bid_mask : Bytes
bid_mask =
    0x4e ∷ 0xb3 ∷ 0x27 ∷ 0xf0 ∷ 0x5c ∷ 0x91 ∷ 0xa8 ∷ 0x3d ∷ 0x76 ∷ 0xc5 ∷ 0x0f ∷ 0xe2 ∷ 0x93 ∷ 0x1a
    ∷ 0x68 ∷ 0x54 ∷ []

abbrev pub bid_stored : Bytes
bid_stored =
    0x9f ∷ 0x92 ∷ 0xad ∷ 0x79 ∷ 0xaa ∷ 0x9b ∷ 0x6a ∷ 0xa9 ∷ 0x5b ∷ 0x81 ∷ 0x2f ∷ 0x9b ∷ 0xe7 ∷ 0x4a
    ∷ 0xff ∷ 0xea ∷ []

-- bytes(a ^ b for a, b in zip(xs, ys))
abbrev pub xor_bytes : Bytes → Bytes → Bytes
xor_bytes [] ys = []
xor_bytes (x ∷ xs) [] = []
xor_bytes (x ∷ xs) (y ∷ ys) = bit_xor x y ∷ xor_bytes xs ys

abbrev pub aquaclean_bridge_id : Bytes
aquaclean_bridge_id = xor_bytes bid_stored bid_mask

abbrev pub sec_version_req : ℕ
sec_version_req = 0x00

abbrev pub sec_version_resp : ℕ
sec_version_resp = 0x01

abbrev pub sec_ep_req : ℕ
sec_ep_req = 0x10

abbrev pub sec_ep_resp : ℕ
sec_ep_resp = 0x11

abbrev pub sec_ke_req : ℕ
sec_ke_req = 0x12

abbrev pub sec_ke_resp : ℕ
sec_ke_resp = 0x13

abbrev pub hdlc_sabm_type : ℕ
hdlc_sabm_type = 7

abbrev pub hdlc_ua_type : ℕ
hdlc_ua_type = 12

pub record Connection : Type 0 where
  pub security : Security
  pub incoming : List Bytes
  pub sent : List Bytes

-- Whether two lists of bytes are equal.
unfoldable pub same_bytes : Bytes → Bytes → Bool
same_bytes [] [] = true
same_bytes [] (y ∷ ys) = false
same_bytes (x ∷ xs) [] = false
same_bytes (x ∷ xs) (y ∷ ys) = x == y && same_bytes xs ys

-- `ft == 'U' and ctrl == expected_ctrl`
unfoldable pub is_u_frame : ℕ → RxFrame → Bool
is_u_frame expected_ctrl f = elim f.kind [ u_frame ↦ f.ctrl == expected_ctrl | i_frame ↦ false ]

-- `payload and payload[0] == expected_type`
unfoldable pub has_type : ℕ → Bytes → Bool
has_type expected_type [] = false
has_type expected_type (b ∷ rest) = b == expected_type

-- `ft == 'I' and payload and payload[0] == expected_type`
unfoldable pub is_i_security : ℕ → RxFrame → Bool
unfolding has_type
is_i_security expected_type f = elim f.kind [
  | i_frame ↦ has_type expected_type f.payload
  | u_frame ↦ false
]

-- The first wanted frame of the queue, with what is behind it; what is before it is discarded.
unfoldable pub take_frame : (RxFrame → Bool) → List RxFrame → Option (RxFrame × List RxFrame)
take_frame wanted [] = none
take_frame wanted (f ∷ fs) =
    let later = take_frame wanted fs in if wanted f then some (f, fs) else later

abbrev pub with_queue : Connection → List RxFrame → Connection
with_queue c queue = record c { security = record c.security { rx_queue = queue } }

unfoldable pub found_or :
    Option (RxFrame × List RxFrame)
    → Result RxFrame × Connection
    → Connection
    → Result RxFrame × Connection
found_or (some (f, fs)) later c = (ok f, with_queue c fs)
found_or none later c = later

-- Both initial sequence numbers.
unfoldable pub start : Connection → Result (Unit {0}) × Connection
start c = (ok tt, record c { security = record c.security { tx_seq = 0; rx_ack = 0 } })

unfoldable pub send_raw : Bytes → Connection → Result (Unit {0}) × Connection
send_raw bytes c = (ok tt, record c { sent = c.sent ++ bytes ∷ [] })

-- `await send_fn(self._att_i(payload))`
unfoldable pub send_i : Bytes → Connection → Result (Unit {0}) × Connection
send_i payload c =
    let (bytes, s') = att_i c.security payload in
    (ok tt, record c { security = s'; sent = c.sent ++ bytes ∷ [] })

module _ (aes : Bytes → Bytes → Bytes) where
  unfoldable pub arrive : Connection → Bytes → Connection
  arrive c bytes = record c { security = (feed_att_bytes aes c.security bytes).1 }

  -- The wait when the queue holds no wanted frame.
  unfoldable pub await_incoming :
      (RxFrame → Bool) → List Bytes → Connection → Result RxFrame × Connection
  unfolding found_or arrive
  await_incoming wanted [] c = (err timeout_error, with_queue (record c { incoming = [] }) [])
  await_incoming wanted (bytes ∷ rest) c =
      let c' = arrive (with_queue (record c { incoming = rest }) []) bytes in
      found_or (take_frame wanted c'.security.rx_queue) (await_incoming wanted rest c') c'

  -- `_await_u_frame` and `_await_i_security`, by what they want.
  unfoldable pub await_rx : (RxFrame → Bool) → Connection → Result RxFrame × Connection
  unfolding await_incoming take_frame found_or
  await_rx wanted c =
      found_or (take_frame wanted c.security.rx_queue) (await_incoming wanted c.incoming c) c

  -- Steps 8 and 9: the ciphers from the two halves of the key material, and the acknowledgement.
  unfoldable pub establish : Bytes → Bytes → Connection → Result (Unit {0}) × Connection
  establish key_material nonce2 c =
      let s = record c.security {
        rx_cipher = some (init aes (slice 0 16 key_material) nonce2);
        tx_cipher = some (init aes (slice 16 32 key_material) nonce2);
      } in
      (
        ok tt,
        record c {
          security = record s { handshake_done = true };
          sent = c.sent ++ att_s_rr s ∷ [];
        },
      )

  module _ (hkdf : Bytes → Bytes → ℕ → Bytes) (aes_cmac : Bytes → Bytes → Bytes)
      (public_key : Bytes → Bytes) (exchange : Bytes → Bytes → Result Bytes) where
    abbrev pub auth_key_of : Bytes → Bytes
    auth_key_of nonce1 = hkdf aquaclean_bridge_id nonce1 16

    -- Steps 6 and 7.
    unfoldable pub verify :
        Bytes → Bytes → Bytes → Bytes → Connection → Result (Unit {0}) × Connection
    unfolding same_bytes establish
    verify private_key nonce1 nonce2 ke =
        if ltb (length ke) 49
        then raise value_error
        else if same_bytes (slice 33 49 ke) (aes_cmac (auth_key_of nonce1) (slice 1 33 ke))
        then (do
          shared_secret ← pure (exchange private_key (slice 1 33 ke))
          establish (hkdf shared_secret nonce1 32) nonce2)
        else raise value_error

    abbrev pub ke_request : Bytes → Bytes → Bytes
    ke_request private_key nonce1 =
        sec_ke_req
        ∷ (public_key private_key
            ++ (aes_cmac (auth_key_of nonce1) (public_key private_key) ++ (0x00 ∷ [])))

    -- Steps 4 to 9, with the payload of the EP response.
    unfoldable pub exchange_keys : Bytes → Bytes → Connection → Result (Unit {0}) × Connection
    unfolding verify await_rx send_i
    exchange_keys private_key ep = if ltb (length ep) 33 then raise value_error else (do
      send_i (ke_request private_key (slice 1 17 ep))
      ke ← await_rx (is_i_security sec_ke_resp)
      verify private_key (slice 1 17 ep) (slice 17 33 ep) ke.payload)

    -- The Version Response is read for the log only.
    unfoldable pub perform_handshake : Bytes → Connection → Result (Unit {0}) × Connection
    unfolding exchange_keys await_rx start send_raw send_i
    perform_handshake private_key = do
      start
      send_raw (att_u hdlc_sabm_type)
      _ ← await_rx (is_u_frame (u_ctrl hdlc_ua_type))
      send_i (sec_version_req ∷ [])
      _ ← await_rx (is_i_security sec_version_resp)
      send_i (sec_ep_req ∷ [])
      ep ← await_rx (is_i_security sec_ep_resp)
      exchange_keys private_key ep.payload
