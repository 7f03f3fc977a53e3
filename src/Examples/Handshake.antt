-- ===== src/Examples/Handshake.antt =====
-- A run of the handshake, with constant functions in place of the cryptography.
use geberit_aquaclean.Prelude.{
  ℕ, ◌%◌, ◌≡◌, ◌⊎◌, inl, refl, true, some, [], ◌∷◌, ◌++◌, arith, replicate, Result, ok,
}
use geberit_aquaclean.Prelude.Bytes.{Bytes}
use geberit_aquaclean.Security.AesCtr.{init}
use geberit_aquaclean.Security.Link.{Security, fresh, u_ctrl, build_att}
use geberit_aquaclean.Security.Session.Deliver.{Paired}
use geberit_aquaclean.Security.Handshake.{
  Connection, has_type, perform_handshake, hdlc_ua_type, sec_version_resp, sec_ep_resp, sec_ke_resp,
}
use geberit_aquaclean.Security.Handshake.Authentic.{Refused, Accepted, perform_handshake-Accepted}
use geberit_aquaclean.Security.Handshake.Steps.{Ready}
use geberit_aquaclean.Security.Handshake.Agreed.{IsReply, IsDevice, perform_handshake-Paired}
use geberit_aquaclean.Examples.{toy_aes, toy_aes-IsBytes, every_byte, every_byte-IsBytes}

abbrev toy_hkdf : Bytes → Bytes → ℕ → Bytes
toy_hkdf ikm salt size = replicate size 5

abbrev toy_cmac : Bytes → Bytes → Bytes
toy_cmac key data' = replicate 16 7

abbrev toy_public_key : Bytes → Bytes
toy_public_key private_key = replicate 32 9

abbrev toy_exchange : Bytes → Bytes → Result Bytes
toy_exchange private_key public_key = ok (replicate 32 4)

abbrev private_key : Bytes
private_key = replicate 32 1

abbrev version : Bytes
version = 0x01 ∷ 0 ∷ []

abbrev ep : Bytes
ep = 0x11 ∷ replicate 32 6

abbrev ke : Bytes
ke = 0x13 ∷ (replicate 32 8 ++ replicate 16 7)

abbrev client : Connection
client = record {
  security = fresh;
  incoming =
      build_att (u_ctrl hdlc_ua_type) []
      ∷ build_att 0 version
      ∷ build_att 2 ep
      ∷ build_att 4 ke
      ∷ [];
  sent = [];
}

client-Ready : Ready client (
    build_att (u_ctrl hdlc_ua_type) [] ∷ build_att 0 version ∷ build_att 2 ep ∷ build_att 4 ke ∷ [])
client-Ready = record {
  queue = refl;
  idle = inl refl;
  undone = refl;
  inner = refl;
  incoming = refl;
}

abbrev device : Security
device = record fresh {
  tx_cipher = some (init toy_aes (replicate 16 5) (replicate 16 6));
  rx_cipher = some (init toy_aes (replicate 16 5) (replicate 16 6));
  handshake_done = true;
}

device-IsDevice : IsDevice toy_aes (replicate 32 5) (replicate 16 6) device
device-IsDevice = record {
  sends = refl;
  reads = refl;
  sequenced = record { tx = omega arith; rx = omega arith };
  done = refl;
  idle = inl refl;
  queue = refl;
  inner = refl;
}

checked :
    (t k : ℕ) (payload : Bytes)
    → k % 2 ≡ 0
    → every_byte (k ∷ payload) ≡ true
    → has_type t payload ≡ true
    → IsReply t k payload
checked t k payload e b h = record {
  even = e;
  bytes = every_byte-IsBytes (k ∷ payload) b;
  typed = h;
}

perform_handshake-Paired_example :
    ((perform_handshake toy_aes toy_hkdf toy_cmac toy_public_key toy_exchange private_key client).0
      ≡ ok tt)
    × Paired toy_aes
        (perform_handshake toy_aes toy_hkdf toy_cmac toy_public_key toy_exchange private_key
          client).1.security
        device
    × Paired toy_aes device
        (perform_handshake toy_aes toy_hkdf toy_cmac toy_public_key toy_exchange private_key
          client).1.security
perform_handshake-Paired_example =
    perform_handshake-Paired toy_aes toy_hkdf toy_cmac toy_public_key toy_exchange private_key
      toy_aes-IsBytes client device 0 2 4 version ep ke (replicate 32 4) [] client-Ready
      (checked sec_version_resp 0 version refl (unfold every_byte in refl)
        (unfold has_type in refl))
      (checked sec_ep_resp 2 ep refl (unfold every_byte in refl) (unfold has_type in refl))
      (checked sec_ke_resp 4 ke refl (unfold every_byte in refl) (unfold has_type in refl))
      (omega arith) (omega arith) refl refl device-IsDevice

perform_handshake-Accepted_example :
    Refused fresh
      (perform_handshake toy_aes toy_hkdf toy_cmac toy_public_key toy_exchange private_key client)
    ⊎ Accepted toy_aes toy_hkdf toy_cmac toy_public_key toy_exchange private_key client
        (perform_handshake toy_aes toy_hkdf toy_cmac toy_public_key toy_exchange private_key client)
perform_handshake-Accepted_example =
    perform_handshake-Accepted toy_aes toy_hkdf toy_cmac toy_public_key toy_exchange private_key
      client refl
