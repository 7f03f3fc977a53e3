-- ===== src/Security/Handshake/Agreed.antt =====
-- The handshake with a device that answers, and the keys of the two ends.
use geberit_aquaclean.Prelude.{
  ℕ, ◌%◌, ◌≤◌, ◌≡◌, refl, sym, ap, subst, ◌∙◌, true, false, some, List, [], ◌∷◌, ==_refl, ltb, ◌&&◌,
  length, arith, Result, ok,
}
use geberit_aquaclean.Prelude.Io.{and_run}
use geberit_aquaclean.Prelude.Bytes.{Bytes, IsBytes, slice}
use geberit_aquaclean.Security.AesCtr.{init}
use geberit_aquaclean.Security.Link.{Security, RxFrame, u_ctrl, att_u, build_att}
use geberit_aquaclean.Security.Link.Buffer.{IsIdle}
use geberit_aquaclean.Security.Link.Frames.{IsSequenced}
use geberit_aquaclean.Security.Session.Deliver.{Paired}
use geberit_aquaclean.Security.Handshake.{
  Connection, same_bytes, has_type, start, send_raw, send_i, await_rx, establish, auth_key_of,
  verify, ke_request, exchange_keys, perform_handshake, is_i_security, is_u_frame, sec_ke_resp,
  sec_ep_resp, sec_ep_req, sec_version_resp, sec_version_req, hdlc_sabm_type, hdlc_ua_type,
}
use geberit_aquaclean.Security.Handshake.Steps.{
  Ready, Awaited, await_rx-Awaited, i_frame_of, i_frame-Queued, ua, ua-Queued, send_i-Ready,
  send_i-IsSequenced,
}

same_bytes_refl : (xs : Bytes) → same_bytes xs xs ≡ true
unfolding same_bytes
same_bytes_refl [] = refl
same_bytes_refl (x ∷ xs) = ap (λ b. b && same_bytes xs xs) (==_refl x) ∙ same_bytes_refl xs

-- A reply of the device that begins with the given type, in an I-frame.
pub record IsReply (expected_type ctrl : ℕ) (payload : Bytes) : Type 0 where
  pub even : ctrl % 2 ≡ 0
  pub bytes : IsBytes (ctrl ∷ payload)
  pub typed : has_type expected_type payload ≡ true

-- The device's end, with the keys that it has derived from the same key material.
pub record IsDevice (aes : Bytes → Bytes → Bytes) (key_material nonce2 : Bytes) (d : Security)
    : Type 0 where
  pub sends : d.tx_cipher ≡ some (init aes (slice 0 16 key_material) nonce2)
  pub reads : d.rx_cipher ≡ some (init aes (slice 16 32 key_material) nonce2)
  pub sequenced : IsSequenced d
  pub done : d.handshake_done ≡ true
  pub idle : IsIdle d
  pub queue : d.rx_queue ≡ []
  pub inner : d.inner_cobs_buf ≡ []

module _ (aes : Bytes → Bytes → Bytes) (hkdf : Bytes → Bytes → ℕ → Bytes)
    (aes_cmac : Bytes → Bytes → Bytes) (public_key : Bytes → Bytes)
    (exchange : Bytes → Bytes → Result Bytes) (private_key : Bytes) where
  abbrev reply :
      (expected_type ctrl : ℕ) (payload : Bytes) (rest : List Bytes) (c : Connection)
      → IsReply expected_type ctrl payload
      → Ready c (build_att ctrl payload ∷ rest)
      → Awaited (i_frame_of ctrl payload) rest c (await_rx aes (is_i_security expected_type) c)
  reply expected_type ctrl payload rest c h ready =
      await_rx-Awaited aes (is_i_security expected_type) ctrl payload (i_frame_of ctrl payload) rest
        c h.bytes (i_frame-Queued ctrl payload h.even) (unfold is_i_security in h.typed) ready

  verify_lem :
      (nonce1 nonce2 ke shared_secret : Bytes) (c : Connection)
      → 49 ≤ length ke
      → slice 33 49 ke
        ≡ aes_cmac (auth_key_of aes hkdf aes_cmac public_key exchange nonce1) (slice 1 33 ke)
      → exchange private_key (slice 1 33 ke) ≡ ok shared_secret
      → verify aes hkdf aes_cmac public_key exchange private_key nonce1 nonce2 ke c
        ≡ establish aes (hkdf shared_secret nonce1 32) nonce2 c
  unfolding verify
  verify_lem nonce1 nonce2 ke shared_secret c long authentic secret =
      let short : ltb (length ke) 49 ≡ false = ground arith in
      let check : same_bytes (slice 33 49 ke)
            (aes_cmac (auth_key_of aes hkdf aes_cmac public_key exchange nonce1) (slice 1 33 ke))
          ≡ true =
        ap (same_bytes (slice 33 49 ke)) (sym authentic) ∙ same_bytes_refl (slice 33 49 ke) in
      rw (short, check, secret) refl

  exchange_keys_lem :
      (ep : Bytes) (c : Connection)
      → 33 ≤ length ep
      → exchange_keys aes hkdf aes_cmac public_key exchange private_key ep c
        ≡ and_run
            (await_rx aes
              (is_i_security sec_ke_resp)
              (send_i
                (ke_request aes hkdf aes_cmac public_key exchange private_key (slice 1 17 ep))
                c).1)
            (λ ke.
              verify aes hkdf aes_cmac public_key exchange private_key
                (slice 1 17 ep)
                (slice 17 33 ep)
                ke.payload)
  unfolding exchange_keys send_i
  exchange_keys_lem ep c long =
      let enough : ltb (length ep) 33 ≡ false = ground arith in rw (enough) refl

  -- What follows the EP response, the Version Response and the UA frame.
  abbrev after_ep : RxFrame → Connection → Result (Unit {0}) × Connection
  after_ep ep = exchange_keys aes hkdf aes_cmac public_key exchange private_key ep.payload

  abbrev after_version : RxFrame → Connection → Result (Unit {0}) × Connection
  after_version _ c =
      and_run (await_rx aes (is_i_security sec_ep_resp) (send_i (sec_ep_req ∷ []) c).1) after_ep

  abbrev after_ua : RxFrame → Connection → Result (Unit {0}) × Connection
  after_ua _ c =
      and_run (await_rx aes (is_i_security sec_version_resp) (send_i (sec_version_req ∷ []) c).1)
        after_version

  -- Both ends are paired once the client has established the ciphers.
  abbrev Agreed : Security → Result (Unit {0}) × Connection → Type 0
  Agreed d r = (r.0 ≡ ok tt) × Paired aes r.1.security d × Paired aes d r.1.security

  -- `aes_bytes`: the block cipher returns bytes.
  module _ (aes_bytes : (key block : Bytes) → IsBytes (aes key block)) where
    establish-Agreed :
        (key_material nonce2 : Bytes) (d : Security) (c : Connection) (rest : List Bytes)
        → IsDevice aes key_material nonce2 d
        → Ready c rest
        → IsSequenced c.security
        → Agreed d (establish aes key_material nonce2 c)
    unfolding establish init
    establish-Agreed key_material nonce2 d c rest h ready seq = (
      refl,
      record {
        cipher = init aes (slice 16 32 key_material) nonce2;
        sends = refl;
        reads = h.reads;
        cipher_bytes = aes_bytes (slice 16 32 key_material) nonce2;
        sequenced = record { tx = seq.tx; rx = seq.rx };
        done = h.done;
        idle = h.idle;
        queue = h.queue;
        inner = h.inner;
      },
      record {
        cipher = init aes (slice 0 16 key_material) nonce2;
        sends = h.sends;
        reads = refl;
        cipher_bytes = aes_bytes (slice 0 16 key_material) nonce2;
        sequenced = h.sequenced;
        done = refl;
        idle = ready.idle;
        queue = ready.queue;
        inner = ready.inner;
      },
    )

    -- When the device answers the four requests in order, with a public key that is authenticated, and
    -- has itself derived its keys from the same secret, the handshake ends, and each end is paired
    -- with the other.
    pub perform_handshake-Paired :
        (c : Connection) (d : Security) (k1 k2 k3 : ℕ) (version ep ke shared_secret : Bytes)
        (rest : List Bytes)
        → Ready c (
            build_att (u_ctrl hdlc_ua_type) []
            ∷ build_att k1 version
            ∷ build_att k2 ep
            ∷ build_att k3 ke
            ∷ rest)
        → IsReply sec_version_resp k1 version
        → IsReply sec_ep_resp k2 ep
        → IsReply sec_ke_resp k3 ke
        → 33 ≤ length ep
        → 49 ≤ length ke
        → slice 33 49 ke
          ≡ aes_cmac
              (auth_key_of aes hkdf aes_cmac public_key exchange (slice 1 17 ep))
              (slice 1 33 ke)
        → exchange private_key (slice 1 33 ke) ≡ ok shared_secret
        → IsDevice aes (hkdf shared_secret (slice 1 17 ep) 32) (slice 17 33 ep) d
        → Agreed d (perform_handshake aes hkdf aes_cmac public_key exchange private_key c)
    unfolding perform_handshake start send_raw send_i
    perform_handshake-Paired c d k1 k2 k3 version ep ke shared_secret rest ready rv re rk long_ep
          long_ke authentic secret device =
        let c0 = (send_raw (att_u hdlc_sabm_type) (start c).1).1 in
        let ready0 : Ready c0 _ = record {
          queue = ready.queue;
          idle = ready.idle;
          undone = ready.undone;
          inner = ready.inner;
          incoming = ready.incoming;
        } in
        let seq0 : IsSequenced c0.security = record { tx = omega arith; rx = omega arith } in
        let a1 =
          await_rx-Awaited aes (is_u_frame (u_ctrl hdlc_ua_type)) (u_ctrl hdlc_ua_type) [] ua _ c0
            (unfold u_ctrl in (omega arith, tt)) ua-Queued
            (unfold is_u_frame in ==_refl (u_ctrl hdlc_ua_type)) ready0 in
        let seq1 = send_i-IsSequenced (sec_version_req ∷ []) a1.after (a1.sequenced seq0) in
        let a2 =
          reply sec_version_resp k1 version _ (send_i (sec_version_req ∷ []) a1.after).1 rv
            (send_i-Ready (sec_version_req ∷ []) a1.after _ a1.ready) in
        let seq2 = send_i-IsSequenced (sec_ep_req ∷ []) a2.after (a2.sequenced seq1) in
        let a3 =
          reply sec_ep_resp k2 ep _ (send_i (sec_ep_req ∷ []) a2.after).1 re
            (send_i-Ready (sec_ep_req ∷ []) a2.after _ a2.ready) in
        let request =
          ke_request aes hkdf aes_cmac public_key exchange private_key (slice 1 17 ep) in
        let seq3 = send_i-IsSequenced request a3.after (a3.sequenced seq2) in
        let a4 =
          reply sec_ke_resp k3 ke rest (send_i request a3.after).1 rk
            (send_i-Ready request a3.after _ a3.ready) in
        subst (Agreed d)
          (sym (
            ap (λ r. and_run r after_ua) a1.ended
            ∙ ap (λ r. and_run r after_version) a2.ended
            ∙ ap (λ r. and_run r after_ep) a3.ended
            ∙ exchange_keys_lem ep a3.after long_ep
            ∙ ap
                (λ r. and_run r (λ ke.
                  verify aes hkdf aes_cmac public_key exchange private_key (slice 1 17 ep)
                    (slice 17 33 ep) ke.payload))
                a4.ended
            ∙ verify_lem (slice 1 17 ep) (slice 17 33 ep) ke shared_secret a4.after long_ke
                authentic secret))
          (establish-Agreed (hkdf shared_secret (slice 1 17 ep) 32) (slice 17 33 ep) d a4.after rest
            device a4.ready (a4.sequenced seq3))
