-- ===== src/Security/Handshake/Keeps.antt =====
-- What arrives before the handshake is done.
use geberit_aquaclean.Prelude.{
  ℕ, ◌≡◌, refl, sym, subst, ◌∙◌, Bool, true, false, ◌&&◌, Option, none, some, List, [], ◌∷◌, ◌++◌,
  ◌==◌, ltb, if◌then◌else◌, length, bit_and, get_or, drop, Result, ok, err,
}
use geberit_aquaclean.Prelude.Bytes.{Bytes}
use geberit_aquaclean.Security.Kermit.{crc16_kermit, crc_received, body_of}
use geberit_aquaclean.Security.Cobs.{cobs_decode}
use geberit_aquaclean.Security.Link.{
  Security, RxFrame, handle_content, after_decode, handle_decoded, dispatch, queue_i_frame,
  queue_u_frame, receive,
}
use geberit_aquaclean.Security.Link.Buffer.{Mode, hunting, inside, scan, process_rx_buf-scan}
use geberit_aquaclean.Security.Session.{feed_att_bytes}
use geberit_aquaclean.Security.Handshake.{
  Connection, with_queue, take_frame, found_or, arrive, await_incoming, await_rx,
}

-- Neither cipher has changed, nor whether the handshake is done.
pub record Keeps (s s' : Security) : Type 0 where
  pub done : s'.handshake_done ≡ s.handshake_done
  pub reads : s'.rx_cipher ≡ s.rx_cipher
  pub sends : s'.tx_cipher ≡ s.tx_cipher

pub same : (s : Security) → Keeps s s
same s = record { done = refl; reads = refl; sends = refl }

pub Keeps_trans : (s t u : Security) → Keeps s t → Keeps t u → Keeps s u
Keeps_trans s t u h k = record {
  done = k.done ∙ h.done;
  reads = k.reads ∙ h.reads;
  sends = k.sends ∙ h.sends;
}

pub Keeps_if : (b : Bool) (s t u : Security) → Keeps s t → Keeps s u → Keeps s (if b then t else u)
Keeps_if true s t u h k = h
Keeps_if false s t u h k = k

queue_i_frame-Keeps :
    (s : Security) (ctrl : ℕ) (payload : Bytes) → Keeps s (queue_i_frame s ctrl payload)
unfolding queue_i_frame
queue_i_frame-Keeps s ctrl payload =
    Keeps_if (s.handshake_done && s.ack_send_fn) s _ _
      (record { done = refl; reads = refl; sends = refl })
      (record { done = refl; reads = refl; sends = refl })

dispatch-Keeps : (s : Security) (ctrl : ℕ) (payload : Bytes) → Keeps s (dispatch s ctrl payload)
unfolding dispatch queue_u_frame
dispatch-Keeps s ctrl payload =
    let queued = queue_u_frame s ctrl payload in
    Keeps_if (bit_and ctrl 0x01 == 0) s _ _ (queue_i_frame-Keeps s ctrl payload) (
      Keeps_if (bit_and ctrl 0x03 == 0x03) s queued s
        (record { done = refl; reads = refl; sends = refl }) (same s))

after_decode-Keeps : (s : Security) (r : Result Bytes) → Keeps s (after_decode s r)
unfolding after_decode handle_decoded
after_decode-Keeps s (err e) = same s
after_decode-Keeps s (ok decoded) =
    let body = dispatch s (get_or decoded 0 0) (drop 1 (body_of decoded)) in
    Keeps_if (ltb (length decoded) 3) s s _ (same s) (
      Keeps_if (crc_received decoded == crc16_kermit (body_of decoded)) s body s
        (dispatch-Keeps s (get_or decoded 0 0) (drop 1 (body_of decoded))) (same s))

handle_content-Keeps : (s : Security) (content : Bytes) → Keeps s (handle_content s content)
unfolding handle_content
handle_content-Keeps s [] = same s
handle_content-Keeps s (b ∷ content) = after_decode-Keeps s (cobs_decode (b ∷ content))

scan-Keeps : (m : Mode) (bs : Bytes) (s : Security) → Keeps s (scan m bs s)
unfolding scan
scan-Keeps hunting [] s = record { done = refl; reads = refl; sends = refl }
scan-Keeps (inside content) [] s = record { done = refl; reads = refl; sends = refl }
scan-Keeps hunting (b ∷ bs) s =
    Keeps_if (b == 0) s _ _ (scan-Keeps (inside []) bs s) (scan-Keeps hunting bs s)
scan-Keeps (inside content) (b ∷ bs) s =
    let t = handle_content s content in
    Keeps_if (b == 0) s _ _
      (Keeps_trans s t _ (handle_content-Keeps s content) (scan-Keeps (inside []) bs t))
      (scan-Keeps (inside (content ++ (b ∷ []))) bs s)

receive-Keeps : (s : Security) (bytes : Bytes) → Keeps s (receive s bytes)
unfolding receive
receive-Keeps s bytes =
    let t : Security = record s { rx_buf = s.rx_buf ++ bytes } in
    Keeps_trans s t _ (record { done = refl; reads = refl; sends = refl })
      (subst (Keeps t) (sym (process_rx_buf-scan t)) (scan-Keeps hunting t.rx_buf t))

module _ (aes : Bytes → Bytes → Bytes) where
  -- Before the handshake is done, what arrives is received and no more.
  pub arrive-receive :
      (c : Connection) (bytes : Bytes)
      → c.security.handshake_done ≡ false
      → arrive aes c bytes ≡ record c { security = receive c.security bytes }
  unfolding arrive feed_att_bytes
  arrive-receive c bytes h = rw ((receive-Keeps c.security bytes).done ∙ h) refl

  arrive-Keeps :
      (c : Connection) (bytes : Bytes)
      → c.security.handshake_done ≡ false
      → Keeps c.security (arrive aes c bytes).security
  arrive-Keeps c bytes h =
      subst (λ (c' : Connection). Keeps c.security c'.security) (sym (arrive-receive c bytes h))
        (receive-Keeps c.security bytes)

  found_or-Keeps :
      (s : Security) (o : Option (RxFrame × List RxFrame)) (later : Result RxFrame × Connection)
      (c : Connection)
      → Keeps s c.security
      → Keeps s later.1.security
      → Keeps s (found_or o later c).1.security
  unfolding found_or
  found_or-Keeps s (some (f, fs)) later c h k = record {
    done = h.done;
    reads = h.reads;
    sends = h.sends;
  }
  found_or-Keeps s none later c h k = k

  await_incoming-Keeps :
      (wanted : RxFrame → Bool) (frames : List Bytes) (c : Connection)
      → c.security.handshake_done ≡ false
      → Keeps c.security (await_incoming aes wanted frames c).1.security
  unfolding await_incoming
  await_incoming-Keeps wanted [] c h = record { done = refl; reads = refl; sends = refl }
  await_incoming-Keeps wanted (bytes ∷ rest) c h =
      let waiting = with_queue (record c { incoming = rest }) [] in
      let c' = arrive aes waiting bytes in
      let k = arrive-Keeps waiting bytes h in
      let here : Keeps c.security c'.security = record {
        done = k.done;
        reads = k.reads;
        sends = k.sends;
      } in
      found_or-Keeps c.security (take_frame wanted c'.security.rx_queue)
        (await_incoming aes wanted rest c') c' here
        (Keeps_trans c.security c'.security _ here
          (await_incoming-Keeps wanted rest c' (k.done ∙ h)))

  pub await_rx-Keeps :
      (wanted : RxFrame → Bool) (c : Connection)
      → c.security.handshake_done ≡ false
      → Keeps c.security (await_rx aes wanted c).1.security
  unfolding await_rx
  await_rx-Keeps wanted c h =
      found_or-Keeps c.security (take_frame wanted c.security.rx_queue)
        (await_incoming aes wanted c.incoming c) c (same c.security)
        (await_incoming-Keeps wanted c.incoming c h)
