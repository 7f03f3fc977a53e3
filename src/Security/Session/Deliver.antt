-- ===== src/Security/Session/Deliver.antt =====
-- Two ends of a session: what `wrap_for_send` makes at one, `feed_att_bytes` delivers at the other.
use geberit_aquaclean.Prelude.{
  ℕ, ◌+◌, ◌*◌, ◌≡◌, refl, ap, ◌∙◌, Bool, true, ◌&&◌, some, List, [], ◌∷◌, ◌++◌, arith,
  if◌then◌else◌, inl, inr, Bool-cases, All, All-append, Result, ok,
}
use geberit_aquaclean.Prelude.Bytes.{Bytes, IsByte, IsBytes}
use geberit_aquaclean.Security.Kermit.{sealed, sealed-IsBytes}
use geberit_aquaclean.Security.Cobs.{cobs_encode}
use geberit_aquaclean.Security.Cobs.Shape.{cobs_encode-IsInner, IsInner}
use geberit_aquaclean.Security.AesCtr.{AesCtrState, process}
use geberit_aquaclean.Security.AesCtr.Stream.{process_twice, process-IsBytes}
use geberit_aquaclean.Security.Link.{
  Security, RxFrame, i_frame, att_i, frame_of, build_att, queue_i_frame, receive,
}
use geberit_aquaclean.Security.Link.Buffer.{IsIdle}
use geberit_aquaclean.Security.Link.Frames.{
  IsSequenced, i_ctrl_lem, receive-build_att, dispatch_even, idle_after,
}
use geberit_aquaclean.Security.Session.{
  encrypted_part, decrypt, drain_queue, feed_inner_cobs, feed_att_bytes, wrap_for_send,
  sec_encrypted,
}
use geberit_aquaclean.Security.Session.Inner.{feed_inner_cobs-frame_of}

IsInner-IsBytes : (xs : Bytes) → All IsInner xs → IsBytes xs
IsInner-IsBytes [] h = tt
IsInner-IsBytes (b ∷ bs) (hb, h) = (hb.1, IsInner-IsBytes bs h)

frame_of-IsBytes : (body : Bytes) → IsBytes body → IsBytes (frame_of body)
unfolding frame_of
frame_of-IsBytes body h =
    let content = cobs_encode (sealed body) in
    (
      omega arith,
      All-append IsByte content (0 ∷ [])
          (IsInner-IsBytes content (cobs_encode-IsInner (sealed body) (sealed-IsBytes body h)))
          (omega arith, tt),
    )

module _ (aes : Bytes → Bytes → Bytes) where
  -- The sender encrypts from the state from which the receiver decrypts, and the receiver has
  -- handled all that it got.
  pub record Paired (s r : Security) : Type 0 where
    pub cipher : AesCtrState
    pub sends : s.tx_cipher ≡ some cipher
    pub reads : r.rx_cipher ≡ some cipher
    pub cipher_bytes : IsBytes cipher.ks
    pub sequenced : IsSequenced s
    pub done : r.handshake_done ≡ true
    pub idle : IsIdle r
    pub queue : r.rx_queue ≡ []
    pub inner : r.inner_cobs_buf ≡ []

  -- The bytes of a wrapped message, and the sender after it.
  abbrev pub wrapped : AesCtrState → Security → Bytes → Bytes × Security
  wrapped c s payload =
      att_i (record s { tx_cipher = some (process aes c (frame_of payload)).1 })
        (sec_encrypted ∷ (process aes c (frame_of payload)).0)

  wrap_for_send_lem :
      (s : Security) (payload : Bytes) (c : AesCtrState)
      → s.tx_cipher ≡ some c
      → wrap_for_send aes s payload ≡ ok (wrapped c s payload)
  unfolding wrap_for_send
  wrap_for_send_lem s payload c e = rw e refl

  -- Queuing an I-frame leaves the ciphers and the streams alone.
  record Queued (r t : Security) (ctrl : ℕ) (payload : Bytes) : Type 0 where
    frames :
        t.rx_queue ≡ r.rx_queue ++ (record { kind = i_frame; ctrl = ctrl; payload = payload } ∷ [])
    reads : t.rx_cipher ≡ r.rx_cipher
    done : t.handshake_done ≡ r.handshake_done
    inner : t.inner_cobs_buf ≡ r.inner_cobs_buf

  queue_i_frame-Queued :
      (r : Security) (ctrl : ℕ) (payload : Bytes)
      → Queued r (idle_after (queue_i_frame r ctrl payload)) ctrl payload
  unfolding queue_i_frame
  queue_i_frame-Queued r ctrl payload = elim (Bool-cases (r.handshake_done && r.ack_send_fn)) [
    | inl e ↦ rw e (record { frames = refl; reads = refl; done = refl; inner = refl })
    | inr e ↦ rw e (record { frames = refl; reads = refl; done = refl; inner = refl })
  ]

  drain_step :
      (f : RxFrame) (fs : List RxFrame) (r r' r'' : Security) (results : List Bytes)
      (ciphertext plain : Bytes) (messages : List Bytes)
      → encrypted_part f.kind f.payload ≡ some ciphertext
      → decrypt aes r ciphertext ≡ ok (plain, r')
      → feed_inner_cobs r' plain ≡ (messages, r'')
      → drain_queue aes (f ∷ fs) r results ≡ drain_queue aes fs r'' (results ++ messages)
  unfolding drain_queue
  drain_step f fs r r' r'' results ciphertext plain messages p q m = rw (p, q, m, drain_queue) refl

  decrypt_lem :
      (r : Security) (c : AesCtrState) (plain : Bytes)
      → r.rx_cipher ≡ some c
      → decrypt aes r (process aes c plain).0
        ≡ ok (plain, record r { rx_cipher = some (process aes c plain).1 })
  unfolding decrypt
  decrypt_lem r c plain e = rw (e, process_twice aes c plain) refl

  -- What a queued data frame does at the receiver.
  drain_one :
      (r : Security) (ctrl : ℕ) (c : AesCtrState) (payload : Bytes)
      → r.rx_cipher ≡ some c
      → r.inner_cobs_buf ≡ []
      → IsBytes payload
      → drain_queue aes
          (record {
            kind = i_frame;
            ctrl = ctrl;
            payload = sec_encrypted ∷ (process aes c (frame_of payload)).0;
          }
            ∷ [])
          r
          []
        ≡ (
          ok (payload ∷ []),
          record r {
            rx_cipher = some (process aes c (frame_of payload)).1;
            inner_cobs_buf = [];
            rx_queue = [];
          },
        )
  drain_one r ctrl c payload e inner h =
      let plain : Bytes = frame_of payload in
      let r' : Security = record r { rx_cipher = some (process aes c plain).1 } in
      let frame : RxFrame = record {
        kind = i_frame;
        ctrl = ctrl;
        payload = sec_encrypted ∷ (process aes c plain).0;
      } in
      drain_step frame [] r r' (record r' { inner_cobs_buf = [] }) [] (process aes c plain).0 plain
        (payload ∷ []) (unfold encrypted_part in refl) (decrypt_lem r c plain e)
        (feed_inner_cobs-frame_of r' payload h inner)
      ∙ unfold drain_queue in refl

  abbrev after_receive : Security → Result (List Bytes) × Security
  after_receive t = if t.handshake_done then drain_queue aes t.rx_queue t [] else (ok [], t)

  feed_queued :
      (r : Security) (ctrl : ℕ) (c : AesCtrState) (payload bytes : Bytes)
      → receive r bytes
        ≡ idle_after (queue_i_frame r ctrl (sec_encrypted ∷ (process aes c (frame_of payload)).0))
      → r.rx_cipher ≡ some c
      → r.handshake_done ≡ true
      → r.rx_queue ≡ []
      → r.inner_cobs_buf ≡ []
      → IsBytes payload
      → feed_att_bytes aes r bytes ≡ (
        ok (payload ∷ []),
        record (idle_after
            (queue_i_frame r ctrl (sec_encrypted ∷ (process aes c (frame_of payload)).0))) {
              rx_cipher = some (process aes c (frame_of payload)).1;
              inner_cobs_buf = [];
              rx_queue = [];
            },
      )
  unfolding feed_att_bytes
  feed_queued r ctrl c payload bytes got reads done queue inner h =
      let data' : Bytes = sec_encrypted ∷ (process aes c (frame_of payload)).0 in
      let t : Security = idle_after (queue_i_frame r ctrl data') in
      let q : Queued r t ctrl data' = queue_i_frame-Queued r ctrl data' in
      let frame : RxFrame = record { kind = i_frame; ctrl = ctrl; payload = data' } in
      let frames : t.rx_queue ≡ frame ∷ [] =
        q.frames ∙ ap (λ (l : List RxFrame). l ++ (frame ∷ [])) queue in
      ap after_receive got
      ∙ ap (λ (b : Bool). if b then drain_queue aes t.rx_queue t [] else (ok [], t)) (q.done ∙ done)
      ∙ ap (λ (l : List RxFrame). drain_queue aes l t []) frames
      ∙ drain_one t ctrl c payload (q.reads ∙ reads) (q.inner ∙ inner) h

  att_i-IsSequenced :
      (s : Security) (payload : Bytes) → IsSequenced s → IsSequenced (att_i s payload).1
  unfolding att_i
  att_i-IsSequenced s payload h = record { tx = omega arith; rx = h.rx }

  wrapped_cipher :
      (s : Security) (payload : Bytes) (c : AesCtrState)
      → (wrapped c s payload).1.tx_cipher ≡ some (process aes c (frame_of payload)).1
  unfolding att_i
  wrapped_cipher s payload c = refl

  -- What a wrapped message is at the other end.
  receive-wrapped :
      (s r : Security) (c : AesCtrState) (payload : Bytes)
      → IsSequenced s
      → IsIdle r
      → IsBytes (sec_encrypted ∷ (process aes c (frame_of payload)).0)
      → receive r (wrapped c s payload).0
        ≡ idle_after (
            queue_i_frame r
              (s.rx_ack * 32 + s.tx_seq * 2)
              (sec_encrypted ∷ (process aes c (frame_of payload)).0))
  unfolding att_i
  receive-wrapped s r c payload h idle bytes =
      let s' : Security = record s { tx_cipher = some (process aes c (frame_of payload)).1 } in
      let data' : Bytes = sec_encrypted ∷ (process aes c (frame_of payload)).0 in
      let ctrl : ℕ = s.rx_ack * 32 + s.tx_seq * 2 in
      ap (λ (n : ℕ). receive r (build_att n data'))
        (i_ctrl_lem s' (record { tx = h.tx; rx = h.rx }))
      ∙ receive-build_att r ctrl data' (omega (arith, h.tx, h.rx), bytes) idle
      ∙ ap idle_after (dispatch_even r ctrl data' (omega arith))

-- `aes_bytes`: the block cipher returns bytes.
module _ (aes : Bytes → Bytes → Bytes)
    (aes_bytes : (key block : Bytes) → IsBytes (aes key block)) where
  -- A message of bytes that one end wraps is delivered by the other end, exactly and alone, when
  -- the two ends are paired; and they are paired again afterwards.
  pub feed_att_bytes-wrap_for_send :
      (s r : Security) (payload : Bytes) (p : Paired aes s r)
      → IsBytes payload
      → (wrap_for_send aes s payload ≡ ok (wrapped aes p.cipher s payload))
        × ((feed_att_bytes aes r (wrapped aes p.cipher s payload).0).0 ≡ ok (payload ∷ []))
        × Paired aes
            (wrapped aes p.cipher s payload).1
            (feed_att_bytes aes r (wrapped aes p.cipher s payload).0).1
  feed_att_bytes-wrap_for_send s r payload p h =
      let c : AesCtrState = p.cipher in
      let plain : Bytes = frame_of payload in
      let (out, ks) =
        process-IsBytes aes aes_bytes c plain p.cipher_bytes (frame_of-IsBytes payload h) in
      let got = receive-wrapped aes s r c payload p.sequenced p.idle (omega arith, out) in
      let fed =
        feed_queued aes r (s.rx_ack * 32 + s.tx_seq * 2) c payload (wrapped aes c s payload).0 got
          p.reads p.done p.queue p.inner h in
      let q =
        queue_i_frame-Queued aes r (s.rx_ack * 32 + s.tx_seq * 2)
          (sec_encrypted ∷ (process aes c plain).0) in
      let next : Paired aes (wrapped aes c s payload).1
          (record (idle_after (
            queue_i_frame r (s.rx_ack * 32 + s.tx_seq * 2)
              (sec_encrypted ∷ (process aes c plain).0))) {
                rx_cipher = some (process aes c plain).1;
                inner_cobs_buf = [];
                rx_queue = [];
              }) =
        record {
          cipher = (process aes c plain).1;
          sends = wrapped_cipher aes s payload c;
          reads = refl;
          cipher_bytes = ks;
          sequenced =
              att_i-IsSequenced aes _ _ (record { tx = p.sequenced.tx; rx = p.sequenced.rx });
          done = q.done ∙ p.done;
          idle = inr refl;
          queue = refl;
          inner = refl;
        } in
      (wrap_for_send_lem aes s payload c p.sends, ap (λ x. x.0) fed, rw fed next)
