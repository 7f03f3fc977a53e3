-- ===== src/Security/Handshake/Steps.antt =====
-- One step of the handshake: a frame that arrives and is the one awaited, and a request that is sent.
use geberit_aquaclean.Prelude.{
  ℕ, ◌%◌, ◌≡◌, inr, refl, ap, ◌∙◌, Bool, true, false, some, List, [], ◌∷◌, ◌++◌, arith, Result, ok,
}
use geberit_aquaclean.Prelude.Bytes.{Bytes, IsBytes}
use geberit_aquaclean.Security.Link.{
  Security, RxFrame, i_frame, u_frame, u_ctrl, att_i, build_att, dispatch, queue_i_frame,
  queue_u_frame,
}
use geberit_aquaclean.Security.Link.Buffer.{IsIdle}
use geberit_aquaclean.Security.Link.Frames.{
  IsSequenced, idle_after, receive-build_att, dispatch_even,
}
use geberit_aquaclean.Security.Handshake.{
  Connection, with_queue, take_frame, found_or, send_i, arrive, await_incoming, await_rx,
  hdlc_ua_type,
}
use geberit_aquaclean.Security.Handshake.Keeps.{arrive-receive}

-- What the dispatch of an awaited frame does.
pub record Queued (f : RxFrame) (s t : Security) : Type 0 where
  frames : t.rx_queue ≡ s.rx_queue ++ (f ∷ [])
  done : t.handshake_done ≡ s.handshake_done
  inner : t.inner_cobs_buf ≡ s.inner_cobs_buf
  sequenced : IsSequenced s → IsSequenced t

abbrev pub i_frame_of : ℕ → Bytes → RxFrame
i_frame_of ctrl payload = record { kind = i_frame; ctrl = ctrl; payload = payload }

abbrev pub ua : RxFrame
ua = record { kind = u_frame; ctrl = u_ctrl hdlc_ua_type; payload = [] }

pub i_frame-Queued :
    (ctrl : ℕ) (payload : Bytes)
    → ctrl % 2 ≡ 0
    → (s : Security) → s.handshake_done ≡ false
    → Queued (i_frame_of ctrl payload) s (dispatch s ctrl payload)
unfolding queue_i_frame
i_frame-Queued ctrl payload even s f =
    rw (dispatch_even s ctrl payload even, f)
      (record {
        frames = refl;
        done = refl;
        inner = refl;
        sequenced = λ h. record { tx = h.tx; rx = omega arith };
      })

pub ua-Queued :
    (s : Security) → s.handshake_done ≡ false → Queued ua s (dispatch s (u_ctrl hdlc_ua_type) [])
unfolding dispatch queue_u_frame u_ctrl
ua-Queued s f = record {
  frames = refl;
  done = refl;
  inner = refl;
  sequenced = λ h. record { tx = h.tx; rx = h.rx };
}

-- The client between two steps of the handshake, with `rest` to arrive.
pub record Ready (c : Connection) (rest : List Bytes) : Type 0 where
  pub queue : c.security.rx_queue ≡ []
  pub idle : IsIdle c.security
  pub undone : c.security.handshake_done ≡ false
  pub inner : c.security.inner_cobs_buf ≡ []
  pub incoming : c.incoming ≡ rest

-- The next frame arrives and is returned.
pub record Awaited (f : RxFrame) (rest : List Bytes) (c : Connection)
    (r : Result RxFrame × Connection) : Type 0 where
  pub after : Connection
  pub ended : r ≡ (ok f, after)
  pub ready : Ready after rest
  pub sequenced : IsSequenced c.security → IsSequenced after.security

take_first :
    (wanted : RxFrame → Bool) (f : RxFrame)
    → wanted f ≡ true
    → take_frame wanted (f ∷ []) ≡ some (f, [])
unfolding take_frame
take_first wanted f h = rw h refl

module _ (aes : Bytes → Bytes → Bytes) where
  pub await_rx-Awaited :
      (wanted : RxFrame → Bool) (ctrl : ℕ) (payload : Bytes) (f : RxFrame) (rest : List Bytes)
      (c : Connection)
      → IsBytes (ctrl ∷ payload)
      → ((s : Security) → s.handshake_done ≡ false → Queued f s (dispatch s ctrl payload))
      → wanted f ≡ true
      → Ready c (build_att ctrl payload ∷ rest)
      → Awaited f rest c (await_rx aes wanted c)
  unfolding await_rx await_incoming found_or take_frame
  await_rx-Awaited wanted ctrl payload f rest c bytes dispatched is_wanted ready =
      let w = with_queue (record c { incoming = rest }) [] in
      let c' = arrive aes w (build_att ctrl payload) in
      let t = dispatch w.security ctrl payload in
      let d : Queued f w.security t = dispatched w.security ready.undone in
      let arrived : c' ≡ record w { security = idle_after t } =
        arrive-receive aes w (build_att ctrl payload) ready.undone
        ∙ ap (λ (s : Security). record w { security = s })
            (receive-build_att w.security ctrl payload bytes ready.idle) in
      let taken : take_frame wanted c'.security.rx_queue ≡ some (f, []) =
        ap (λ (x : Connection). take_frame wanted x.security.rx_queue) arrived
        ∙ ap (take_frame wanted) d.frames
        ∙ take_first wanted f is_wanted in
      record {
        after = with_queue c' [];
        ended =
            ap (λ q. found_or (take_frame wanted q) (await_incoming aes wanted c.incoming c) c)
              ready.queue
            ∙ ap (λ frames. await_incoming aes wanted frames c) ready.incoming
            ∙ ap (λ o. found_or o (await_incoming aes wanted rest c') c') taken;
        ready = record {
          queue = refl;
          idle = inr (ap (λ (x : Connection). x.security.rx_buf) arrived);
          undone =
              ap (λ (x : Connection). x.security.handshake_done) arrived ∙ d.done ∙ ready.undone;
          inner =
              ap (λ (x : Connection). x.security.inner_cobs_buf) arrived ∙ d.inner ∙ ready.inner;
          incoming = ap (λ (x : Connection). x.incoming) arrived;
        };
        sequenced = λ h.
            let k = d.sequenced (record { tx = h.tx; rx = h.rx }) in
            record {
              tx = omega (arith, k.tx, ap (λ (x : Connection). x.security.tx_seq) arrived);
              rx = omega (arith, k.rx, ap (λ (x : Connection). x.security.rx_ack) arrived);
            };
      }

pub send_i-Ready :
    (payload : Bytes) (c : Connection) (rest : List Bytes)
    → Ready c rest
    → Ready (send_i payload c).1 rest
unfolding send_i att_i
send_i-Ready payload c rest h = record {
  queue = h.queue;
  idle = h.idle;
  undone = h.undone;
  inner = h.inner;
  incoming = h.incoming;
}

pub send_i-IsSequenced :
    (payload : Bytes) (c : Connection)
    → IsSequenced c.security
    → IsSequenced (send_i payload c).1.security
unfolding send_i att_i
send_i-IsSequenced payload c h = record { tx = omega arith; rx = h.rx }
