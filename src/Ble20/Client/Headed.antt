-- ===== src/Ble20/Client/Headed.antt =====
-- The frames that get into the queue, and how a wait ends.
use geberit_aquaclean.Prelude.{
  ℕ, zero, suc, ◌≡◌, ◌⊎◌, inl, inr, refl, sym, subst, Bool, true, Bool-cases, List, [], ◌∷◌, All,
  All-append, Result, ok, err, timeout_error,
}
use geberit_aquaclean.Prelude.Bytes.{Bytes}
use geberit_aquaclean.Ble20.Client.{
  Ble20, deliver, first_or, recv_incoming, recv, pending, await_loop, await_frame,
}
use geberit_aquaclean.Ble20.Client.Wait.{
  HasCommand, Delivered, deliver-Delivered, loop_skip, loop_found,
}

abbrev pub IsHeaded : Bytes → Type 0
IsHeaded frame = (cmd : ℕ) × HasCommand frame cmd

-- Whatever is delivered, the queue holds no empty frame.
pub deliver-IsHeaded :
    (c : Ble20) (frame : Bytes) → All IsHeaded c.rx_queue → All IsHeaded (deliver c frame).rx_queue
deliver-IsHeaded c frame h =
    let d : Delivered c (deliver c frame) frame = deliver-Delivered c frame in
    elim d.queue [
      | inl q ↦ subst (All IsHeaded) (sym q) h
      | inr (cmd, hc, q) ↦
          subst (All IsHeaded) (sym q)
            (All-append IsHeaded c.rx_queue (frame ∷ []) h ((cmd, hc), tt))
    ]

-- What `_recv` returns, and what it leaves.
Received : Result Bytes × Ble20 → Type 0
Received r =
    ((frame : Bytes) × (c : Ble20) × (r ≡ (ok frame, c)) × IsHeaded frame × All IsHeaded c.rx_queue)
    ⊎ ((c : Ble20) × (r ≡ (err timeout_error, c)) × All IsHeaded c.rx_queue)

first_or-Received :
    (queue : List Bytes) (later : Result Bytes × Ble20) (c : Ble20)
    → All IsHeaded queue
    → Received later
    → Received (first_or queue later c)
unfolding first_or Received
first_or-Received [] later c h r = r
first_or-Received (f ∷ fs) later c (hf, h) r = inl (f, record c { rx_queue = fs }, refl, hf, h)

recv_incoming-Received :
    (frames : List Bytes) (c : Ble20) → All IsHeaded c.rx_queue → Received (recv_incoming frames c)
unfolding recv_incoming Received
recv_incoming-Received [] c h = inr (record c { incoming = [] }, refl, h)
recv_incoming-Received (frame ∷ frames) c h =
    let c' = deliver (record c { incoming = frames }) frame in
    let h' : All IsHeaded c'.rx_queue = deliver-IsHeaded (record c { incoming = frames }) frame h in
    first_or-Received c'.rx_queue (recv_incoming frames c') c' h'
      (recv_incoming-Received frames c' h')

recv-Received : (c : Ble20) → All IsHeaded c.rx_queue → Received (recv c)
unfolding recv
recv-Received c h =
    first_or-Received c.rx_queue (recv_incoming c.incoming c) c h
      (recv_incoming-Received c.incoming c h)

-- A wait has ended with a wanted frame or with its timeout, and left no empty frame behind.
pub record Waited (wanted : ℕ → Bool) (r : Result Bytes × Ble20) : Type 0 where
  pub outcome :
      ((frame : Bytes) × (cmd : ℕ) × (r.0 ≡ ok frame) × HasCommand frame cmd × (wanted cmd ≡ true))
      ⊎ (r.0 ≡ err timeout_error)
  pub headed : All IsHeaded r.1.rx_queue

loop_timed_out :
    (n : ℕ) (wanted : ℕ → Bool) (c c' : Ble20)
    → recv c ≡ (err timeout_error, c')
    → await_loop (suc n) wanted c ≡ (err timeout_error, c')
unfolding await_loop
loop_timed_out n wanted c c' e = rw (e) refl

await_loop-Waited :
    (n : ℕ) (wanted : ℕ → Bool) (c : Ble20)
    → All IsHeaded c.rx_queue
    → Waited wanted (await_loop n wanted c)
unfolding Received
await_loop-Waited zero wanted c h = unfold await_loop in record { outcome = inr refl; headed = h }
await_loop-Waited (suc n) wanted c h = elim (recv-Received c h) [
  | inr (c', e, h') ↦
      subst (Waited wanted) (sym (loop_timed_out n wanted c c' e))
        (record { outcome = inr refl; headed = h' })
  | inl (frame, c', e, (cmd, hc), h') ↦ elim (Bool-cases (wanted cmd)) [
    | inl w ↦
        subst (Waited wanted) (sym (loop_found n wanted c c' frame cmd e hc w))
          (record { outcome = inl (frame, cmd, refl, hc, w); headed = h' })
    | inr w ↦
        subst (Waited wanted) (sym (loop_skip n wanted c c' frame cmd e hc w))
          (await_loop-Waited n wanted c' h')
  ]
]

-- While no empty frame is in the queue, a wait raises nothing but its timeout, returns a frame with a
-- wanted command, and leaves no empty frame in the queue.
pub await_frame-Waited :
    (wanted : ℕ → Bool) (c : Ble20) → All IsHeaded c.rx_queue → Waited wanted (await_frame wanted c)
unfolding await_frame
await_frame-Waited wanted c h = await_loop-Waited (suc (pending c)) wanted c h
