-- ===== src/Ble20/Client/Wait.antt =====
-- Which frame a wait ends with, and its fuel.
use geberit_aquaclean.Prelude.{
  ℕ, suc, ◌≡◌, ◌≢◌, ◌⊎◌, inl, inr, refl, sym, ap, ◌∙◌, Bool, true, false, Option, none, some, List,
  [], ◌∷◌, ◌++◌, arith, ◌==◌, if◌then◌else◌, Result, ok, err,
}
use geberit_aquaclean.Prelude.Bytes.{Bytes, at}
use geberit_aquaclean.Prelude.Dict.{lookup}
use geberit_aquaclean.Ble20.Client.{
  Ble20, and_run, notified, put_frame, route, first_or, pure, ret, ◌>>=◌, after_handler, deliver,
  recv_incoming, recv, await_loop, notify_data,
}

-- The command of a frame.
abbrev pub HasCommand : Bytes → ℕ → Type 0
HasCommand frame cmd = at frame 0 ≡ ok cmd

-- What a delivery may do to the queue from which `_recv` takes.
pub record Delivered (c c' : Ble20) (frame : Bytes) : Type 0 where
  pub queue :
      (c'.rx_queue ≡ c.rx_queue)
      ⊎ ((cmd : ℕ) × HasCommand frame cmd × (c'.rx_queue ≡ c.rx_queue ++ frame ∷ []))
  pub incoming : c'.incoming ≡ c.incoming
  pub sent : c'.sent ≡ c.sent

put_frame-Delivered :
    (c : Ble20) (frame : Bytes) (cmd dp : ℕ) (q : Option (List Bytes))
    → HasCommand frame cmd
    → Delivered c (put_frame c frame dp q) frame
unfolding put_frame
put_frame-Delivered c frame cmd dp none h = record {
  queue = inr (cmd, h, refl);
  incoming = refl;
  sent = refl;
}
put_frame-Delivered c frame cmd dp (some q) h = record {
  queue = inl refl;
  incoming = refl;
  sent = refl;
}

route-Delivered :
    (c : Ble20) (frame : Bytes) (cmd : ℕ) (dp : Result (Option ℕ))
    → HasCommand frame cmd
    → Delivered c (after_handler c (route c frame dp)) frame
unfolding route after_handler
route-Delivered c frame cmd (err e) h = record { queue = inl refl; incoming = refl; sent = refl }
route-Delivered c frame cmd (ok none) h = record {
  queue = inr (cmd, h, refl);
  incoming = refl;
  sent = refl;
}
route-Delivered c frame cmd (ok (some dp)) h =
    put_frame-Delivered c frame cmd dp (lookup dp c.notify_queues) h

pub deliver-Delivered : (c : Ble20) (frame : Bytes) → Delivered c (deliver c frame) frame
unfolding deliver
deliver-Delivered c [] = record { queue = inl refl; incoming = refl; sent = refl }
deliver-Delivered c (cmd ∷ rest) = route-Delivered c (cmd ∷ rest) cmd (notified (cmd ∷ rest)) refl

-- A frame that is no notification gets into that queue.
notified_other : (cmd : ℕ) (rest : Bytes) → cmd ≢ notify_data → notified (cmd ∷ rest) ≡ ok none
unfolding notified
notified_other cmd rest other =
    let plain : (cmd == notify_data) ≡ false = ground arith in rw (plain) refl

pub deliver-rx_queue :
    (c : Ble20) (frame : Bytes) (cmd : ℕ)
    → HasCommand frame cmd
    → cmd ≢ notify_data
    → (deliver c frame).rx_queue ≡ c.rx_queue ++ frame ∷ []
unfolding deliver
deliver-rx_queue c [] cmd h other = absurd cc
deliver-rx_queue c (b ∷ rest) cmd h other =
    let same : b ≡ cmd = cc in
    let apart : b ≢ notify_data = λ e. other (sym same ∙ e) in
    ap (λ r. (after_handler c (route c (b ∷ rest) r)).rx_queue) (notified_other b rest apart)

pub recv_queued :
    (c : Ble20) (f : Bytes) (fs : List Bytes)
    → c.rx_queue ≡ f ∷ fs
    → recv c ≡ (ok f, record c { rx_queue = fs })
unfolding recv
recv_queued c f fs e = ap (λ q. first_or q (recv_incoming c.incoming c) c) e

pub recv_empty : (c : Ble20) → c.rx_queue ≡ [] → recv c ≡ recv_incoming c.incoming c
unfolding recv
recv_empty c e = ap (λ q. first_or q (recv_incoming c.incoming c) c) e

pub loop_next :
    (n : ℕ) (wanted : ℕ → Bool) (c c' : Ble20)
    → recv c ≡ recv c'
    → await_loop (suc n) wanted c ≡ await_loop (suc n) wanted c'
unfolding await_loop
loop_next n wanted c c' e =
    ap
      (λ r. and_run r (λ frame.
        pure (at frame 0) >>= λ cmd. if wanted cmd then ret frame else await_loop n wanted))
      e

pub loop_skip :
    (n : ℕ) (wanted : ℕ → Bool) (c c' : Ble20) (f : Bytes) (cmd : ℕ)
    → recv c ≡ (ok f, c')
    → HasCommand f cmd
    → wanted cmd ≡ false
    → await_loop (suc n) wanted c ≡ await_loop n wanted c'
unfolding await_loop
loop_skip n wanted c c' f cmd e h w = rw (e, h, w) refl

pub loop_found :
    (n : ℕ) (wanted : ℕ → Bool) (c c' : Ble20) (f : Bytes) (cmd : ℕ)
    → recv c ≡ (ok f, c')
    → HasCommand f cmd
    → wanted cmd ≡ true
    → await_loop (suc n) wanted c ≡ (ok f, c')
unfolding await_loop
loop_found n wanted c c' f cmd e h w = rw (e, h, w) refl

-- A frame that the wait passes over: any that has not the command of a reply.
abbrev pub IsPassed : (ℕ → Bool) → Bytes → Type 0
IsPassed wanted frame = (cmd : ℕ) → HasCommand frame cmd → wanted cmd ≡ false

-- A frame of the queue, which is never empty.
abbrev pub IsStale : (ℕ → Bool) → Bytes → Type 0
IsStale wanted frame = (cmd : ℕ) × HasCommand frame cmd × (wanted cmd ≡ false)

-- The wait has ended with `reply`, and `rest` has still to arrive.
pub record Got (c : Ble20) (reply : Bytes) (rest : List Bytes) (r : Result Bytes × Ble20)
    : Type 0 where
  pub result : r.0 ≡ ok reply
  pub queue : r.1.rx_queue ≡ []
  pub incoming : r.1.incoming ≡ rest
  pub sent : r.1.sent ≡ c.sent

pub recv_incoming-first :
    (c : Ble20) (frame : Bytes) (frames : List Bytes)
    → c.rx_queue ≡ []
    → c.incoming ≡ frame ∷ frames
    → (deliver (record c { incoming = frames }) frame).rx_queue ≡ frame ∷ []
    → recv c ≡ (ok frame, record (deliver (record c { incoming = frames }) frame) { rx_queue = [] })
unfolding recv_incoming
recv_incoming-first c frame frames e i q =
    let c' = deliver (record c { incoming = frames }) frame in
    recv_empty c e
    ∙ ap (λ fs. recv_incoming fs c) i
    ∙ ap (λ q. first_or q (recv_incoming frames c') c') q

pub recv_incoming-later :
    (c : Ble20) (frame : Bytes) (frames : List Bytes)
    → c.rx_queue ≡ []
    → c.incoming ≡ frame ∷ frames
    → (deliver (record c { incoming = frames }) frame).rx_queue ≡ []
    → recv c ≡ recv (deliver (record c { incoming = frames }) frame)
unfolding recv_incoming
recv_incoming-later c frame frames e i q =
    let c' = deliver (record c { incoming = frames }) frame in
    let d : Delivered (record c { incoming = frames }) c' frame =
      deliver-Delivered (record c { incoming = frames }) frame in
    recv_empty c e
    ∙ ap (λ fs. recv_incoming fs c) i
    ∙ ap (λ q. first_or q (recv_incoming frames c') c') q
    ∙ ap (λ fs. recv_incoming fs c') (sym d.incoming)
    ∙ sym (recv_empty c' q)
