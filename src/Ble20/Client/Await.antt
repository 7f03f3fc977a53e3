-- ===== src/Ble20/Client/Await.antt =====
-- A wait and the first frame that is wanted.
use geberit_aquaclean.Prelude.{
  ℕ, zero, suc, ◌+◌, ◌<◌, ◌≡◌, ◌≢◌, inl, inr, refl, ap, ◌∙◌, Bool, true, List, [], ◌∷◌, ◌++◌, arith,
  length, length-append, All, Error, Result, ok, err, timeout_error,
}
use geberit_aquaclean.Prelude.Bytes.{Bytes}
use geberit_aquaclean.Ble20.Client.{
  Ble20, Io, and_run, deliver, recv_incoming, recv, pending, await_loop, await_frame, notify_data,
}
use geberit_aquaclean.Ble20.Client.Wait.{
  HasCommand, Delivered, deliver-Delivered, deliver-rx_queue, recv_queued, recv_empty, loop_next,
  loop_skip, loop_found, IsPassed, IsStale, Got, recv_incoming-first, recv_incoming-later,
}

-- The state once `frame` has been delivered and the rest of what is to come is `frames`.
abbrev arrived : Ble20 → Bytes → List Bytes → Ble20
arrived c frame frames = deliver (record c { incoming = frames }) frame

ended_at :
    (c c' : Ble20) (reply : Bytes) (rest : List Bytes) (r : Result Bytes × Ble20)
    → r ≡ (ok reply, c')
    → c'.rx_queue ≡ []
    → c'.incoming ≡ rest
    → c'.sent ≡ c.sent
    → Got c reply rest r
ended_at c c' reply rest r e q i s = record {
  result = ap (λ r. r.0) e;
  queue = ap (λ r. r.1.rx_queue) e ∙ q;
  incoming = ap (λ r. r.1.incoming) e ∙ i;
  sent = ap (λ r. r.1.sent) e ∙ s;
}

carried_on :
    (c c' : Ble20) (reply : Bytes) (rest : List Bytes) (r r' : Result Bytes × Ble20)
    → c'.sent ≡ c.sent
    → r ≡ r'
    → Got c' reply rest r'
    → Got c reply rest r
carried_on c c' reply rest r r' s e g = record {
  result = ap (λ r. r.0) e ∙ g.result;
  queue = ap (λ r. r.1.rx_queue) e ∙ g.queue;
  incoming = ap (λ r. r.1.incoming) e ∙ g.incoming;
  sent = ap (λ r. r.1.sent) e ∙ g.sent ∙ s;
}

-- The first reply is in the queue, or it is still to arrive and none is in the queue. The lists are what
-- remains of the two once it is taken.
pub data IsFirst (wanted : ℕ → Bool) (reply : Bytes) (c : Ble20)
    : List Bytes → List Bytes → Type 0 where
  queued :
      (stale behind : List Bytes)
      → c.rx_queue ≡ stale ++ reply ∷ behind
      → All (IsStale wanted) stale
      → IsFirst wanted reply c behind c.incoming
  arriving :
      (arrivals later : List Bytes)
      → c.incoming ≡ arrivals ++ reply ∷ later
      → All (IsStale wanted) c.rx_queue
      → All (IsPassed wanted) arrivals
      → IsFirst wanted reply c [] later

-- The wait has ended with `reply`, and left these frames.
pub record Found (c : Ble20) (reply : Bytes) (left_queue left_incoming : List Bytes)
    (r : Result Bytes × Ble20) : Type 0 where
  pub result : r.0 ≡ ok reply
  pub queue : r.1.rx_queue ≡ left_queue
  pub incoming : r.1.incoming ≡ left_incoming
  pub sent : r.1.sent ≡ c.sent

module _ (wanted : ℕ → Bool) (reply : Bytes) (cmd : ℕ) (rest : List Bytes)
    (has : HasCommand reply cmd) (is_wanted : wanted cmd ≡ true) (other : cmd ≢ notify_data) where
  await_loop-incoming :
      (arrivals : List Bytes) (n : ℕ) (c : Ble20)
      → c.rx_queue ≡ []
      → c.incoming ≡ arrivals ++ reply ∷ rest
      → All (IsPassed wanted) arrivals
      → length arrivals < n
      → Got c reply rest (await_loop n wanted c)
  await_loop-incoming arrivals zero c e i p h = absurd (omega arith)
  await_loop-incoming [] (suc n) c e i p h =
      let c' = arrived c reply rest in
      let d : Delivered (record c { incoming = rest }) c' reply =
        deliver-Delivered (record c { incoming = rest }) reply in
      let q : c'.rx_queue ≡ reply ∷ [] =
        deliver-rx_queue (record c { incoming = rest }) reply cmd has other
        ∙ ap (λ q. q ++ reply ∷ []) e in
      ended_at c (record c' { rx_queue = [] }) reply rest _
        (loop_found n wanted c (record c' { rx_queue = [] }) reply cmd
          (recv_incoming-first c reply rest e i q) has is_wanted)
        refl d.incoming d.sent
  await_loop-incoming (frame ∷ arrivals) (suc n) c e i (p, ps) h =
      let frames : List Bytes = arrivals ++ reply ∷ rest in
      let c' = arrived c frame frames in
      let d : Delivered (record c { incoming = frames }) c' frame =
        deliver-Delivered (record c { incoming = frames }) frame in
      elim d.queue [
        | inl q ↦
            carried_on c c' reply rest _ _ d.sent
              (loop_next n wanted c c' (recv_incoming-later c frame frames e i (q ∙ e)))
              (await_loop-incoming arrivals (suc n) c' (q ∙ e) d.incoming ps (omega arith))
        | inr (k, hk, q) ↦
            let taken = record c' { rx_queue = [] } in
            carried_on c taken reply rest _ _ d.sent
              (loop_skip n wanted c taken frame k
                (recv_incoming-first c frame frames e i (q ∙ ap (λ q. q ++ frame ∷ []) e)) hk
                (p k hk))
              (await_loop-incoming arrivals n taken refl d.incoming ps (omega arith))
      ]

  await_loop-stale :
      (stale arrivals : List Bytes) (n : ℕ) (c : Ble20)
      → c.rx_queue ≡ stale
      → c.incoming ≡ arrivals ++ reply ∷ rest
      → All (IsStale wanted) stale
      → All (IsPassed wanted) arrivals
      → length stale + length arrivals < n
      → Got c reply rest (await_loop n wanted c)
  await_loop-stale stale arrivals zero c e i s p h = absurd (omega arith)
  await_loop-stale [] arrivals (suc n) c e i s p h =
      await_loop-incoming arrivals (suc n) c e i p (omega arith)
  await_loop-stale (f ∷ stale) arrivals (suc n) c e i ((k, hk, w), s) p h =
      let taken = record c { rx_queue = stale } in
      carried_on c taken reply rest _ _ refl
        (loop_skip n wanted c taken f k (recv_queued c f stale e) hk w)
        (await_loop-stale stale arrivals n taken refl i s p (omega arith))

  -- Whatever lies in the queue or arrives before it, the wait ends with the reply.
  pub await_frame-Got :
      (arrivals : List Bytes) (c : Ble20)
      → c.incoming ≡ arrivals ++ reply ∷ rest
      → All (IsStale wanted) c.rx_queue
      → All (IsPassed wanted) arrivals
      → Got c reply rest (await_frame wanted c)
  unfolding await_frame
  await_frame-Got arrivals c i s p =
      await_loop-stale c.rx_queue arrivals (suc (pending c)) c refl i s p
        (omega (arith, ap length i, length-append arrivals (reply ∷ rest)))

module _ (wanted : ℕ → Bool) (reply : Bytes) (cmd : ℕ) (has : HasCommand reply cmd)
    (is_wanted : wanted cmd ≡ true) (other : cmd ≢ notify_data) where
  await_loop-queued :
      (stale behind : List Bytes) (n : ℕ) (c : Ble20)
      → c.rx_queue ≡ stale ++ reply ∷ behind
      → All (IsStale wanted) stale
      → length stale < n
      → await_loop n wanted c ≡ (ok reply, record c { rx_queue = behind })
  await_loop-queued stale behind zero c e s h = absurd (omega arith)
  await_loop-queued [] behind (suc n) c e s h =
      loop_found n wanted c (record c { rx_queue = behind }) reply cmd
        (recv_queued c reply behind e) has is_wanted
  await_loop-queued (f ∷ stale) behind (suc n) c e ((k, hk, w), s) h =
      let taken = record c { rx_queue = stale ++ reply ∷ behind } in
      loop_skip n wanted c taken f k (recv_queued c f (stale ++ reply ∷ behind) e) hk w
      ∙ await_loop-queued stale behind n taken refl s (omega arith)

  -- The wait ends with the first reply, wherever that is.
  pub await_frame-Found :
      (queue incoming : List Bytes) (c : Ble20)
      → IsFirst wanted reply c queue incoming
      → Found c reply queue incoming (await_frame wanted c)
  unfolding await_frame
  await_frame-Found queue incoming c (queued stale behind e s) =
      let found : await_frame wanted c ≡ (ok reply, record c { rx_queue = behind }) =
        await_loop-queued stale behind (suc (pending c)) c e s
          (omega (arith, ap length e, length-append stale (reply ∷ behind))) in
      record {
        result = ap (λ r. r.0) found;
        queue = ap (λ r. r.1.rx_queue) found;
        incoming = ap (λ r. r.1.incoming) found;
        sent = ap (λ r. r.1.sent) found;
      }
  await_frame-Found queue incoming c (arriving arrivals later i s p) =
      let g : Got c reply later (await_frame wanted c) =
        await_frame-Got wanted reply cmd later has is_wanted other arrivals c i s p in
      record { result = g.result; queue = g.queue; incoming = g.incoming; sent = g.sent }

and_run-err :
    {A B : Type 0} (r : Result A × Ble20) (f : A → Io B) (e : Error)
    → r.0 ≡ err e
    → (and_run r f).0 ≡ err e
and_run-err (err x, c) f e h = cc
and_run-err (ok a, c) f e h = absurd cc

loop_timeout :
    (n : ℕ) (wanted : ℕ → Bool) (c : Ble20)
    → (recv c).0 ≡ err timeout_error
    → (await_loop (suc n) wanted c).0 ≡ err timeout_error
unfolding await_loop
loop_timeout n wanted c h = and_run-err (recv c) _ timeout_error h

recv_nothing : (c : Ble20) → c.rx_queue ≡ [] → c.incoming ≡ [] → (recv c).0 ≡ err timeout_error
unfolding recv_incoming
recv_nothing c e i = ap (λ r. r.0) (recv_empty c e ∙ ap (λ fs. recv_incoming fs c) i)

module _ (wanted : ℕ → Bool) where
  timeout_incoming :
      (arrivals : List Bytes) (n : ℕ) (c : Ble20)
      → c.rx_queue ≡ []
      → c.incoming ≡ arrivals
      → All (IsPassed wanted) arrivals
      → (await_loop n wanted c).0 ≡ err timeout_error
  timeout_incoming arrivals zero c e i p = unfold await_loop in refl
  timeout_incoming [] (suc n) c e i p = loop_timeout n wanted c (recv_nothing c e i)
  timeout_incoming (frame ∷ frames) (suc n) c e i (p, ps) =
      let c' = arrived c frame frames in
      let d : Delivered (record c { incoming = frames }) c' frame =
        deliver-Delivered (record c { incoming = frames }) frame in
      elim d.queue [
        | inl q ↦
            ap (λ r. r.0) (loop_next n wanted c c' (recv_incoming-later c frame frames e i (q ∙ e)))
            ∙ timeout_incoming frames (suc n) c' (q ∙ e) d.incoming ps
        | inr (k, hk, q) ↦
            let taken = record c' { rx_queue = [] } in
            ap (λ r. r.0)
              (loop_skip n wanted c taken frame k
                (recv_incoming-first c frame frames e i (q ∙ ap (λ q. q ++ frame ∷ []) e)) hk
                (p k hk))
            ∙ timeout_incoming frames n taken refl d.incoming ps
      ]

  timeout_stale :
      (stale : List Bytes) (n : ℕ) (c : Ble20)
      → c.rx_queue ≡ stale
      → All (IsStale wanted) stale
      → All (IsPassed wanted) c.incoming
      → (await_loop n wanted c).0 ≡ err timeout_error
  timeout_stale stale zero c e s p = unfold await_loop in refl
  timeout_stale [] (suc n) c e s p = timeout_incoming c.incoming (suc n) c e refl p
  timeout_stale (f ∷ stale) (suc n) c e ((k, hk, w), s) p =
      let taken = record c { rx_queue = stale } in
      ap (λ r. r.0) (loop_skip n wanted c taken f k (recv_queued c f stale e) hk w)
      ∙ timeout_stale stale n taken refl s p

  -- When no frame in the queue or still to come has a wanted command, the wait times out.
  pub await_frame-timeout :
      (c : Ble20)
      → All (IsStale wanted) c.rx_queue
      → All (IsPassed wanted) c.incoming
      → (await_frame wanted c).0 ≡ err timeout_error
  unfolding await_frame
  await_frame-timeout c s p = timeout_stale c.rx_queue (suc (pending c)) c refl s p
