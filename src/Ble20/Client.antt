-- ===== src/Ble20/Client.antt =====
-- Ble20Client.py, the class `Ble20Client` from its queues to `_recv` and `_send`, and the loop with
-- which the requests wait for their reply.
--
-- The state is the object's queues with what was sent, and `incoming`: the frames that the connector
-- has still to deliver. A frame arrives when the client waits for one and its queue is empty; when
-- none is left to arrive, the wait ends by its timeout.
pub mod Wait
pub mod Await
pub mod Headed
use geberit_aquaclean.Prelude.{
  ℕ, zero, suc, ◌+◌, Bool, ◌&&◌, Option, none, some, List, [], ◌∷◌, ◌++◌, ◌==◌, leb, if◌then◌else◌,
  length, Result, ok, err, timeout_error,
}
use geberit_aquaclean.Prelude.Bytes.{Bytes, at}
pub use geberit_aquaclean.Prelude.Io.{and_run, ◌>>=◌, ◌>>◌, ret, raise, pure}
use geberit_aquaclean.Prelude.Dict.{lookup, insert}
use geberit_aquaclean.Ble20.Address.{decode_address}

pub record Ble20 : Type 0 where
  pub rx_queue : List Bytes
  pub notify_queues : List (ℕ × List Bytes)
  pub incoming : List Bytes
  pub sent : List Bytes

-- A coroutine of the client. What it did before it raised stays done.
abbrev pub Io : Type 0 → Type 0
Io A = Ble20 → Result A × Ble20

abbrev pub notify_data : ℕ
notify_data = 0x34

-- The data point of a notification, where the frame is one.
unfoldable pub notified : Bytes → Result (Option ℕ)
notified [] = ok none
notified (cmd ∷ rest) =
    if cmd == notify_data && leb 3 (length (cmd ∷ rest))
    then elim (decode_address (cmd ∷ rest) 1) [ err e ↦ err e | ok (dp_id, _, _) ↦ ok (some dp_id) ]
    else ok none

-- The frame on the queue of its data point, where there is one, or on `_rx_queue`.
unfoldable pub put_frame : Ble20 → Bytes → ℕ → Option (List Bytes) → Ble20
put_frame c frame dp_id none = record c { rx_queue = c.rx_queue ++ frame ∷ [] }
put_frame c frame dp_id (some q) = record c {
  notify_queues = insert dp_id (q ++ frame ∷ []) c.notify_queues;
}

unfoldable pub route : Ble20 → Bytes → Result (Option ℕ) → Result Ble20
unfolding put_frame
route c frame (err e) = err e
route c frame (ok none) = ok (record c { rx_queue = c.rx_queue ++ frame ∷ [] })
route c frame (ok (some dp_id)) = ok (put_frame c frame dp_id (lookup dp_id c.notify_queues))

-- `_on_data`. An empty frame is dropped.
unfoldable pub on_data : Ble20 → Bytes → Result Ble20
unfolding notified route
on_data c [] = ok c
on_data c (cmd ∷ rest) = route c (cmd ∷ rest) (notified (cmd ∷ rest))

-- What a handler raises does not reach the client.
unfoldable pub after_handler : Ble20 → Result Ble20 → Ble20
after_handler c (err e) = c
after_handler c (ok c') = c'

unfoldable pub deliver : Ble20 → Bytes → Ble20
unfolding after_handler on_data
deliver c frame = after_handler c (on_data c frame)

-- The first frame of the queue, or what comes later.
unfoldable pub first_or : List Bytes → Result Bytes × Ble20 → Io Bytes
first_or [] later c = later
first_or (f ∷ fs) later c = (ok f, record c { rx_queue = fs })

-- `_recv` once the queue is empty.
unfoldable pub recv_incoming : List Bytes → Io Bytes
unfolding first_or
recv_incoming [] c = (err timeout_error, record c { incoming = [] })
recv_incoming (frame ∷ frames) c =
    let c' = deliver (record c { incoming = frames }) frame in
    first_or c'.rx_queue (recv_incoming frames c') c'

unfoldable pub recv : Io Bytes
unfolding recv_incoming first_or
recv c = first_or c.rx_queue (recv_incoming c.incoming c) c

unfoldable pub send : Bytes → Io (Unit {0})
send payload c = (ok tt, record c { sent = c.sent ++ payload ∷ [] })

-- The frames that can still be received.
abbrev pub pending : Ble20 → ℕ
pending c = length c.rx_queue + length c.incoming

-- `while True: frame = await self._recv(); if frame[0] in (...): break`, on fuel.
unfoldable pub await_loop : ℕ → (ℕ → Bool) → Io Bytes
await_loop zero wanted = raise timeout_error
await_loop (suc n) wanted = do
  let rest = await_loop n wanted
  frame ← recv
  cmd ← pure (at frame 0)
  if wanted cmd then ret frame else rest

unfoldable pub await_frame : (ℕ → Bool) → Io Bytes
unfolding await_loop
await_frame wanted c = await_loop (suc (pending c)) wanted c
