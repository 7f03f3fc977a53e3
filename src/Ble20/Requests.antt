-- ===== src/Ble20/Requests.antt =====
-- Ble20Client.py, the requests `read`, `write`, `enable_notification`, `get_notification`,
-- `poll_state`, `capabilities` and `event_storage_inventory`.
pub mod Asked
pub mod Replies
use geberit_aquaclean.Prelude.{
  ℕ, zero, suc, ◌+◌, ◌-◌, bit_and, Bool, ◌||◌, Option, none, some, List, [], ◌∷◌, ◌++◌, ◌==◌, leb,
  if◌then◌else◌, length, get_or, drop, Result, ok, err, timeout_error, io_error, value_error,
}
use geberit_aquaclean.Prelude.Bytes.{Bytes, at, slice, from_le}
use geberit_aquaclean.Prelude.Dict.{lookup, insert}
use geberit_aquaclean.Ble20.Address.{encode_address, decode_address}
use geberit_aquaclean.Ble20.Client.{
  Ble20, Io, and_run, ◌>>=◌, ◌>>◌, ret, raise, pure, deliver, recv, send, pending, await_frame,
}

abbrev pub read_cmd : ℕ
read_cmd = 0x10

abbrev pub read_ans : ℕ
read_ans = 0x11

abbrev pub read_error : ℕ
read_error = 0x12

abbrev pub write_cmd : ℕ
write_cmd = 0x20

abbrev pub write_ack : ℕ
write_ack = 0x21

abbrev pub write_error : ℕ
write_error = 0x22

abbrev pub notify_enable : ℕ
notify_enable = 0x30

abbrev pub notify_ack : ℕ
notify_ack = 0x32

abbrev pub is_read_reply : ℕ → Bool
is_read_reply cmd = cmd == read_ans || cmd == read_error

abbrev pub is_write_reply : ℕ → Bool
is_write_reply cmd = cmd == write_ack || cmd == write_error

-- The bytes behind the address of a frame, `frame[off:]`.
unfoldable pub rest_from : Bytes → Result (ℕ × Option ℕ × ℕ) → Result Bytes
rest_from frame (err e) = err e
rest_from frame (ok (_, _, off)) = ok (drop off frame)

unfoldable pub behind_address : Bytes → Result Bytes
unfolding rest_from
behind_address frame = rest_from frame (decode_address frame 1)

-- What `read` makes of its reply. The status of an error is only in the exception's text.
unfoldable pub read_result : Bytes → Io Bytes
unfolding behind_address
read_result frame = do
  cmd ← pure (at frame 0)
  value ← pure (behind_address frame)
  if cmd == read_error then raise io_error else ret value

unfoldable pub read : ℕ → Option ℕ → Io Bytes
unfolding read_result
read dp_id instance_id = do
  addr ← pure (encode_address dp_id instance_id)
  send (read_cmd ∷ addr)
  frame ← await_frame is_read_reply
  read_result frame

unfoldable pub write_result : Bytes → Io (Unit {0})
unfolding behind_address
write_result frame = do
  cmd ← pure (at frame 0)
  if cmd == write_error then (do _ ← pure (behind_address frame); raise io_error) else ret tt

unfoldable pub write : ℕ → Bytes → Option ℕ → Io (Unit {0})
unfolding write_result
write dp_id value instance_id = do
  addr ← pure (encode_address dp_id instance_id)
  send (write_cmd ∷ (addr ++ value))
  frame ← await_frame is_write_reply
  write_result frame

-- `if dp_id not in self._notify_queues: self._notify_queues[dp_id] = asyncio.Queue()`
unfoldable pub subscribe : ℕ → Io (Unit {0})
subscribe dp_id c = elim (lookup dp_id c.notify_queues) [
  | none ↦ (ok tt, record c { notify_queues = insert dp_id [] c.notify_queues })
  | some _ ↦ (ok tt, c)
]

-- One round of `enable_notification`. The reply is the next frame, whatever it is; one that is no
-- acknowledgement is decoded for the log.
unfoldable pub enable_one : ℕ → Io (Unit {0})
unfolding subscribe behind_address
enable_one dp_id = do
  addr ← pure (encode_address dp_id none)
  send (notify_enable ∷ addr)
  frame ← recv
  cmd ← pure (at frame 0)
  if cmd == notify_ack then subscribe dp_id else (do _ ← pure (behind_address frame); ret tt)

unfoldable pub enable_notification : List ℕ → Io (Unit {0})
unfolding enable_one
enable_notification [] = ret tt
enable_notification (dp_id ∷ dp_ids) = do enable_one dp_id; enable_notification dp_ids

-- The first frame of a notification queue, once frames have been delivered until there is one.
unfoldable pub take_notification : ℕ → List Bytes → Io Bytes
take_notification dp_id [] c = elim (lookup dp_id c.notify_queues) [
  | some (f ∷ fs) ↦ (ok f, record c { notify_queues = insert dp_id fs c.notify_queues })
  | some [] ↦ (err timeout_error, c)
  | none ↦ (err timeout_error, c)
]
take_notification dp_id (frame ∷ frames) c =
    let c' = deliver (record c { incoming = frames }) frame in
    let later = take_notification dp_id frames c' in
    elim (lookup dp_id c.notify_queues) [
      | some (f ∷ fs) ↦ (ok f, record c { notify_queues = insert dp_id fs c.notify_queues })
      | some [] ↦ later
      | none ↦ (err timeout_error, c)
    ]

unfoldable pub get_notification : ℕ → Io Bytes
unfolding take_notification behind_address
get_notification dp_id c = elim (lookup dp_id c.notify_queues) [
  | none ↦ (err value_error, c)
  | some _ ↦ and_run (take_notification dp_id c.incoming c) (λ frame. pure (behind_address frame))
]

-- `try: ... except Exception: pass` around a call.
unfoldable pub caught : {A : Type 0} → Result A × Ble20 → Result (Option A) × Ble20
caught (err e, c) = (ok none, c)
caught (ok a, c) = (ok (some a), c)

abbrev pub optional : {A : Type 0} → Io A → Io (Option A)
optional m c = caught (m c)

abbrev pub dp_user_detection_status : ℕ
dp_user_detection_status = 607

abbrev pub dp_anal_shower_status : ℕ
dp_anal_shower_status = 564

unfoldable pub poll_each : List ℕ → List (ℕ × Bytes) → Io (List (ℕ × Bytes))
unfolding caught
poll_each [] result = ret result
poll_each (dp_id ∷ dp_ids) result = do
  found ← optional (read dp_id none)
  poll_each dp_ids (elim found [ none ↦ result | some value ↦ insert dp_id value result ])

unfoldable pub poll_state : Io (List (ℕ × Bytes))
unfolding poll_each
poll_state = poll_each (dp_user_detection_status ∷ dp_anal_shower_status ∷ []) []

abbrev pub capabilities_cmd : ℕ
capabilities_cmd = 0xfd

abbrev pub capabilities_ack : ℕ
capabilities_ack = 0xfe

-- `except asyncio.TimeoutError: return default`
unfoldable pub timed_out : {A : Type 0} → A → Result A × Ble20 → Result A × Ble20
timed_out default (err timeout_error, c) = (ok default, c)
timed_out default (err e, c) = (err e, c)
timed_out default (ok a, c) = (ok a, c)

abbrev pub or_timeout : {A : Type 0} → A → Io A → Io A
or_timeout default m c = timed_out default (m c)

unfoldable pub capabilities : Io ℕ
unfolding timed_out
capabilities = do
  send (capabilities_cmd ∷ [])
  or_timeout 0 (do frame ← await_frame (λ cmd. cmd == capabilities_ack); ret (get_or frame 1 0))

abbrev pub event_storage_inventory_cmd : ℕ
event_storage_inventory_cmd = 0x50

abbrev pub event_storage_inventory_count : ℕ
event_storage_inventory_count = 0x51

abbrev pub event_storage_inventory_data : ℕ
event_storage_inventory_data = 0x52

-- How many frames remain after this one, and nothing when the loop returns. `remaining -= 1` may
-- reach -1, which returns too.
unfoldable pub event_step : ℕ → Bytes → ℕ → Option ℕ
event_step cmd frame remaining =
    if cmd == event_storage_inventory_count
    then (let announced = if leb 3 (length frame) then from_le (slice 1 3 frame) else 0 in
        if announced == 0 then none else some announced)
    else if cmd == event_storage_inventory_data
    then (if leb remaining 1 then none else some (remaining - 1))
    else some remaining

-- The loop of `event_storage_inventory`, on fuel.
unfoldable pub event_loop : ℕ → ℕ → Io (Unit {0})
unfolding event_step
event_loop zero remaining = raise timeout_error
event_loop (suc n) remaining = do
  frame ← recv
  cmd ← pure (at frame 0)
  elim (event_step cmd frame remaining) [ none ↦ ret tt | some left ↦ event_loop n left ]

-- Bit 2 of the capabilities selects the extended request.
unfoldable pub event_storage_inventory : ℕ → Io (Unit {0})
unfolding event_loop timed_out
event_storage_inventory capabilities_flags = do
  send (
      if bit_and capabilities_flags 0x04 == 0
      then event_storage_inventory_cmd ∷ []
      else event_storage_inventory_cmd ∷ 0x01 ∷ [])
  or_timeout tt (λ c. event_loop (suc (pending c)) 0 c)
