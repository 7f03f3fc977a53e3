-- ===== src/Client/Base.antt =====
-- AquaCleanBaseClient.py: a request to a Mera device and its response.
--
-- `incoming` are the notifications that come before the timeout of a wait, and `sent` and `sent_cons`
-- what the connector was given by `send_message` and `send_message_cons`. The event that a
-- transaction is complete is a Boolean.
pub mod Released
pub mod Answered
pub mod Raised
use geberit_aquaclean.Prelude.{
  ℕ, ◌+◌, ◌-◌, Bool, true, false, Option, none, some, List, [], ◌∷◌, ◌++◌, ◌==◌, if◌then◌else◌,
  length, Error, Result, ok, err, ◌>>=◌, require, attribute_error, exception, timeout_error,
}
use geberit_aquaclean.Prelude.Bytes.{Bytes, slice}
use geberit_aquaclean.Api.Call.{ApiCall}
use geberit_aquaclean.Message.Crc
use geberit_aquaclean.Message.Crc.{byte_item}
use geberit_aquaclean.Message.Service.{MessageContext, parse_message1, build_message}
use geberit_aquaclean.Frames.Codec
use geberit_aquaclean.Frames.Codec.{Frame, single_frame, build_single_frame}
use geberit_aquaclean.Frames.Service.{
  FrameService, ServiceEvent, send_data, transaction_complete_fs, info_frame_received, process_data,
}

pub record BaseClient : Type 0 where
  pub frame_service : FrameService
  pub transaction_event : Bool
  pub message_context : Option MessageContext
  pub profile_settings : List (ℕ × ℕ)
  pub call_count : ℕ
  pub incoming : List Bytes
  pub sent : List Bytes
  pub sent_cons : List Bytes

-- `data[i] = n` raises ValueError where n is no byte.
unfoldable pub build_payload : ApiCall → Result Bytes
build_payload api_call = do
  attribute ← require api_call.api_call_attribute exception
  payload ← api_call.payload
  node ← byte_item attribute.node
  context ← byte_item attribute.context
  procedure ← byte_item attribute.procedure
  size ← byte_item (length payload)
  ok (node ∷ context ∷ procedure ∷ size ∷ payload)

-- `frame.SubFrameCountOrIndex = 1` for a request in two frames.
unfoldable pub as_first_cons : Bool → Frame → Frame
as_first_cons true (single_frame h payload) =
    single_frame (record h { sub_frame_count_or_index = 1 }) payload
as_first_cons b frame = frame

-- What `send_request` computes before it sends: the frame, and the one that may follow it. A message
-- that is too long is None, and `serialize` raises AttributeError on it.
unfoldable pub prepare : Bool → ApiCall → Result (Bytes × Bytes)
unfolding build_payload as_first_cons
prepare send_as_first_cons api_call = do
  data' ← build_payload api_call
  found ← build_message data'
  message ← require found attribute_error
  bytes ← Crc.serialize message
  frame ← Codec.serialize (as_first_cons send_as_first_cons (build_single_frame bytes))
  ok (frame, 0x12 ∷ slice 19 38 bytes)

-- `on_transaction_completeForBaseClient`. Without a context, reading its attributes raises before
-- the event is set. What it raises ends the notification's handler.
unfoldable pub after_parse : BaseClient → Result (Option MessageContext) → BaseClient
after_parse c (err e) = c
after_parse c (ok none) = record c { message_context = none }
after_parse c (ok (some context)) = record c {
  message_context = some context;
  transaction_event = true;
}

unfoldable pub on_event : BaseClient → ServiceEvent → BaseClient
unfolding after_parse
on_event c (send_data bytes) = record c { sent = c.sent ++ bytes ∷ [] }
on_event c (transaction_complete_fs data') = after_parse c (parse_message1 data')
on_event c (info_frame_received frame) = c

unfoldable pub on_events : BaseClient → List ServiceEvent → BaseClient
unfolding on_event
on_events c [] = c
on_events c (event ∷ events) = on_events (on_event c event) events

-- A notification.
unfoldable pub receive : BaseClient → Bytes → BaseClient
unfolding on_events
receive c data' =
    let r = process_data c.frame_service data' in
    on_events (record c { frame_service = r.service }) r.events

-- `await asyncio.wait_for(self._transaction_event.wait(), ...)`, and whether the event was set.
unfoldable pub wait_answer : List Bytes → BaseClient → Bool × BaseClient
unfolding receive
wait_answer [] c = (c.transaction_event, record c { incoming = [] })
wait_answer (frame ∷ frames) c =
    let later = wait_answer frames (receive (record c { incoming = frames }) frame) in
    if c.transaction_event then (true, c) else later

-- `call_count -= 1`, and BLEPeripheralTimeoutError where the wait has timed out.
unfoldable pub finish : Bool × BaseClient → Result (Unit {0}) × BaseClient
finish (true, c) = (ok tt, record c { call_count = c.call_count - 1 })
finish (false, c) = (err timeout_error, record c { call_count = c.call_count - 1 })

abbrev pub cleared : Bool → Bytes × Bytes → BaseClient → BaseClient
cleared send_as_first_cons (frame, cons_frame) c = record c {
  transaction_event = false;
  sent = c.sent ++ frame ∷ [];
  sent_cons = if send_as_first_cons then c.sent_cons ++ cons_frame ∷ [] else c.sent_cons;
}

unfoldable pub transmit :
    Bool → Result (Bytes × Bytes) → BaseClient → Result (Unit {0}) × BaseClient
unfolding finish wait_answer
transmit send_as_first_cons (err e) c = (err e, c)
transmit send_as_first_cons (ok frames) c =
    let c' = cleared send_as_first_cons frames c in finish (wait_answer c'.incoming c')

-- `send_request`, and none where it waits for as long as another request is open.
unfoldable pub send_request : Bool → ApiCall → BaseClient → Option (Result (Unit {0}) × BaseClient)
unfolding prepare transmit
send_request send_as_first_cons api_call c =
    if c.call_count == 0
    then some (
        transmit send_as_first_cons (prepare send_as_first_cons api_call)
          (record c { call_count = c.call_count + 1 }))
    else none

-- What the connector does with what it is given to send.
pub data Sending : Type 0 where
  all_sent : Sending
  frame_raises cons_frame_raises : Error → Sending

-- What a request has sent when the connector raises, or nothing where it sends all.
unfoldable pub interrupted :
    Sending → Bool → Bytes × Bytes → BaseClient → Option (Error × BaseClient)
interrupted all_sent send_as_first_cons frames c = none
interrupted (frame_raises e) send_as_first_cons frames c =
    some (e, record c { transaction_event = false })
interrupted (cons_frame_raises e) true (frame, cons_frame) c =
    some (e, record c { transaction_event = false; sent = c.sent ++ frame ∷ [] })
interrupted (cons_frame_raises e) false frames c = none

-- `send_request` over a connector that may raise.
unfoldable pub transmit_over :
    Sending → Bool → Result (Bytes × Bytes) → BaseClient → Result (Unit {0}) × BaseClient
unfolding transmit interrupted
transmit_over sending send_as_first_cons (err e) c = (err e, c)
transmit_over sending send_as_first_cons (ok frames) c =
    elim (interrupted sending send_as_first_cons frames c) [
      | some (e, c') ↦ (err e, c')
      | none ↦ transmit send_as_first_cons (ok frames) c
    ]

unfoldable pub send_request_over :
    Sending → Bool → ApiCall → BaseClient → Option (Result (Unit {0}) × BaseClient)
unfolding prepare transmit_over
send_request_over sending send_as_first_cons api_call c =
    if c.call_count == 0
    then some (
        transmit_over sending send_as_first_cons (prepare send_as_first_cons api_call)
          (record c { call_count = c.call_count + 1 }))
    else none
