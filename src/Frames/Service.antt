-- ===== src/Frames/Service.antt =====
-- FrameService.py: what a notification's frame does, and the wait for the info frames after a connection;
-- and TlMsgOutCtl.py.
--
-- `process_data` returns the events that it fires, with what was raised, if anything was. That a
-- handler of one of these events raises is not modelled.
pub mod Control
pub mod Wait
pub mod Each
pub mod Delivery
use geberit_aquaclean.Prelude.{
  ℕ, zero, suc, ◌+◌, max, Bool, false, not, ◌||◌, Option, none, some, List, [], ◌∷◌, ◌++◌, ◌==◌,
  ltb, if◌then◌else◌, length, replicate, Error, Result, ok, err, attribute_error, exception,
}
use geberit_aquaclean.Prelude.Bytes.{Bytes}
use geberit_aquaclean.Frames.Codec.{
  first, cons, FlowControlFrame, InfoFrame, Frame, single_frame, first_cons_frame,
  flow_control_frame, info_frame, create_frame_from_bytes, build_control_frame, serialize,
}
use geberit_aquaclean.Frames.Collector.{
  FrameCollector, empty_collector, Event, send_control_frame, transaction_complete, Outcome,
  add_frame, and_then, start_transaction,
}
use geberit_aquaclean.Frames.Validation.{mark_transaction_ok_packets, get_highest_ok_frame_cnt}

-- The attributes nTxState, vTxAckdFrameBitmask, nTxFrameCnt and vTxBackLogCtr, and those that
-- `_handle_control_frame` makes when it assigns n_tx_frame_cnt, n_tx_state, n_tx_latency_ms and
-- n_tx_unackd_frame_limit. Nothing reads nTxLatencyMs and the others that `__init__` sets.
pub record TlMsgOutCtl : Type 0 where
  pub tx_state : ℕ
  pub tx_ackd_frame_bitmask : Bytes
  pub tx_frame_cnt : ℕ
  pub tx_back_log_ctr : Bytes
  pub n_tx_frame_cnt : Option ℕ
  pub n_tx_state : Option ℕ
  pub n_tx_latency_ms : Option ℕ
  pub n_tx_unackd_frame_limit : Option ℕ

abbrev pub new_tl_msg_out_ctl : TlMsgOutCtl
new_tl_msg_out_ctl = record {
  tx_state = 0;
  tx_ackd_frame_bitmask = replicate 255 0;
  tx_frame_cnt = 0;
  tx_back_log_ctr = replicate 255 0;
  n_tx_frame_cnt = none;
  n_tx_state = none;
  n_tx_latency_ms = none;
  n_tx_unackd_frame_limit = none;
}

pub record FrameService : Type 0 where
  pub frame_collector : FrameCollector
  pub tl_msg_out_ctl : TlMsgOutCtl
  pub info_frame_count : ℕ

abbrev pub new_frame_service : FrameService
new_frame_service = record {
  frame_collector = empty_collector;
  tl_msg_out_ctl = new_tl_msg_out_ctl;
  info_frame_count = 0;
}

pub data ServiceEvent : Type 0 where
  send_data : Bytes → ServiceEvent
  transaction_complete_fs : Bytes → ServiceEvent
  info_frame_received : InfoFrame → ServiceEvent

-- The service after a call, the events fired, and the exception that ended it.
pub record Processed : Type 0 where
  pub service : FrameService
  pub events : List ServiceEvent
  pub raised : Option Error

abbrev pub processed : FrameService → Processed
processed s = record { service = s; events = []; raised = none }

abbrev pub failed : FrameService → Error → Processed
failed s e = record { service = s; events = []; raised = some e }

-- The end of `_handle_control_frame`, with the number of confirmed frames. The message that it logs
-- in the last branch reads `n_tx_frame_cnt`.
unfoldable pub confirm : TlMsgOutCtl → FlowControlFrame → Result ℕ → Result ℕ × TlMsgOutCtl
confirm ctl frame (err e) = (err e, ctl)
confirm ctl frame (ok highest_ok_frame_count) =
    if highest_ok_frame_count == ctl.tx_frame_cnt
    then (ok 1, record ctl { n_tx_frame_cnt = some 0; n_tx_state = some 0 })
    else (
      elim ctl.n_tx_frame_cnt [ none ↦ err attribute_error | some n ↦ ok 0 ],
      record ctl {
        n_tx_latency_ms = some (max frame.transaction_latency 10);
        n_tx_unackd_frame_limit = some frame.unackd_frame_limit;
        n_tx_state = some 2;
      },
    )

unfoldable pub after_marks :
    TlMsgOutCtl → FlowControlFrame → Bytes × Option Error → Result ℕ × TlMsgOutCtl
unfolding confirm
after_marks ctl frame (counters, some e) = (err e, record ctl { tx_back_log_ctr = counters })
after_marks ctl frame (counters, none) =
    confirm (record ctl { tx_back_log_ctr = counters }) frame
      (get_highest_ok_frame_cnt ctl.tx_frame_cnt counters)

unfoldable pub handle_control_frame : TlMsgOutCtl → FlowControlFrame → Result ℕ × TlMsgOutCtl
unfolding after_marks
handle_control_frame ctl frame =
    if not (frame.error_code == 0) || not (ctl.tx_state == 0)
    then (ok 0, ctl)
    else (let mask = frame.ackd_frame_bitmask in
        after_marks (record ctl { tx_ackd_frame_bitmask = mask }) frame
          (mark_transaction_ok_packets ctl.tx_frame_cnt mask ctl.tx_back_log_ctr))

abbrev pub with_ctl : FrameService → TlMsgOutCtl → FrameService
with_ctl s ctl = record s { tl_msg_out_ctl = ctl }

unfoldable pub logged : FrameService → Result ℕ × TlMsgOutCtl → Processed
logged s (err e, ctl) = failed (with_ctl s ctl) e
logged s (ok n, ctl) = processed (with_ctl s ctl)

-- When the first call returns 1, `process_data` calls it again, for the log.
unfoldable pub handle_again : FrameService → FlowControlFrame → Result ℕ × TlMsgOutCtl → Processed
unfolding handle_control_frame logged
handle_again s frame (err e, ctl) = failed (with_ctl s ctl) e
handle_again s frame (ok zero, ctl) = processed (with_ctl s ctl)
handle_again s frame (ok (suc n), ctl) = logged s (handle_control_frame ctl frame)

-- `on_send_control_frame` and `on_transaction_complete`.
unfoldable pub forward_event : Event → Result ServiceEvent
forward_event (send_control_frame bitmap) = elim (serialize (build_control_frame bitmap)) [
  | err e ↦ err e
  | ok bytes ↦ ok (send_data bytes)
]
forward_event (transaction_complete data') = ok (transaction_complete_fs data')

unfoldable pub forward_each :
    Result ServiceEvent → List ServiceEvent × Option Error → List ServiceEvent × Option Error
forward_each (err e) later = ([], some e)
forward_each (ok event) (events, raised) = (event ∷ events, raised)

unfoldable pub forward : List Event → List ServiceEvent × Option Error
unfolding forward_event forward_each
forward [] = ([], none)
forward (event ∷ events) = forward_each (forward_event event) (forward events)

unfoldable pub either : Option Error → Option Error → Option Error
either (some e) later = some e
either none later = later

-- The collector's call, with its events forwarded.
unfoldable pub collected : FrameService → Outcome → Processed
unfolding forward either
collected s o =
    let (events, raised) = forward o.events in
    record {
      service = record s { frame_collector = o.collector };
      events = events;
      raised = either raised o.raised;
    }

-- `start_transaction(n)`, and `add_frame(0, payload)` unless that raised.
unfoldable pub begin_transaction : FrameCollector → ℕ → Bytes → Outcome
begin_transaction c n payload =
    let this = start_transaction c n in
    and_then this.raised this (add_frame this.collector 0 payload)

unfoldable pub process_info : FrameService → InfoFrame → Processed
process_info s frame =
    if frame.info_frm_type == 1
    then record {
      service = record s { info_frame_count = s.info_frame_count + 1 };
      events = info_frame_received frame ∷ [];
      raised = none;
    }
    else processed s

-- `process_data` on a frame. A FIRST frame and a CONS frame are of the same class.
unfoldable pub process_frame : FrameService → Frame → Processed
unfolding collected begin_transaction handle_again process_info
process_frame s (single_frame h payload) =
    if h.is_sub_frame_count
    then collected s (begin_transaction s.frame_collector (h.sub_frame_count_or_index + 1) payload)
    else collected s (add_frame s.frame_collector h.sub_frame_count_or_index payload)
process_frame s (first_cons_frame h f) = elim h.frame_type [
  | first ↦ collected s (begin_transaction s.frame_collector f.frame_count_or_number f.payload)
  | cons ↦ collected s (add_frame s.frame_collector f.frame_count_or_number f.payload)
  | _ ↦ processed s
]
process_frame s (flow_control_frame h f) =
    handle_again s f (handle_control_frame s.tl_msg_out_ctl f)
process_frame s (info_frame h f) = process_info s f

unfoldable pub process_created : FrameService → Result Frame → Processed
unfolding process_frame
process_created s (err e) = failed s e
process_created s (ok frame) = process_frame s frame

unfoldable pub process_data : FrameService → Bytes → Processed
unfolding process_created
process_data s data' =
    if length data' == 20
    then process_created s (create_frame_from_bytes data')
    else failed s exception

-- `send_frame_async`.
unfoldable pub send_frame : FrameService → Frame → Processed
send_frame s frame = elim (serialize frame) [
  | err e ↦ failed s e
  | ok bytes ↦ record { service = s; events = send_data bytes ∷ []; raised = none }
]

-- `wait_for_info_frames_async`, on fuel, from its iteration `n` on. `during n` info frames arrive
-- while that iteration sleeps. A last count of -1 is none.
unfoldable pub is_last : Option ℕ → ℕ → Bool
is_last none count = false
is_last (some last) count = last == count

unfoldable pub wait_loop : ℕ → (ℕ → ℕ) → ℕ → ℕ → Option ℕ → ℕ → Option ℕ
unfolding is_last
wait_loop zero during n count last unchanged = none
wait_loop (suc fuel) during n count last unchanged =
    let unchanged' = if is_last last count then unchanged + 1 else unchanged in
    let rest = wait_loop fuel during (suc n) (count + during n) (some count) unchanged' in
    if ltb count 10 then (if ltb 20 unchanged' then some n else rest) else some n

unfoldable pub waited : FrameService → Option ℕ → Option FrameService
waited s none = none
waited s (some n) = some (record s { info_frame_count = 0 })

-- The service once the wait is over. Each iteration of the loop that goes on counts an info frame or
-- an unchanged count, of which there are at most 10 and 20.
unfoldable pub wait_for_info_frames : (ℕ → ℕ) → FrameService → Option FrameService
unfolding wait_loop waited
wait_for_info_frames during s = waited s (wait_loop 33 during 0 s.info_frame_count none 0)
