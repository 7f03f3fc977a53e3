-- ===== src/Frames/Service/Control.antt =====
-- Control frames from the device, and the attributes by which their handler waits.
use geberit_aquaclean.Prelude.{
  ℕ, zero, suc, ◌≡◌, refl, sym, ap, subst, ◌∙◌, Bool, true, false, not, ◌||◌, ◌==◌, if◌then◌else◌,
  Result, ok, err, length, exception,
}
use geberit_aquaclean.Prelude.Bytes.{Bytes}
use geberit_aquaclean.Frames.Codec.{
  FrameType, single, first, cons, control, info, FirstConsFrame, FlowControlFrame, Frame,
  single_frame, first_cons_frame, flow_control_frame, info_frame, create_frame_from_bytes,
}
use geberit_aquaclean.Frames.Collector.{Outcome}
use geberit_aquaclean.Frames.Validation.{
  mark_transaction_ok_packets, mark_loop, get_highest_ok_frame_cnt,
}
use geberit_aquaclean.Frames.Service.{
  TlMsgOutCtl, FrameService, Processed, failed, confirm, after_marks, handle_control_frame, logged,
  handle_again, collected, process_info, process_frame, process_created, process_data,
}

-- No message in frames is being sent.
pub record IsUnused (ctl : TlMsgOutCtl) : Type 0 where
  pub state : ctl.tx_state ≡ 0
  pub count : ctl.tx_frame_cnt ≡ 0

-- The same, written into the record.
abbrev unused : TlMsgOutCtl → TlMsgOutCtl
unused ctl = record ctl { tx_state = 0; tx_frame_cnt = 0 }

unused_lem : (ctl : TlMsgOutCtl) → IsUnused ctl → unused ctl ≡ ctl
unused_lem ctl h =
    ap (λ n. record ctl { tx_state = 0; tx_frame_cnt = n }) (sym h.count)
    ∙ ap (λ n. record ctl { tx_state = n }) (sym h.state)

-- What handling a control frame does then.
pub record Handled (frame : FlowControlFrame) (r : Result ℕ × TlMsgOutCtl) : Type 0 where
  pub answer : r.0 ≡ ok (if frame.error_code == 0 then 1 else 0)
  pub still : IsUnused r.1

on_branch :
    (frame : FlowControlFrame) (b : Bool) (u v : TlMsgOutCtl)
    → (frame.error_code == 0) ≡ b
    → IsUnused u
    → IsUnused v
    → Handled frame (if not b || false then (ok 0, u) else (ok 1, v))
on_branch frame true u v e hu hv = record {
  answer = ap (λ b. ok (if b then 1 else 0)) (sym e);
  still = hv;
}
on_branch frame false u v e hu hv = record {
  answer = ap (λ b. ok (if b then 1 else 0)) (sym e);
  still = hu;
}

unused-Handled :
    (ctl : TlMsgOutCtl) (frame : FlowControlFrame)
    → Handled frame (handle_control_frame (unused ctl) frame)
unfolding handle_control_frame after_marks confirm mark_transaction_ok_packets mark_loop
    get_highest_ok_frame_cnt
unused-Handled ctl frame =
    on_branch frame (frame.error_code == 0) _ _ refl (record { state = refl; count = refl })
      (record { state = refl; count = refl })

-- While no message in frames is being sent, a control frame is taken for the end of a message if it
-- has no error code and ignored if it has one; nothing is raised, and still none is being sent.
pub handle_control_frame-Handled :
    (ctl : TlMsgOutCtl) (frame : FlowControlFrame)
    → IsUnused ctl
    → Handled frame (handle_control_frame ctl frame)
handle_control_frame-Handled ctl frame h =
    subst (λ ctl. Handled frame (handle_control_frame ctl frame)) (unused_lem ctl h)
      (unused-Handled ctl frame)

-- The service after a notification.
record Stays (r : Processed) : Type 0 where
  ctl : IsUnused r.service.tl_msg_out_ctl

either-Stays : (b : Bool) (r r' : Processed) → Stays r → Stays r' → Stays (if b then r else r')
either-Stays true r r' h h' = h
either-Stays false r r' h h' = h'

collected-Stays :
    (s : FrameService) (o : Outcome) → IsUnused s.tl_msg_out_ctl → Stays (collected s o)
unfolding collected
collected-Stays s o h = record { ctl = h }

logged-Stays : (s : FrameService) (r : Result ℕ × TlMsgOutCtl) → IsUnused r.1 → Stays (logged s r)
unfolding logged
logged-Stays s (err e, ctl) h = record { ctl = h }
logged-Stays s (ok n, ctl) h = record { ctl = h }

handle_again-Stays :
    (s : FrameService) (frame : FlowControlFrame) (r : Result ℕ × TlMsgOutCtl)
    → IsUnused r.1
    → Stays (handle_again s frame r)
unfolding handle_again
handle_again-Stays s frame (err e, ctl) h = record { ctl = h }
handle_again-Stays s frame (ok zero, ctl) h = record { ctl = h }
handle_again-Stays s frame (ok (suc n), ctl) h =
    logged-Stays s (handle_control_frame ctl frame) (handle_control_frame-Handled ctl frame h).still

first_cons-Stays :
    (s : FrameService) (t : FrameType) (m : Bool) (n : ℕ) (b : Bool) (f : FirstConsFrame)
    → IsUnused s.tl_msg_out_ctl
    → Stays (
        process_frame s (
          first_cons_frame
            (record {
              frame_type = t;
              has_message_type_byte_b4 = m;
              sub_frame_count_or_index = n;
              is_sub_frame_count = b;
            })
            f))
unfolding process_frame
first_cons-Stays s single m n b f h = record { ctl = h }
first_cons-Stays s first m n b f h = collected-Stays s _ h
first_cons-Stays s cons m n b f h = collected-Stays s _ h
first_cons-Stays s control m n b f h = record { ctl = h }
first_cons-Stays s info m n b f h = record { ctl = h }

process_frame-Stays :
    (s : FrameService) (frame : Frame) → IsUnused s.tl_msg_out_ctl → Stays (process_frame s frame)
unfolding process_frame process_info
process_frame-Stays s (single_frame h payload) k =
    either-Stays h.is_sub_frame_count _ _ (collected-Stays s _ k) (collected-Stays s _ k)
process_frame-Stays s (first_cons_frame h f) k =
    first_cons-Stays s h.frame_type h.has_message_type_byte_b4 h.sub_frame_count_or_index
      h.is_sub_frame_count f k
process_frame-Stays s (flow_control_frame h f) k =
    handle_again-Stays s f (handle_control_frame s.tl_msg_out_ctl f)
      (handle_control_frame-Handled s.tl_msg_out_ctl f k).still
process_frame-Stays s (info_frame h f) k =
    either-Stays (f.info_frm_type == 1) _ _ (record { ctl = k }) (record { ctl = k })

process_created-Stays :
    (s : FrameService) (r : Result Frame) → IsUnused s.tl_msg_out_ctl → Stays (process_created s r)
unfolding process_created
process_created-Stays s (err e) h = record { ctl = h }
process_created-Stays s (ok frame) h = process_frame-Stays s frame h

-- Whatever bytes come, no message in frames is ever being sent: the two attributes stay 0.
pub process_data-IsUnused :
    (s : FrameService) (data' : Bytes)
    → IsUnused s.tl_msg_out_ctl
    → IsUnused (process_data s data').service.tl_msg_out_ctl
unfolding process_data
process_data-IsUnused s data' h =
    (either-Stays (length data' == 20) (process_created s (create_frame_from_bytes data'))
      (failed s exception) (process_created-Stays s (create_frame_from_bytes data') h)
      (record { ctl = h })).ctl
