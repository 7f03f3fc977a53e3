-- ===== src/Frames/Service/Delivery.antt =====
-- A message that comes in FIRST and CONS frames, from the notifications to the report.
use geberit_aquaclean.Prelude.{
  ℕ, suc, ◌≤◌, ◌<◌, ◌≡◌, ◌≢◌, refl, sym, ap, subst, ◌∙◌, true, false, none, List, [], ◌∷◌, ◌++◌,
  map, length, replicate, All, arith,
}
use geberit_aquaclean.Prelude.Bytes.{Bytes}
use geberit_aquaclean.Frames.Codec.{first, cons}
use geberit_aquaclean.Frames.Collector.{
  FrameData, find, FrameCollector, Event, send_control_frame, transaction_complete, Outcome,
  add_frame, and_then, add_frames, start_transaction,
}
use geberit_aquaclean.Frames.Collector.Assembly.{
  concat, IsFrameOf, IsReport, start_transaction-IsReport,
}
use geberit_aquaclean.Frames.Collector.Arrival.{
  IsCompletion, IsDistinct, start_transaction-IsCompletion,
}
use geberit_aquaclean.Frames.Service.{
  FrameService, ServiceEvent, send_data, transaction_complete_fs, info_frame_received, Processed,
  collected, begin_transaction, process_data,
}
use geberit_aquaclean.Frames.Service.Each.{
  joined, process_each, sent, Follows, collected-Follows, map-append, joined-Follows,
  nothing_raised, IsHeader, IsPayload, cons_bytes, process_first, process_each-Follows,
}

start_empty :
    (c : FrameCollector) (n : ℕ)
    → c.temp_frame_data ≡ []
    → start_transaction c n
      ≡ record { collector = (start_transaction c n).collector; events = []; raised = none }
unfolding start_transaction add_frames
start_empty c n t =
    let begin : FrameCollector = record {
      frame_data = [];
      bitmap = replicate 8 0;
      expected_frames = n;
      transaction_in_progress = true;
      temp_frame_data = [];
    } in
    ap (add_frames begin) t
    ∙ sym (
        ap
          (λ pending. record {
            collector = (add_frames begin pending).collector;
            events = [];
            raised = none;
          })
          t)

-- A FIRST frame with what follows it is a transaction that starts with frame 0.
begin_lem :
    (c : FrameCollector) (n : ℕ) (p : Bytes)
    → c.temp_frame_data ≡ []
    → begin_transaction c n p ≡ add_frame (start_transaction c n).collector 0 p
unfolding begin_transaction and_then
begin_lem c n p t =
    ap
      (λ (this : Outcome).
        and_then this.raised this (add_frame (start_transaction c n).collector 0 p))
      (start_empty c n t)

-- Whatever is reported complete is that message.
unfoldable pub Reports : Bytes → ServiceEvent → Type 0
Reports message (send_data bytes) = Unit
Reports message (transaction_complete_fs data') = data' ≡ message
Reports message (info_frame_received frame) = Unit

sent-Reports :
    (frames : List Bytes) (events : List Event)
    → All (IsReport frames) events
    → All (Reports (concat frames)) (map sent events)
unfolding Reports IsReport
sent-Reports frames [] h = tt
sent-Reports frames (send_control_frame bitmap ∷ events) (h, hs) =
    (tt, sent-Reports frames events hs)
sent-Reports frames (transaction_complete data' ∷ events) (h, hs) =
    (h, sent-Reports frames events hs)

-- The last event reports the whole message, no event reports anything else, nothing is raised, and no
-- transaction is left open.
pub record Delivered (message : Bytes) (r : Processed) : Type 0 where
  pub events :
      (before : List ServiceEvent) × (r.events ≡ before ++ transaction_complete_fs message ∷ [])
  pub reports : All (Reports message) r.events
  pub raised : r.raised ≡ none
  pub closed : r.service.frame_collector.transaction_in_progress ≡ false

completion-raised : (o : Outcome) (message : Bytes) → IsCompletion o message → o.raised ≡ none
unfolding IsCompletion
completion-raised o message (e, n, c) = n

delivered :
    (frames : List Bytes) (r : Processed) (o : Outcome)
    → Follows r o
    → All (IsReport frames) o.events
    → IsCompletion o (concat frames)
    → Delivered (concat frames) r
unfolding IsCompletion
delivered frames r o f h ((before, e), n, p) = record {
  events = (
    map sent before,
    f.events ∙ ap (map sent) e ∙ map-append before (transaction_complete (concat frames) ∷ []),
  );
  reports = subst (All (Reports (concat frames))) (sym f.events) (sent-Reports frames o.events h);
  raised = f.raised ∙ n;
  closed = ap (λ (c : FrameCollector). c.transaction_in_progress) f.collector ∙ p;
}

pub process_each-Delivered :
    (frames : List Bytes) (s : FrameService) (b b' : ℕ) (p : Bytes) (rest : FrameData)
    → IsHeader first b
    → IsHeader cons b'
    → s.frame_collector.temp_frame_data ≡ []
    → length frames ≤ 64
    → length p ≡ 18
    → All IsPayload rest
    → suc (length rest) ≡ length frames
    → All (IsFrameOf frames) ((0, p) ∷ rest)
    → IsDistinct ((0, p) ∷ rest)
    → ((j : ℕ) → j < length frames → find j ((0, p) ∷ rest) ≢ none)
    → Delivered
        (concat frames)
        (process_each s ((b ∷ length frames ∷ p) ∷ map (cons_bytes b') rest))
unfolding process_each add_frames collected
process_each-Delivered frames s b b' p rest hf hc t few l ls same are_frames distinct all_there =
    let started = (start_transaction s.frame_collector (length frames)).collector in
    let this = add_frame started 0 p in
    let later = add_frames this.collector rest in
    let whole =
      start_transaction-IsCompletion frames s.frame_collector ((0, p) ∷ rest) t (omega arith) few
        (omega arith) are_frames distinct all_there in
    let (fine, later_fine) =
      nothing_raised this.raised this later refl
        (completion-raised (add_frames started ((0, p) ∷ rest)) (concat frames) whole) in
    let r : Processed = collected s this in
    let next = process_each-Follows b' rest r.service hc ls later_fine in
    let first_is : process_data s (b ∷ length frames ∷ p) ≡ r =
      process_first s b (length frames) p hf l
      ∙ ap (collected s) (begin_lem s.frame_collector (length frames) p t) in
    let reports =
      start_transaction-IsReport frames s.frame_collector ((0, p) ∷ rest)
        (subst (All (IsFrameOf frames)) (sym t) tt) are_frames in
    delivered frames _ _
      (subst
        (λ (r : Processed).
          Follows (joined r (process_each r.service (map (cons_bytes b') rest)))
            (add_frames started ((0, p) ∷ rest)))
        (sym first_is)
        (joined-Follows r (process_each r.service (map (cons_bytes b') rest)) this later fine
          (collected-Follows s this) next))
      reports.1 whole
