-- ===== src/Frames/Service/Each.antt =====
-- Notifications one after the other: the service and the collector.
use geberit_aquaclean.Prelude.{
  ℕ, ◌≡◌, refl, sym, ap, subst, ◌∙◌, true, Option, none, some, List, [], ◌∷◌, ◌++◌, map, ◌==◌,
  if◌then◌else◌, length, take, take_all, replicate, All, arith, Error, ok, ◌>>=◌, bit_and,
  exception,
}
use geberit_aquaclean.Prelude.Bits.{◌>>>◌}
use geberit_aquaclean.Prelude.Bytes.{Bytes}
use geberit_aquaclean.Message.Crc.{byte_item}
use geberit_aquaclean.Frames.Codec.{
  FrameType, first, cons, header_of, frame_type, first_cons_frame, create_first_cons_frame,
  create_of_type, create_frame_from_bytes, build_control_frame, serialize, serialize_hdr,
  byte_items, header_byte, value, put_slice,
}
use geberit_aquaclean.Frames.Collector.{
  FrameData, Event, send_control_frame, transaction_complete, Outcome, add_frame, and_then,
  add_frames,
}
use geberit_aquaclean.Frames.Service.{
  FrameService, ServiceEvent, send_data, transaction_complete_fs, Processed, failed, forward_event,
  forward_each, forward, either, collected, begin_transaction, process_frame, process_created,
  process_data,
}

-- One notification after the other.
unfoldable pub joined : Processed → Processed → Processed
joined r rs = record {
  service = rs.service;
  events = r.events ++ rs.events;
  raised = either r.raised rs.raised;
}

unfoldable pub process_each : FrameService → List Bytes → Processed
unfolding joined
process_each s [] = record { service = s; events = []; raised = none }
process_each s (d ∷ ds) = let r = process_data s d in joined r (process_each r.service ds)

-- What becomes of the collector's events: no control frame fails to be written.
abbrev pub sent : Event → ServiceEvent
sent (send_control_frame bitmap) =
    send_data
      (put_slice 4 12 (take 8 bitmap) (put_slice 1 4 (0 ∷ 8 ∷ 0 ∷ []) (0x70 ∷ replicate 19 0)))
sent (transaction_complete data') = transaction_complete_fs data'

forward_event-sent : (event : Event) → forward_event event ≡ ok (sent event)
unfolding forward_event build_control_frame serialize serialize_hdr byte_items header_byte value
    byte_item
forward_event-sent (send_control_frame bitmap) = refl
forward_event-sent (transaction_complete data') = refl

forward-sent : (events : List Event) → forward events ≡ (map sent events, none)
unfolding forward forward_each
forward-sent [] = refl
forward-sent (event ∷ events) =
    ap (λ r. forward_each r (forward events)) (forward_event-sent event)
    ∙ ap (forward_each (ok (sent event))) (forward-sent events)

-- The service does what the collector does, and fires its events.
pub record Follows (r : Processed) (o : Outcome) : Type 0 where
  pub collector : r.service.frame_collector ≡ o.collector
  pub events : r.events ≡ map sent o.events
  pub raised : r.raised ≡ o.raised

pub collected-Follows : (s : FrameService) (o : Outcome) → Follows (collected s o) o
unfolding collected either
collected-Follows s o = record {
  collector = refl;
  events = ap (λ f. f.0) (forward-sent o.events);
  raised = ap (λ f. either f.1 o.raised) (forward-sent o.events);
}

pub map-append : (xs ys : List Event) → map sent (xs ++ ys) ≡ map sent xs ++ map sent ys
map-append [] ys = refl
map-append (x ∷ xs) ys = ap (λ l. sent x ∷ l) (map-append xs ys)

pub joined-Follows :
    (r rs : Processed) (this later : Outcome)
    → this.raised ≡ none
    → Follows r this
    → Follows rs later
    → Follows (joined r rs) (and_then this.raised this later)
unfolding joined and_then either
joined-Follows r rs this later n h k =
    subst (λ e. Follows (joined r rs) (and_then e this later)) (sym n)
      (record {
        collector = k.collector;
        events =
            ap (λ l. l ++ rs.events) h.events
            ∙ ap (λ l. map sent this.events ++ l) k.events
            ∙ sym (map-append this.events later.events);
        raised = ap (λ e. either e rs.raised) (h.raised ∙ n) ∙ k.raised;
      })

-- A call and what follows it raise nothing together only if each raises nothing.
pub nothing_raised :
    (e : Option Error) (this later : Outcome)
    → this.raised ≡ e
    → (and_then e this later).raised ≡ none
    → (this.raised ≡ none) × (later.raised ≡ none)
unfolding and_then
nothing_raised (some x) this later h n = absurd (let no : some x ≡ none = sym h ∙ n in cc)
nothing_raised none this later h n = (h, n)

-- A header byte of the given type.
abbrev pub IsHeader : FrameType → ℕ → Type 0
IsHeader t b = frame_type (bit_and (b >>> 5) 7) ≡ ok t

-- The eighteen bytes that a FIRST or a CONS frame carries.
abbrev pub IsPayload : ℕ × Bytes → Type 0
IsPayload (i, p) = length p ≡ 18

-- The notification of a CONS frame.
abbrev pub cons_bytes : ℕ → ℕ × Bytes → Bytes
cons_bytes b (i, p) = b ∷ i ∷ p

created :
    (t : FrameType) (b n : ℕ) (p : Bytes)
    → (create_of_type t (header_of t b) (b ∷ n ∷ p)
        ≡ (create_first_cons_frame (b ∷ n ∷ p) >>= λ f. ok (first_cons_frame (header_of t b) f)))
    → IsHeader t b
    → length p ≡ 18
    → (s : FrameService)
    → process_data s (b ∷ n ∷ p)
      ≡ process_created s
          (create_first_cons_frame (b ∷ n ∷ p) >>= λ f. ok (first_cons_frame (header_of t b) f))
unfolding process_data create_frame_from_bytes
created t b n p k h l s =
    let whole : (length (b ∷ n ∷ p) == 20) ≡ true = ground arith in
    ap
      (λ w.
        if w then process_created s (create_frame_from_bytes (b ∷ n ∷ p)) else failed s exception)
      whole
    ∙ ap (λ r. process_created s (r >>= λ t. create_of_type t (header_of t b) (b ∷ n ∷ p))) h
    ∙ ap (process_created s) k

pub process_first :
    (s : FrameService) (b n : ℕ) (p : Bytes)
    → IsHeader first b
    → length p ≡ 18
    → process_data s (b ∷ n ∷ p) ≡ collected s (begin_transaction s.frame_collector n p)
unfolding create_of_type process_created process_frame create_first_cons_frame header_of
process_first s b n p h l =
    created first b n p refl h l s
    ∙ ap (λ q. collected s (begin_transaction s.frame_collector n q))
        (take_all 18 p (omega (arith, l)))

process_cons :
    (s : FrameService) (b i : ℕ) (p : Bytes)
    → IsHeader cons b
    → length p ≡ 18
    → process_data s (b ∷ i ∷ p) ≡ collected s (add_frame s.frame_collector i p)
unfolding create_of_type process_created process_frame create_first_cons_frame header_of
process_cons s b i p h l =
    created cons b i p refl h l s
    ∙ ap (λ q. collected s (add_frame s.frame_collector i q)) (take_all 18 p (omega (arith, l)))

pub process_each-Follows :
    (b : ℕ) (arrivals : FrameData) (s : FrameService)
    → IsHeader cons b
    → All IsPayload arrivals
    → (add_frames s.frame_collector arrivals).raised ≡ none
    → Follows (process_each s (map (cons_bytes b) arrivals)) (add_frames s.frame_collector arrivals)
unfolding process_each add_frames collected
process_each-Follows b [] s h l n = record { collector = refl; events = refl; raised = refl }
process_each-Follows b ((i, p) ∷ rest) s h (l, ls) n =
    let this = add_frame s.frame_collector i p in
    let (fine, later) = nothing_raised this.raised this (add_frames this.collector rest) refl n in
    let r : Processed = collected s this in
    let next : Follows (process_each r.service (map (cons_bytes b) rest))
        (add_frames this.collector rest) =
      process_each-Follows b rest r.service h ls later in
    subst
      (λ (r : Processed).
        Follows (joined r (process_each r.service (map (cons_bytes b) rest)))
          (add_frames s.frame_collector ((i, p) ∷ rest)))
      (sym (process_cons s b i p h l))
      (joined-Follows r (process_each r.service (map (cons_bytes b) rest)) this
        (add_frames this.collector rest) fine (collected-Follows s this) next)
