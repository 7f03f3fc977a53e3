-- ===== src/Client/Base/Answered.antt =====
-- A response that arrives while a request waits.
use geberit_aquaclean.Prelude.{
  ◌+◌, ◌≡◌, ◌⊎◌, inl, inr, refl, sym, ap, subst, ◌∙◌, Bool, true, false, ◌||◌, Option, none, some,
  List, [], ◌∷◌, ◌++◌, if◌then◌else◌, All, Result, ok, err,
}
use geberit_aquaclean.Prelude.Bytes.{Bytes}
use geberit_aquaclean.Message.Service.{MessageContext, parse_message1}
use geberit_aquaclean.Frames.Service.{
  FrameService, ServiceEvent, send_data, transaction_complete_fs, info_frame_received, process_data,
  Processed,
}
use geberit_aquaclean.Frames.Service.Each.{joined, process_each}
use geberit_aquaclean.Frames.Service.Delivery.{Reports, Delivered}
use geberit_aquaclean.Api.Call.{ApiCall}
use geberit_aquaclean.Client.Base.{
  BaseClient, after_parse, on_event, on_events, receive, wait_answer, finish, cleared, prepare,
  send_request,
}
use geberit_aquaclean.Client.Base.Released.{send_request-finish, waited-Released}

unfoldable has_complete : List ServiceEvent → Bool
has_complete [] = false
has_complete (send_data bytes ∷ events) = has_complete events
has_complete (transaction_complete_fs data' ∷ events) = true
has_complete (info_frame_received frame ∷ events) = has_complete events

has_complete-append :
    (xs ys : List ServiceEvent) → has_complete (xs ++ ys) ≡ (has_complete xs || has_complete ys)
unfolding has_complete
has_complete-append [] ys = refl
has_complete-append (send_data bytes ∷ xs) ys = has_complete-append xs ys
has_complete-append (transaction_complete_fs data' ∷ xs) ys = refl
has_complete-append (info_frame_received frame ∷ xs) ys = has_complete-append xs ys

has_complete_last :
    (before : List ServiceEvent) (message : Bytes)
    → has_complete (before ++ transaction_complete_fs message ∷ []) ≡ true
unfolding has_complete
has_complete_last [] message = refl
has_complete_last (send_data bytes ∷ before) message = has_complete_last before message
has_complete_last (transaction_complete_fs data' ∷ before) message = refl
has_complete_last (info_frame_received frame ∷ before) message = has_complete_last before message

split_left : (P : ServiceEvent → Type 0) (xs ys : List ServiceEvent) → All P (xs ++ ys) → All P xs
split_left P [] ys h = tt
split_left P (x ∷ xs) ys (p, h) = (p, split_left P xs ys h)

split_right : (P : ServiceEvent → Type 0) (xs ys : List ServiceEvent) → All P (xs ++ ys) → All P ys
split_right P [] ys h = h
split_right P (x ∷ xs) ys (p, h) = split_right P xs ys h

module _ (message : Bytes) (context : MessageContext)
    (parsed : parse_message1 message ≡ ok (some context)) where
  -- The client has the response and has not yet gone on.
  record HasAnswer (c : BaseClient) : Type 0 where
    event : c.transaction_event ≡ true
    answer : c.message_context ≡ some context

  -- The client has it, or waits for it and has seen no response.
  abbrev Step : BaseClient → Bool → Type 0
  Step c seen = HasAnswer c ⊎ ((c.transaction_event ≡ false) × (seen ≡ false))

  complete-HasAnswer :
      (c : BaseClient) (data' : Bytes)
      → data' ≡ message
      → HasAnswer (on_event c (transaction_complete_fs data'))
  unfolding on_event after_parse
  complete-HasAnswer c data' e =
      subst (λ r. HasAnswer (after_parse c r)) (sym (ap parse_message1 e ∙ parsed))
        (record { event = refl; answer = refl })

  on_events-HasAnswer :
      (events : List ServiceEvent) (c : BaseClient)
      → All (Reports message) events
      → HasAnswer c
      → HasAnswer (on_events c events)
  unfolding on_events on_event Reports
  on_events-HasAnswer [] c r h = h
  on_events-HasAnswer (send_data bytes ∷ events) c (r, rs) h =
      on_events-HasAnswer events (record c { sent = c.sent ++ bytes ∷ [] }) rs
        (record { event = h.event; answer = h.answer })
  on_events-HasAnswer (transaction_complete_fs data' ∷ events) c (r, rs) h =
      on_events-HasAnswer events (on_event c (transaction_complete_fs data')) rs
        (complete-HasAnswer c data' r)
  on_events-HasAnswer (info_frame_received frame ∷ events) c (r, rs) h =
      on_events-HasAnswer events c rs h

  on_events-Step :
      (events : List ServiceEvent) (c : BaseClient)
      → All (Reports message) events
      → c.transaction_event ≡ false
      → Step (on_events c events) (has_complete events)
  unfolding on_events on_event Reports has_complete
  on_events-Step [] c r h = inr (h, refl)
  on_events-Step (send_data bytes ∷ events) c (r, rs) h =
      on_events-Step events (record c { sent = c.sent ++ bytes ∷ [] }) rs h
  on_events-Step (transaction_complete_fs data' ∷ events) c (r, rs) h = inl (
      on_events-HasAnswer events (on_event c (transaction_complete_fs data')) rs
        (complete-HasAnswer c data' r))
  on_events-Step (info_frame_received frame ∷ events) c (r, rs) h = on_events-Step events c rs h

after_parse-frame_service :
    (c : BaseClient) (r : Result (Option MessageContext))
    → (after_parse c r).frame_service ≡ c.frame_service
unfolding after_parse
after_parse-frame_service c (err e) = refl
after_parse-frame_service c (ok none) = refl
after_parse-frame_service c (ok (some context)) = refl

on_events-frame_service :
    (events : List ServiceEvent) (c : BaseClient)
    → (on_events c events).frame_service ≡ c.frame_service
unfolding on_events on_event
on_events-frame_service [] c = refl
on_events-frame_service (send_data bytes ∷ events) c =
    on_events-frame_service events (record c { sent = c.sent ++ bytes ∷ [] })
on_events-frame_service (transaction_complete_fs data' ∷ events) c =
    on_events-frame_service events (after_parse c (parse_message1 data'))
    ∙ after_parse-frame_service c (parse_message1 data')
on_events-frame_service (info_frame_received frame ∷ events) c = on_events-frame_service events c

wait_next :
    (frame : Bytes) (frames : List Bytes) (c : BaseClient)
    → c.transaction_event ≡ false
    → wait_answer (frame ∷ frames) c
      ≡ wait_answer frames (receive (record c { incoming = frames }) frame)
unfolding wait_answer
wait_next frame frames c h =
    ap
      (λ b.
        if b
        then (true, c)
        else wait_answer frames (receive (record c { incoming = frames }) frame))
      h

module _ (message : Bytes) (context : MessageContext)
    (parsed : parse_message1 message ≡ ok (some context)) where
  -- The wait has ended with the event set, and the context is that of the response.
  pub record Answers (r : Bool × BaseClient) : Type 0 where
    pub event : r.0 ≡ true
    pub answer : r.1.message_context ≡ some context

  wait-HasAnswer :
      (frames : List Bytes) (c : BaseClient)
      → HasAnswer message context parsed c
      → Answers (wait_answer frames c)
  unfolding wait_answer
  wait-HasAnswer [] c h = record { event = h.event; answer = h.answer }
  wait-HasAnswer (frame ∷ frames) c h =
      subst Answers
        (sym (
          ap
            (λ b.
              if b
              then (true, c)
              else wait_answer frames (receive (record c { incoming = frames }) frame))
            h.event))
        (record { event = refl; answer = h.answer })

  -- The notifications of a response, whatever comes behind them, end the wait.
  wait_answer-Answers :
      (frames later : List Bytes) (s : FrameService) (c : BaseClient)
      → c.frame_service ≡ s
      → c.transaction_event ≡ false
      → All (Reports message) (process_each s frames).events
      → has_complete (process_each s frames).events ≡ true
      → Answers (wait_answer (frames ++ later) c)
  unfolding process_each joined receive has_complete
  wait_answer-Answers [] later s c e h r k = absurd cc
  wait_answer-Answers (d ∷ frames) later s c e h r k =
      let p : Processed = process_data s d in
      let rest : Processed = process_each p.service frames in
      let waiting : BaseClient = record c {
        incoming = frames ++ later;
        frame_service = p.service;
      } in
      let c' : BaseClient = on_events waiting p.events in
      let received : receive (record c { incoming = frames ++ later }) d ≡ c' =
        ap
          (λ s.
            on_events
              (record c { incoming = frames ++ later; frame_service = (process_data s d).service })
              (process_data s d).events)
          e in
      let all_left = split_left (Reports message) p.events rest.events r in
      subst Answers
        (sym (wait_next d (frames ++ later) c h ∙ ap (wait_answer (frames ++ later)) received))
        (elim (on_events-Step message context parsed p.events waiting all_left h) [
          | inl a ↦ wait-HasAnswer (frames ++ later) c' a
          | inr (f, n) ↦
              wait_answer-Answers frames later p.service c'
                (on_events-frame_service p.events waiting) f
                (split_right (Reports message) p.events rest.events r)
                (sym (ap (λ b. b || has_complete rest.events) n)
                  ∙ sym (has_complete-append p.events rest.events)
                  ∙ k)
        ])

  finish-Answers :
      (r : Bool × BaseClient)
      → Answers r
      → ((finish r).0 ≡ ok tt) × ((finish r).1.message_context ≡ some context)
  unfolding finish
  finish-Answers (true, c) h = (refl, h.answer)
  finish-Answers (false, c) h = absurd (let no : false ≡ true = h.event in cc)

  -- When the notifications that come deliver a message that parses, a request that can be built and
  -- finds no other open returns, with the context of that message, and the next one can be sent.
  pub send_request-Answers :
      (send_as_first_cons : Bool) (api_call : ApiCall) (out : Bytes × Bytes)
      (frames later : List Bytes) (c : BaseClient)
      → prepare send_as_first_cons api_call ≡ ok out
      → c.call_count ≡ 0
      → c.incoming ≡ frames ++ later
      → Delivered message (process_each c.frame_service frames)
      → (c' : BaseClient) × (send_request send_as_first_cons api_call c ≡ some (ok tt, c'))
        × (c'.message_context ≡ some context)
        × (c'.call_count ≡ 0)
  send_request-Answers send_as_first_cons api_call out frames later c e n i d =
      let c1 : BaseClient =
        cleared send_as_first_cons out (record c { call_count = c.call_count + 1 }) in
      let w = wait_answer c.incoming c1 in
      let (before, last) = d.events in
      let seen : has_complete (process_each c.frame_service frames).events ≡ true =
        ap has_complete last ∙ has_complete_last before message in
      let ended : Answers w =
        subst (λ l. Answers (wait_answer l c1)) (sym i)
          (wait_answer-Answers frames later c.frame_service c1 refl refl d.reports seen) in
      let (result, answer) = finish-Answers w ended in
      let released = waited-Released send_as_first_cons api_call out c n in
      (
        (finish w).1,
        send_request-finish send_as_first_cons api_call out c e n
            ∙ ap (λ x. some (x, (finish w).1)) result,
        answer,
        released.released,
      )
