-- ===== src/Client/Base/Released.antt =====
-- What a request leaves behind: whether the next one can be sent.
use geberit_aquaclean.Prelude.{
  ◌+◌, ◌-◌, ◌≡◌, ◌⊎◌, inl, inr, refl, sym, ap, ◌∙◌, Bool, true, false, Option, none, some, List, [],
  ◌∷◌, ◌++◌, append-nil, append_assoc, ◌==◌, if◌then◌else◌, arith, Result, ok, err, timeout_error,
}
use geberit_aquaclean.Prelude.Bytes.{Bytes}
use geberit_aquaclean.Message.Service.{MessageContext, parse_message1}
use geberit_aquaclean.Frames.Service.{
  ServiceEvent, send_data, transaction_complete_fs, info_frame_received, process_data,
}
use geberit_aquaclean.Api.Call.{ApiCall}
use geberit_aquaclean.Client.Base.{
  BaseClient, prepare, after_parse, on_event, on_events, receive, wait_answer, finish, cleared,
  transmit, send_request,
}

-- From `c` to `c'` no request was opened or ended, and nothing was sent but acknowledgements.
record Waits (c c' : BaseClient) : Type 0 where
  call_count : c'.call_count ≡ c.call_count
  sent_cons : c'.sent_cons ≡ c.sent_cons
  acknowledgements : List Bytes
  sent : c'.sent ≡ c.sent ++ acknowledgements

unchanged-Waits :
    (c c' : BaseClient)
    → c'.call_count ≡ c.call_count
    → c'.sent_cons ≡ c.sent_cons
    → c'.sent ≡ c.sent
    → Waits c c'
unchanged-Waits c c' n k s = record {
  call_count = n;
  sent_cons = k;
  acknowledgements = [];
  sent = s ∙ sym (append-nil c.sent);
}

joined-Waits : (c c' c'' : BaseClient) → Waits c c' → Waits c' c'' → Waits c c''
joined-Waits c c' c'' h k = record {
  call_count = k.call_count ∙ h.call_count;
  sent_cons = k.sent_cons ∙ h.sent_cons;
  acknowledgements = h.acknowledgements ++ k.acknowledgements;
  sent =
      k.sent
      ∙ ap (λ xs. xs ++ k.acknowledgements) h.sent
      ∙ append_assoc c.sent h.acknowledgements k.acknowledgements;
}

after_parse-Waits :
    (c : BaseClient) (r : Result (Option MessageContext)) → Waits c (after_parse c r)
unfolding after_parse
after_parse-Waits c (err e) = unchanged-Waits c c refl refl refl
after_parse-Waits c (ok none) = unchanged-Waits c (after_parse c (ok none)) refl refl refl
after_parse-Waits c (ok (some context)) =
    unchanged-Waits c (after_parse c (ok (some context))) refl refl refl

on_event-Waits : (c : BaseClient) (event : ServiceEvent) → Waits c (on_event c event)
unfolding on_event
on_event-Waits c (send_data bytes) = record {
  call_count = refl;
  sent_cons = refl;
  acknowledgements = bytes ∷ [];
  sent = refl;
}
on_event-Waits c (transaction_complete_fs data') = after_parse-Waits c (parse_message1 data')
on_event-Waits c (info_frame_received frame) = unchanged-Waits c c refl refl refl

on_events-Waits : (c : BaseClient) (events : List ServiceEvent) → Waits c (on_events c events)
unfolding on_events
on_events-Waits c [] = unchanged-Waits c c refl refl refl
on_events-Waits c (event ∷ events) =
    joined-Waits c (on_event c event) (on_events (on_event c event) events) (on_event-Waits c event)
      (on_events-Waits (on_event c event) events)

receive-Waits :
    (frames : List Bytes) (c : BaseClient) (data' : Bytes)
    → Waits c (receive (record c { incoming = frames }) data')
unfolding receive
receive-Waits frames c data' =
    let r = process_data c.frame_service data' in
    let c' = record c { incoming = frames; frame_service = r.service } in
    joined-Waits c c' (on_events c' r.events) (unchanged-Waits c c' refl refl refl)
      (on_events-Waits c' r.events)

if-Waits :
    (b : Bool) (c : BaseClient) (r r' : Bool × BaseClient)
    → Waits c r.1
    → Waits c r'.1
    → Waits c (if b then r else r').1
if-Waits true c r r' h h' = h
if-Waits false c r r' h h' = h'

wait_answer-Waits : (frames : List Bytes) (c : BaseClient) → Waits c (wait_answer frames c).1
unfolding wait_answer
wait_answer-Waits [] c = unchanged-Waits c (record c { incoming = [] }) refl refl refl
wait_answer-Waits (frame ∷ frames) c =
    let c' = receive (record c { incoming = frames }) frame in
    if-Waits c.transaction_event c (true, c) (wait_answer frames c')
      (unchanged-Waits c c refl refl refl)
      (joined-Waits c c' (wait_answer frames c').1 (receive-Waits frames c frame)
        (wait_answer-Waits frames c'))

-- A request of `frames` that began at `c` has ended with its answer or with the timeout, and none is
-- open. Its frame was sent first, then acknowledgements only; its second frame was sent where there is
-- one.
pub record Released (send_as_first_cons : Bool) (frames : Bytes × Bytes) (c : BaseClient)
    (r : Result (Unit {0}) × BaseClient) : Type 0 where
  pub outcome : (r.0 ≡ ok tt) ⊎ (r.0 ≡ err timeout_error)
  pub released : r.1.call_count ≡ 0
  pub acknowledgements : List Bytes
  pub sent : r.1.sent ≡ c.sent ++ frames.0 ∷ acknowledgements
  pub sent_cons :
      r.1.sent_cons ≡ (if send_as_first_cons then c.sent_cons ++ frames.1 ∷ [] else c.sent_cons)

ended-Released :
    (send_as_first_cons : Bool) (frames : Bytes × Bytes) (c c' : BaseClient)
    (result : Result (Unit {0}))
    → (result ≡ ok tt) ⊎ (result ≡ err timeout_error)
    → c.call_count ≡ 0
    → Waits (cleared send_as_first_cons frames (record c { call_count = c.call_count + 1 })) c'
    → Released send_as_first_cons frames c (result, record c' { call_count = c'.call_count - 1 })
ended-Released send_as_first_cons (frame, cons_frame) c c' result outcome free w = record {
  outcome = outcome;
  released = omega (arith, w.call_count, free);
  acknowledgements = w.acknowledgements;
  sent = w.sent ∙ append_assoc c.sent (frame ∷ []) w.acknowledgements;
  sent_cons = w.sent_cons;
}

finish-Released :
    (send_as_first_cons : Bool) (frames : Bytes × Bytes) (c : BaseClient) (r : Bool × BaseClient)
    → c.call_count ≡ 0
    → Waits (cleared send_as_first_cons frames (record c { call_count = c.call_count + 1 })) r.1
    → Released send_as_first_cons frames c (finish r)
unfolding finish
finish-Released send_as_first_cons frames c (true, c') free w =
    ended-Released send_as_first_cons frames c c' (ok tt) (inl refl) free w
finish-Released send_as_first_cons frames c (false, c') free w =
    ended-Released send_as_first_cons frames c c' (err timeout_error) (inr refl) free w

module _ (send_as_first_cons : Bool) (api_call : ApiCall) where
  abbrev pub opened : BaseClient → BaseClient
  opened c = record c { call_count = c.call_count + 1 }

  sends :
      (c : BaseClient)
      → c.call_count ≡ 0
      → send_request send_as_first_cons api_call c
        ≡ some (transmit send_as_first_cons (prepare send_as_first_cons api_call) (opened c))
  unfolding send_request
  sends c h =
      let free : (c.call_count == 0) ≡ true = ground (arith, h) in
      ap
        (λ b.
          if b
          then some (transmit send_as_first_cons (prepare send_as_first_cons api_call) (opened c))
          else none)
        free

  -- The request is sent, and the wait that follows ends it.
  pub send_request-finish :
      (frames : Bytes × Bytes) (c : BaseClient)
      → prepare send_as_first_cons api_call ≡ ok frames
      → c.call_count ≡ 0
      → send_request send_as_first_cons api_call c
        ≡ some (finish (wait_answer c.incoming (cleared send_as_first_cons frames (opened c))))
  unfolding transmit
  send_request-finish frames c e h =
      sends c h ∙ ap (λ p. some (transmit send_as_first_cons p (opened c))) e

  pub waited-Released :
      (frames : Bytes × Bytes) (c : BaseClient)
      → c.call_count ≡ 0
      → Released send_as_first_cons frames c
          (finish (wait_answer c.incoming (cleared send_as_first_cons frames (opened c))))
  waited-Released frames c h =
      let c' = cleared send_as_first_cons frames (opened c) in
      finish-Released send_as_first_cons frames c (wait_answer c.incoming c') h
        (wait_answer-Waits c.incoming c')
