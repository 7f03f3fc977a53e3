-- ===== src/Client/Base/Raised.antt =====
-- A request that raises before its wait, and what it leaves to the next ones.
use geberit_aquaclean.Prelude.{
  ◌+◌, ◌≡◌, refl, sym, ap, ◌∙◌, append-nil, Bool, true, false, some, none, List, [], ◌∷◌, ◌++◌,
  ◌==◌, if◌then◌else◌, arith, Error, Result, ok, err,
}
use geberit_aquaclean.Prelude.Bytes.{Bytes}
use geberit_aquaclean.Api.Call.{ApiCall}
use geberit_aquaclean.Client.Base.{
  BaseClient, prepare, Sending, all_sent, frame_raises, cons_frame_raises, interrupted, transmit,
  transmit_over, send_request, send_request_over,
}

transmit_over_all :
    (send_as_first_cons : Bool) (p : Result (Bytes × Bytes)) (c : BaseClient)
    → transmit_over all_sent send_as_first_cons p c ≡ transmit send_as_first_cons p c
unfolding transmit_over transmit interrupted
transmit_over_all send_as_first_cons (ok frames) c = refl
transmit_over_all send_as_first_cons (err e) c = refl

-- Over a connector that sends all, this is `send_request`.
pub send_request_over-all_sent :
    (send_as_first_cons : Bool) (api_call : ApiCall) (c : BaseClient)
    → send_request_over all_sent send_as_first_cons api_call c
      ≡ send_request send_as_first_cons api_call c
unfolding send_request_over send_request
send_request_over-all_sent send_as_first_cons api_call c =
    ap (λ r. if c.call_count == 0 then some r else none)
      (transmit_over_all send_as_first_cons (prepare send_as_first_cons api_call)
        (record c { call_count = c.call_count + 1 }))

-- How a request raises before its wait, and what it has sent: it cannot be built, or the connector raises
-- on its frame, or on the frame that follows it.
pub data Raises (e : Error) : Sending → Bool → Result (Bytes × Bytes) → List Bytes → Type 0 where
  not_built :
      (sending : Sending) (send_as_first_cons : Bool)
      → Raises e sending send_as_first_cons (err e) []
  not_sent :
      (send_as_first_cons : Bool) (frames : Bytes × Bytes)
      → Raises e (frame_raises e) send_as_first_cons (ok frames) []
  half_sent :
      (frame cons_frame : Bytes)
      → Raises e (cons_frame_raises e) true (ok (frame, cons_frame)) (frame ∷ [])

-- A request that has raised.
record Raised (e : Error) (out : List Bytes) (c : BaseClient) (r : Result (Unit {0}) × BaseClient)
    : Type 0 where
  result : r.0 ≡ err e
  call_count : r.1.call_count ≡ c.call_count
  sent : r.1.sent ≡ c.sent ++ out

transmit_over-Raised :
    (e : Error) (sending : Sending) (send_as_first_cons : Bool) (p : Result (Bytes × Bytes))
    (out : List Bytes) (c : BaseClient)
    → Raises e sending send_as_first_cons p out
    → Raised e out c (transmit_over sending send_as_first_cons p c)
unfolding transmit_over interrupted
transmit_over-Raised e sending send_as_first_cons p out c (not_built _ _) = record {
  result = refl;
  call_count = refl;
  sent = sym (append-nil c.sent);
}
transmit_over-Raised e sending send_as_first_cons p out c (not_sent _ frames) = record {
  result = refl;
  call_count = refl;
  sent = sym (append-nil c.sent);
}
transmit_over-Raised e sending send_as_first_cons p out c (half_sent frame cons_frame) = record {
  result = refl;
  call_count = refl;
  sent = refl;
}

-- A request that finds no other open and raises before its wait, because it cannot be built or because the
-- connector raises, has sent what it had sent before, and in the state that it leaves every request waits
-- for another to end.
pub send_request_over-stuck :
    (e : Error) (sending : Sending) (send_as_first_cons : Bool) (api_call : ApiCall)
    (out : List Bytes) (c : BaseClient)
    → Raises e sending send_as_first_cons (prepare send_as_first_cons api_call) out
    → c.call_count ≡ 0
    → (c' : BaseClient) × (send_request_over sending send_as_first_cons api_call c
        ≡ some (err e, c'))
      × (c'.sent ≡ c.sent ++ out)
      × ((later : Sending) (first_cons : Bool) (next : ApiCall)
          → send_request_over later first_cons next c' ≡ none)
unfolding send_request_over
send_request_over-stuck e sending send_as_first_cons api_call out c h n =
    let opened : BaseClient = record c { call_count = c.call_count + 1 } in
    let r = transmit_over sending send_as_first_cons (prepare send_as_first_cons api_call) opened in
    let raised : Raised e out opened r =
      transmit_over-Raised e sending send_as_first_cons (prepare send_as_first_cons api_call) out
        opened h in
    let free : (c.call_count == 0) ≡ true = ground (arith, n) in
    let open_one : (r.1.call_count == 0) ≡ false = ground (arith, raised.call_count) in
    (
      r.1,
      ap (λ b. if b then some r else none) free ∙ ap (λ x. some (x, r.1)) raised.result,
      raised.sent,
      λ later. λ first_cons. λ next.
          ap
            (λ b.
              if b
              then some (
                  transmit_over later first_cons (prepare first_cons next)
                    (record r.1 { call_count = r.1.call_count + 1 }))
              else none)
            open_one,
    )
