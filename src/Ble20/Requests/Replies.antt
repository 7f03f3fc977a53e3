-- ===== src/Ble20/Requests/Replies.antt =====
-- What `read` and `write` return, and what they send.
use geberit_aquaclean.Prelude.{
  ℕ, suc, ◌+◌, ◌≡◌, refl, sym, ap, ◌∙◌, Option, none, some, List, [], ◌∷◌, ◌++◌, arith, lt→ltb,
  ◌>>=◌, ◌%◌, ◌^◌, drop-append_of_length, length, All, Error, Result, ok, err, io_error,
  timeout_error,
}
use geberit_aquaclean.Prelude.Bytes.{Bytes}
use geberit_aquaclean.Ble20.Address.{encode_address, decode_address}
use geberit_aquaclean.Ble20.Address.RoundTrip.{IsInstance, decode_address-encode_address}
use geberit_aquaclean.Ble20.Client.{Ble20, Io, and_run, await_frame, send}
use geberit_aquaclean.Ble20.Client.Wait.{IsStale, IsPassed, Got}
use geberit_aquaclean.Ble20.Client.Await.{
  await_frame-Got, await_frame-timeout, IsFirst, queued, arriving, Found, await_frame-Found,
}
use geberit_aquaclean.Ble20.Requests.{
  read_cmd, read_ans, read_error, write_cmd, write_ack, is_read_reply, is_write_reply, rest_from,
  behind_address, read_result, read, write_result, write,
}

-- The size of an address.
abbrev size : Option ℕ → ℕ
size none = 2
size (some _) = 3

value_or_nothing : Result Bytes → Bytes
value_or_nothing (ok b) = b
value_or_nothing (err e) = []

length-encode_address :
    (dp_id : ℕ) (instance_id : Option ℕ) (address : Bytes)
    → IsInstance instance_id
    → encode_address dp_id instance_id ≡ ok address
    → length address ≡ size instance_id
unfolding encode_address value_or_nothing
length-encode_address dp_id none address f e = sym (ap (λ r. length (value_or_nothing r)) e)
length-encode_address dp_id (some i) address f e =
    let small = lt→ltb i 256 f in sym (ap (λ r. length (value_or_nothing r)) (rw (small) at e))

-- What is behind an address that the other side has encoded.
behind_address-encode :
    (dp_id : ℕ) (instance_id : Option ℕ) (address value : Bytes) (cmd : ℕ)
    → IsInstance instance_id
    → encode_address dp_id instance_id ≡ ok address
    → behind_address (cmd ∷ (address ++ value)) ≡ ok value
unfolding behind_address
behind_address-encode dp_id instance_id address value cmd f e =
    let decoded : decode_address (cmd ∷ (address ++ value)) 1
        ≡ ok (dp_id % 2 ^ 15, instance_id, 1 + size instance_id) =
      ap (λ r. r >>= λ a. decode_address (cmd ∷ (a ++ value)) 1) (sym e)
      ∙ decode_address-encode_address dp_id instance_id (cmd ∷ []) value f in
    let long : 1 + size instance_id ≡ suc (length address) =
      omega (arith, length-encode_address dp_id instance_id address f e) in
    ap (rest_from (cmd ∷ (address ++ value))) decoded
    ∙ rw (long) (ap ok (drop-append_of_length address value refl))

and_run-ok :
    {A B : Type 0} (r : Result A × Ble20) (f : A → Io B) (a : A)
    → r.0 ≡ ok a
    → and_run r f ≡ f a r.1
and_run-ok (ok x, c) f a h = ap (λ y. f y c) (cc)
and_run-ok (err e, c) f a h = absurd cc

-- The client once a request is sent.
abbrev with_sent : Ble20 → Bytes → Ble20
with_sent c request = record c { sent = c.sent ++ request ∷ [] }

-- Sending changes neither list of frames.
first-with_sent :
    (reply : Bytes) (queue incoming : List Bytes) (c : Ble20) (request : Bytes)
    → IsFirst is_read_reply reply c queue incoming
    → IsFirst is_read_reply reply (with_sent c request) queue incoming
first-with_sent reply queue incoming c request (queued stale behind e s) = queued stale behind e s
first-with_sent reply queue incoming c request (arriving arrivals later i s p) =
    arriving arrivals later i s p

read_sends :
    (dp_id : ℕ) (instance_id : Option ℕ) (address : Bytes) (c : Ble20)
    → encode_address dp_id instance_id ≡ ok address
    → read dp_id instance_id c
      ≡ and_run (await_frame is_read_reply (with_sent c (read_cmd ∷ address))) read_result
unfolding read send
read_sends dp_id instance_id address c e =
    ap
      (λ r.
        and_run (r, c)
          (λ address. λ c.
            and_run (send (read_cmd ∷ address) c)
              (λ _. λ c. and_run (await_frame is_read_reply c) read_result)))
      e

-- `read` returns the value of the first reply that is in the queue or arrives, takes that reply and what is
-- before it, and sends one request. The reply may be for another data point.
pub read-reply :
    (dp_id dp_id' : ℕ) (instance_id instance_id' : Option ℕ) (address address' value : Bytes)
    (queue incoming : List Bytes) (c : Ble20)
    → encode_address dp_id instance_id ≡ ok address
    → IsInstance instance_id'
    → encode_address dp_id' instance_id' ≡ ok address'
    → IsFirst is_read_reply (read_ans ∷ (address' ++ value)) c queue incoming
    → ((read dp_id instance_id c).0 ≡ ok value)
      × ((read dp_id instance_id c).1.sent ≡ c.sent ++ (read_cmd ∷ address) ∷ [])
      × ((read dp_id instance_id c).1.rx_queue ≡ queue)
      × ((read dp_id instance_id c).1.incoming ≡ incoming)
unfolding read_result
read-reply dp_id dp_id' instance_id instance_id' address address' value queue incoming c e f e' i =
    let reply : Bytes = read_ans ∷ (address' ++ value) in
    let c' = with_sent c (read_cmd ∷ address) in
    let g : Found c' reply queue incoming (await_frame is_read_reply c') =
      await_frame-Found is_read_reply reply read_ans refl refl (λ k. absurd (omega (arith, k)))
        queue incoming c' (first-with_sent reply queue incoming c (read_cmd ∷ address) i) in
    let ended = (await_frame is_read_reply c').1 in
    let whole : read dp_id instance_id c ≡ (ok value, ended) =
      read_sends dp_id instance_id address c e
      ∙ and_run-ok (await_frame is_read_reply c') read_result reply g.result
      ∙ ap (λ r. and_run (r, ended) (λ value. λ c. (ok value, c)))
          (behind_address-encode dp_id' instance_id' address' value read_ans f e') in
    (
      ap (λ r. r.0) whole,
      ap (λ r. r.1.sent) whole ∙ g.sent,
      ap (λ r. r.1.rx_queue) whole ∙ g.queue,
      ap (λ r. r.1.incoming) whole ∙ g.incoming,
    )

-- The first reply to `read` may be an error: it is raised as IOError.
pub read-error_reply :
    (dp_id dp_id' : ℕ) (instance_id instance_id' : Option ℕ) (address address' status : Bytes)
    (arrivals rest : List Bytes) (c : Ble20)
    → encode_address dp_id instance_id ≡ ok address
    → IsInstance instance_id'
    → encode_address dp_id' instance_id' ≡ ok address'
    → c.incoming ≡ arrivals ++ (read_error ∷ (address' ++ status)) ∷ rest
    → All (IsStale is_read_reply) c.rx_queue
    → All (IsPassed is_read_reply) arrivals
    → (read dp_id instance_id c).0 ≡ err io_error
unfolding read_result
read-error_reply dp_id dp_id' instance_id instance_id' address address' status arrivals rest c e f
      e' i s p =
    let reply : Bytes = read_error ∷ (address' ++ status) in
    let c' = with_sent c (read_cmd ∷ address) in
    let g : Got c' reply rest (await_frame is_read_reply c') =
      await_frame-Got is_read_reply reply read_error rest refl refl (λ k. absurd (omega (arith, k)))
        arrivals c' i s p in
    let ended = (await_frame is_read_reply c').1 in
    ap (λ r. r.0)
      (read_sends dp_id instance_id address c e
        ∙ and_run-ok (await_frame is_read_reply c') read_result reply g.result
        ∙ ap (λ r. and_run (r, ended) (λ value. λ c. (err io_error, c)))
            (behind_address-encode dp_id' instance_id' address' status read_error f e'))

write_sends :
    (dp_id : ℕ) (value : Bytes) (instance_id : Option ℕ) (address : Bytes) (c : Ble20)
    → encode_address dp_id instance_id ≡ ok address
    → write dp_id value instance_id c
      ≡ and_run
          (await_frame is_write_reply (with_sent c (write_cmd ∷ (address ++ value))))
          write_result
unfolding write send
write_sends dp_id value instance_id address c e =
    ap
      (λ r.
        and_run (r, c)
          (λ address. λ c.
            and_run (send (write_cmd ∷ (address ++ value)) c)
              (λ _. λ c. and_run (await_frame is_write_reply c) write_result)))
      e

-- `write` succeeds with the first acknowledgement, whatever else it holds, and sends one request.
pub write-reply :
    (dp_id : ℕ) (value : Bytes) (instance_id : Option ℕ) (address tail : Bytes)
    (arrivals rest : List Bytes) (c : Ble20)
    → encode_address dp_id instance_id ≡ ok address
    → c.incoming ≡ arrivals ++ (write_ack ∷ tail) ∷ rest
    → All (IsStale is_write_reply) c.rx_queue
    → All (IsPassed is_write_reply) arrivals
    → ((write dp_id value instance_id c).0 ≡ ok tt)
      × ((write dp_id value instance_id c).1.sent ≡ c.sent ++ (write_cmd ∷ (address ++ value)) ∷ [])
      × ((write dp_id value instance_id c).1.incoming ≡ rest)
unfolding write_result
write-reply dp_id value instance_id address tail arrivals rest c e i s p =
    let reply : Bytes = write_ack ∷ tail in
    let c' = with_sent c (write_cmd ∷ (address ++ value)) in
    let g : Got c' reply rest (await_frame is_write_reply c') =
      await_frame-Got is_write_reply reply write_ack rest refl refl (λ k. absurd (omega (arith, k)))
        arrivals c' i s p in
    let ended = (await_frame is_write_reply c').1 in
    let whole : write dp_id value instance_id c ≡ (ok tt, ended) =
      write_sends dp_id value instance_id address c e
      ∙ and_run-ok (await_frame is_write_reply c') write_result reply g.result in
    (
      ap (λ r. r.0) whole,
      ap (λ r. r.1.sent) whole ∙ g.sent,
      ap (λ r. r.1.incoming) whole ∙ g.incoming,
    )

and_run-err :
    {A B : Type 0} (r : Result A × Ble20) (f : A → Io B) (e : Error)
    → r.0 ≡ err e
    → (and_run r f).0 ≡ err e
and_run-err (err x, c) f e h = cc
and_run-err (ok a, c) f e h = absurd cc

-- With no reply in the queue or to come, `read` times out.
pub read_timeout :
    (dp_id : ℕ) (instance_id : Option ℕ) (address : Bytes) (c : Ble20)
    → encode_address dp_id instance_id ≡ ok address
    → All (IsStale is_read_reply) c.rx_queue
    → All (IsPassed is_read_reply) c.incoming
    → (read dp_id instance_id c).0 ≡ err timeout_error
read_timeout dp_id instance_id address c e s p =
    ap (λ r. r.0) (read_sends dp_id instance_id address c e)
    ∙ and_run-err (await_frame is_read_reply (with_sent c (read_cmd ∷ address))) read_result
        timeout_error (await_frame-timeout is_read_reply (with_sent c (read_cmd ∷ address)) s p)
