-- ===== src/Ble20/Requests/Asked.antt =====
-- What calls send and raise, whatever the device answers.
use geberit_aquaclean.Prelude.{
  ℕ, zero, suc, ◌≡◌, refl, sym, ap, ◌∙◌, Bool, true, false, if◌then◌else◌, Option, none, some, List,
  [], ◌∷◌, ◌++◌, append-nil, append_assoc, Result, ok, err,
}
use geberit_aquaclean.Prelude.Bytes.{Bytes, at}
use geberit_aquaclean.Ble20.Address.{encode_address}
use geberit_aquaclean.Ble20.Client.{
  Ble20, Io, and_run, ◌>>=◌, ret, raise, pure, deliver, first_or, recv_incoming, recv, send,
  pending, await_loop, await_frame,
}
use geberit_aquaclean.Ble20.Client.Wait.{Delivered, deliver-Delivered}
use geberit_aquaclean.Ble20.Requests.{
  read_cmd, is_read_reply, behind_address, read_result, read, write_cmd, is_write_reply,
  write_result, write, caught, optional,
}

-- A call whose requests are `requests`, whatever comes of it.
abbrev pub Sends : {A : Type 0} → Io A → List Bytes → Type 0
Sends m requests = (c : Ble20) → (m c).1.sent ≡ c.sent ++ requests

-- Such a call that also ends with a value.
abbrev pub Answers : {A : Type 0} → Io A → List Bytes → Type 0
Answers {A = A} m requests =
    (c : Ble20) → (a : A) × (c' : Ble20) × (m c ≡ (ok a, c')) × (c'.sent ≡ c.sent ++ requests)

first_or-sent :
    (queue : List Bytes) (later : Result Bytes × Ble20) (c : Ble20)
    → later.1.sent ≡ c.sent
    → (first_or queue later c).1.sent ≡ c.sent
unfolding first_or
first_or-sent [] later c h = h
first_or-sent (f ∷ fs) later c h = refl

recv_incoming-sent : (frames : List Bytes) (c : Ble20) → (recv_incoming frames c).1.sent ≡ c.sent
unfolding recv_incoming
recv_incoming-sent [] c = refl
recv_incoming-sent (frame ∷ frames) c =
    let waiting : Ble20 = record c { incoming = frames } in
    let c' = deliver waiting frame in
    let d : Delivered waiting c' frame = deliver-Delivered waiting frame in
    first_or-sent c'.rx_queue (recv_incoming frames c') c' (recv_incoming-sent frames c') ∙ d.sent

recv-sent : (c : Ble20) → (recv c).1.sent ≡ c.sent
unfolding recv
recv-sent c =
    first_or-sent c.rx_queue (recv_incoming c.incoming c) c (recv_incoming-sent c.incoming c)

pub and_run-sent :
    {A B : Type 0} (r : Result A × Ble20) (f : A → Io B) (c : Ble20)
    → r.1.sent ≡ c.sent
    → ((a : A) (c' : Ble20) → (f a c').1.sent ≡ c'.sent)
    → (and_run r f).1.sent ≡ c.sent
and_run-sent (err e, c') f c h k = h
and_run-sent (ok a, c') f c h k = k a c' ∙ h

if-sent :
    {A : Type 0} (b : Bool) (m m' : Io A) (c : Ble20)
    → (m c).1.sent ≡ c.sent
    → (m' c).1.sent ≡ c.sent
    → ((if b then m else m') c).1.sent ≡ c.sent
if-sent true m m' c h h' = h
if-sent false m m' c h h' = h'

await_loop-sent : (n : ℕ) (wanted : ℕ → Bool) (c : Ble20) → (await_loop n wanted c).1.sent ≡ c.sent
unfolding await_loop
await_loop-sent zero wanted c = refl
await_loop-sent (suc n) wanted c = and_run-sent (recv c) _ c (recv-sent c) (λ frame. λ c'.
    and_run-sent (at frame 0, c') _ c' refl
      (λ cmd. λ c''.
        if-sent (wanted cmd) (ret frame) (await_loop n wanted) c'' refl
          (await_loop-sent n wanted c'')))

read_result-sent : (frame : Bytes) (c : Ble20) → (read_result frame c).1.sent ≡ c.sent
unfolding read_result
read_result-sent frame c =
    and_run-sent (at frame 0, c) _ c refl
      (λ cmd. λ c'.
        and_run-sent (behind_address frame, c') _ c' refl
          (λ value. λ c''. if-sent _ (raise _) (ret value) c'' refl refl))

-- `read` sends one request.
pub read-Sends :
    (dp_id : ℕ) (instance_id : Option ℕ) (address : Bytes)
    → encode_address dp_id instance_id ≡ ok address
    → Sends (read dp_id instance_id) ((read_cmd ∷ address) ∷ [])
unfolding read send await_frame
read-Sends dp_id instance_id address e c =
    let asked : Ble20 = record c { sent = c.sent ++ (read_cmd ∷ address) ∷ [] } in
    ap
      (λ r.
        (and_run (r, c)
          (λ address. λ c.
            and_run (send (read_cmd ∷ address) c)
              (λ _. λ c. and_run (await_frame is_read_reply c) read_result))).1.sent)
      e
    ∙ and_run-sent (await_frame is_read_reply asked) read_result asked
        (await_loop-sent (suc (pending asked)) is_read_reply asked) read_result-sent

write_result-sent : (frame : Bytes) (c : Ble20) → (write_result frame c).1.sent ≡ c.sent
unfolding write_result
write_result-sent frame c =
    and_run-sent (at frame 0, c) _ c refl
      (λ cmd. λ c'.
        if-sent _ (do _ ← pure (behind_address frame); raise _) (ret tt) c'
          (and_run-sent (behind_address frame, c') _ c' refl (λ value. λ c''. refl)) refl)

-- So does `write`.
pub write-Sends :
    (dp_id : ℕ) (value address : Bytes)
    → encode_address dp_id none ≡ ok address
    → Sends (write dp_id value none) ((write_cmd ∷ (address ++ value)) ∷ [])
unfolding write send await_frame
write-Sends dp_id value address e c =
    let asked : Ble20 = record c { sent = c.sent ++ (write_cmd ∷ (address ++ value)) ∷ [] } in
    ap
      (λ r.
        (and_run (r, c)
          (λ address. λ c.
            and_run (send (write_cmd ∷ (address ++ value)) c)
              (λ _. λ c. and_run (await_frame is_write_reply c) write_result))).1.sent)
      e
    ∙ and_run-sent (await_frame is_write_reply asked) write_result asked
        (await_loop-sent (suc (pending asked)) is_write_reply asked) write_result-sent

pub caught-ok : {A : Type 0} (r : Result A × Ble20) → (a : Option A) × (caught r ≡ (ok a, r.1))
unfolding caught
caught-ok (err e, c) = (none, refl)
caught-ok (ok a, c) = (some a, refl)

-- An optional read ends with a value or with none.
pub optional-Answers :
    (dp_id : ℕ) (instance_id : Option ℕ) (address : Bytes)
    → encode_address dp_id instance_id ≡ ok address
    → Answers (optional (read dp_id instance_id)) ((read_cmd ∷ address) ∷ [])
optional-Answers dp_id instance_id address e c =
    let (a, h) = caught-ok (read dp_id instance_id c) in
    (a, (read dp_id instance_id c).1, h, read-Sends dp_id instance_id address e c)

pub ret-Answers : {A : Type 0} (a : A) → Answers (ret a) []
ret-Answers a c = (a, c, refl, sym (append-nil c.sent))

pub bind-Answers :
    {A B : Type 0} (m : Io A) (f : A → Io B) (requests requests' : List Bytes)
    → Answers m requests
    → ((a : A) → Answers (f a) requests')
    → Answers (m >>= f) (requests ++ requests')
bind-Answers m f requests requests' h k c =
    let (a, c', e, s) = h c in
    let (b, c'', e', s') = k a c' in
    (
      b,
      c'',
      ap (λ r. and_run r f) e ∙ e',
      s' ∙ ap (λ l. l ++ requests') s ∙ append_assoc c.sent requests requests',
    )
