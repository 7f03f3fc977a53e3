-- ===== src/Examples/Alba.antt =====
-- Runs of the client of Ble20Client.py.
use geberit_aquaclean.Prelude.{ℕ, ◌≡◌, refl, subst, Bool, false, none, List, [], ◌∷◌, All, ok}
use geberit_aquaclean.Prelude.Bytes.{to_le4, Bytes}
use geberit_aquaclean.Prelude.Dict.{lookup}
use geberit_aquaclean.Ble20.Address.{encode_address, decode_address}
use geberit_aquaclean.Ble20.Client.{
  Ble20, send, recv, recv_incoming, first_or, notified, put_frame, route, on_data, after_handler,
  deliver, await_loop, await_frame,
}
use geberit_aquaclean.Ble20.Client.Wait.{IsPassed, IsStale}
use geberit_aquaclean.Ble20.Client.Await.{queued}
use geberit_aquaclean.Ble20.Client.Headed.{Waited, await_frame-Waited}
use geberit_aquaclean.Ble20.Requests.{
  read_cmd, is_read_reply, read, write, write_result, rest_from, behind_address, get_notification,
  take_notification, timed_out,
}
use geberit_aquaclean.Ble20.Requests.Replies.{read-reply}
use geberit_aquaclean.Ble20.Join.{
  Identifiers, secret_field, build, progress_loop, timeout_is_io_error, ignore_io_error, attempt,
}

-- An acknowledgement that came too late, and a frame that nobody waits for.
abbrev late : Bytes
late = 0x24 ∷ 7 ∷ []

abbrev stray : Bytes
stray = 0x35 ∷ 1 ∷ []

abbrev client : List Bytes → Ble20
client incoming = record {
  rx_queue = late ∷ [];
  notify_queues = [];
  incoming = stray ∷ incoming;
  sent = [];
}

late-IsStale : (wanted : ℕ → Bool) → wanted 0x24 ≡ false → All (IsStale wanted) (late ∷ [])
late-IsStale wanted h = ((0x24, refl, h), tt)

stray-IsPassed : (wanted : ℕ → Bool) → wanted 0x35 ≡ false → All (IsPassed wanted) (stray ∷ [])
stray-IsPassed wanted h =
    (λ cmd. λ e. (let same : 0x35 ≡ cmd = cc in subst (λ k. wanted k ≡ false) same h), tt)

-- The answer for data point 564 to a request for data point 607.
abbrev answer : Bytes
answer = 0x11 ∷ 52 ∷ 2 ∷ 9 ∷ 8 ∷ []

-- A client whose queue holds the late answer to an earlier request.
abbrev behindhand : Ble20
behindhand = record {
  rx_queue = late ∷ answer ∷ stray ∷ [];
  notify_queues = [];
  incoming = stray ∷ [];
  sent = [];
}

read-reply_example :
    ((read 607 none behindhand).0 ≡ ok (9 ∷ 8 ∷ []))
    × ((read 607 none behindhand).1.sent ≡ (read_cmd ∷ 95 ∷ 2 ∷ []) ∷ [])
    × ((read 607 none behindhand).1.rx_queue ≡ stray ∷ [])
    × ((read 607 none behindhand).1.incoming ≡ stray ∷ [])
read-reply_example =
    read-reply 607 564 none none (95 ∷ 2 ∷ []) (52 ∷ 2 ∷ []) (9 ∷ 8 ∷ []) (stray ∷ []) (stray ∷ [])
      behindhand (unfold encode_address in refl) tt (unfold encode_address in refl)
      (queued (late ∷ []) (stray ∷ []) refl (late-IsStale is_read_reply refl))

await_frame-Waited_example : Waited is_read_reply (await_frame is_read_reply (client (answer ∷ [])))
await_frame-Waited_example =
    await_frame-Waited is_read_reply (client (answer ∷ [])) ((0x24, refl), tt)

abbrev identifiers : Identifiers
identifiers = record { series = 3; variant = 1; unique_id = 70000 }

-- A device that accepts the request without a PIN.
abbrev accepting : Ble20
accepting = record {
  rx_queue = [];
  notify_queues = (545, (0x34 ∷ 33 ∷ 2 ∷ 3 ∷ []) ∷ []) ∷ (546, []) ∷ [];
  incoming = (0x21 ∷ []) ∷ [];
  sent = [];
}

accepting-attempt : (attempt 5 2 identifiers none accepting).0 ≡ ok (3, 0)
unfolding attempt build secret_field to_le4 progress_loop timeout_is_io_error ignore_io_error
    timed_out write write_result rest_from behind_address send await_frame await_loop recv
    recv_incoming first_or deliver on_data notified route put_frame after_handler get_notification
    take_notification decode_address encode_address lookup
accepting-attempt = refl
