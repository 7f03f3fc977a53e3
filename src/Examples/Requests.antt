-- ===== src/Examples/Requests.antt =====
-- Runs of requests to a Mera device.
use geberit_aquaclean.Prelude.{
  ℕ, zero, suc, ◌<◌, ◌≡◌, ◌≢◌, refl, sym, subst, Bool, ◌++◌, true, some, none, [], ◌∷◌, arith,
  Result, ok, err, io_error,
}
use geberit_aquaclean.Prelude.Bytes.{Bytes}
use geberit_aquaclean.Message.Crc.{
  byte_item, create, create_from_bytes, crc_round, crc16_calculation, is_valid, serialize,
}
use geberit_aquaclean.Message.Service.{
  MessageContext, create_from_stream, parse_response, parse_message1, build_message,
}
use geberit_aquaclean.Frames.Codec
use geberit_aquaclean.Frames.Codec.{frame_type, build_single_frame}
use geberit_aquaclean.Frames.Collector.{find}
use geberit_aquaclean.Frames.Collector.Assembly.{concat, IsFrameOf}
use geberit_aquaclean.Frames.Collector.Arrival.{IsDistinct}
use geberit_aquaclean.Frames.Collector.Stored.{none≢some}
use geberit_aquaclean.Frames.Service.{new_frame_service}
use geberit_aquaclean.Frames.Service.Each.{process_each}
use geberit_aquaclean.Frames.Service.Delivery.{Delivered, process_each-Delivered}
use geberit_aquaclean.Api.Call.{ApiCall}
use geberit_aquaclean.Client.Base.{
  BaseClient, Sending, cons_frame_raises, prepare, send_request, send_request_over,
}
use geberit_aquaclean.Client.Base.Released.{Released}
use geberit_aquaclean.Client.Base.Raised.{Raises, half_sent, send_request_over-stuck}
use geberit_aquaclean.Client.Base.Answered.{send_request-Answers}

-- A response that fits into one frame.
abbrev message : Bytes
message = 5 ∷ 0 ∷ 0 ∷ 12 ∷ 0 ∷ 0 ∷ 0 ∷ 0 ∷ 1 ∷ 0x82 ∷ 2 ∷ 65 ∷ 66 ∷ 0 ∷ 0 ∷ 0 ∷ 0 ∷ 0 ∷ []

abbrev context : MessageContext
context = record { context = 1; procedure = 0x82; result_bytes = 65 ∷ 66 ∷ [] }

message-context : parse_message1 message ≡ ok (some context)
unfolding parse_message1 create_from_stream create_from_bytes parse_response is_valid
    crc16_calculation
message-context = refl

abbrev identification : ApiCall
identification = record {
  api_call_attribute = some (record { context = 0; procedure = 0x82; node = 1 });
  payload = ok [];
}

abbrev out_of : Result (Bytes × Bytes) → Bytes × Bytes
out_of (ok frames) = frames
out_of (err e) = ([], [])

abbrev out : Bytes × Bytes
out = out_of (prepare true identification)

identification-prepare : prepare true identification ≡ ok out
unfolding prepare byte_item build_message create crc16_calculation serialize crc_round
    Codec.serialize build_single_frame
identification-prepare = refl

abbrev client : BaseClient
client = record {
  frame_service = new_frame_service;
  transaction_event = true;
  message_context = none;
  profile_settings = [];
  call_count = 0;
  incoming = (0x30 ∷ 1 ∷ message) ∷ [];
  sent = [];
  sent_cons = [];
}

message_arrives : (j : ℕ) → j < 1 → find j ((0, message) ∷ []) ≢ none
unfolding find
message_arrives zero h e = none≢some message (sym e)
message_arrives (suc j) h e = absurd (omega arith)

message-Delivered : Delivered message (process_each new_frame_service ((0x30 ∷ 1 ∷ message) ∷ []))
unfolding concat
message-Delivered =
    process_each-Delivered (message ∷ []) new_frame_service 0x30 0x50 message []
      (unfold frame_type in refl) (unfold frame_type in refl) refl (omega arith) refl tt refl
      (unfold IsFrameOf in (refl, tt)) (unfold IsDistinct in (unfold find in refl, tt))
      message_arrives

send_request-Answers_example :
    (c : BaseClient) × (send_request true identification client ≡ some (ok tt, c))
    × (c.message_context ≡ some context)
    × (c.call_count ≡ 0)
send_request-Answers_example =
    send_request-Answers message context message-context true identification out
      ((0x30 ∷ 1 ∷ message) ∷ []) [] client identification-prepare refl refl message-Delivered

-- A call without an attribute.
abbrev bare : ApiCall
bare = record { api_call_attribute = none; payload = ok [] }

-- The connector raises on the second frame of the request.
send_request_over-stuck_example :
    (c : BaseClient) × (send_request_over (cons_frame_raises io_error) true identification client
      ≡ some (err io_error, c))
    × (c.sent ≡ client.sent ++ out.0 ∷ [])
    × ((later : Sending) (first_cons : Bool) (next : ApiCall)
        → send_request_over later first_cons next c ≡ none)
send_request_over-stuck_example =
    send_request_over-stuck io_error (cons_frame_raises io_error) true identification (out.0 ∷ [])
      client
      (subst (λ p. Raises io_error (cons_frame_raises io_error) true p (out.0 ∷ []))
        (sym identification-prepare) (half_sent out.0 out.1))
      refl
