-- ===== src/Client/Calls/Answers.antt =====
-- What a call returns for its response.
use geberit_aquaclean.Prelude.{
  ℕ, ◌≤◌, ◌≡◌, ap, ◌∙◌, Bool, true, some, List, ◌∷◌, ◌++◌, length, All, arith, Result, ok,
  length-append, length-take, length-replicate, min, take, replicate, ◌-◌,
}
use geberit_aquaclean.Prelude.Bytes.{Bytes, IsByte, IsBytes}
use geberit_aquaclean.Message.Service.{MessageContext, parse_message1}
use geberit_aquaclean.Message.Service.Parse.{response_body}
use geberit_aquaclean.Message.Service.Padded.{padded_response, parse_message1-padded}
use geberit_aquaclean.Frames.Service.Each.{process_each}
use geberit_aquaclean.Frames.Service.Delivery.{Delivered}
use geberit_aquaclean.Api.Call.{ApiCall, call}
use geberit_aquaclean.Api.Records.{Records, flat, length-flat, FitsWord}
use geberit_aquaclean.Api.Parameters.{get_system_parameter_list, parameters_result}
use geberit_aquaclean.Api.Parameters.Payload.{parameters_payload_lem}
use geberit_aquaclean.Api.Parameters.Reading.{parameters_result-flat, values}
use geberit_aquaclean.Client.Base.{BaseClient, prepare}
use geberit_aquaclean.Client.Base.Answered.{send_request-Answers}
use geberit_aquaclean.Client.Calls.{
  ask, and_run, read_context, holding, get_system_parameter_list_async,
}
use geberit_aquaclean.Client.Calls.Prepared.{prepare_total}

-- What a call returns when the notifications that come deliver a response.
pub ask-Answers :
    {A : Type 0} (first_cons : Bool) (api_call : ApiCall) (reader : Bytes → Result A × Bytes)
    (out : Bytes × Bytes) (message : Bytes) (context : MessageContext) (frames later : List Bytes)
    (c : BaseClient)
    → prepare first_cons api_call ≡ ok out
    → parse_message1 message ≡ ok (some context)
    → c.call_count ≡ 0
    → c.incoming ≡ frames ++ later
    → Delivered message (process_each c.frame_service frames)
    → (c' : BaseClient) × (ask first_cons api_call reader c
        ≡ some ((reader context.result_bytes).0, c'))
      × (c'.call_count ≡ 0)
unfolding ask read_context
ask-Answers first_cons api_call reader out message context frames later c e parsed n i d =
    let (c1, sent, answer, free) =
      send_request-Answers message context parsed first_cons api_call out frames later c e n i d in
    (
      holding c1 context (reader context.result_bytes).1,
      ap (λ r. and_run r (λ _ c'. read_context reader c'.message_context c')) sent
          ∙ ap (λ m. read_context reader m c1) answer,
      free,
    )

-- The payload of the request for a parameter list has thirteen bytes.
parameters-prepare :
    (parameters : List ℕ)
    → IsBytes parameters
    → (out : Bytes × Bytes) × (prepare true (get_system_parameter_list parameters) ≡ ok out)
parameters-prepare parameters h =
    let listed : Bytes =
      min (length parameters) 12 ∷ (take 12 parameters ++ replicate (12 - length parameters) 0) in
    let size : length listed ≤ 246 = omega (
      arith,
      length-append (take 12 parameters) (replicate {A = ℕ} (12 - length parameters) 0),
      length-take 12 parameters,
      length-replicate {A = ℕ} (12 - length parameters) 0,
    ) in
    let (out, e) =
      prepare_total true 0x01 0x0d 0x01 listed (omega arith) (omega arith) (omega arith) size in
    (out, ap (λ p. prepare true (call 0x01 0x0d 0x01 p)) (parameters_payload_lem parameters h) ∙ e)

-- Whatever was asked for, a response with at least one record is returned: its first byte and the values
-- of its records, in their order.
pub get_system_parameter_list_async-Answers :
    (parameters : List ℕ) (seg hi lo b0 b1 context procedure a id v : ℕ) (records : Records)
    (padding : Bytes) (frames later : List Bytes) (c : BaseClient)
    → IsBytes parameters
    → IsByte a
    → IsByte id
    → All FitsWord ((id, v) ∷ records)
    → length records ≤ 49
    → c.call_count ≡ 0
    → c.incoming ≡ frames ++ later
    → Delivered
        (padded_response seg hi lo
          (response_body b0 b1 context procedure (a ∷ flat ((id, v) ∷ records)))
          padding)
        (process_each c.frame_service frames)
    → (c' : BaseClient) × (get_system_parameter_list_async parameters c
        ≡ some (ok (record { a = a; data_array = v ∷ values records }), c'))
      × (c'.call_count ≡ 0)
unfolding get_system_parameter_list_async
get_system_parameter_list_async-Answers parameters seg hi lo b0 b1 context procedure a id v records
      padding frames later c hp ha hid hv size n i d =
    let args : Bytes = a ∷ flat ((id, v) ∷ records) in
    let (out, e) = parameters-prepare parameters hp in
    let parsed =
      parse_message1-padded seg hi lo b0 b1 context procedure args padding
        (omega (arith, length-flat ((id, v) ∷ records))) in
    let (c', returned, free) =
      ask-Answers true (get_system_parameter_list parameters) parameters_result out
        (padded_response seg hi lo (response_body b0 b1 context procedure args) padding)
        (record { context = context; procedure = procedure; result_bytes = args }) frames later c e
        parsed n i d in
    (c', returned ∙ ap (λ r. some (r, c')) (parameters_result-flat a id v records ha hid hv), free)
