-- ===== src/Client/Calls/Framed.antt =====
-- A call whose response comes in frames, whose FIRST frame comes first and whose CONS frames come in any
-- order.
use geberit_aquaclean.Prelude.{
  ℕ, suc, ◌≤◌, ◌<◌, ◌≡◌, ◌≢◌, subst, none, some, List, [], ◌∷◌, ◌++◌, map, length, All, ok,
}
use geberit_aquaclean.Prelude.Bytes.{Bytes, IsByte, IsBytes}
use geberit_aquaclean.Message.Service.Parse.{response_body}
use geberit_aquaclean.Message.Service.Padded.{padded_response}
use geberit_aquaclean.Frames.Codec.{first, cons}
use geberit_aquaclean.Frames.Collector.{FrameData, find}
use geberit_aquaclean.Frames.Collector.Assembly.{concat, IsFrameOf}
use geberit_aquaclean.Frames.Collector.Arrival.{IsDistinct}
use geberit_aquaclean.Frames.Service.Each.{IsHeader, IsPayload, cons_bytes, process_each}
use geberit_aquaclean.Frames.Service.Delivery.{Delivered, process_each-Delivered}
use geberit_aquaclean.Api.Records.{Records, flat, FitsWord}
use geberit_aquaclean.Api.Parameters.Reading.{values}
use geberit_aquaclean.Client.Base.{BaseClient}
use geberit_aquaclean.Client.Calls.{get_system_parameter_list_async}
use geberit_aquaclean.Client.Calls.Answers.{get_system_parameter_list_async-Answers}

pub get_system_parameter_list_async-frames :
    (parameters : List ℕ) (seg hi lo b0 b1 context procedure a id v : ℕ) (records : Records)
    (padding : Bytes) (frames : List Bytes) (b b' : ℕ) (p : Bytes) (rest : FrameData)
    (later : List Bytes) (c : BaseClient)
    → IsBytes parameters
    → IsByte a
    → IsByte id
    → All FitsWord ((id, v) ∷ records)
    → length records ≤ 49
    → concat frames
      ≡ padded_response seg hi lo
          (response_body b0 b1 context procedure (a ∷ flat ((id, v) ∷ records)))
          padding
    → length frames ≤ 64
    → IsHeader first b
    → IsHeader cons b'
    → length p ≡ 18
    → All IsPayload rest
    → suc (length rest) ≡ length frames
    → All (IsFrameOf frames) ((0, p) ∷ rest)
    → IsDistinct ((0, p) ∷ rest)
    → ((j : ℕ) → j < length frames → find j ((0, p) ∷ rest) ≢ none)
    → c.call_count ≡ 0
    → c.frame_service.frame_collector.temp_frame_data ≡ []
    → c.incoming ≡ ((b ∷ length frames ∷ p) ∷ map (cons_bytes b') rest) ++ later
    → (c' : BaseClient) × (get_system_parameter_list_async parameters c
        ≡ some (ok (record { a = a; data_array = v ∷ values records }), c'))
      × (c'.call_count ≡ 0)
get_system_parameter_list_async-frames parameters seg hi lo b0 b1 context procedure a id v records
      padding frames b b' p rest later c hp ha hid hv size whole few hf hc l ls same are_frames
      distinct all_there free fresh i =
    let arrived = (b ∷ length frames ∷ p) ∷ map (cons_bytes b') rest in
    get_system_parameter_list_async-Answers parameters seg hi lo b0 b1 context procedure a id v
      records padding arrived later c hp ha hid hv size free i
      (subst (λ m. Delivered m (process_each c.frame_service arrived)) whole
        (process_each-Delivered frames c.frame_service b b' p rest hf hc fresh few l ls same
          are_frames distinct all_there))
