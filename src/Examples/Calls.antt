-- ===== src/Examples/Calls.antt =====
-- Runs of the calls to a Mera device and of its polls.
use geberit_aquaclean.Prelude.{
  ℕ, zero, suc, ◌<◌, ◌≡◌, ◌≢◌, refl, ap, sym, true, false, none, some, List, [], ◌∷◌, ◌++◌, arith,
  take, drop, replicate, ok, All,
}
use geberit_aquaclean.Prelude.Bytes.{Bytes, to_le4}
use geberit_aquaclean.Message.Service.Parse.{response_body}
use geberit_aquaclean.Message.Service.Padded.{padded_response}
use geberit_aquaclean.Frames.Codec.{frame_type}
use geberit_aquaclean.Frames.Collector.{FrameData, find}
use geberit_aquaclean.Frames.Collector.Assembly.{concat, IsFrameOf}
use geberit_aquaclean.Frames.Collector.Arrival.{IsDistinct}
use geberit_aquaclean.Frames.Collector.Stored.{none≢some}
use geberit_aquaclean.Frames.Service.{new_frame_service}
use geberit_aquaclean.Api.Records.{Records, flat}
use geberit_aquaclean.Api.Parameters.{SystemParameterList}
use geberit_aquaclean.Api.Parameters.Reading.{values}
use geberit_aquaclean.Api.Filter.{filter_result, filter_status}
use geberit_aquaclean.Api.Filter.Reading.{filter_result-flat}
use geberit_aquaclean.Api.Identity.{identification_result}
use geberit_aquaclean.Api.Identity.Reading.{padded, identification_result-padded}
use geberit_aquaclean.Client.Base.{BaseClient}
use geberit_aquaclean.Client.Calls.{get_system_parameter_list_async}
use geberit_aquaclean.Client.Calls.Framed.{get_system_parameter_list_async-frames}
use geberit_aquaclean.Client.Device.{
  AquaCleanClient, and_run, with_base, pure, update, state_args, note_state,
  state_changed_timer_elapsed, spl_params_mera_comfort,
}
use geberit_aquaclean.Client.Device.Heard.{DeviceState, blank, known, Follows}
use geberit_aquaclean.Client.Device.Poll.{one, Polls-heard}

-- The user sits, and the lid is at 5.
abbrev others : Records
others = (1, 0) ∷ (2, 0) ∷ (3, 0) ∷ (4, 0) ∷ (5, 0) ∷ (6, 0) ∷ (7, 0) ∷ (12, 5) ∷ (13, 300) ∷ []

abbrev args : Bytes
args = 10 ∷ flat ((0, 1) ∷ others)

abbrev message : Bytes
message = padded_response 0 0 0 (response_body 0 0 1 0x0d args) (replicate 10 0)

-- The frame with number `i`.
abbrev frame : ℕ → Bytes
frame zero = take 18 message
frame (suc zero) = take 18 (drop 18 message)
frame (suc (suc zero)) = take 18 (drop 36 message)
frame _ = take 18 (drop 54 message)

abbrev frames : List Bytes
frames = frame 0 ∷ frame 1 ∷ frame 2 ∷ frame 3 ∷ []

-- They come in the order 0, 2, 1, 3.
abbrev rest : FrameData
rest = (2, frame 2) ∷ (1, frame 1) ∷ (3, frame 3) ∷ []

abbrev notifications : List Bytes
notifications =
    (0x30 ∷ 4 ∷ frame 0) ∷ (0x50 ∷ 2 ∷ frame 2) ∷ (0x50 ∷ 1 ∷ frame 1) ∷ (0x50 ∷ 3 ∷ frame 3) ∷ []

frames_arrive : All (IsFrameOf frames) ((0, frame 0) ∷ rest)
unfolding IsFrameOf flat to_le4
frames_arrive = (refl, (refl, (refl, (refl, tt))))

frames-IsDistinct : IsDistinct ((0, frame 0) ∷ rest)
unfolding IsDistinct find
frames-IsDistinct = (refl, (refl, (refl, (refl, tt))))

each_arrives : (j : ℕ) → j < 4 → find j ((0, frame 0) ∷ rest) ≢ none
unfolding find
each_arrives zero h e = none≢some (frame 0) (sym e)
each_arrives (suc zero) h e = none≢some (frame 1) (sym e)
each_arrives (suc (suc zero)) h e = none≢some (frame 2) (sym e)
each_arrives (suc (suc (suc zero))) h e = none≢some (frame 3) (sym e)
each_arrives (suc (suc (suc (suc j)))) h e = absurd (omega arith)

frames_whole : concat frames ≡ message
unfolding concat flat to_le4
frames_whole = refl

abbrev client : BaseClient
client = record {
  frame_service = new_frame_service;
  transaction_event = false;
  message_context = none;
  profile_settings = [];
  call_count = 0;
  incoming = notifications;
  sent = [];
  sent_cons = [];
}

abbrev response : SystemParameterList
response = record { a = 10; data_array = 1 ∷ values others }

abbrev device : AquaCleanClient
device = record {
  base_client = client;
  last_device_state_changed_event_args = none;
  sap_number = [];
  serial_number = [];
  production_date = [];
  description = [];
  initial_operation_date = [];
  soc_application_versions = none;
  firmware_versions = none;
  fired = [];
}

abbrev state : DeviceState
state = record { sitting = true; anal = false; lady = false; dryer = false; lid = 5; arm = 300 }

abbrev answer :
    (c : BaseClient) × (get_system_parameter_list_async spl_params_mera_comfort client
      ≡ some (ok response, c))
    × (c.call_count ≡ 0)
unfolding flat to_le4
answer =
    get_system_parameter_list_async-frames spl_params_mera_comfort 0 0 0 0 0 1 0x0d 10 0 1 others
      (replicate 10 0) frames 0x30 0x50 (frame 0) rest [] client (omega arith) (omega arith)
      (omega arith) (omega arith) (omega arith) frames_whole (omega arith)
      (unfold frame_type in refl) (unfold frame_type in refl) refl (refl, (refl, (refl, tt))) refl
      frames_arrive frames-IsDistinct each_arrives refl refl refl

abbrev polled : AquaCleanClient
polled = note_state (known state) (record device { base_client = answer.0 })

poll_succeeds : state_changed_timer_elapsed device ≡ some (ok tt, polled)
unfolding state_changed_timer_elapsed state_args
poll_succeeds =
    ap
      (λ r.
        and_run (with_base device r)
          (λ result c. and_run (pure (state_args result) c) (λ args. update (note_state args))))
      answer.1

Polls-heard_example :
    (first last : DeviceState) × (polled.last_device_state_changed_event_args ≡ some (known first))
    × Follows blank first last polled
Polls-heard_example = Polls-heard blank refl (one poll_succeeds)

abbrev maintenance : Records
maintenance = (7, 365) ∷ (8, 1700000000) ∷ (9, 0) ∷ (10, 2) ∷ []

filter_result-flat_example : filter_result (4 ∷ flat maintenance) ≡ filter_status maintenance
filter_result-flat_example =
    filter_result-flat maintenance
      (
        ((λ e. omega arith), ((λ e. omega arith), ((λ e. omega arith), tt))),
        (((λ e. omega arith), ((λ e. omega arith), tt)), (((λ e. omega arith), tt), (tt, tt))),
      )
      (omega arith)

abbrev identification : Bytes
identification =
    padded 12 (b'1' ∷ b'4' ∷ [])
    ++ (padded 20 (b'H' ∷ b'B' ∷ []) ++ (padded 10 [] ++ (padded 40 (b'M' ∷ []) ++ [])))

identification_result-padded_example :
    (identification_result identification).0
    ≡ ok (record {
      sap_number = b'1' ∷ b'4' ∷ [];
      serial_number = b'H' ∷ b'B' ∷ [];
      production_date = [];
      description = b'M' ∷ [];
    })
identification_result-padded_example =
    identification_result-padded (b'1' ∷ b'4' ∷ []) (b'H' ∷ b'B' ∷ []) [] (b'M' ∷ []) []
      (omega arith) (omega arith) (omega arith) (omega arith)
