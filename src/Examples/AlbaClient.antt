-- ===== src/Examples/AlbaClient.antt =====
-- Runs of the clients of an Alba device.
use geberit_aquaclean.Prelude.{
  ◌⊎◌, ◌*◌, ◌/◌, ◌++◌, err, List, type_error, ℕ, ◌≡◌, ◌≢◌, ◌↔◌, refl, false, some, none, [], ◌∷◌,
  ◌==◌, not, get_or, ok, length, arith,
}
use geberit_aquaclean.Prelude.Dict.{lookup}
use geberit_aquaclean.Prelude.Int.{pos}
use geberit_aquaclean.Ble20.Address.{encode_address, decode_address}
use geberit_aquaclean.Ble20.Client.{Ble20, send, await_frame, recv, deliver}
use geberit_aquaclean.Ble20.Inventory.{Entry}
use geberit_aquaclean.Ble20.Requests.{
  write_cmd, read, dp_user_detection_status, dp_anal_shower_status,
}
use geberit_aquaclean.Ble20.Identification.Whole.{request}
use geberit_aquaclean.Api.Parameters.{SystemParameterList}
use geberit_aquaclean.Client.Alba.Base.{get_system_parameter_list_async, all_parameters}
use geberit_aquaclean.Client.Alba.Base.Parameters.{
  IsLadyOff, get_system_parameter_list_async-IsLadyOff,
}
use geberit_aquaclean.Client.Alba.Stats.{InstancedStats, get_instanced_stats_async}
use geberit_aquaclean.Client.Alba.Stats.Asked.{stats_requests, get_instanced_stats_async-Ends}
use geberit_aquaclean.Client.Names.{get_full_name}
use geberit_aquaclean.Prelude.Bytes.{Bytes}
use geberit_aquaclean.Api.Text.{text_of}
use geberit_aquaclean.Client.Alba.{AlbaClient, post_connect, alba_args, toggle_anal_shower}
use geberit_aquaclean.Client.Alba.Connect.{post_connect-preferred}
use geberit_aquaclean.Client.Alba.Shower.{
  toggled, toggle_anal_shower-Sends, alba_args-all_parameters,
}

-- A device that answers that the anal shower is ready.
abbrev ble20 : Ble20
ble20 = record {
  rx_queue = [];
  notify_queues = [];
  incoming = (0x11 ∷ 52 ∷ 2 ∷ 2 ∷ []) ∷ [];
  sent = [];
}

abbrev entry : Entry
entry = record {
  instance_id = none;
  version = 0;
  datatype = 1;
  min_s = pos 0;
  max_s = pos 1;
  min_u = 0;
  max_u = 1;
  is_internal = false;
  behavior = 0;
}

abbrev client : AlbaClient
client = record {
  ble20 = ble20;
  inventory = [];
  base_inventory = [];
  firmware_versions = none;
  last_device_state_changed_event_args = none;
  fired = [];
}

get_system_parameter_list_async-IsLadyOff_example :
    (l : SystemParameterList) × (c : Ble20) × (get_system_parameter_list_async
        (0 ∷ 2 ∷ 3 ∷ [])
        ble20
      ≡ (ok l, c))
    × (c.sent ≡ request dp_user_detection_status ∷ request dp_anal_shower_status ∷ [])
    × (length l.data_array ≡ 12)
    × IsLadyOff (0 ∷ 2 ∷ 3 ∷ []) l.data_array
get_system_parameter_list_async-IsLadyOff_example =
    get_system_parameter_list_async-IsLadyOff (0 ∷ 2 ∷ 3 ∷ []) ble20 (omega arith)

post_connect-preferred_example :
    (c : AlbaClient) × (post_connect ((564, entry) ∷ []) client ≡ (ok tt, c))
    × (c.inventory ≡ (564, entry) ∷ [])
    × (c.base_inventory ≡ (564, entry) ∷ [])
post_connect-preferred_example = post_connect-preferred ((564, entry) ∷ []) client (λ e. cc) tt

toggle_anal_shower-Sends_example :
    (toggle_anal_shower ble20).1.sent
    ≡ request dp_anal_shower_status
      ∷ (write_cmd ∷ 51 ∷ 2 ∷ toggled (read dp_anal_shower_status none ble20).0 ∷ [])
      ∷ []
toggle_anal_shower-Sends_example = toggle_anal_shower-Sends ble20

alba_args-all_parameters_example :
    ((alba_args ((564, 2 ∷ []) ∷ [])).is_anal_shower_running
      ≡ some (not (get_or (all_parameters ((564, 2 ∷ []) ∷ [])) 3 0 == 0)))
    ↔ ((◌≢◌ {A = ℕ} 2 1) × (◌≢◌ {A = ℕ} 2 2))
alba_args-all_parameters_example =
    alba_args-all_parameters ((564, 2 ∷ []) ∷ []) 2 (unfold lookup in refl)

-- The whole part of the percentage.
abbrev percent : ℕ → ℕ → ℕ
percent elapsed total = elapsed * 100 / total

get_instanced_stats_async-Ends_example :
    ((a : InstancedStats ℕ) × (c : Ble20) × (get_instanced_stats_async percent ble20 ≡ (ok a, c))
      × (c.sent ≡ stats_requests))
    ⊎ ((c : Ble20) × (asked : List Bytes) × (unasked : List Bytes) × (get_instanced_stats_async
            percent ble20
          ≡ (err type_error, c))
        × (stats_requests ≡ asked ++ unasked)
        × (c.sent ≡ asked))
get_instanced_stats_async-Ends_example = get_instanced_stats_async-Ends percent ble20

-- The total is answered, and then nothing.
stats_raise : (get_instanced_stats_async percent ble20).0 ≡ err type_error
unfolding get_instanced_stats_async read encode_address send await_frame recv deliver decode_address
stats_raise = refl

alba_name : get_full_name 250 0 ≡ text_of "Aquaclean Alba"
unfolding get_full_name lookup
alba_name = refl

unknown_variant_name : get_full_name 248 77 ≡ text_of "AqC Variant(77)"
unfolding get_full_name lookup
unknown_variant_name = refl

unknown_series_name : get_full_name 3 12 ≡ text_of "Unknown(3) 12"
unfolding get_full_name lookup
unknown_series_name = refl
