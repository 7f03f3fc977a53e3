-- ===== src/Examples/ApiMode.antt =====
-- Runs of the polling loop, and settings that are set.
use geberit_aquaclean.Prelude.{◌+◌, ◌≤◌, ◌≡◌, refl, true, false, none, List, [], ◌∷◌, ◌++◌, All, ok}
use geberit_aquaclean.Prelude.Int.{pos}
use geberit_aquaclean.Prelude.Dict.{lookup}
use geberit_aquaclean.ApiMode.Polling.{
  unsupported_device, bleak_error, elapsed, fetched, raised, on_demand, Fetched, Round, new_loop,
  polling_loop,
}
use geberit_aquaclean.ApiMode.Polling.Breaker.{
  counted, is_restart, successes, polling_loop-restarts,
}
use geberit_aquaclean.ApiMode.Polling.Stops.{IsOrdinary, polling_loop-running}
use geberit_aquaclean.ApiMode.Settings as Settings
use geberit_aquaclean.ApiMode.Settings.{
  ApiState, Request, profile_request, common_request, serve_all,
}
use geberit_aquaclean.ApiMode.Settings.Ranges.{IsAllowed, serve_all-IsAllowed}

abbrev round : Fetched → Round
round request = record {
  polling_enabled = true;
  wake = elapsed;
  shutdown = false;
  on_demand_mode = true;
  fetch = on_demand request;
  publish_identification = none;
  publish_state = none;
}

-- Five polls fail, one succeeds, and four more fail.
abbrev fails : Round
fails = round (raised bleak_error)

abbrev outage : List Round
outage = fails ∷ fails ∷ fails ∷ fails ∷ fails ∷ []

abbrev rounds : List Round
rounds = outage ++ round (fetched true) ∷ fails ∷ fails ∷ fails ∷ fails ∷ []

polling_loop-restarts_example :
    counted is_restart (polling_loop true rounds new_loop).1 ≤ successes rounds + 1
polling_loop-restarts_example = polling_loop-restarts true rounds

unsupported-IsOrdinary : IsOrdinary (round (raised unsupported_device))
unsupported-IsOrdinary = record {
  request = raised unsupported_device;
  through = refl;
  waits = λ e. cc;
  goes_on = refl;
  identification = λ e. cc;
  state = λ e. cc;
}

polling_loop-running_example :
    (polling_loop false (round (raised unsupported_device) ∷ []) new_loop).0.running ≡ true
polling_loop-running_example =
    polling_loop-running false (round (raised unsupported_device) ∷ []) new_loop refl
      (unsupported-IsOrdinary, tt)

abbrev state : ApiState
state = record {
  ble_connection = Settings.persistent;
  has_client = true;
  profile_settings = none;
  common_settings = none;
  written = [];
  published = [];
}

-- The water temperature, an intensity of the dryer spray that no device has, and a colour.
abbrev requests : List Request
requests =
    profile_request (pos 6) (pos 5) (ok tt)
    ∷ profile_request (pos 13) (pos 65535) (ok tt)
    ∷ common_request (pos 2) (pos 6) (ok tt)
    ∷ []

serve_all-IsAllowed_example : All IsAllowed (serve_all requests state).written
serve_all-IsAllowed_example = serve_all-IsAllowed requests state tt

spray_is_written :
    (serve_all requests state).written
    ≡ Settings.profile_write 6 5 ∷ Settings.profile_write 13 65535 ∷ []
unfolding serve_all lookup
spray_is_written = refl
