-- ===== src/Examples/Statistics.antt =====
-- Runs of the poll statistics, with numbers of milliseconds in place of floats.
use geberit_aquaclean.Prelude.{ℕ, ◌+◌, ◌/◌, ◌≡◌, refl, none, some, List, [], ◌∷◌, ltb, arith}
use geberit_aquaclean.Prelude.First.{IsOrdered}
use geberit_aquaclean.PollStats.{
  Floats, Mode, persistent, on_demand, unknown_mode, Sample, esp32_wifi, new_stats, record_polls,
}
use geberit_aquaclean.PollStats.Summary.{
  of_persistent, of_on_demand, Summarises, record_polls-Summarises,
}

abbrev milliseconds : Floats ℕ
milliseconds = record {
  zero_float = 0;
  plus = λ a b. a + b;
  below = ltb;
  average = λ total n. total / n;
  round1 = λ v. v;
}

ltb-IsOrdered : IsOrdered ltb
ltb-IsOrdered = record { asymmetric = λ a b h. ground arith; chained = λ a b c h k. ground arith }

abbrev sample : ℕ → ℕ → Sample ℕ
sample connect poll = record {
  esphome_api_ms = none;
  ble_ms = some connect;
  poll_ms = some poll;
  ble_rssi = none;
  wifi_rssi = none;
  transport = esp32_wifi;
}

-- The second poll of the persistent mode makes no new connection.
abbrev polls : List (Mode × Sample ℕ)
polls =
    (persistent, sample 900 210)
    ∷ (persistent, sample 0 190)
    ∷ (on_demand, sample 1100 250)
    ∷ (unknown_mode, sample 1 1)
    ∷ []

record_polls-Summarises_example :
    Summarises milliseconds
      (of_persistent polls)
      (record_polls milliseconds polls (new_stats milliseconds)).persistent_stats
    × Summarises milliseconds
        (of_on_demand polls)
        (record_polls milliseconds polls (new_stats milliseconds)).on_demand_stats
record_polls-Summarises_example = record_polls-Summarises milliseconds ltb-IsOrdered polls

one_connect :
    (record_polls milliseconds polls (new_stats milliseconds)).persistent_stats.ble.count ≡ 1
unfolding record_polls
one_connect = refl

least_poll :
    (record_polls milliseconds polls (new_stats milliseconds)).persistent_stats.poll.least
    ≡ some 190
unfolding record_polls
least_poll = refl
