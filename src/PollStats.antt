-- ===== src/PollStats.antt =====
-- PollStats.py: the statistics of the polls for each mode of connection. Python's floats are a parameter.
pub mod Summary
use geberit_aquaclean.Prelude.{
  ℕ, zero, suc, ◌+◌, Bool, Option, none, some, List, [], ◌∷◌, if◌then◌else◌, ◌≡◌,
}
use geberit_aquaclean.Prelude.First.{kept}

-- The operations on floats that the statistics use.
pub record Floats (F : Type 0) : Type 0 where
  pub zero_float : F
  pub plus : F → F → F
  pub below : F → F → Bool
  pub average : F → ℕ → F
  pub round1 : F → F

-- `_MetricStats`
pub record MetricStats (F : Type 0) : Type 0 where
  pub count : ℕ
  pub total : F
  pub least : Option F
  pub greatest : Option F

pub record MetricDict (F : Type 0) : Type 0 where
  pub count : ℕ
  pub min_ms : Option F
  pub avg_ms : Option F
  pub max_ms : Option F

-- A transport that has no counter is `unknown_transport`.
pub data Transport : Type 0 where
  bleak esp32_wifi esp32_eth unknown_transport : Transport

pub data Mode : Type 0 where
  persistent on_demand unknown_mode : Mode

-- What one poll is recorded with.
pub record Sample (F : Type 0) : Type 0 where
  pub esphome_api_ms : Option F
  pub ble_ms : Option F
  pub poll_ms : Option F
  pub ble_rssi : Option F
  pub wifi_rssi : Option F
  pub transport : Transport

-- `_ModeStats`
pub record ModeStats (F : Type 0) : Type 0 where
  pub poll : MetricStats F
  pub ble : MetricStats F
  pub esphome_api : MetricStats F
  pub ble_signal : MetricStats F
  pub wifi_signal : MetricStats F
  pub bleak_count : ℕ
  pub esp32_wifi_count : ℕ
  pub esp32_eth_count : ℕ

abbrev pub flipped : {F : Type 0} → (F → F → Bool) → F → F → Bool
flipped below a b = below b a

abbrev pub count_if : Transport → Transport → ℕ → ℕ
count_if bleak bleak n = n + 1
count_if esp32_wifi esp32_wifi n = n + 1
count_if esp32_eth esp32_eth n = n + 1
count_if _ _ n = n

module _ {F : Type 0} (floats : Floats F) where
  abbrev pub new_metric : MetricStats F
  new_metric = record { count = 0; total = floats.zero_float; least = none; greatest = none }

  -- `_MetricStats.record`
  unfoldable pub record_metric : Option F → MetricStats F → MetricStats F
  unfolding kept
  record_metric none s = s
  record_metric (some v) s = record {
    count = s.count + 1;
    total = floats.plus s.total v;
    least = kept floats.below s.least v;
    greatest = kept (flipped floats.below) s.greatest v;
  }

  abbrev pub rounded : Option F → Option F
  rounded none = none
  rounded (some v) = some (floats.round1 v)

  unfoldable pub avg_of : ℕ → F → Option F
  avg_of zero total = none
  avg_of (suc n) total = some (floats.round1 (floats.average total (suc n)))

  unfoldable pub metric_dict : MetricStats F → MetricDict F
  unfolding avg_of
  metric_dict s = record {
    count = s.count;
    min_ms = rounded s.least;
    avg_ms = avg_of s.count s.total;
    max_ms = rounded s.greatest;
  }

  -- A connect time counts where it is more than 0.
  unfoldable pub connect_time : Option F → Option F
  connect_time none = none
  connect_time (some v) = if floats.below floats.zero_float v then some v else none

  abbrev pub new_mode : ModeStats F
  new_mode = record {
    poll = new_metric;
    ble = new_metric;
    esphome_api = new_metric;
    ble_signal = new_metric;
    wifi_signal = new_metric;
    bleak_count = 0;
    esp32_wifi_count = 0;
    esp32_eth_count = 0;
  }

  -- `_ModeStats.record`
  unfoldable pub record_sample : Sample F → ModeStats F → ModeStats F
  unfolding record_metric connect_time
  record_sample sample s = record {
    poll = record_metric sample.poll_ms s.poll;
    ble = record_metric (connect_time sample.ble_ms) s.ble;
    esphome_api = record_metric (connect_time sample.esphome_api_ms) s.esphome_api;
    ble_signal = record_metric sample.ble_rssi s.ble_signal;
    wifi_signal = record_metric sample.wifi_rssi s.wifi_signal;
    bleak_count = count_if bleak sample.transport s.bleak_count;
    esp32_wifi_count = count_if esp32_wifi sample.transport s.esp32_wifi_count;
    esp32_eth_count = count_if esp32_eth sample.transport s.esp32_eth_count;
  }

-- `PollStats`
pub record PollStats (F : Type 0) : Type 0 where
  pub persistent_stats : ModeStats F
  pub on_demand_stats : ModeStats F

module _ {F : Type 0} (floats : Floats F) where
  abbrev pub new_stats : PollStats F
  new_stats = record { persistent_stats = new_mode floats; on_demand_stats = new_mode floats }

  -- `PollStats.record`
  unfoldable pub record_poll : Mode → Sample F → PollStats F → PollStats F
  unfolding record_sample
  record_poll persistent sample s = record s {
    persistent_stats = record_sample floats sample s.persistent_stats;
  }
  record_poll on_demand sample s = record s {
    on_demand_stats = record_sample floats sample s.on_demand_stats;
  }
  record_poll unknown_mode sample s = s

  unfoldable pub record_polls : List (Mode × Sample F) → PollStats F → PollStats F
  unfolding record_poll
  record_polls [] s = s
  record_polls (poll ∷ polls) s = record_polls polls (record_poll poll.0 poll.1 s)
