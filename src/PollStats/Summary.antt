-- ===== src/PollStats/Summary.antt =====
-- The statistics of a mode and the values of its polls.
use geberit_aquaclean.Prelude.{
  Bool, Option, none, some, List, [], ◌∷◌, ◌++◌, map, append-nil, append_assoc, ◌≡◌, refl, sym, ap,
  subst, ◌∙◌, length, length-append, arith,
}
use geberit_aquaclean.Prelude.First.{IsOrdered, IsFirst, kept-IsFirst}
use geberit_aquaclean.PollStats.{
  Floats, MetricStats, new_metric, Mode, persistent, on_demand, unknown_mode, Sample, ModeStats,
  flipped, record_metric, connect_time, new_mode, record_sample, PollStats, new_stats, record_poll,
  record_polls,
}

module _ {F : Type 0} where
  flipped-IsOrdered : (below : F → F → Bool) → IsOrdered below → IsOrdered (flipped below)
  flipped-IsOrdered below o = record {
    asymmetric = λ a b e. o.asymmetric b a e;
    chained = λ a b c h k. o.chained c b a k h;
  }

  -- The values of a list of options.
  unfoldable pub present : List (Option F) → List F
  present [] = []
  present (none ∷ rest) = present rest
  present (some v ∷ rest) = v ∷ present rest

  -- The samples of one mode, in their order.
  unfoldable pub of_persistent : List (Mode × Sample F) → List (Sample F)
  of_persistent [] = []
  of_persistent ((persistent, sample) ∷ polls) = sample ∷ of_persistent polls
  of_persistent ((on_demand, sample) ∷ polls) = of_persistent polls
  of_persistent ((unknown_mode, sample) ∷ polls) = of_persistent polls

  unfoldable pub of_on_demand : List (Mode × Sample F) → List (Sample F)
  of_on_demand [] = []
  of_on_demand ((persistent, sample) ∷ polls) = of_on_demand polls
  of_on_demand ((on_demand, sample) ∷ polls) = sample ∷ of_on_demand polls
  of_on_demand ((unknown_mode, sample) ∷ polls) = of_on_demand polls

module _ {F : Type 0} (floats : Floats F) where
  unfoldable pub sum_from : F → List F → F
  sum_from t [] = t
  sum_from t (v ∷ values) = sum_from (floats.plus t v) values

  sum_from-append :
      (t : F) (values : List F) (v : F)
      → sum_from t (values ++ v ∷ []) ≡ floats.plus (sum_from t values) v
  unfolding sum_from
  sum_from-append t [] v = refl
  sum_from-append t (w ∷ values) v = sum_from-append (floats.plus t w) values v

  -- The statistics of the values.
  pub record IsSummary (values : List F) (s : MetricStats F) : Type 0 where
    pub counted : s.count ≡ length values
    pub summed : s.total ≡ sum_from floats.zero_float values
    pub lowest : IsFirst floats.below values s.least
    pub highest : IsFirst (flipped floats.below) values s.greatest

  new_metric-IsSummary : IsSummary [] (new_metric floats)
  unfolding IsFirst sum_from
  new_metric-IsSummary = record { counted = refl; summed = refl; lowest = refl; highest = refl }

  record_metric-IsSummary :
      IsOrdered floats.below
      → (values : List F) (s : MetricStats F) (v : F) → IsSummary values s
      → IsSummary (values ++ v ∷ []) (record_metric floats (some v) s)
  unfolding record_metric
  record_metric-IsSummary o values s v h = record {
    counted = omega (arith, h.counted, length-append values (v ∷ []));
    summed = ap (λ t. floats.plus t v) h.summed ∙ sym (sum_from-append floats.zero_float values v);
    lowest = kept-IsFirst floats.below o values s.least v h.lowest;
    highest =
        kept-IsFirst (flipped floats.below) (flipped-IsOrdered floats.below o) values s.greatest v
          h.highest;
  }

  unfoldable pub record_samples : List (Sample F) → ModeStats F → ModeStats F
  record_samples [] s = s
  record_samples (sample ∷ samples) s = record_samples samples (record_sample floats sample s)

  -- One more value, or none.
  record_value-IsSummary :
      IsOrdered floats.below
      → (values : List F) (v : Option F) (rest : List (Option F)) (s : MetricStats F)
      → IsSummary values s
      → (values' : List F) × IsSummary values' (record_metric floats v s)
        × (values' ++ present rest ≡ values ++ present (v ∷ rest))
  unfolding present record_metric
  record_value-IsSummary o values none rest s h = (values, h, refl)
  record_value-IsSummary o values (some v) rest s h = (
    values ++ v ∷ [],
    record_metric-IsSummary o values s v h,
    append_assoc values (v ∷ []) (present rest),
  )

  -- A metric that records one value of each sample.
  record_samples-IsSummary :
      IsOrdered floats.below
      → (metric : ModeStats F → MetricStats F) (value : Sample F → Option F)
      → ((sample : Sample F) (s : ModeStats F)
          → metric (record_sample floats sample s) ≡ record_metric floats (value sample) (metric s))
      → (samples : List (Sample F)) (values : List F) (s : ModeStats F)
      → IsSummary values (metric s)
      → IsSummary (values ++ present (map value samples)) (metric (record_samples samples s))
  unfolding record_samples present
  record_samples-IsSummary o metric value step [] values s h =
      subst (λ l. IsSummary l (metric s)) (sym (append-nil values)) h
  record_samples-IsSummary o metric value step (sample ∷ samples) values s h =
      let (values', h', e) =
        record_value-IsSummary o values (value sample) (map value samples) (metric s) h in
      subst (λ l. IsSummary l (metric (record_samples samples (record_sample floats sample s)))) e
        (record_samples-IsSummary o metric value step samples values'
          (record_sample floats sample s) (subst (IsSummary values') (sym (step sample s)) h'))

  -- The statistics of the samples of a mode.
  pub record Summarises (samples : List (Sample F)) (s : ModeStats F) : Type 0 where
    pub polls : IsSummary (present (map (λ x. x.poll_ms) samples)) s.poll
    pub connects : IsSummary (present (map (λ x. connect_time floats x.ble_ms) samples)) s.ble
    pub api :
        IsSummary (present (map (λ x. connect_time floats x.esphome_api_ms) samples)) s.esphome_api
    pub ble_signals : IsSummary (present (map (λ x. x.ble_rssi) samples)) s.ble_signal
    pub wifi_signals : IsSummary (present (map (λ x. x.wifi_rssi) samples)) s.wifi_signal

  record_samples-Summarises :
      IsOrdered floats.below
      → (samples : List (Sample F)) → Summarises samples (record_samples samples (new_mode floats))
  unfolding record_sample
  record_samples-Summarises o samples =
      let start = new_metric-IsSummary in
      record {
        polls = record_samples-IsSummary o (λ s. s.poll) _ (λ x s. refl) samples [] _ start;
        connects = record_samples-IsSummary o (λ s. s.ble) _ (λ x s. refl) samples [] _ start;
        api = record_samples-IsSummary o (λ s. s.esphome_api) _ (λ x s. refl) samples [] _ start;
        ble_signals =
            record_samples-IsSummary o (λ s. s.ble_signal) _ (λ x s. refl) samples [] _ start;
        wifi_signals =
            record_samples-IsSummary o (λ s. s.wifi_signal) _ (λ x s. refl) samples [] _ start;
      }

  record_polls-modes :
      (polls : List (Mode × Sample F)) (s : PollStats F)
      → ((record_polls floats polls s).persistent_stats
          ≡ record_samples (of_persistent polls) s.persistent_stats)
        × ((record_polls floats polls s).on_demand_stats
            ≡ record_samples (of_on_demand polls) s.on_demand_stats)
  unfolding record_polls record_samples of_persistent of_on_demand
  record_polls-modes [] s = (refl, refl)
  record_polls-modes ((persistent, sample) ∷ polls) s =
      record_polls-modes polls (record_poll floats persistent sample s)
  record_polls-modes ((on_demand, sample) ∷ polls) s =
      record_polls-modes polls (record_poll floats on_demand sample s)
  record_polls-modes ((unknown_mode, sample) ∷ polls) s = record_polls-modes polls s

  -- Whatever polls are recorded, each mode has the statistics of its own polls: of each metric the number
  -- of its values, their sum, and one of them than which none is less, and one than which none is greater.
  pub record_polls-Summarises :
      IsOrdered floats.below
      → (polls : List (Mode × Sample F))
      → Summarises
          (of_persistent polls)
          (record_polls floats polls (new_stats floats)).persistent_stats
        × Summarises
            (of_on_demand polls)
            (record_polls floats polls (new_stats floats)).on_demand_stats
  record_polls-Summarises o polls =
      let (a, b) = record_polls-modes polls (new_stats floats) in
      (
        subst (Summarises (of_persistent polls)) (sym a)
            (record_samples-Summarises o (of_persistent polls)),
        subst (Summarises (of_on_demand polls)) (sym b)
            (record_samples-Summarises o (of_on_demand polls)),
      )
