-- ===== src/Client/Alba/Stats.antt =====
-- AlbaBaseClient.py, `get_instanced_stats_async`. Python's floats and `round(elapsed / max * 100, 1)` are
-- the parameters `Float` and `percent`.
pub mod Asked
use geberit_aquaclean.Prelude.{
  ℕ, zero, suc, ◌+◌, Option, none, some, List, [], ◌∷◌, ◌++◌, Result, ok, err, type_error,
}
use geberit_aquaclean.Api.Text.{Text, str, text_of}
use geberit_aquaclean.Ble20.Client.{Io, ◌>>=◌, ret, pure}
use geberit_aquaclean.Ble20.Requests.{read, optional, caught}
use geberit_aquaclean.Client.Alba.Base.{number_read}

-- `_u32i`
unfoldable pub read_number_at : ℕ → ℕ → Io (Option ℕ)
unfolding number_read caught
read_number_at dp_id instance_id = do
  raw ← optional (read dp_id (some instance_id))
  ret (number_read raw)

pub record Progress (Float : Type 0) : Type 0 where
  pub max_total : Option ℕ
  pub elapsed_total : Option ℕ
  pub max_step : Option ℕ
  pub elapsed_step : Option ℕ
  pub pct : Option Float

-- `_version` joins the parts that were read, 0 for one that was not, unless none was.
unfoldable pub part_text : Option ℕ → Text
unfolding str
part_text none = str 0
part_text (some n) = str n

unfoldable pub joined : List (Option ℕ) → Text
unfolding part_text
joined [] = []
joined (p ∷ []) = part_text p
joined (p ∷ q ∷ parts) = part_text p ++ b'.' ∷ joined (q ∷ parts)

unfoldable pub version_of : List (Option ℕ) → List (Option ℕ) → Option Text
unfolding joined
version_of parts [] = none
version_of parts (none ∷ rest) = version_of parts rest
version_of parts (some n ∷ rest) = some (joined parts)

-- `[await _u32i(dp_id, i) for i in range(n_instances)]`: `n` parts, from `i` on.
unfoldable pub read_parts : ℕ → ℕ → ℕ → List (Option ℕ) → Io (List (Option ℕ))
unfolding read_number_at
read_parts dp_id i zero parts = ret parts
read_parts dp_id i (suc n) parts = do
  p ← read_number_at dp_id i
  read_parts dp_id (suc i) n (parts ++ p ∷ [])

unfoldable pub read_version : ℕ → ℕ → Io (Option Text)
unfolding read_parts version_of
read_version dp_id n_instances = do
  parts ← read_parts dp_id 0 n_instances []
  ret (version_of parts parts)

abbrev pub stat_instances : List (ℕ × Text)
stat_instances =
    (2, text_of "use_with_flush")
    ∷ (31, text_of "aquaclean_usages")
    ∷ (32, text_of "aquaclean_anal_showers")
    ∷ (33, text_of "aquaclean_lady_showers")
    ∷ (34, text_of "aquaclean_dryings")
    ∷ (35, text_of "aquaclean_descalings")
    ∷ (36, text_of "aquaclean_spray_arm_cleanings")
    ∷ []

abbrev pub Counters : Type 0
Counters = List (Text × Option ℕ)

unfoldable pub read_counters : ℕ → List (ℕ × Text) → Counters → Io Counters
unfolding read_number_at
read_counters dp_id [] counters = ret counters
read_counters dp_id (stat ∷ stats) counters = do
  n ← read_number_at dp_id stat.0
  read_counters dp_id stats (counters ++ (stat.1, n) ∷ [])

pub record InstancedStats (Float : Type 0) : Type 0 where
  pub anal_shower_progress : Progress Float
  pub spray_arm_cleaning_progress : Progress Float
  pub descaling_progress : Progress Float
  pub fus_version : Option Text
  pub geberit_loader_version : Option Text
  pub wireless_stack_version : Option Text
  pub stats_since_power_up : Counters
  pub stats_since_reset : Counters
  pub stats_total : Counters

module _ {Float : Type 0} (percent : ℕ → ℕ → Float) where
  -- A total without the time that has elapsed raises TypeError: None is divided by it.
  unfoldable pub pct_of : Option ℕ → Option ℕ → Result (Option Float)
  pct_of none elapsed_total = ok none
  pct_of (some zero) elapsed_total = ok none
  pct_of (some (suc m)) none = err type_error
  pct_of (some (suc m)) (some elapsed) = ok (some (percent elapsed (suc m)))

  unfoldable pub read_progress : ℕ → Io (Progress Float)
  unfolding read_number_at pct_of
  read_progress dp_id = do
    max_total ← read_number_at dp_id 0
    elapsed_total ← read_number_at dp_id 1
    max_step ← read_number_at dp_id 2
    elapsed_step ← read_number_at dp_id 3
    pct ← pure (pct_of max_total elapsed_total)
    ret (record {
      max_total = max_total;
      elapsed_total = elapsed_total;
      max_step = max_step;
      elapsed_step = elapsed_step;
      pct = pct;
    })

  unfoldable pub get_instanced_stats_async : Io (InstancedStats Float)
  unfolding read_progress read_version read_counters
  get_instanced_stats_async = do
    anal_shower ← read_progress 565
    spray_arm_cleaning ← read_progress 568
    descaling ← read_progress 586
    fus ← read_version 785 3
    geberit_loader ← read_version 786 2
    wireless_stack ← read_version 787 3
    since_power_up ← read_counters 405 stat_instances []
    since_reset ← read_counters 688 stat_instances []
    total ← read_counters 689 stat_instances []
    ret (record {
      anal_shower_progress = anal_shower;
      spray_arm_cleaning_progress = spray_arm_cleaning;
      descaling_progress = descaling;
      fus_version = fus;
      geberit_loader_version = geberit_loader;
      wireless_stack_version = wireless_stack;
      stats_since_power_up = since_power_up;
      stats_since_reset = since_reset;
      stats_total = total;
    })
