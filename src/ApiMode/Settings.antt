-- ===== src/ApiMode/Settings.antt =====
-- main.py, `set_profile_setting` and `set_common_setting`. What the client, or `_on_demand` around it,
-- comes to is part of a request. Values are integers.
pub mod Ranges
use geberit_aquaclean.Prelude.{
  ℕ, Bool, false, not, ◌&&◌, Option, none, some, List, [], ◌∷◌, ◌++◌, leb, if◌then◌else◌, Result,
  ok, err, Error,
}
use geberit_aquaclean.Prelude.Int.{ℤ, pos, negsuc}
use geberit_aquaclean.Prelude.Dict.{lookup, insert}
use geberit_aquaclean.Client.Device.{is_profile_setting}

pub record Range : Type 0 where
  pub low : ℕ
  pub high : ℕ

abbrev pub up_to : ℕ → Range
up_to high = record { low = 0; high = high }

-- The tables that count: each name is assigned a second time.
abbrev pub profile_setting_ranges : List (ℕ × Range)
profile_setting_ranges =
    (0, up_to 1)
    ∷ (1, up_to 1)
    ∷ (2, up_to 4)
    ∷ (3, up_to 4)
    ∷ (4, up_to 4)
    ∷ (5, up_to 4)
    ∷ (6, up_to 5)
    ∷ (7, up_to 5)
    ∷ (8, up_to 5)
    ∷ (9, up_to 1)
    ∷ []

abbrev pub common_setting_ranges : List (ℕ × Range)
common_setting_ranges = (0, up_to 1) ∷ (1, up_to 4) ∷ (2, up_to 2) ∷ (3, up_to 6) ∷ []

pub data Connection : Type 0 where
  persistent on_demand : Connection

-- What a request ends with: an HTTP error with the number of its code, or what the client raised.
pub data Response : Type 0 where
  success : Response
  http_error : ℕ → ℕ → Response
  failed : Error → Response

abbrev pub Dict : Type 0
Dict = List (ℕ × ℕ)

pub data Write : Type 0 where
  profile_write common_write : ℕ → ℕ → Write

pub record ApiState : Type 0 where
  pub ble_connection : Connection
  pub has_client : Bool
  pub profile_settings : Option Dict
  pub common_settings : Option Dict
  pub written : List Write
  pub published : List Dict

-- `dict(... or {})`
abbrev pub dict_or_empty : Option Dict → Dict
dict_or_empty none = []
dict_or_empty (some dict) = dict

abbrev pub in_range : Range → ℤ → Bool
in_range rng (pos value) = leb rng.low value && leb value rng.high
in_range rng (negsuc n) = false

abbrev pub as_nat : ℤ → ℕ
as_nat (pos n) = n
as_nat (negsuc n) = 0

abbrev pub lacks_client : Connection → Bool → Bool
lacks_client persistent has_client = not has_client
lacks_client on_demand has_client = false

unfoldable pub keep_profile : ℕ → ℕ → Result (Unit {0}) → ApiState → Response × ApiState
keep_profile setting_id value (err e) s = (failed e, s)
keep_profile setting_id value (ok _) s =
    let ps = insert setting_id value (dict_or_empty s.profile_settings) in
    (success, record s { profile_settings = some ps; published = s.published ++ ps ∷ [] })

unfoldable pub keep_common : ℕ → ℕ → Result (Unit {0}) → ApiState → Response × ApiState
keep_common setting_id value (err e) s = (failed e, s)
keep_common setting_id value (ok _) s =
    let cs = insert setting_id value (dict_or_empty s.common_settings) in
    (success, record s { common_settings = some cs; published = s.published ++ cs ∷ [] })

-- `_PROFILE_SETTING_RANGES.get(setting_id, (0, 65535))`
unfoldable pub profile_range : ℕ → Range
profile_range setting_id = elim (lookup setting_id profile_setting_ranges) [
  | none ↦ up_to 65535
  | some rng ↦ rng
]

-- A negative number is the number of no setting.
unfoldable pub set_profile_setting : ℤ → ℤ → Result (Unit {0}) → ApiState → Response × ApiState
unfolding profile_range keep_profile
set_profile_setting (negsuc n) value answer s = (http_error 400 4001, s)
set_profile_setting (pos setting_id) value answer s =
    if not (is_profile_setting setting_id)
    then (http_error 400 4001, s)
    else if not (in_range (profile_range setting_id) value)
    then (http_error 400 4002, s)
    else if lacks_client s.ble_connection s.has_client
    then (http_error 503 4003, s)
    else keep_profile setting_id (as_nat value) answer
        (record s { written = s.written ++ profile_write setting_id (as_nat value) ∷ [] })

abbrev pub common_tested : Option Range → ℕ → ℤ → Result (Unit {0}) → ApiState → Response × ApiState
common_tested none setting_id value answer s = (http_error 400 4001, s)
common_tested (some rng) setting_id value answer s =
    if not (in_range rng value)
    then (http_error 400 4002, s)
    else if lacks_client s.ble_connection s.has_client
    then (http_error 503 4003, s)
    else keep_common setting_id (as_nat value) answer
        (record s { written = s.written ++ common_write setting_id (as_nat value) ∷ [] })

unfoldable pub set_common_setting : ℤ → ℤ → Result (Unit {0}) → ApiState → Response × ApiState
unfolding keep_common
set_common_setting (negsuc n) value answer s = (http_error 400 4001, s)
set_common_setting (pos setting_id) value answer s =
    common_tested (lookup setting_id common_setting_ranges) setting_id value answer s

pub data Request : Type 0 where
  profile_request common_request : ℤ → ℤ → Result (Unit {0}) → Request

unfoldable pub serve : Request → ApiState → ApiState
unfolding set_profile_setting set_common_setting
serve (profile_request sid value answer) s = (set_profile_setting sid value answer s).1
serve (common_request sid value answer) s = (set_common_setting sid value answer s).1

unfoldable pub serve_all : List Request → ApiState → ApiState
unfolding serve
serve_all [] s = s
serve_all (r ∷ requests) s = serve_all requests (serve r s)
