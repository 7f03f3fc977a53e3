-- ===== src/FirmwareUpdate/Check.antt =====
-- FirmwareUpdateService.py: `check_firmware_update`, on the packages that the web request brings.
pub mod Newer
use geberit_aquaclean.Prelude.{
  ℕ, ◌+◌, Bool, true, false, not, ◌&&◌, ◌||◌, Option, none, some, List, [], ◌∷◌, ◌++◌, ◌==◌, ltb,
  if◌then◌else◌, Error, Result, ok, err, type_error,
}
use geberit_aquaclean.Api.Text.{Text, str, is_space}
use geberit_aquaclean.FirmwareUpdate.{
  NodeFirmware, Package, Latest, pkg_date, same_text, same_series, split_point, above,
  get_latest_for_series_and_variant,
}

-- `text.strip().split()`
abbrev pub add_word : Text → List Text → List Text
add_word [] words = words
add_word (c ∷ word) words = (c ∷ word) ∷ words

unfoldable pub words_from : Text → Text → List Text
unfolding is_space
words_from word [] = add_word word []
words_from word (c ∷ text) = elim (is_space c) [
  | true ↦ add_word word (words_from [] text)
  | false ↦ words_from (word ++ c ∷ []) text
]

-- What follows the two characters in the first word that begins with them.
abbrev pub behind : ℕ → ℕ → Text → Option Text
behind c d [] = none
behind c d (x ∷ []) = none
behind c d (x ∷ y ∷ text) = if x == c && y == d then some text else none

abbrev pub or_later : Option Text → Option Text → Option Text
or_later none later = later
or_later (some text) later = some text

abbrev pub first_behind : ℕ → ℕ → List Text → Option Text
first_behind c d [] = none
first_behind c d (word ∷ words) = or_later (behind c d word) (first_behind c d words)

-- `matches` of `_find_series_and_variant`: a package that has a node with the version.
pub record Match : Type 0 where
  pub series : Option ℕ
  pub variants : List ℕ
  pub is_active : Bool
  pub date : Option Text

abbrev pub has_version : Text → List NodeFirmware → Bool
has_version version [] = false
has_version version (node ∷ nodes) =
    same_text node.rs_ts_version version || has_version version nodes

abbrev pub match_of : Package → Match
match_of pkg = record {
  series = pkg.firmware_package.series;
  variants = pkg.firmware_package.variants;
  is_active = pkg.is_active;
  date = pkg_date pkg.firmware_package;
}

unfoldable pub matching : Text → List Package → List Match
matching version [] = []
matching version (pkg ∷ packages) =
    let rest = matching version packages in
    if has_version version pkg.firmware_package.node_firmwares then match_of pkg ∷ rest else rest

abbrev pub all_of : (Match → Bool) → List Match → Bool
all_of test [] = true
all_of test (m ∷ ms) = test m && all_of test ms

unfoldable pub first_where : (Match → Bool) → List Match → Option Match
first_where test [] = none
first_where test (m ∷ ms) = let later = first_where test ms in if test m then some m else later

-- Whether the matches that pass a test are of one series.
abbrev pub one_series : (Match → Bool) → List Match → Bool
one_series test [] = false
one_series test (m ∷ ms) =
    if test m
    then all_of (λ n. not (test n) || same_series n.series m.series) ms
    else one_series test ms

abbrev pub lower : Option ℕ → Option ℕ → Option ℕ
lower none s = s
lower (some s) none = some s
lower (some s) (some t) = if ltb t s then some t else some s

abbrev pub lowest : List Match → Option ℕ
lowest [] = none
lowest (m ∷ ms) = lower m.series (lowest ms)

abbrev pub or_first : Option Match → List Match → Option Match
or_first none ms = first_where (λ m. true) ms
or_first (some m) ms = some m

-- A series that is missing among several cannot be compared.
unfoldable pub choose : List Match → Result (Option Match)
unfolding first_where
choose ms =
    if one_series (λ m. true) ms
    then ok (or_first (first_where (λ m. m.is_active) ms) ms)
    else if one_series (λ m. not m.is_active) ms
    then ok (first_where (λ m. not m.is_active) ms)
    else if all_of (λ m. not (same_series m.series none)) ms
    then ok (first_where (λ m. same_series m.series (lowest ms)) ms)
    else err type_error

unfoldable pub find_series_and_variant : Text → List Package → Result (Option Match)
unfolding matching choose
find_series_and_variant version packages = choose (matching version packages)

-- What `error` says.
pub data CheckError : Type 0 where
  cannot_parse not_found no_active_firmware : CheckError
  fetch_failed : Error → CheckError

pub record CheckResult : Type 0 where
  pub update_available : Bool
  pub device_firmware_date : Option Text
  pub cloud_version : Option Text
  pub cloud_firmware_date : Option Text
  pub series : Option ℕ
  pub error : Option CheckError

abbrev pub failure : CheckError → CheckResult
failure e = record {
  update_available = false;
  device_firmware_date = none;
  cloud_version = none;
  cloud_firmware_date = none;
  series = none;
  error = some e;
}

-- `f"{n:02d}"`
abbrev pub two_digits : ℕ → Text
two_digits n = if ltb n 10 then b'0' ∷ str n else str n

unfoldable pub cloud_text : Latest → Text
unfolding str
cloud_text l = b'R' ∷ b'S' ∷ (two_digits l.rs ++ b'.' ∷ b'0' ∷ b' ' ∷ b'T' ∷ b'S' ∷ str l.ts)

unfoldable pub version_key : Latest → Text
unfolding str
version_key device = str device.rs ++ b'.' ∷ str device.ts

unfoldable pub compared : Latest → Match → Option Latest → CheckResult
unfolding above cloud_text
compared device m none = record (failure no_active_firmware) {
  series = m.series;
  device_firmware_date = m.date;
}
compared device m (some latest) = record {
  update_available = above latest device;
  device_firmware_date = m.date;
  cloud_version = some (cloud_text latest);
  cloud_firmware_date = latest.date;
  series = m.series;
  error = none;
}

module _ (int_of : Text → Option ℕ) where
  abbrev pub version_from : Option ℕ → Option ℕ → Option Latest
  version_from (some rs) (some ts) = some (record { rs = rs; ts = ts; date = none })
  version_from _ _ = none

  abbrev pub parts_read : Option Text → Option Text → Option Latest
  parts_read (some rs) (some ts) = version_from (int_of (split_point rs).0) (int_of ts)
  parts_read _ _ = none

  -- `_parse_rs_ts`
  unfoldable pub parse_rs_ts : Text → Option Latest
  unfolding words_from split_point
  parse_rs_ts text =
      parts_read (first_behind b'R' b'S' (words_from [] text))
        (first_behind b'T' b'S' (words_from [] text))

  abbrev pub with_match : Latest → List Package → Result (Option Match) → Result CheckResult
  with_match device packages (err e) = err e
  with_match device packages (ok none) = ok (failure not_found)
  with_match device packages (ok (some m)) =
      ok (compared device m (get_latest_for_series_and_variant int_of m.series m.variants packages))

  abbrev pub with_packages : Latest → Result (List Package) → Result CheckResult
  with_packages device (err e) = ok (failure (fetch_failed e))
  with_packages device (ok packages) =
      with_match device packages (find_series_and_variant (version_key device) packages)

  abbrev pub with_device : Option Latest → Result (List Package) → Result CheckResult
  with_device none packages = ok (failure cannot_parse)
  with_device (some device) packages = with_packages device packages

  unfoldable pub check_firmware_update : Text → Result (List Package) → Result CheckResult
  unfolding parse_rs_ts
  check_firmware_update firmware_main packages = with_device (parse_rs_ts firmware_main) packages
