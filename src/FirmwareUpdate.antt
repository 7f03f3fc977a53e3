-- ===== src/FirmwareUpdate.antt =====
-- FirmwareUpdateService.py: the newest firmware among the packages. Python's `int` of a text is the
-- parameter `int_of`, without a value where it raises ValueError; the versions are not negative, and
-- `rsTsVersion` is a text where it is there at all.
pub mod Newest
pub mod Check
use geberit_aquaclean.Prelude.{
  ℕ, Bool, true, false, not, ◌&&◌, ◌||◌, Option, none, some, List, [], ◌∷◌, ◌==◌, ltb,
  if◌then◌else◌, take,
}
use geberit_aquaclean.Prelude.First.{kept}
use geberit_aquaclean.Api.Text.{Text, text_of}

-- `nodeId` as it stands in the JSON.
pub data NodeId : Type 0 where
  text_id : Text → NodeId
  number_id : ℕ → NodeId
  no_id : NodeId

pub record NodeFirmware : Type 0 where
  pub node_id : NodeId
  pub rs_ts_version : Text

pub record FirmwarePackage : Type 0 where
  pub series : Option ℕ
  pub variants : List ℕ
  pub package_created_date : Text
  pub node_firmwares : List NodeFirmware

pub record Package : Type 0 where
  pub firmware_package : FirmwarePackage
  pub is_active : Bool

pub record Latest : Type 0 where
  pub rs : ℕ
  pub ts : ℕ
  pub date : Option Text

-- `_pkg_date`
unfoldable pub pkg_date : FirmwarePackage → Option Text
pkg_date fp = elim fp.package_created_date [ [] ↦ none | c ∷ raw ↦ some (take 10 (c ∷ raw)) ]

abbrev pub same_text : Text → Text → Bool
same_text [] [] = true
same_text (c ∷ s) (d ∷ t) = c == d && same_text s t
same_text _ _ = false

-- `node.get("nodeId") in ("0x01", 1)`
abbrev pub is_main : NodeId → Bool
is_main (text_id t) = same_text t (text_of "0x01")
is_main (number_id n) = n == 1
is_main no_id = false

-- What stands before the first point, and what behind it, if there is one.
unfoldable pub split_point : Text → Text × Option Text
split_point [] = ([], none)
split_point (c ∷ text) =
    let rest = split_point text in if c == b'.' then ([], some text) else (c ∷ rest.0, rest.1)

-- `(rs, ts) > (best[0], best[1])`
unfoldable pub above : Latest → Latest → Bool
above v m = ltb m.rs v.rs || (v.rs == m.rs && ltb m.ts v.ts)

abbrev pub has_number : ℕ → List ℕ → Bool
has_number n [] = false
has_number n (m ∷ ms) = m == n || has_number n ms

abbrev pub shares : List ℕ → List ℕ → Bool
shares [] variants = false
shares (v ∷ vs) variants = has_number v variants || shares vs variants

-- No variants, or one that the package has.
abbrev pub fits_variants : List ℕ → List ℕ → Bool
fits_variants [] variants = true
fits_variants (v ∷ vs) variants = shares (v ∷ vs) variants

abbrev pub same_series : Option ℕ → Option ℕ → Bool
same_series none none = true
same_series (some s) (some t) = s == t
same_series _ _ = false

module _ (int_of : Text → Option ℕ) where
  abbrev pub joined_version : Option ℕ → Option ℕ → Option Text → Option Latest
  joined_version (some rs) (some ts) date = some (record { rs = rs; ts = ts; date = date })
  joined_version _ _ date = none

  abbrev pub parsed_parts : Text × Option Text → Option Text → Option Latest
  parsed_parts (first, none) date = none
  parsed_parts (first, some rest) date =
      joined_version (int_of first) (int_of (split_point rest).0) date

  -- The version of a node, unless it has no point or a part of it is no number.
  unfoldable pub parsed : Text → Option Text → Option Latest
  unfolding split_point
  parsed rv date = parsed_parts (split_point rv) date

  abbrev pub kept_if : Option Latest → Option Latest → Option Latest
  kept_if best none = best
  kept_if best (some v) = kept above best v

  -- `for node in fp.get("nodeFirmwares", [])`
  unfoldable pub visit_nodes : Option Text → List NodeFirmware → Option Latest → Option Latest
  unfolding parsed
  visit_nodes date [] best = best
  visit_nodes date (node ∷ nodes) best =
      visit_nodes date nodes
        (if is_main node.node_id then kept_if best (parsed node.rs_ts_version date) else best)

  unfoldable pub visit_package : Option ℕ → List ℕ → Package → Option Latest → Option Latest
  unfolding visit_nodes pkg_date
  visit_package series variants pkg best =
      let fp = pkg.firmware_package in
      if not pkg.is_active
      then best
      else if not (same_series fp.series series)
      then best
      else if not (fits_variants variants fp.variants)
      then best
      else visit_nodes (pkg_date fp) fp.node_firmwares best

  -- `for pkg in packages`
  unfoldable pub visit_packages : Option ℕ → List ℕ → List Package → Option Latest → Option Latest
  unfolding visit_package
  visit_packages series variants [] best = best
  visit_packages series variants (pkg ∷ packages) best =
      visit_packages series variants packages (visit_package series variants pkg best)

  unfoldable pub get_latest_for_series_and_variant :
      Option ℕ → List ℕ → List Package → Option Latest
  unfolding visit_packages
  get_latest_for_series_and_variant series variants packages =
      visit_packages series variants packages none
