-- ===== src/Examples/Firmware.antt =====
-- A choice of the newest firmware.
use geberit_aquaclean.Prelude.{
  ℕ, true, false, Option, none, some, List, [], ◌∷◌, ◌-◌, ◌≡◌, refl, ok,
}
use geberit_aquaclean.Prelude.First.{kept}
use geberit_aquaclean.Api.Text.{Text, text_of}
use geberit_aquaclean.FirmwareUpdate.{
  text_id, number_id, Package, above, get_latest_for_series_and_variant,
}
use geberit_aquaclean.FirmwareUpdate.Check.{
  check_firmware_update, find_series_and_variant, version_key, compared,
}
use geberit_aquaclean.FirmwareUpdate.Check.Newer.{Checked, check_firmware_update-Checked}

-- Numbers of one digit.
abbrev digit_of : Text → Option ℕ
digit_of (c ∷ []) = some (c - 48)
digit_of _ = none

abbrev packages : List Package
packages =
    record {
      firmware_package = record {
        series = some 248;
        variants = 1 ∷ 2 ∷ [];
        package_created_date = text_of "2024-02-05T00:00:00";
        node_firmwares =
            record { node_id = number_id 1; rs_ts_version = text_of "3.2" }
            ∷ record { node_id = text_id (text_of "0x01"); rs_ts_version = text_of "3.4" }
            ∷ record { node_id = number_id 2; rs_ts_version = text_of "9.9" }
            ∷ [];
      };
      is_active = true;
    }
    ∷ record {
      firmware_package = record {
        series = some 248;
        variants = 2 ∷ [];
        package_created_date = [];
        node_firmwares = record { node_id = number_id 1; rs_ts_version = text_of "5.0" } ∷ [];
      };
      is_active = false;
    }
    ∷ []

check_firmware_update-Checked_example :
    Checked digit_of
      (text_of "RS3.0 TS2")
      packages
      (check_firmware_update digit_of (text_of "RS3.0 TS2") (ok packages))
check_firmware_update-Checked_example =
    check_firmware_update-Checked digit_of (text_of "RS3.0 TS2") packages

newest :
    get_latest_for_series_and_variant digit_of (some 248) (2 ∷ []) packages
    ≡ some (record { rs = 3; ts = 4; date = some (text_of "2024-02-05") })
unfolding get_latest_for_series_and_variant kept above
newest = refl

-- The device has version 3.2, and 3.4 is out.
available :
    check_firmware_update digit_of (text_of "RS3.0 TS2") (ok packages)
    ≡ ok (record {
      update_available = true;
      device_firmware_date = some (text_of "2024-02-05");
      cloud_version = some (text_of "RS03.0 TS4");
      cloud_firmware_date = some (text_of "2024-02-05");
      series = some 248;
      error = none;
    })
unfolding check_firmware_update find_series_and_variant version_key compared
    get_latest_for_series_and_variant kept above
available = refl
