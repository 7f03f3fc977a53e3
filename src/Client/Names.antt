-- ===== src/Client/Names.antt =====
-- DeviceNameUtil.py: the names of device series and variants.
use geberit_aquaclean.Prelude.{ℕ, none, some, List, [], ◌∷◌, ◌++◌, ◌==◌, if◌then◌else◌}
use geberit_aquaclean.Prelude.Dict.{lookup}
use geberit_aquaclean.Api.Text.{Text, str, text_of}

abbrev pub aquaclean : ℕ
aquaclean = 250

abbrev pub aquaclean_old : ℕ
aquaclean_old = 248

abbrev pub series_names : List (ℕ × Text)
series_names =
    (aquaclean, text_of "Aquaclean")
    ∷ (aquaclean_old, text_of "AqC")
    ∷ (249, text_of "WC Flush")
    ∷ (251, text_of "Converter")
    ∷ (252, text_of "GAM")
    ∷ (253, text_of "Lavatory Tap")
    ∷ (254, text_of "Urinal")
    ∷ (255, text_of "Platform")
    ∷ (247, text_of "Sanitary Flush Unit")
    ∷ (246, text_of "Smart Sensor")
    ∷ (245, text_of "Gateway")
    ∷ (244, text_of "Mirror Cabinet")
    ∷ (243, text_of "Illuminated Mirror")
    ∷ (242, text_of "Washbasin Cabinet")
    ∷ (241, text_of "Shelf Unit")
    ∷ (240, text_of "Remote Control")
    ∷ (239, text_of "Monolith")
    ∷ (238, text_of "Sanitary Flush Unit")
    ∷ (237, text_of "AquaClean Node")
    ∷ []

abbrev pub aquaclean_variant_names : List (ℕ × Text)
aquaclean_variant_names =
    (0, text_of "Alba")
    ∷ (1, text_of "Mera Comfort")
    ∷ (2, text_of "Mera Classic")
    ∷ (3, text_of "Alba Wifi")
    ∷ []

abbrev pub aquaclean_old_variant_names : List (ℕ × Text)
aquaclean_old_variant_names =
    (0, text_of "Unknown")
    ∷ (1, text_of "Mera Floorstanding")
    ∷ (2, text_of "Mera Classic")
    ∷ (3, text_of "Mera Comfort")
    ∷ (4, text_of "Tuma Classic")
    ∷ (5, text_of "Tuma Comfort")
    ∷ (6, text_of "Sela")
    ∷ (7, text_of "Cama Testset")
    ∷ (8, text_of "Cama")
    ∷ (9, text_of "SSM 12V")
    ∷ []

-- The name in a table, or the number in brackets behind `what`.
unfoldable pub name_or : List (ℕ × Text) → Text → ℕ → Text
unfolding str
name_or names what n = elim (lookup n names) [
  | none ↦ what ++ (b'(' ∷ (str n ++ b')' ∷ []))
  | some name ↦ name
]

unfoldable pub get_series_name : ℕ → Text
unfolding name_or
get_series_name series = name_or series_names (text_of "Unknown") series

-- The variant as it follows the name of the series. Only two series name their variants, and only a
-- series without a name shows the number of its variant.
unfoldable pub variant_suffix : ℕ → ℕ → Text
unfolding name_or
variant_suffix series variant = elim (lookup series series_names) [
  | none ↦ b' ' ∷ str variant
  | some name ↦
      if series == aquaclean
      then b' ' ∷ name_or aquaclean_variant_names (text_of "Variant") variant
      else if series == aquaclean_old
      then b' ' ∷ name_or aquaclean_old_variant_names (text_of "Variant") variant
      else []
]

unfoldable pub get_full_name : ℕ → ℕ → Text
unfolding get_series_name variant_suffix
get_full_name series variant = get_series_name series ++ variant_suffix series variant
