-- ===== src/Api/Firmware/Reading.antt =====
-- The texts of versions.
use geberit_aquaclean.Prelude.{ℕ, ◌+◌, ◌≡◌, refl, some, [], ◌∷◌, arith}
use geberit_aquaclean.Prelude.Dict.{lookup, insert}
use geberit_aquaclean.Api.Text.Ascii.{IsGraphic}
use geberit_aquaclean.Api.Firmware.{
  firmware_result, soc_versions_result, shown, version_text, firmware_versions, firmware_records,
  component_of, main_version,
}

shown-graphic : (v : ℕ) → IsGraphic v → shown v ≡ v ∷ []
unfolding shown
shown-graphic v h = ground arith

-- The two responses of a device that has the version "{a}{b}" and the build number n.
pub versions_agree :
    (a b n : ℕ)
    → IsGraphic a
    → IsGraphic b
    → (soc_versions_result (a ∷ b ∷ n ∷ 0 ∷ []) ≡ version_text (a ∷ b ∷ []) n)
      × ((firmware_result (1 ∷ 1 ∷ a ∷ b ∷ n ∷ 0 ∷ [])).main ≡ some (version_text (a ∷ b ∷ []) n))
unfolding soc_versions_result firmware_result firmware_versions firmware_records component_of
    main_version lookup insert
versions_agree a b n ha hb =
    let same : n + 0 ≡ n = omega arith in
    (
      rw (shown-graphic a ha, shown-graphic b hb, same) refl,
      rw (shown-graphic a ha, shown-graphic b hb) refl,
    )
