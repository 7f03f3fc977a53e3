-- ===== src/Api/Records.antt =====
-- The records of five bytes in the responses to GetSystemParameterList and GetFilterStatus: an id and a
-- value in four bytes, low one first. The calls' files parse them; this is their layout.
use geberit_aquaclean.Prelude.{ℕ, ◌*◌, ◌<◌, ◌≡◌, refl, List, [], ◌∷◌, ◌++◌, length, arith}
use geberit_aquaclean.Prelude.Bytes.{Bytes, to_le4}

abbrev pub Records : Type 0
Records = List (ℕ × ℕ)

unfoldable pub flat : Records → Bytes
flat [] = []
flat (entry ∷ records) = entry.0 ∷ (to_le4 entry.1 ++ flat records)

abbrev pub FitsWord : ℕ × ℕ → Type 0
FitsWord entry = entry.1 < 4294967296

pub length-flat : (records : Records) → length (flat records) ≡ 5 * length records
unfolding flat to_le4
length-flat [] = refl
length-flat (entry ∷ records) = omega (arith, length-flat records)
