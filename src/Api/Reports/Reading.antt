-- ===== src/Api/Reports/Reading.antt =====
-- The layout of a descaling report.
use geberit_aquaclean.Prelude.{ℕ, ◌/◌, ◌%◌, ◌<◌, ◌≡◌, [], ◌∷◌, ◌++◌, arith}
use geberit_aquaclean.Prelude.Bytes.{Bytes, from_le, to_le4}
use geberit_aquaclean.Api.Reports.{StatisticsDescale, descale_result}

abbrev le2 : ℕ → Bytes
le2 n = n % 256 ∷ n / 256 ∷ []

-- The sixteen bytes of a report: counters in one byte, days in two, times in four.
abbrev pub report : StatisticsDescale → Bytes
report s =
    s.unposted_shower_cycles
    ∷ (le2 s.days_until_next_descale
        ++ (le2 s.days_until_shower_restricted
            ++ s.shower_cycles_until_confirmation
              ∷ (to_le4 s.date_time_at_last_descale
                  ++ (to_le4 s.date_time_at_last_descale_prompt
                      ++ le2 s.number_of_descale_cycles))))

pub record FitsReport (s : StatisticsDescale) : Type 0 where
  pub last : s.date_time_at_last_descale < 4294967296
  pub prompt : s.date_time_at_last_descale_prompt < 4294967296

-- Every field of a report is read back, whatever follows it.
pub descale_result-report :
    (s : StatisticsDescale) (rest : Bytes) → FitsReport s → descale_result (report s ++ rest) ≡ s
unfolding descale_result from_le to_le4
descale_result-report s rest h = ground arith
