-- ===== src/Examples/Mera.antt =====
-- Runs of FrameService.py.
use geberit_aquaclean.Prelude.{ℕ, zero, suc, ◌≡◌, some, List, [], ◌∷◌, replicate}
use geberit_aquaclean.Prelude.Bytes.{Bytes}
use geberit_aquaclean.Frames.Collector.{FrameData}
use geberit_aquaclean.Frames.Service.{new_frame_service, wait_for_info_frames}
use geberit_aquaclean.Frames.Service.Wait.{wait_for_info_frames-ends}

-- An info frame comes in every third sleep.
abbrev arriving : ℕ → ℕ
arriving zero = 1
arriving (suc zero) = 0
arriving (suc (suc zero)) = 0
arriving (suc (suc (suc n))) = arriving n

wait_for_info_frames-ends_example :
    wait_for_info_frames arriving (record new_frame_service { info_frame_count = 4 })
    ≡ some new_frame_service
wait_for_info_frames-ends_example =
    wait_for_info_frames-ends arriving (record new_frame_service { info_frame_count = 4 })

-- A message of three frames, of which the last comes before the second.
abbrev frames : List Bytes
frames = replicate 18 1 ∷ replicate 18 2 ∷ replicate 18 3 ∷ []

abbrev rest : FrameData
rest = (2, replicate 18 3) ∷ (1, replicate 18 2) ∷ []
