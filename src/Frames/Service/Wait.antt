-- ===== src/Frames/Service/Wait.antt =====
-- How the wait for the info frames ends.
use geberit_aquaclean.Prelude.{
  ℕ, zero, suc, ◌+◌, ◌-◌, ◌<◌, ◌≤◌, ◌≡◌, refl, ap, Bool, true, false, Bool-cases, inl, inr, Option,
  none, some, ◌==◌, ltb, if◌then◌else◌, arith,
}
use geberit_aquaclean.Frames.Service.{
  FrameService, is_last, wait_loop, waited, wait_for_info_frames,
}

abbrev Ends : Option ℕ → Type 0
Ends r = (n : ℕ) × (r ≡ some n)

-- 1 when the count has changed since the last iteration.
abbrev changed : Bool → ℕ
changed b = if b then 0 else 1

abbrev counted : Bool → ℕ → ℕ
counted b unchanged = if b then unchanged + 1 else unchanged

-- What an iteration that goes on uses up.
used_up :
    (b : Bool) (count unchanged more fuel : ℕ)
    → count < 10
    → counted b unchanged ≤ 20
    → (10 - count) + (20 - unchanged) + changed b < suc fuel
    → (10 - (count + more)) + (20 - counted b unchanged) + changed (count == count + more) < fuel
used_up true count unchanged more fuel hc hu h = ground arith
used_up false count unchanged more fuel hc hu h = ground arith

wait_loop-Ends :
    (fuel : ℕ) (during : ℕ → ℕ) (n count : ℕ) (last : Option ℕ) (unchanged : ℕ)
    → (10 - count) + (20 - unchanged) + changed (is_last last count) < fuel
    → Ends (wait_loop fuel during n count last unchanged)
unfolding wait_loop is_last
wait_loop-Ends zero during n count last unchanged h = absurd (omega arith)
wait_loop-Ends (suc fuel) during n count last unchanged h =
    let u = counted (is_last last count) unchanged in
    elim (Bool-cases (ltb count 10)) [
      | inr e ↦ (n, rw e refl)
      | inl e ↦ elim (Bool-cases (ltb 20 u)) [
        | inl k ↦ (n, rw (e, k) refl)
        | inr k ↦
            let (m, found) = wait_loop-Ends fuel during (suc n) (count + during n) (some count) u (
              used_up (is_last last count) count unchanged (during n) fuel (ground arith)
                (ground arith) h) in
            (m, rw (e, k) found)
      ]
    ]

-- However the info frames arrive, the wait ends within 33 iterations, and the count is 0 again.
pub wait_for_info_frames-ends :
    (during : ℕ → ℕ) (s : FrameService)
    → wait_for_info_frames during s ≡ some (record s { info_frame_count = 0 })
unfolding wait_for_info_frames waited is_last
wait_for_info_frames-ends during s =
    let (n, e) = wait_loop-Ends 33 during 0 s.info_frame_count none 0 (omega arith) in
    ap (waited s) e
