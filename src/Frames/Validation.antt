-- ===== src/Frames/Validation.antt =====
-- FrameValidation.py and the count of confirmed frames in FrameService.py.
pub mod Marks
use geberit_aquaclean.Prelude.{
  ℕ, zero, suc, ◌+◌, ◌-◌, ◌%◌, bit_and, Option, none, some, [], ◌∷◌, ◌==◌, ltb, if◌then◌else◌,
  length, set, Error, Result, ok, err, ◌>>=◌, index_error,
}
use geberit_aquaclean.Prelude.Bits.{◌<<<◌}
use geberit_aquaclean.Prelude.Bytes.{Bytes, at}

-- The body of the loop of `MarkTransactionOkPackets`: the counters, and what was raised.
unfoldable pub mark_item : Result ℕ → ℕ → ℕ → Bytes → Bytes × Option Error
mark_item (err e) var2 i counters = (counters, some e)
mark_item (ok b) var2 i counters =
    if bit_and b var2 == var2
    then (if ltb i (length counters)
        then (set counters i 255, none)
        else (counters, some index_error))
    else (counters, none)

-- What was raised ends the loop.
unfoldable pub unless_raised :
    Option Error → Bytes × Option Error → Bytes × Option Error → Bytes × Option Error
unless_raised (some e) this later = this
unless_raised none this later = later

-- `for i in range(...)` from `i` on. `groups` is `var4 + 1`, the number of bytes of the mask that
-- were begun.
unfoldable pub mark_loop : ℕ → ℕ → ℕ → ℕ → Bytes → Bytes → Bytes × Option Error
unfolding mark_item unless_raised
mark_loop zero i groups var2 mask counters = (counters, none)
mark_loop (suc n) i groups var2 mask counters =
    let groups' = if i % 8 == 0 then groups + 1 else groups in
    let var2' = if i % 8 == 0 then 1 else var2 <<< 1 in
    let this = mark_item (at mask (groups' - 1)) var2' i counters in
    let later = mark_loop n (suc i) groups' var2' mask this.0 in unless_raised this.1 this later

-- `MarkTransactionOkPackets` on nTxFrameCnt, vTxAckdFrameBitmask and vTxBackLogCtr.
unfoldable pub mark_transaction_ok_packets : ℕ → Bytes → Bytes → Bytes × Option Error
unfolding mark_loop
mark_transaction_ok_packets frame_cnt mask counters = mark_loop frame_cnt 0 0 1 mask counters

-- `_get_highest_ok_frame_cnt`, which raises IndexError past the end of the counters.
unfoldable pub get_highest_ok_frame_cnt : ℕ → Bytes → Result ℕ
get_highest_ok_frame_cnt zero counters = ok 0
get_highest_ok_frame_cnt (suc n) [] = err index_error
get_highest_ok_frame_cnt (suc n) (c ∷ counters) =
    let rest = get_highest_ok_frame_cnt n counters in
    if c == 255 then (rest >>= λ k. ok (suc k)) else ok 0
