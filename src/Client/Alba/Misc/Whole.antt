-- ===== src/Client/Alba/Misc/Whole.antt =====
-- What `get_misc_state_async` asks of the device.
use geberit_aquaclean.Prelude.{ℕ, refl, Option, List, [], ◌∷◌, map}
use geberit_aquaclean.Prelude.Bytes.{Bytes}
use geberit_aquaclean.Api.Text.{Text}
use geberit_aquaclean.Ble20.Address.{encode_address}
use geberit_aquaclean.Ble20.Requests.Asked.{Answers, ret-Answers, bind-Answers}
use geberit_aquaclean.Ble20.Identification.Whole.{request, then_read}
use geberit_aquaclean.Client.Alba.Base.Reads.{then_number}
use geberit_aquaclean.Client.Alba.Misc.{
  read_shower, read_descaling, read_operation, read_errors, read_modes, get_misc_state_async,
}

read_shower-Answers : Answers read_shower (map request (567 ∷ 571 ∷ 573 ∷ 575 ∷ 577 ∷ []))
unfolding read_shower encode_address
read_shower-Answers = then_number 567 _ _ refl (λ _. then_number 571 _ _ refl (λ _.
    then_number 573 _ _ refl
      (λ _. then_number 575 _ _ refl (λ _. then_number 577 _ _ refl (λ _. ret-Answers _)))))

read_descaling-Answers :
    (utc_time : ℕ → Option Text)
    → Answers
        (read_descaling utc_time)
        (map request (585 ∷ 589 ∷ 592 ∷ 781 ∷ 977 ∷ 979 ∷ 983 ∷ 588 ∷ 590 ∷ 591 ∷ []))
unfolding read_descaling encode_address
read_descaling-Answers utc_time = then_number 585 _ _ refl (λ _. then_number 589 _ _ refl (λ _.
    then_number 592 _ _ refl (λ _. then_number 781 _ _ refl (λ _. then_number 977 _ _ refl (λ _.
      then_number 979 _ _ refl (λ _. then_number 983 _ _ refl (λ _.
        then_number 588 _ _ refl (λ _.
          then_number 590 _ _ refl (λ _. then_number 591 _ _ refl (λ _. ret-Answers _))))))))))

read_operation-Answers :
    (utc_time : ℕ → Option Text)
    → Answers (read_operation utc_time) (map request (607 ∷ 15 ∷ 148 ∷ 149 ∷ []))
unfolding read_operation encode_address
read_operation-Answers utc_time = then_number 607 _ _ refl (λ _.
    then_number 15 _ _ refl
      (λ _. then_number 148 _ _ refl (λ _. then_number 149 _ _ refl (λ _. ret-Answers _))))

read_errors-Answers :
    Answers read_errors (map request (93 ∷ 764 ∷ 765 ∷ 766 ∷ 789 ∷ 790 ∷ 820 ∷ 982 ∷ []))
unfolding read_errors encode_address
read_errors-Answers = then_number 93 _ _ refl (λ _. then_number 764 _ _ refl (λ _.
    then_number 765 _ _ refl (λ _. then_number 766 _ _ refl (λ _. then_number 789 _ _ refl (λ _.
      then_number 790 _ _ refl
        (λ _. then_number 820 _ _ refl (λ _. then_number 982 _ _ refl (λ _. ret-Answers _))))))))

read_modes-Answers :
    Answers read_modes (map request (795 ∷ 803 ∷ 810 ∷ 796 ∷ 8 ∷ 9 ∷ 10 ∷ 69 ∷ 12 ∷ []))
unfolding read_modes encode_address
read_modes-Answers = then_number 795 _ _ refl (λ _. then_number 803 _ _ refl (λ _.
    then_number 810 _ _ refl (λ _. then_number 796 _ _ refl (λ _. then_number 8 _ _ refl (λ _.
      then_number 9 _ _ refl (λ _.
        then_number 10 _ _ refl
          (λ _. then_number 69 _ _ refl (λ _. then_read 12 _ _ refl (λ _. ret-Answers _)))))))))

-- The order of the requests.
abbrev pub misc_requests : List Bytes
misc_requests = map request (
    567 ∷ 571 ∷ 573 ∷ 575 ∷ 577 ∷ 585 ∷ 589 ∷ 592 ∷ 781 ∷ 977 ∷ 979 ∷ 983 ∷ 588 ∷ 590 ∷ 591 ∷ 607
    ∷ 15 ∷ 148 ∷ 149 ∷ 93 ∷ 764 ∷ 765 ∷ 766 ∷ 789 ∷ 790 ∷ 820 ∷ 982 ∷ 795 ∷ 803 ∷ 810 ∷ 796 ∷ 8 ∷ 9
    ∷ 10 ∷ 69 ∷ 12 ∷ [])

-- Whatever the device answers, the state is read without an exception, by these requests in this order
-- and no others.
pub get_misc_state_async-Answers :
    (utc_time : ℕ → Option Text) → Answers (get_misc_state_async utc_time) misc_requests
unfolding get_misc_state_async
get_misc_state_async-Answers utc_time = bind-Answers read_shower _ _ _ read_shower-Answers (λ _.
    bind-Answers (read_descaling utc_time) _ _ _ (read_descaling-Answers utc_time) (λ _.
      bind-Answers (read_operation utc_time) _ _ _ (read_operation-Answers utc_time) (λ _.
        bind-Answers read_errors _ _ _ read_errors-Answers
          (λ _. bind-Answers read_modes _ _ [] read_modes-Answers (λ _. ret-Answers _)))))
