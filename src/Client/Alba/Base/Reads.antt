-- ===== src/Client/Alba/Base/Reads.antt =====
-- What the readers return and send, whatever the device answers.
use geberit_aquaclean.Prelude.{ℕ, ◌/◌, ◌%◌, ◌≡◌, refl, Option, none, List, [], ◌∷◌, map, ok}
use geberit_aquaclean.Prelude.Bytes.{Bytes}
use geberit_aquaclean.Ble20.Address.{encode_address}
use geberit_aquaclean.Ble20.Client.{Io, ◌>>=◌}
use geberit_aquaclean.Ble20.Requests.Asked.{Answers, ret-Answers, bind-Answers}
use geberit_aquaclean.Ble20.Identification.Whole.{request, then_read}
use geberit_aquaclean.Client.Alba.Base.{
  number_read, read_number, get_misc_state_fast_async, read_settings,
  get_stored_profile_settings_async,
}

-- Reading a number, in front of what follows.
pub then_number :
    {B : Type 0} (dp_id : ℕ) (f : Option ℕ → Io B) (requests : List Bytes)
    → encode_address dp_id none ≡ ok (dp_id % 256 ∷ dp_id / 256 % 128 ∷ [])
    → ((n : Option ℕ) → Answers (f n) requests)
    → Answers (read_number dp_id >>= f) (request dp_id ∷ requests)
unfolding read_number
then_number dp_id f requests e h =
    bind-Answers (read_number dp_id) f (request dp_id ∷ []) requests
      (then_read dp_id _ [] e (λ raw. ret-Answers (number_read raw))) h

-- The nine numbers are read in this order.
pub get_misc_state_fast_async-Answers :
    Answers get_misc_state_fast_async
      (map request (571 ∷ 573 ∷ 575 ∷ 577 ∷ 567 ∷ 585 ∷ 589 ∷ 588 ∷ 607 ∷ []))
unfolding get_misc_state_fast_async encode_address
get_misc_state_fast_async-Answers = then_number 571 _ _ refl (λ _. then_number 573 _ _ refl (λ _.
    then_number 575 _ _ refl (λ _. then_number 577 _ _ refl (λ _. then_number 567 _ _ refl (λ _.
      then_number 585 _ _ refl (λ _.
        then_number 589 _ _ refl
          (λ _. then_number 588 _ _ refl (λ _. then_number 607 _ _ refl (λ _. ret-Answers _)))))))))

-- The four settings are read in this order.
pub get_stored_profile_settings_async-Answers :
    Answers get_stored_profile_settings_async (map request (583 ∷ 580 ∷ 581 ∷ 582 ∷ []))
unfolding get_stored_profile_settings_async read_settings encode_address
get_stored_profile_settings_async-Answers = then_read 583 _ _ refl (λ a.
    then_read 580 _ _ refl
      (λ b. then_read 581 _ _ refl (λ c. then_read 582 _ _ refl (λ d. ret-Answers _))))
