-- ===== src/Ble20/Identification/Whole.antt =====
-- `get_device_identification` and `poll_state` on a device that may answer anything, or nothing.
use geberit_aquaclean.Prelude.{ℕ, ◌/◌, ◌%◌, ◌≡◌, refl, Option, none, List, [], ◌∷◌, map, ok}
use geberit_aquaclean.Prelude.Bytes.{Bytes}
use geberit_aquaclean.Ble20.Address.{encode_address}
use geberit_aquaclean.Ble20.Client.{Io, ◌>>=◌}
use geberit_aquaclean.Ble20.Inventory.{Inventory}
use geberit_aquaclean.Ble20.Requests.{
  read_cmd, read, optional, poll_each, poll_state, dp_user_detection_status, dp_anal_shower_status,
}
use geberit_aquaclean.Ble20.Requests.Asked.{Answers, optional-Answers, ret-Answers, bind-Answers}
use geberit_aquaclean.Ble20.Identification.{get_device_identification}

-- A request to read a data point that has no instance, its number in two bytes, low one first.
abbrev pub request : ℕ → Bytes
request dp_id = read_cmd ∷ dp_id % 256 ∷ dp_id / 256 % 128 ∷ []

-- Reading one, in front of what follows.
pub then_read :
    {B : Type 0} (dp_id : ℕ) (f : Option Bytes → Io B) (requests : List Bytes)
    → encode_address dp_id none ≡ ok (dp_id % 256 ∷ dp_id / 256 % 128 ∷ [])
    → ((found : Option Bytes) → Answers (f found) requests)
    → Answers (optional (read dp_id none) >>= f) (request dp_id ∷ requests)
then_read dp_id f requests e h =
    bind-Answers (optional (read dp_id none)) f (request dp_id ∷ []) requests
      (optional-Answers dp_id none (dp_id % 256 ∷ dp_id / 256 % 128 ∷ []) e) h

-- Whatever the device answers, `poll_state` raises nothing and sends its two requests.
pub poll_state-Answers :
    Answers poll_state (request dp_user_detection_status ∷ request dp_anal_shower_status ∷ [])
unfolding poll_state poll_each encode_address
poll_state-Answers =
    then_read dp_user_detection_status _ _ refl
      (λ a. then_read dp_anal_shower_status _ _ refl (λ b. ret-Answers _))

-- Whatever the device answers, and whatever its inventory says, the identification raises nothing and
-- sends its thirteen requests in this order.
pub get_device_identification-Answers :
    (inv : Option Inventory)
    → Answers
        (get_device_identification inv)
        (map request (16 ∷ 0 ∷ 1 ∷ 3 ∷ 2 ∷ 4 ∷ 8 ∷ 9 ∷ 304 ∷ 236 ∷ 337 ∷ 371 ∷ 369 ∷ []))
unfolding get_device_identification encode_address
get_device_identification-Answers inv = then_read 16 _ _ refl (λ _. then_read 0 _ _ refl (λ _.
    then_read 1 _ _ refl (λ _. then_read 3 _ _ refl (λ _. then_read 2 _ _ refl (λ _.
      then_read 4 _ _ refl (λ _. then_read 8 _ _ refl (λ _. then_read 9 _ _ refl (λ _.
        then_read 304 _ _ refl (λ _. then_read 236 _ _ refl (λ _.
          then_read 337 _ _ refl (λ _.
            then_read 371 _ _ refl (λ _. then_read 369 _ _ refl (λ _. ret-Answers _)))))))))))))
