-- ===== src/Client/Alba/Shower.antt =====
-- The toggles of the showers, and what the two views of the anal shower make of one status.
use geberit_aquaclean.Prelude.{
  ℕ, ◌≡◌, ◌≢◌, ◌↔◌, arith, refl, ap, ◌∙◌, Bool, true, false, Option, none, some, List, [], ◌∷◌,
  ◌++◌, append_assoc, leb, ltb, inl, inr, Bool-cases, ◌==◌, not, if◌then◌else◌, get_or, Result, ok,
  err,
}
use geberit_aquaclean.Prelude.Bytes.{Bytes}
use geberit_aquaclean.Prelude.Dict.{lookup}
use geberit_aquaclean.Ble20.Address.{encode_address}
use geberit_aquaclean.Ble20.Client.{Ble20, and_run}
use geberit_aquaclean.Ble20.Requests.{read, write, write_cmd, caught, dp_anal_shower_status}
use geberit_aquaclean.Ble20.Requests.Asked.{read-Sends, write-Sends}
use geberit_aquaclean.Ble20.Identification.Whole.{request}
use geberit_aquaclean.Client.Alba.Base.{number_of, spl_value, all_parameters}
use geberit_aquaclean.Client.Alba.{
  alba_args, anal_toggle, toggle_anal_shower, dp_start_stop_anal_shower,
}

-- What an optional read makes of what `read` returns.
abbrev pub value_of : Result Bytes → Option Bytes
value_of (err e) = none
value_of (ok value) = some value

caught_lem : (r : Result Bytes × Ble20) → caught r ≡ (ok (value_of r.0), r.1)
unfolding caught
caught_lem (err e, c) = refl
caught_lem (ok value, c) = refl

-- What is written after this outcome of the read: 0 for a status of 3 or more, and otherwise 1.
abbrev pub toggled : Result Bytes → ℕ
toggled (err e) = 1
toggled (ok []) = 1
toggled (ok (status ∷ bytes)) = if ltb status 3 then 1 else 0

anal_toggle-toggled : (r : Result Bytes) → anal_toggle (value_of r) ≡ toggled r ∷ []
unfolding anal_toggle
anal_toggle-toggled (err e) = refl
anal_toggle-toggled (ok []) = refl
anal_toggle-toggled (ok (status ∷ bytes)) = elim (Bool-cases (leb 3 status)) [
  | inl e ↦ let high : ltb status 3 ≡ false = ground arith in rw (e, high) refl
  | inr e ↦ let low : ltb status 3 ≡ true = ground arith in rw (e, low) refl
]

-- The status is asked for, and then a 0 is written if its first byte is 3 or more, and a 1 if it is less, or
-- if the read fails.
pub toggle_anal_shower-Sends :
    (c : Ble20)
    → (toggle_anal_shower c).1.sent
      ≡ c.sent
        ++ request dp_anal_shower_status
          ∷ (write_cmd ∷ 51 ∷ 2 ∷ toggled (read dp_anal_shower_status none c).0 ∷ [])
          ∷ []
unfolding toggle_anal_shower
toggle_anal_shower-Sends c =
    let r = read dp_anal_shower_status none c in
    let value : Bytes = anal_toggle (value_of r.0) in
    ap (λ o. (and_run o (λ raw. write dp_start_stop_anal_shower (anal_toggle raw) none)).1.sent)
      (caught_lem r)
    ∙ write-Sends dp_start_stop_anal_shower value (51 ∷ 2 ∷ []) (unfold encode_address in refl) r.1
    ∙ ap (λ l. l ++ (write_cmd ∷ 51 ∷ 2 ∷ value) ∷ [])
        (read-Sends dp_anal_shower_status none (52 ∷ 2 ∷ []) (unfold encode_address in refl) c)
    ∙ append_assoc c.sent (request dp_anal_shower_status ∷ []) ((write_cmd ∷ 51 ∷ 2 ∷ value) ∷ [])
    ∙ ap (λ l. c.sent ++ request dp_anal_shower_status ∷ (write_cmd ∷ 51 ∷ 2 ∷ l) ∷ [])
        (anal_toggle-toggled r.0)

some-eq : (a b : Bool) → some a ≡ some b → a ≡ b
some-eq a b h = cc

views_agree : (b : ℕ) → (not (b == 0) ≡ not ((if leb 3 b then 1 else 0) == 0)) ↔ ((b ≢ 1) × (b ≢ 2))
views_agree b = ((λ h. ((λ e. ground arith), (λ e. ground arith))), (λ (p, q). ground arith))

-- With a status of one byte, the event and the parameter list agree whether the anal shower runs if and only
-- if the status is neither 1 (Disabled) nor 2 (Ready).
pub alba_args-all_parameters :
    (state : List (ℕ × Bytes)) (b : ℕ)
    → lookup dp_anal_shower_status state ≡ some (b ∷ [])
    → ((alba_args state).is_anal_shower_running
        ≡ some (not (get_or (all_parameters state) 3 0 == 0)))
      ↔ ((b ≢ 1) × (b ≢ 2))
unfolding alba_args all_parameters spl_value number_of
alba_args-all_parameters state b h =
    rw h ((λ e. (views_agree b).0 (some-eq _ _ e)), (λ p. ap some ((views_agree b).1 p)))
