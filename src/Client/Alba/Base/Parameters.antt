-- ===== src/Client/Alba/Base/Parameters.antt =====
-- The parameter list that is made of a poll.
use geberit_aquaclean.Prelude.{
  ℕ, suc, ◌-◌, ◌<◌, ◌≡◌, refl, ap, ◌∙◌, subst, false, none, some, List, [], ◌∷◌, ◌++◌, ◌==◌, ltb,
  ltb→lt, Bool-cases, inl, inr, if◌then◌else◌, All, arith, map, length, length-append,
  length-replicate, replicate, get_or, Result, ok, err, lt→ltb,
}
use geberit_aquaclean.Prelude.Bytes.{Bytes}
use geberit_aquaclean.Prelude.Dict.{lookup, insert, lookup-insert_other}
use geberit_aquaclean.Api.Parameters.{SystemParameterList}
use geberit_aquaclean.Ble20.Client.{Ble20, and_run}
use geberit_aquaclean.Ble20.Requests.{
  read, caught, poll_each, poll_state, dp_user_detection_status, dp_anal_shower_status,
}
use geberit_aquaclean.Ble20.Identification.Whole.{request, poll_state-Answers}
use geberit_aquaclean.Client.Alba.Base.{
  dp_lady_shower_status, spl_value, all_parameters, select_parameters,
  get_system_parameter_list_async,
}

-- A result has no value for the data point.
abbrev Lacks : ℕ → Result (List (ℕ × Bytes)) × Ble20 → Type 0
Lacks dp_id (err e, c) = Unit
Lacks dp_id (ok state, c) = lookup dp_id state ≡ none

-- One poll, in front of the rest.
polled-Lacks :
    (dp_id polled : ℕ) (dp_ids : List ℕ) (result : List (ℕ × Bytes)) (r : Result Bytes × Ble20)
    → ((c : Ble20) → Lacks dp_id (poll_each dp_ids result c))
    → ((value : Bytes) (c : Ble20) → Lacks dp_id (poll_each dp_ids (insert polled value result) c))
    → Lacks dp_id (
        and_run (caught r) (λ found.
          poll_each dp_ids
            (elim found [ none ↦ result | some value ↦ insert polled value result ])))
unfolding caught
polled-Lacks dp_id polled dp_ids result (err e, c) h k = h c
polled-Lacks dp_id polled dp_ids result (ok value, c) h k = k value c

-- What is not polled is not in the state.
poll_each-Lacks :
    (dp_id : ℕ) (dp_ids : List ℕ) (result : List (ℕ × Bytes)) (c : Ble20)
    → All (λ polled. (polled == dp_id) ≡ false) dp_ids
    → lookup dp_id result ≡ none
    → Lacks dp_id (poll_each dp_ids result c)
unfolding poll_each
poll_each-Lacks dp_id [] result c h k = k
poll_each-Lacks dp_id (polled ∷ dp_ids) result c (h, hs) k =
    polled-Lacks dp_id polled dp_ids result (read polled none c)
      (λ c'. poll_each-Lacks dp_id dp_ids result c' hs k)
      (λ value c'.
        poll_each-Lacks dp_id dp_ids (insert polled value result) c' hs
          (lookup-insert_other polled dp_id value result h ∙ k))

poll_state-lady : (c : Ble20) → Lacks dp_lady_shower_status (poll_state c)
unfolding poll_state lookup
poll_state-lady c =
    poll_each-Lacks dp_lady_shower_status (dp_user_detection_status ∷ dp_anal_shower_status ∷ []) []
      c (refl, (refl, tt)) refl

all_parameters-lady :
    (state : List (ℕ × Bytes))
    → lookup dp_lady_shower_status state ≡ none
    → get_or (all_parameters state) 2 0 ≡ 0
unfolding all_parameters spl_value
all_parameters-lady state h = rw h refl

length-map : (f : ℕ → ℕ) (xs : List ℕ) → length (map f xs) ≡ length xs
length-map f [] = refl
length-map f (x ∷ xs) = ap suc (length-map f xs)

-- Twelve values, however many are asked for.
length-select :
    (all_data params : List ℕ)
    → length all_data ≡ 12
    → length (select_parameters all_data params) ≡ 12
unfolding select_parameters
length-select all_data [] h = h
length-select all_data (p ∷ params) h = elim (Bool-cases (ltb (length (p ∷ params)) 12)) [
  | inl e ↦
      let k : length (p ∷ params) < 12 = ltb→lt _ _ e in
      let chosen : List ℕ = map (λ i. get_or all_data i 0) (p ∷ params) in
      let zeros : List ℕ = replicate (12 - length (p ∷ params)) 0 in
      rw e (
        omega (
          arith,
          k,
          length-append chosen zeros,
          length-map (λ i. get_or all_data i 0) (p ∷ params),
          length-replicate {A = ℕ} (12 - length (p ∷ params)) 0,
        ))
  | inr e ↦ rw e h
]

-- At every position where parameter 2 is asked for, the value is 0.
abbrev pub IsLadyOff : List ℕ → List ℕ → Type 0
IsLadyOff [] values = Unit
IsLadyOff (p ∷ params) [] = Unit
IsLadyOff (p ∷ params) (value ∷ values) =
    ((if p == 2 then value else 0) ≡ 0) × IsLadyOff params values

chosen-IsLadyOff :
    (f : ℕ → ℕ) (params rest : List ℕ) → f 2 ≡ 0 → IsLadyOff params (map f params ++ rest)
chosen-IsLadyOff f [] rest h = tt
chosen-IsLadyOff f (p ∷ params) rest h = (
  elim (Bool-cases (p == 2)) [
    | inl e ↦ let two : p ≡ 2 = ground arith in rw e (ap f two ∙ h)
    | inr e ↦ rw e refl
  ],
  chosen-IsLadyOff f params rest h,
)

select-IsLadyOff :
    (all_data params : List ℕ)
    → length params < 12
    → get_or all_data 2 0 ≡ 0
    → IsLadyOff params (select_parameters all_data params)
unfolding select_parameters
select-IsLadyOff all_data [] k h = tt
select-IsLadyOff all_data (p ∷ params) k h =
    rw (lt→ltb (length (p ∷ params)) 12 k)
      (chosen-IsLadyOff (λ i. get_or all_data i 0) (p ∷ params) _ h)

-- Whatever the device answers, twelve values are returned for less than twelve parameters after the two
-- requests of `poll_state`, and where the lady shower is asked for, its value is 0: it is not polled.
pub get_system_parameter_list_async-IsLadyOff :
    (params : List ℕ) (c : Ble20)
    → length params < 12
    → (l : SystemParameterList) × (c' : Ble20) × (get_system_parameter_list_async params c
        ≡ (ok l, c'))
      × (c'.sent ≡ c.sent ++ request dp_user_detection_status ∷ request dp_anal_shower_status ∷ [])
      × (length l.data_array ≡ 12)
      × IsLadyOff params l.data_array
unfolding get_system_parameter_list_async
get_system_parameter_list_async-IsLadyOff params c few =
    let (state, c', e, s) = poll_state-Answers c in
    let lacks : lookup dp_lady_shower_status state ≡ none =
      subst (Lacks dp_lady_shower_status) e (poll_state-lady c) in
    (
      record { a = 0; data_array = select_parameters (all_parameters state) params },
      c',
      ap
          (λ r. and_run r (λ (state : List (ℕ × Bytes)) (c : Ble20). (
            ok (record { a = 0; data_array = select_parameters (all_parameters state) params }),
            c,
          )))
          e,
      s,
      length-select (all_parameters state) params (unfold all_parameters in refl),
      select-IsLadyOff (all_parameters state) params few (all_parameters-lady state lacks),
    )
