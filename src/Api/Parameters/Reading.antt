-- ===== src/Api/Parameters/Reading.antt =====
-- What `result` makes of a response: `a`, and the values of the records behind it.
use geberit_aquaclean.Prelude.{
  ℕ, suc, ◌+◌, ◌-◌, ◌*◌, ◌/◌, ◌%◌, ◌<◌, ◌≡◌, refl, ap, sym, ◌∙◌, List, [], ◌∷◌, ◌++◌, length,
  length-append, append_assoc, append-nil, map, All, arith, ok, err, index_error,
}
use geberit_aquaclean.Prelude.Bytes.{Bytes, IsByte, to_le4, from_le-to_le4}
use geberit_aquaclean.Prelude.Io.{and_run}
use geberit_aquaclean.Api.Records.{Records, flat, length-flat, FitsWord}
use geberit_aquaclean.Api.Deserializer.{
  read_numbers, deserialize_to_int, deserialize, deserialize_from, reverse_at, join_from, Value,
  int_value, ints_value,
}
use geberit_aquaclean.Api.Deserializer.Int.{deserialize_to_int-here}
use geberit_aquaclean.Api.Parameters.{
  parameters_result, parameter_list_of, system_parameter_list_fields,
}

-- The bytes of a word, high one first.
abbrev pub to_be4 : ℕ → Bytes
to_be4 n = n / 16777216 % 256 ∷ n / 65536 % 256 ∷ n / 256 % 256 ∷ n % 256 ∷ []

-- The records as `result` leaves them: the bytes of each value are reversed.
unfoldable pub flat_reversed : Records → Bytes
flat_reversed [] = []
flat_reversed (entry ∷ records) = entry.0 ∷ (to_be4 entry.1 ++ flat_reversed records)

behind_id :
    (before : Bytes) (id : ℕ) (rest : Bytes) → (before ++ id ∷ []) ++ rest ≡ before ++ id ∷ rest
behind_id [] id rest = refl
behind_id (b ∷ before) id rest = ap (λ l. b ∷ l) (behind_id before id rest)

-- One round, behind `before`.
read_record :
    (before : Bytes) (i id v : ℕ) (rest : Bytes)
    → i * 5 + 1 ≡ length before
    → v < 4294967296
    → deserialize_to_int (i * 5 + 1 + 1) 4 (before ++ id ∷ (to_le4 v ++ rest))
      ≡ (ok v, before ++ id ∷ (to_be4 v ++ rest))
unfolding to_le4
read_record before i id v rest e h =
    let word : Bytes = to_le4 v in
    let here =
      deserialize_to_int-here (before ++ id ∷ []) (v % 256) (v / 256 % 256) (v / 65536 % 256)
        (v / 16777216 % 256) rest (i * 5 + 1 + 1) (omega (arith, e, length-append before (id ∷ [])))
        (omega arith) in
    ap (deserialize_to_int (i * 5 + 1 + 1) 4) (sym (behind_id before id (to_le4 v ++ rest)))
    ∙ here
    ∙ (λ k. (ok (from_le-to_le4 v h k), behind_id before id (to_be4 v ++ rest) k))

read_numbers-records :
    (records : Records) (before : Bytes) (i : ℕ) (value : List ℕ)
    → i * 5 + 1 ≡ length before
    → All FitsWord records
    → read_numbers 1 i (length records) value (before ++ flat records)
      ≡ (ok (value ++ map (λ (entry : ℕ × ℕ). entry.1) records), before ++ flat_reversed records)
unfolding read_numbers flat flat_reversed
read_numbers-records [] before i value e h = ap (λ l. (ok l, before ++ [])) (sym (append-nil value))
read_numbers-records ((id, v) ∷ records) before i value e (h, hs) =
    let done : Bytes = before ++ id ∷ to_be4 v in
    let step = read_record before i id v (flat records) e h in
    ap (λ r. and_run r (λ number. read_numbers 1 (suc i) (length records) (value ++ number ∷ [])))
      step
    ∙ ap (read_numbers 1 (suc i) (length records) (value ++ v ∷ []))
        (sym (append_assoc before (id ∷ to_be4 v) (flat records)))
    ∙ read_numbers-records records done (suc i) (value ++ v ∷ [])
        (omega (arith, e, length-append before (id ∷ to_be4 v))) hs
    ∙ (λ k. (
      ok (append_assoc value (v ∷ []) (map (λ (entry : ℕ × ℕ). entry.1) records) k),
      append_assoc before (id ∷ to_be4 v) (flat_reversed records) k,
    ))

-- The response with `a` in front of the records.
abbrev pub values : Records → List ℕ
values = map (λ (entry : ℕ × ℕ). entry.1)

deserialize-response :
    (a : ℕ) (records : Records)
    → All FitsWord records
    → deserialize system_parameter_list_fields (a ∷ flat records)
      ≡ (ok (int_value a ∷ ints_value (values records) ∷ []), a ∷ flat_reversed records)
unfolding deserialize deserialize_from
deserialize-response a records h =
    let count : (length (a ∷ flat records) - 1) / 5 ≡ length records =
      omega (arith, length-flat records) in
    ap
      (λ n.
        and_run
          (and_run (read_numbers 1 0 n [] (a ∷ flat records))
            (λ (value : List ℕ) (d : Bytes). (ok (ints_value value ∷ []), d)))
          (λ (rest : List Value) (d : Bytes). (ok (int_value a ∷ rest), d)))
      count
    ∙ ap
        (λ r.
          and_run (and_run r (λ (value : List ℕ) (d : Bytes). (ok (ints_value value ∷ []), d)))
            (λ (rest : List Value) (d : Bytes). (ok (int_value a ∷ rest), d)))
        (read_numbers-records records (a ∷ []) 0 [] refl h)

-- A response with at least one record is read as `a` and the values of its records, in their order.
pub parameters_result-flat :
    (a id v : ℕ) (records : Records)
    → IsByte a
    → IsByte id
    → All FitsWord ((id, v) ∷ records)
    → (parameters_result (a ∷ flat ((id, v) ∷ records))).0
      ≡ ok (record { a = a; data_array = v ∷ values records })
unfolding parameters_result parameter_list_of flat_reversed
parameters_result-flat a id v records ha hi h =
    let c3 : ℕ = v / 16777216 % 256 in
    let c2 : ℕ = v / 65536 % 256 in
    let rest : Bytes = v / 256 % 256 ∷ v % 256 ∷ flat_reversed records in
    rw
      (
        deserialize-response a ((id, v) ∷ records) h,
        deserialize_to_int-here [] a id c3 c2 rest 0 refl
            (ha, (hi, (omega arith, (omega arith, tt)))),
      )
      refl

-- A response of less than four bytes raises IndexError, even where it holds no record.
pub parameters_result_short :
    (data' : Bytes) → length data' < 4 → (parameters_result data').0 ≡ err index_error
unfolding parameters_result parameter_list_of deserialize deserialize_from read_numbers
    deserialize_to_int reverse_at join_from
parameters_result_short [] h = refl
parameters_result_short (a ∷ []) h = refl
parameters_result_short (a ∷ b ∷ []) h = refl
parameters_result_short (a ∷ b ∷ c ∷ []) h = refl
parameters_result_short (a ∷ b ∷ c ∷ d ∷ rest) h = absurd (omega arith)
