-- ===== src/Api/Parameters/Payload.antt =====
-- The request for a parameter list.
use geberit_aquaclean.Prelude.{
  ℕ, ◌+◌, ◌-◌, ◌≡◌, refl, min, List, [], ◌∷◌, ◌++◌, length, take, suc, zero, ◌≤◌, leb, leb→le,
  Bool-cases, inl, inr, take_all, lt→ltb, append_assoc, ap, ◌∙◌, arith, replicate, set, All-take,
  length-append, length-take, ok,
}
use geberit_aquaclean.Prelude.Bytes.{Bytes, IsByte, IsBytes}
use geberit_aquaclean.Message.Crc.{byte_item}
use geberit_aquaclean.Api.Parameters.{put_parameters, parameters_payload}

take-min : (xs : Bytes) (n : ℕ) → take (min (length xs) n) xs ≡ take n xs
take-min xs n = elim (Bool-cases (leb (length xs) n)) [
  | inl short ↦
      let k : length xs ≤ n = leb→le _ _ short in
      let e : min (length xs) n ≡ length xs = omega arith in
      rw (e, take_all (length xs) xs (omega arith), take_all n xs k) refl
  | inr long ↦ let e : min (length xs) n ≡ n = ground arith in rw e refl
]

set-behind :
    (written rest : Bytes) (i old b : ℕ)
    → i ≡ length written
    → set (written ++ old ∷ rest) i b ≡ (written ++ b ∷ []) ++ rest
set-behind [] rest zero old b e = refl
set-behind [] rest (suc i) old b e = absurd (omega arith)
set-behind (w ∷ written) rest zero old b e = absurd (omega arith)
set-behind (w ∷ written) rest (suc i) old b e =
    ap (λ l. w ∷ l) (set-behind written rest i old b (omega arith))

-- Behind what was written, the parameters are written over as many bytes.
put_parameters-zeros :
    (written parameters : Bytes) (m n i : ℕ)
    → i ≡ length written
    → n ≡ length parameters + m
    → IsBytes parameters
    → put_parameters i parameters (written ++ replicate n 0)
      ≡ ok (written ++ (parameters ++ replicate m 0))
unfolding put_parameters byte_item
put_parameters-zeros written [] m n i e h k =
    let same : n ≡ m = omega arith in ap (λ c. ok (written ++ replicate c 0)) same
put_parameters-zeros written (p ∷ parameters) m zero i e h k = absurd (omega arith)
put_parameters-zeros written (p ∷ parameters) m (suc n) i e h (k, ks) =
    rw (lt→ltb p 256 k, set-behind written (replicate n 0) i 0 p e)
      (put_parameters-zeros (written ++ p ∷ []) parameters m n (i + 1)
          (omega (arith, e, length-append written (p ∷ []))) (omega arith) ks
        ∙ ap ok (append_assoc written (p ∷ []) (parameters ++ replicate m 0)))

-- The payload has thirteen bytes: the number of the parameters, at most twelve of them, and zeros.
pub parameters_payload_lem :
    (parameters : List ℕ)
    → IsBytes parameters
    → parameters_payload parameters
      ≡ ok (
          min (length parameters) 12 ∷ (take 12 parameters ++ replicate (12 - length parameters) 0))
unfolding parameters_payload
parameters_payload_lem parameters h =
    let n : ℕ = min (length parameters) 12 in
    put_parameters-zeros (n ∷ []) (take n parameters) (12 - length parameters) 12 1 refl
      (omega (arith, length-take n parameters)) (All-take IsByte n parameters h)
    ∙ ap (λ l. ok (n ∷ (l ++ replicate (12 - length parameters) 0))) (take-min parameters 12)
