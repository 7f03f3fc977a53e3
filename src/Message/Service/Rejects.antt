-- ===== src/Message/Service/Rejects.antt =====
-- What `parse_message1` does with messages that are not valid responses.
use geberit_aquaclean.Prelude.{
  ℕ, ◌+◌, ◌≡◌, ◌≢◌, refl, Bool, false, ◌∷◌, arith, ◌==◌, Result, ok, err, ◌>>=◌, attribute_error,
}
use geberit_aquaclean.Prelude.Bits.{◌<<<◌}
use geberit_aquaclean.Prelude.Bytes.{Bytes}
use geberit_aquaclean.Message.Crc.{CrcMessage, crc16_calculation, is_valid}
use geberit_aquaclean.Message.Service.{create_from_stream, parse_response, parse_message1}

then_constant {ℓ} :
    {A : Type ℓ} (r : Result ℕ) (f g : ℕ → Bool) (next : Result A)
    → (r >>= (λ i2. ok (f i2)) >>= (λ _. next)) ≡ (r >>= (λ i2. ok (g i2)) >>= (λ _. next))
then_constant (ok i2) f g next = refl
then_constant (err e) f g next = refl

-- The checksum that a response carries makes no difference to what is parsed from it.
pub parse_response_unchecked :
    (m : CrcMessage) (hi lo : ℕ)
    → parse_response (record m { crc16_hi = hi; crc16_lo = lo }) ≡ parse_response m
unfolding parse_response is_valid
parse_response_unchecked m hi lo =
    then_constant (crc16_calculation m.body ((m.len_hi <<< 8) + m.len_lo)) _ _ _

-- A message whose id is none of the four that `create_from_stream` knows raises AttributeError, and
-- so is not reported as unknown.
pub parse_message1_unknown :
    (i : ℕ) (rest : Bytes)
    → i ≢ 2
    → i ≢ 3
    → i ≢ 5
    → i ≢ 6
    → parse_message1 (i ∷ rest) ≡ err attribute_error
unfolding parse_message1 create_from_stream
parse_message1_unknown i rest two three five six =
    let p2 : (i == 2) ≡ false = ground arith in
    let p3 : (i == 3) ≡ false = ground arith in
    let p5 : (i == 5) ≡ false = ground arith in
    let p6 : (i == 6) ≡ false = ground arith in rw (p2, p3, p5, p6) refl
