-- ===== src/Message/Service/Padded.antt =====
-- A response as it comes out of its frames: with any checksum, and with padding behind its body.
use geberit_aquaclean.Prelude.{
  ℕ, ◌+◌, ◌-◌, ◌*◌, ◌/◌, ◌%◌, ◌≤◌, min, ◌≡◌, refl, ap, ◌∙◌, some, ◌∷◌, ◌++◌, arith, length,
  take-append_of_length, ok, ◌>>=◌,
}
use geberit_aquaclean.Prelude.Bytes.{Bytes}
use geberit_aquaclean.Message.Crc.{create_from_bytes}
use geberit_aquaclean.Message.Crc.RoundTrip.{created}
use geberit_aquaclean.Message.Service.{parse_message1}
use geberit_aquaclean.Message.Service.Parse.{
  response_body, parse_response-created, stream_response, found_response,
}
use geberit_aquaclean.Message.Service.Rejects.{parse_response_unchecked}

-- The header of a response, with the checksum bytes `hi` and `lo`, then the body and the padding.
abbrev pub padded_response : ℕ → ℕ → ℕ → Bytes → Bytes → Bytes
padded_response seg hi lo body padding =
    5 ∷ seg ∷ length body / 256 ∷ length body % 256 ∷ hi ∷ lo ∷ (body ++ padding)

create_from_bytes-padded :
    (seg hi lo : ℕ) (body padding : Bytes)
    → length body ≤ 256
    → create_from_bytes (padded_response seg hi lo body padding)
      ≡ ok (record (created 5 seg body) { crc16_hi = hi; crc16_lo = lo })
unfolding create_from_bytes
create_from_bytes-padded seg hi lo body padding h =
    let n : ℕ = length body in
    let count : min (n / 256 * 256 + n % 256) 256 ≡ n = omega arith in
    let width : 6 + n - 6 ≡ n = omega arith in
    rw (count, width, take-append_of_length body padding refl) refl

-- It parses to its context, procedure and arguments.
pub parse_message1-padded :
    (seg hi lo b0 b1 context procedure : ℕ) (args padding : Bytes)
    → length args ≤ 251
    → parse_message1
        (padded_response seg hi lo (response_body b0 b1 context procedure args) padding)
      ≡ ok (some (record { context = context; procedure = procedure; result_bytes = args }))
parse_message1-padded seg hi lo b0 b1 context procedure args padding h =
    let body : Bytes = response_body b0 b1 context procedure args in
    found_response (record (created 5 seg body) { crc16_hi = hi; crc16_lo = lo }) refl
      (record { context = context; procedure = procedure; result_bytes = args })
      (parse_response_unchecked (created 5 seg body) hi lo
        ∙ parse_response-created seg b0 b1 context procedure args)
      (padded_response seg hi lo body padding)
      (stream_response _
        ∙ ap (λ r. r >>= λ m. ok (some m))
            (create_from_bytes-padded seg hi lo body padding (omega arith)))
