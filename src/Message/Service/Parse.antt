-- ===== src/Message/Service/Parse.antt =====
-- What `parse_message1` and `build_message` do with whole messages.
use geberit_aquaclean.Prelude.{
  ℕ, suc, ◌+◌, ◌-◌, ◌≤◌, ◌≡◌, refl, ap, ◌∙◌, none, some, ◌∷◌, arith, ltb, if◌then◌else◌, length,
  drop, take-append_of_length, ok, ◌>>=◌,
}
use geberit_aquaclean.Prelude.Bytes.{Bytes, IsByte}
use geberit_aquaclean.Message.Crc.{CrcMessage, create_from_bytes, serialize, is_valid, blank_body}
use geberit_aquaclean.Message.Crc.RoundTrip.{
  wire, created, create_lem, is_valid-created, serialize-created, create_from_bytes-wire,
}
use geberit_aquaclean.Message.Service.{
  MessageContext, create_from_stream, parse_response, parse_message1, build_message,
}

-- The body of a response: two bytes, the context, the procedure, the length, the arguments.
abbrev pub response_body : ℕ → ℕ → ℕ → ℕ → Bytes → Bytes
response_body b0 b1 context procedure args = b0 ∷ b1 ∷ context ∷ procedure ∷ length args ∷ args

pub stream_response :
    (tail : Bytes)
    → create_from_stream (5 ∷ tail) ≡ (create_from_bytes (5 ∷ tail) >>= λ m. ok (some m))
unfolding create_from_stream
stream_response tail = refl

-- The context that `parse_message1` makes of a message.
pub found_response :
    (m : CrcMessage)
    → m.id ≡ 5
    → (c : MessageContext) → parse_response m ≡ ok c
    → (data' : Bytes) → create_from_stream data' ≡ ok (some m)
    → parse_message1 data' ≡ ok (some c)
unfolding parse_message1 parse_response is_valid
found_response m h c e data' f = rw (f, h, e) refl

pub parse_response-created :
    (seg b0 b1 context procedure : ℕ) (args : Bytes)
    → parse_response (created 5 seg (response_body b0 b1 context procedure args))
      ≡ ok (record { context = context; procedure = procedure; result_bytes = args })
unfolding parse_response
parse_response-created seg b0 b1 context procedure args =
    let width : 5 + length args - 5 ≡ length args = omega arith in
    rw (is_valid-created 5 seg (response_body b0 b1 context procedure args), width)
      (ap (λ b. ok (record { context = context; procedure = procedure; result_bytes = b }))
        (take-append_of_length args (drop (suc (suc (suc (suc (suc (length args)))))) blank_body)
          refl))

-- A serialised response of at most 256 bytes parses to its context, procedure and arguments.
pub parse_message1-serialize :
    (seg b0 b1 context procedure : ℕ) (args : Bytes)
    → IsByte seg
    → length (response_body b0 b1 context procedure args) ≤ 256
    → (serialize (created 5 seg (response_body b0 b1 context procedure args)) >>= parse_message1)
      ≡ ok (some (record { context = context; procedure = procedure; result_bytes = args }))
parse_message1-serialize seg b0 b1 context procedure args hs hl =
    let body : Bytes = response_body b0 b1 context procedure args in
    let five : IsByte 5 = omega arith in
    let tail : Bytes = drop 1 (wire 5 seg body) in
    ap (λ r. r >>= parse_message1) (serialize-created 5 seg body five hs hl)
    ∙ found_response (created 5 seg body) refl
        (record { context = context; procedure = procedure; result_bytes = args })
        (parse_response-created seg b0 b1 context procedure args) (wire 5 seg body)
        (stream_response tail
          ∙ ap (λ r. r >>= λ m. ok (some m)) (create_from_bytes-wire 5 seg body hl))

-- `build_message` makes a request with segment byte 255 out of at most 250 bytes, and nothing out
-- of more.
pub build_message_lem :
    (data' : Bytes)
    → build_message data'
      ≡ (if ltb 250 (length data') then ok none else ok (some (created 4 255 data')))
unfolding build_message
build_message_lem data' =
    let same : ltb 256 (6 + length data') ≡ ltb 250 (length data') = ground arith in
    rw (same, create_lem 4 255 data') refl
