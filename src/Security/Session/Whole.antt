-- ===== src/Security/Session/Whole.antt =====
-- AriendiSecurity.py, `_inner_cobs_decode`: one whole inner frame, read at once.
use geberit_aquaclean.Prelude.{
  ◌≤◌, ◌≡◌, refl, ap, ◌∙◌, false, Option, none, some, [], ◌∷◌, ◌++◌, All, arith, ◌==◌, ==_refl, ltb,
  if◌then◌else◌, length, length-append, Result, ok, err,
}
use geberit_aquaclean.Prelude.Bytes.{Bytes, IsBytes}
use geberit_aquaclean.Security.Kermit.{
  crc16_kermit, crc_received, body_of, sealed, sealed-IsBytes, length-sealed, body_of-sealed,
  crc_received-sealed,
}
use geberit_aquaclean.Security.Cobs.{cobs_encode, cobs_decode}
use geberit_aquaclean.Security.Cobs.RoundTrip.{cobs_decode-cobs_encode}
use geberit_aquaclean.Security.Cobs.Shape.{cobs_encode_without_zero, length-cobs_encode}
use geberit_aquaclean.Security.Link.{frame_of, split_zero}

-- The body, where the checksum behind it is right.
unfoldable checked_body : Result Bytes → Option Bytes
checked_body (err _) = none
checked_body (ok decoded) =
    if ltb (length decoded) 2
    then none
    else if crc16_kermit (body_of decoded) == crc_received decoded
    then some (body_of decoded)
    else none

-- What is between the delimiters, where there is a second one and something in between.
unfoldable decode_content : Option (Bytes × Bytes) → Option Bytes
unfolding checked_body
decode_content none = none
decode_content (some ([], rest)) = none
decode_content (some (b ∷ content, rest)) = checked_body (cobs_decode (b ∷ content))

unfoldable decode_frame : Bytes → Option Bytes
unfolding decode_content
decode_frame [] = none
decode_frame (b ∷ rest) =
    let content = decode_content (split_zero rest) in if b == 0 then content else none

unfoldable pub inner_cobs_decode : Bytes → Option Bytes
unfolding decode_frame
inner_cobs_decode frame = if ltb (length frame) 4 then none else decode_frame frame

split_zero-delimiter :
    (content rest : Bytes)
    → All (λ b. (b == 0) ≡ false) content
    → split_zero (content ++ 0 ∷ rest) ≡ some (content, 0 ∷ rest)
unfolding split_zero
split_zero-delimiter [] rest h = refl
split_zero-delimiter (b ∷ content) rest (hb, h) = rw (hb, split_zero-delimiter content rest h) refl

checked_body-sealed : (body : Bytes) → IsBytes body → checked_body (ok (sealed body)) ≡ some body
unfolding checked_body
checked_body-sealed body h =
    let long : ltb (length (sealed body)) 2 ≡ false = ground (arith, length-sealed body) in
    rw (long, body_of-sealed body, crc_received-sealed body h, ==_refl (crc16_kermit body)) refl

content_lem :
    (content rest : Bytes)
    → 1 ≤ length content
    → decode_content (some (content, rest)) ≡ checked_body (cobs_decode content)
unfolding decode_content
content_lem [] rest h = absurd (omega arith)
content_lem (b ∷ content) rest h = refl

-- A message of bytes is read back from the frame that `wrap_for_send` makes of it before it encrypts it.
pub inner_cobs_decode-frame_of :
    (body : Bytes) → IsBytes body → inner_cobs_decode (frame_of body) ≡ some body
unfolding inner_cobs_decode decode_frame frame_of
inner_cobs_decode-frame_of body h =
    let content : Bytes = cobs_encode (sealed body) in
    let size = length-cobs_encode (sealed body) in
    let long : ltb (length (frame_of body)) 4 ≡ false =
      ground (arith, size, length-sealed body, length-append content (0 ∷ [])) in
    ap (λ b. if b then none else decode_frame (frame_of body)) long
    ∙ ap decode_content (
        split_zero-delimiter content []
          (cobs_encode_without_zero (sealed body) (sealed-IsBytes body h)))
    ∙ content_lem content (0 ∷ []) (omega (arith, size))
    ∙ ap checked_body (cobs_decode-cobs_encode (sealed body))
    ∙ checked_body-sealed body h
