-- ===== src/Ble20/Address/RoundTrip.antt =====
-- Addresses read back from the wire.
use geberit_aquaclean.Prelude.{
  ℕ, suc, ◌+◌, ◌*◌, ◌/◌, ◌%◌, ◌^◌, ◌<◌, ◌≡◌, refl, ap, ◌∙◌, bit_and, bit_or, Option, none, some, [],
  ◌∷◌, ◌++◌, arith, lt→ltb, length, ok, ◌>>=◌,
}
use geberit_aquaclean.Prelude.Bits.{
  ◌>>>◌, ◌<<<◌, all_below, all_below→eq, shift-bit_or, bit_and_byte, bit_and_0x7f,
}
use geberit_aquaclean.Prelude.Bytes.{Bytes, at, IsByte}
use geberit_aquaclean.Ble20.Address.{encode_address, decode_address}

-- What follows a prefix is read at the prefix's length and on.
at-append : (prefix rest : Bytes) (k : ℕ) → at (prefix ++ rest) (length prefix + k) ≡ at rest k
at-append [] rest k = let none_before : 0 + k ≡ k = omega arith in ap (at rest) none_before
at-append (b ∷ prefix) rest k =
    let one_less : suc (length prefix) + k ≡ suc (length prefix + k) = omega arith in
    ap (at (b ∷ (prefix ++ rest))) one_less ∙ at-append prefix rest k

at-append_first : (prefix rest : Bytes) → at (prefix ++ rest) (length prefix) ≡ at rest 0
at-append_first prefix rest =
    let nothing : length prefix ≡ length prefix + 0 = omega arith in
    ap (at (prefix ++ rest)) nothing ∙ at-append prefix rest 0

high_plain : (h : ℕ) → h < 128 → bit_and h 0x80 ≡ 0
unfolding all_below
high_plain = all_below→eq 128 _ _ refl

high_flagged : (h : ℕ) → h < 128 → bit_and (bit_or h 0x80) 0x80 ≡ 128
unfolding all_below
high_flagged = all_below→eq 128 _ _ refl

high_value : (h : ℕ) → h < 128 → bit_and (bit_or h 0x80) 0x7f ≡ h
unfolding all_below
high_value = all_below→eq 128 _ _ refl

high_same : (h : ℕ) → h < 128 → bit_and h 0x7f ≡ h
unfolding all_below
high_same = all_below→eq 128 _ _ refl

joined : (h l : ℕ) → l < 256 → bit_or (h <<< 8) l ≡ h * 256 + l
joined h l hl = shift-bit_or 8 h l hl

-- An address with no instance is the two bytes, the flag clear.
decode_plain :
    (prefix rest : Bytes) (l h : ℕ)
    → l < 256
    → h < 128
    → decode_address (prefix ++ (l ∷ h ∷ rest)) (length prefix)
      ≡ ok (h * 256 + l, none, length prefix + 2)
unfolding decode_address
decode_plain prefix rest l h hl hh =
    rw
      (
        at-append_first prefix (l ∷ h ∷ rest),
        at-append prefix (l ∷ h ∷ rest) 1,
        high_plain h hh,
        high_same h hh,
        joined h l hl,
      )
      refl

decode_flagged :
    (prefix rest : Bytes) (l h i : ℕ)
    → l < 256
    → h < 128
    → decode_address (prefix ++ (l ∷ bit_or h 0x80 ∷ i ∷ rest)) (length prefix)
      ≡ ok (h * 256 + l, some i, length prefix + 3)
unfolding decode_address
decode_flagged prefix rest l h i hl hh =
    rw
      (
        at-append_first prefix (l ∷ bit_or h 0x80 ∷ i ∷ rest),
        at-append prefix (l ∷ bit_or h 0x80 ∷ i ∷ rest) 1,
        at-append prefix (l ∷ bit_or h 0x80 ∷ i ∷ rest) 2,
        high_flagged h hh,
        high_value h hh,
        joined h l hl,
      )
      refl

abbrev pub IsInstance : Option ℕ → Type 0
IsInstance none = Unit
IsInstance (some i) = IsByte i

-- Wherever an address stands in a frame, it is read back with the data point modulo 2 ^ 15, the
-- instance if there was one, and the offset behind it.
pub decode_address-encode_address :
    (dp_id : ℕ) (instance_id : Option ℕ) (prefix rest : Bytes)
    → IsInstance instance_id
    → (encode_address dp_id instance_id >>= λ address.
        decode_address (prefix ++ (address ++ rest)) (length prefix))
      ≡ ok (dp_id % 2 ^ 15, instance_id, length prefix + elim instance_id [ none ↦ 2 | some _ ↦ 3 ])
unfolding encode_address
decode_address-encode_address dp_id none prefix rest f =
    let lo : bit_and dp_id 0xff ≡ dp_id % 256 = bit_and_byte dp_id in
    let hi : bit_and (dp_id >>> 8) 0x7f ≡ dp_id / 256 % 128 = bit_and_0x7f (dp_id >>> 8) in
    let whole : dp_id / 256 % 128 * 256 + dp_id % 256 ≡ dp_id % 2 ^ 15 = omega arith in
    rw (lo, hi)
      (decode_plain prefix rest (dp_id % 256) (dp_id / 256 % 128) (omega arith) (omega arith)
        ∙ ap (λ d. ok (d, none, length prefix + 2)) whole)
decode_address-encode_address dp_id (some i) prefix rest f =
    let lo : bit_and dp_id 0xff ≡ dp_id % 256 = bit_and_byte dp_id in
    let hi : bit_and (dp_id >>> 8) 0x7f ≡ dp_id / 256 % 128 = bit_and_0x7f (dp_id >>> 8) in
    let whole : dp_id / 256 % 128 * 256 + dp_id % 256 ≡ dp_id % 2 ^ 15 = omega arith in
    rw (lo, hi, lt→ltb i 256 f)
      (decode_flagged prefix rest (dp_id % 256) (dp_id / 256 % 128) i (omega arith) (omega arith)
        ∙ ap (λ d. ok (d, some i, length prefix + 3)) whole)
