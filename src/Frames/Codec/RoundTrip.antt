-- ===== src/Frames/Codec/RoundTrip.antt =====
-- Frames that are written and read again.
use geberit_aquaclean.Prelude.{
  ℕ, zero, suc, ◌<◌, ◌≡◌, refl, sym, ap, subst, ◌∙◌, bit_and, Bool, true, false, ◌&&◌, [], ◌∷◌,
  ◌++◌, arith, ◌==◌, ==_iff, ltb, ltb→lt, lt→ltb, length, replicate, take, drop,
  take-append_of_length, ok, ◌>>=◌,
}
use geberit_aquaclean.Prelude.Bits.{◌>>>◌, all_below}
use geberit_aquaclean.Prelude.Bytes.{Bytes, IsBytes}
use geberit_aquaclean.Message.Crc.{byte_item}
use geberit_aquaclean.Frames.Codec.{
  FrameType, single, first, cons, control, info, value, frame_type, Header, header_byte, header_of,
  serialize_hdr, FlowControlFrame, InfoFrame, Frame, single_frame, first_cons_frame,
  flow_control_frame, info_frame, create_of_type, create_info_frame, create_flow_control_frame,
  create_frame_from_bytes, byte_items, info_items, put_slice, serialize,
}

unfoldable every_bool : (Bool → Bool) → Bool
every_bool p = p true && p false

every_bool-holds : (p : Bool → Bool) → every_bool p ≡ true → (b : Bool) → p b ≡ true
unfolding every_bool
every_bool-holds p h true = ground arith
every_bool-holds p h false = ground arith

unfoldable every_type : (FrameType → Bool) → Bool
every_type p = p single && p first && p cons && p control && p info

every_type-holds : (p : FrameType → Bool) → every_type p ≡ true → (t : FrameType) → p t ≡ true
unfolding every_type
every_type-holds p h single = ground arith
every_type-holds p h first = ground arith
every_type-holds p h cons = ground arith
every_type-holds p h control = ground arith
every_type-holds p h info = ground arith

all_below-holds : (n : ℕ) (p : ℕ → Bool) → all_below n p ≡ true → (x : ℕ) → x < n → p x ≡ true
unfolding all_below
all_below-holds zero p h x lt = absurd (omega arith)
all_below-holds (suc n) p h x lt = ground (arith, all_below-holds n p (ground arith) x)

unfoldable same : Bool → Bool → Bool
same true b = b
same false true = false
same false false = true

same→eq : (a b : Bool) → same a b ≡ true → a ≡ b
unfolding same
same→eq true b h = sym h
same→eq false true h = h
same→eq false false h = refl

abbrev header : FrameType → Bool → ℕ → Bool → Header
header t m n c = record {
  frame_type = t;
  has_message_type_byte_b4 = m;
  sub_frame_count_or_index = n;
  is_sub_frame_count = c;
}

-- The header byte holds the four attributes.
unfoldable holds_attributes : FrameType → Bool → ℕ → Bool → Bool
unfolding header_byte value
holds_attributes t m n c =
    let b = header_byte (header t m n c) in
    ltb b 256
    && (bit_and (b >>> 5) 7 == value t
        && (bit_and (b >>> 1) 3 == n
            && (same (ltb 0 (bit_and b 16)) m && same (ltb 0 (bit_and b 1)) c)))

header_byte-holds :
    (t : FrameType) (m : Bool) (n : ℕ) (c : Bool) → n < 4 → holds_attributes t m n c ≡ true
unfolding holds_attributes every_type every_bool all_below same
header_byte-holds t m n c h =
    let types =
      every_type-holds
        (λ t. every_bool (λ m. every_bool (λ c. all_below 4 (λ n. holds_attributes t m n c)))) refl
        t in
    let flags =
      every_bool-holds (λ m. every_bool (λ c. all_below 4 (λ n. holds_attributes t m n c))) types
        m in
    all_below-holds 4 (λ n. holds_attributes t m n c)
      (every_bool-holds (λ c. all_below 4 (λ n. holds_attributes t m n c)) flags c) n h

both : (a b : Bool) → (a && b) ≡ true → (a ≡ true) × (b ≡ true)
both true b h = (refl, h)
both false b h = ground arith

frame_type-value : (t : FrameType) → frame_type (value t) ≡ ok t
unfolding frame_type value
frame_type-value single = refl
frame_type-value first = refl
frame_type-value cons = refl
frame_type-value control = refl
frame_type-value info = refl

-- The four attributes are read back from the header byte.
header_of-header_byte :
    (t : FrameType) (m : Bool) (n : ℕ) (c : Bool)
    → n < 4
    → (header_byte (header t m n c) < 256)
      × (frame_type (bit_and (header_byte (header t m n c) >>> 5) 7) ≡ ok t)
      × (header_of t (header_byte (header t m n c)) ≡ header t m n c)
unfolding holds_attributes header_of
header_of-header_byte t m n c h =
    let b : ℕ = header_byte (header t m n c) in
    let test : (ltb b 256
          && (bit_and (b >>> 5) 7 == value t
              && (bit_and (b >>> 1) 3 == n
                  && (same (ltb 0 (bit_and b 16)) m && same (ltb 0 (bit_and b 1)) c))))
        ≡ true =
      header_byte-holds t m n c h in
    let (small, rest1) = both _ _ test in
    let (kind, rest2) = both _ _ rest1 in
    let (index, rest3) = both _ _ rest2 in
    let (type_bit, count_bit) = both _ _ rest3 in
    (
      ltb→lt b 256 small,
      ap frame_type ((==_iff (bit_and (b >>> 5) 7) (value t)).0 kind) ∙ frame_type-value t,
      rw
          (
            (==_iff (bit_and (b >>> 1) 3) n).0 index,
            same→eq (ltb 0 (bit_and b 16)) m type_bit,
            same→eq (ltb 0 (bit_and b 1)) c count_bit,
          )
          refl,
    )

-- What is read from a frame of `t` whose header byte is written from its attributes.
create_frame_from_bytes-header :
    (t : FrameType) (m : Bool) (n : ℕ) (c : Bool)
    → n < 4
    → (rest : Bytes)
    → create_frame_from_bytes (header_byte (header t m n c) ∷ rest)
      ≡ create_of_type t (header t m n c) (header_byte (header t m n c) ∷ rest)
unfolding create_frame_from_bytes
create_frame_from_bytes-header t m n c h rest =
    let (small, kind, back) = header_of-header_byte t m n c h in
    let b : ℕ = header_byte (header t m n c) in
    ap (λ r. r >>= λ t. create_of_type t (header_of t b) (b ∷ rest)) kind
    ∙ ap (λ h. create_of_type t h (b ∷ rest)) back

serialize_hdr-header :
    (t : FrameType) (m : Bool) (n : ℕ) (c : Bool)
    → n < 4
    → serialize_hdr (header t m n c) ≡ ok (header_byte (header t m n c) ∷ replicate 19 0)
unfolding serialize_hdr byte_item
serialize_hdr-header t m n c h =
    let (small, _, _) = header_of-header_byte t m n c h in
    let b : ℕ = header_byte (header t m n c) in rw (lt→ltb b 256 small) refl

byte_items-IsBytes : (xs : Bytes) → IsBytes xs → byte_items xs ≡ ok xs
unfolding byte_items byte_item
byte_items-IsBytes [] h = refl
byte_items-IsBytes (x ∷ xs) (p, h) = rw (lt→ltb x 256 p, byte_items-IsBytes xs h) refl

-- The frames that are written: the type is the class's, and every field fits its place.
unfoldable pub IsWritable : Frame → Type 0
IsWritable (single_frame h payload) =
    (h.frame_type ≡ single) × (h.sub_frame_count_or_index < 4) × (length payload ≡ 19)
IsWritable (first_cons_frame h f) = ⊥
IsWritable (flow_control_frame h f) =
    (h.frame_type ≡ control)
    × (h.sub_frame_count_or_index < 4)
    × IsBytes (f.error_code ∷ f.unackd_frame_limit ∷ f.transaction_latency ∷ [])
    × (length f.ackd_frame_bitmask ≡ 8)
IsWritable (info_frame h f) =
    (h.frame_type ≡ info) × (h.sub_frame_count_or_index < 4) × IsBytes (info_items f)

serialize-single :
    (m : Bool) (n : ℕ) (c : Bool) (payload : Bytes)
    → n < 4
    → length payload ≡ 19
    → (serialize (single_frame (header single m n c) payload) >>= create_frame_from_bytes)
      ≡ ok (single_frame (header single m n c) payload)
unfolding serialize create_of_type
serialize-single m n c payload hn hl =
    let h : Header = header single m n c in
    ap
      (λ r. r >>= (λ var1. ok (take 1 var1 ++ payload ++ drop 20 var1)) >>= create_frame_from_bytes)
      (serialize_hdr-header single m n c hn)
    ∙ create_frame_from_bytes-header single m n c hn (payload ++ [])
    ∙ ap (λ p. ok (single_frame h p)) (take-append_of_length payload [] hl)

serialize-control :
    (m : Bool) (n : ℕ) (c : Bool) (f : FlowControlFrame)
    → n < 4
    → IsBytes (f.error_code ∷ f.unackd_frame_limit ∷ f.transaction_latency ∷ [])
    → length f.ackd_frame_bitmask ≡ 8
    → (serialize (flow_control_frame (header control m n c) f) >>= create_frame_from_bytes)
      ≡ ok (flow_control_frame (header control m n c) f)
unfolding serialize create_of_type create_flow_control_frame
serialize-control m n c f hn hb hl =
    let h : Header = header control m n c in
    let xs : Bytes = f.error_code ∷ f.unackd_frame_limit ∷ f.transaction_latency ∷ [] in
    let mask : Bytes = f.ackd_frame_bitmask in
    ap
      (λ r.
        (r >>= λ var1. byte_items xs >>= λ bs. ok (put_slice 4 12 mask (put_slice 1 4 bs var1)))
        >>= create_frame_from_bytes)
      (serialize_hdr-header control m n c hn)
    ∙ ap
        (λ r.
          (r >>= λ bs. ok (put_slice 4 12 mask (put_slice 1 4 bs (header_byte h ∷ replicate 19 0))))
          >>= create_frame_from_bytes)
        (byte_items-IsBytes xs hb)
    ∙ create_frame_from_bytes-header control m n c hn (xs ++ mask ++ replicate 8 0)
    ∙ ap (λ p. ok (flow_control_frame h (record f { ackd_frame_bitmask = p })))
        (take-append_of_length mask (replicate 8 0) hl)

serialize-info :
    (m : Bool) (n : ℕ) (c : Bool) (f : InfoFrame)
    → n < 4
    → IsBytes (info_items f)
    → (serialize (info_frame (header info m n c) f) >>= create_frame_from_bytes)
      ≡ ok (info_frame (header info m n c) f)
unfolding serialize create_of_type create_info_frame
serialize-info m n c f hn hb =
    let h : Header = header info m n c in
    ap
      (λ r.
        (r >>= λ var1. byte_items (info_items f) >>= λ bs. ok (put_slice 1 16 bs var1))
        >>= create_frame_from_bytes)
      (serialize_hdr-header info m n c hn)
    ∙ ap
        (λ r.
          (r >>= λ bs. ok (put_slice 1 16 bs (header_byte h ∷ replicate 19 0)))
          >>= create_frame_from_bytes)
        (byte_items-IsBytes (info_items f) hb)
    ∙ create_frame_from_bytes-header info m n c hn (info_items f ++ replicate 4 0)

-- A frame that can be written is read back as it was.
pub create_frame_from_bytes-serialize :
    (f : Frame) → IsWritable f → (serialize f >>= create_frame_from_bytes) ≡ ok f
unfolding IsWritable
create_frame_from_bytes-serialize (single_frame h payload) (t, n, l) =
    subst
      (λ t.
        (serialize (single_frame (record h { frame_type = t }) payload) >>= create_frame_from_bytes)
        ≡ ok (single_frame (record h { frame_type = t }) payload))
      (sym t)
      (serialize-single h.has_message_type_byte_b4 h.sub_frame_count_or_index h.is_sub_frame_count
        payload n l)
create_frame_from_bytes-serialize (first_cons_frame h f) k = absurd k
create_frame_from_bytes-serialize (flow_control_frame h f) (t, n, b, l) =
    subst
      (λ t.
        (serialize (flow_control_frame (record h { frame_type = t }) f) >>= create_frame_from_bytes)
        ≡ ok (flow_control_frame (record h { frame_type = t }) f))
      (sym t)
      (serialize-control h.has_message_type_byte_b4 h.sub_frame_count_or_index h.is_sub_frame_count
        f n b l)
create_frame_from_bytes-serialize (info_frame h f) (t, n, b) =
    subst
      (λ t.
        (serialize (info_frame (record h { frame_type = t }) f) >>= create_frame_from_bytes)
        ≡ ok (info_frame (record h { frame_type = t }) f))
      (sym t)
      (serialize-info h.has_message_type_byte_b4 h.sub_frame_count_or_index h.is_sub_frame_count f n
        b)
