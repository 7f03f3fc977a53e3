-- ===== src/Security/Cobs/RoundTrip.antt =====
-- `_cobs_decode` after `_cobs_encode`.
use geberit_aquaclean.Prelude.{
  ℕ, ◌+◌, ◌-◌, ◌<◌, ◌≡◌, refl, sym, ap, ◌∙◌, [], ◌∷◌, ◌++◌, append-nil, append_assoc, arith, ◌==◌,
  if◌then◌else◌, length, length-append, set, ok, inl, inr, Bool-cases, true, false, ==_iff,
}
use geberit_aquaclean.Prelude.Bytes.{Bytes}
use geberit_aquaclean.Security.Cobs.{
  Encoder, encode_byte, cobs_encode, decode_group, cobs_decode, next_group, append_byte,
}
use mathlib.Core.List.{foldl}

-- The encoding of `data'` after the bytes `open_group` of an unfinished group, without indices.
unfoldable pub groups : Bytes → Bytes → Bytes
groups open_group [] = (length open_group + 1) ∷ open_group
groups open_group (b ∷ rest) =
    let full = 0xff ∷ (open_group ++ (b ∷ groups [] rest)) in
    let closed = (length open_group + 1) ∷ (open_group ++ groups [] rest) in
    let longer = groups (open_group ++ (b ∷ [])) rest in
    if b == 0 then closed else if length open_group + 1 + 1 == 0xff then full else longer

set-append_length :
    (xs ys : Bytes) (old new : ℕ) → set (xs ++ (old ∷ ys)) (length xs) new ≡ xs ++ (new ∷ ys)
set-append_length [] ys old new = refl
set-append_length (x ∷ xs) ys old new = ap (λ r. x ∷ r) (set-append_length xs ys old new)

abbrev state_of : Bytes → Bytes → Encoder
state_of done open_group = record {
  result = done ++ (0 ∷ open_group);
  code_pos = length done;
  code = length open_group + 1;
}

next_group-state_of :
    (done open_group : Bytes)
    → next_group (state_of done open_group)
      ≡ state_of (done ++ ((length open_group + 1) ∷ open_group)) []
next_group-state_of done open_group =
    rw (set-append_length done open_group 0 (length open_group + 1)) refl

append_byte-state_of :
    (done open_group : Bytes) (b : ℕ)
    → append_byte (state_of done open_group) b ≡ state_of done (open_group ++ (b ∷ []))
append_byte-state_of done open_group b =
    ground (arith, append_assoc done (0 ∷ open_group) (b ∷ []), length-append open_group (b ∷ []))

encode_zero :
    (done open_group : Bytes) (b : ℕ)
    → (b == 0) ≡ true
    → encode_byte (state_of done open_group) b
      ≡ state_of (done ++ ((length open_group + 1) ∷ open_group)) []
unfolding encode_byte
encode_zero done open_group b z = rw z (next_group-state_of done open_group)

encode_more :
    (done open_group : Bytes) (b : ℕ)
    → (b == 0) ≡ false
    → (length open_group + 1 + 1 == 0xff) ≡ false
    → encode_byte (state_of done open_group) b ≡ state_of done (open_group ++ (b ∷ []))
unfolding encode_byte
encode_more done open_group b nz nf = rw (nz, nf) (append_byte-state_of done open_group b)

encode_full :
    (done open_group : Bytes) (b : ℕ)
    → (b == 0) ≡ false
    → (length open_group + 1 + 1 == 0xff) ≡ true
    → encode_byte (state_of done open_group) b
      ≡ state_of (done ++ (0xff ∷ (open_group ++ (b ∷ [])))) []
unfolding encode_byte
encode_full done open_group b nz f =
    let code : length (open_group ++ (b ∷ [])) + 1 ≡ 0xff =
      omega (arith, length-append open_group (b ∷ []), (==_iff _ _).0 f) in
    rw (nz, f)
      (ap next_group (append_byte-state_of done open_group b)
        ∙ next_group-state_of done (open_group ++ (b ∷ []))
        ∙ ap (λ (c : ℕ). state_of (done ++ (c ∷ (open_group ++ (b ∷ [])))) []) code)

abbrev finish : Encoder → Bytes
finish e = set e.result e.code_pos e.code

groups_zero :
    (open_group rest : Bytes) (b : ℕ)
    → (b == 0) ≡ true
    → groups open_group (b ∷ rest) ≡ (length open_group + 1) ∷ (open_group ++ groups [] rest)
unfolding groups
groups_zero open_group rest b z = rw z refl

groups_full :
    (open_group rest : Bytes) (b : ℕ)
    → (b == 0) ≡ false
    → (length open_group + 1 + 1 == 0xff) ≡ true
    → groups open_group (b ∷ rest) ≡ 0xff ∷ ((open_group ++ (b ∷ [])) ++ groups [] rest)
unfolding groups
groups_full open_group rest b nz f =
    rw (nz, f) (ap (λ r. 0xff ∷ r) (sym (append_assoc open_group (b ∷ []) (groups [] rest))))

groups_more :
    (open_group rest : Bytes) (b : ℕ)
    → (b == 0) ≡ false
    → (length open_group + 1 + 1 == 0xff) ≡ false
    → groups open_group (b ∷ rest) ≡ groups (open_group ++ (b ∷ [])) rest
unfolding groups
groups_more open_group rest b nz nf = rw (nz, nf) refl

abbrev fold_from : Bytes → Encoder → Bytes
fold_from rest e = finish (foldl encode_byte e rest)

fold-groups :
    (rest done open_group : Bytes)
    → fold_from rest (state_of done open_group) ≡ done ++ groups open_group rest
fold-groups [] done open_group =
    unfold groups in set-append_length done open_group 0 (length open_group + 1)
fold-groups (b ∷ rest) done open_group =
    let closed : Bytes = (length open_group + 1) ∷ open_group in
    let full : Bytes = 0xff ∷ (open_group ++ (b ∷ [])) in
    elim (Bool-cases (b == 0)) [
      | inl z ↦
          ap (fold_from rest) (encode_zero done open_group b z)
          ∙ fold-groups rest (done ++ closed) []
          ∙ append_assoc done closed (groups [] rest)
          ∙ ap (λ r. done ++ r) (sym (groups_zero open_group rest b z))
      | inr nz ↦ elim (Bool-cases (length open_group + 1 + 1 == 0xff)) [
        | inl f ↦
            ap (fold_from rest) (encode_full done open_group b nz f)
            ∙ fold-groups rest (done ++ full) []
            ∙ append_assoc done full (groups [] rest)
            ∙ ap (λ r. done ++ r) (sym (groups_full open_group rest b nz f))
        | inr nf ↦
            ap (fold_from rest) (encode_more done open_group b nz nf)
            ∙ fold-groups rest done (open_group ++ (b ∷ []))
            ∙ ap (λ r. done ++ r) (sym (groups_more open_group rest b nz nf))
      ]
    ]

-- Copying a whole group.
decode_group-append :
    (code : ℕ) (group rest result : Bytes)
    → decode_group code (length group) (group ++ rest) result
      ≡ decode_group code 0 rest (result ++ group)
unfolding decode_group
decode_group-append code [] rest result = ap (decode_group code 0 rest) (sym (append-nil result))
decode_group-append code (b ∷ group) rest result =
    decode_group-append code group rest (result ++ (b ∷ []))
    ∙ ap (decode_group code 0 rest) (append_assoc result (b ∷ []) group)

-- The zero that a finished group stands for, unless it was a full one.
abbrev separator : ℕ → Bytes
separator code = if code == 0xff then [] else 0 ∷ []

separated :
    (code : ℕ) (result : Bytes)
    → (if code == 0xff then result else result ++ (0 ∷ [])) ≡ result ++ separator code
separated code result = elim (Bool-cases (code == 0xff)) [
  | inl f ↦ rw f (sym (append-nil result))
  | inr nf ↦ rw nf refl
]

decode_start :
    (code n : ℕ) (group rest result : Bytes)
    → n ≡ length group + 1
    → decode_group code 0 (n ∷ (group ++ rest)) result
      ≡ decode_group n (length group) (group ++ rest) (result ++ separator code)
unfolding decode_group
decode_start code n group rest result e =
    let positive : (n == 0) ≡ false = ground arith in
    let left : n - 1 ≡ length group = omega arith in
    rw (positive, left) (ap (decode_group n (length group) (group ++ rest)) (separated code result))

decode_next :
    (code n : ℕ) (group rest result : Bytes)
    → n ≡ length group + 1
    → decode_group code 0 (n ∷ (group ++ rest)) result
      ≡ decode_group n 0 rest (result ++ (separator code ++ group))
decode_next code n group rest result e =
    decode_start code n group rest result e
    ∙ decode_group-append n group rest (result ++ separator code)
    ∙ ap (decode_group n 0 rest) (append_assoc result (separator code) group)

separator_short :
    (open_group : Bytes) → length open_group < 0xfe → separator (length open_group + 1) ≡ 0 ∷ []
separator_short open_group h = ground arith

finished : (code : ℕ) (result : Bytes) → decode_group code 0 [] result ≡ ok result
unfolding decode_group
finished code result = refl

decode_last :
    (code : ℕ) (open_group result : Bytes)
    → decode_group code 0 (groups open_group []) result
      ≡ ok (result ++ (separator code ++ (open_group ++ [])))
unfolding groups
decode_last code open_group result =
    ap (λ g. decode_group code 0 ((length open_group + 1) ∷ g) result) (sym (append-nil open_group))
    ∙ decode_next code (length open_group + 1) open_group [] result refl
    ∙ finished (length open_group + 1) (result ++ (separator code ++ open_group))
    ∙ ap ok (simp append-nil)

decode-groups :
    (rest open_group result : Bytes) (code : ℕ)
    → length open_group < 0xfe
    → decode_group code 0 (groups open_group rest) result
      ≡ ok (result ++ (separator code ++ (open_group ++ rest)))
decode-groups [] open_group result code h = decode_last code open_group result
decode-groups (b ∷ rest) open_group result code h =
    let before : Bytes = result ++ (separator code ++ open_group) in
    elim (Bool-cases (b == 0)) [
      | inl z ↦
          ap (λ e. decode_group code 0 e result) (groups_zero open_group rest b z)
          ∙ decode_next code (length open_group + 1) open_group (groups [] rest) result refl
          ∙ decode-groups rest [] before (length open_group + 1) (omega arith)
          ∙ ap (λ t. ok (before ++ (t ++ rest))) (separator_short open_group h)
          ∙ ap (λ (t : ℕ). ok (before ++ (t ∷ rest))) (sym ((==_iff b 0).0 z))
          ∙ ap ok (simp append_assoc)
      | inr nz ↦ elim (Bool-cases (length open_group + 1 + 1 == 0xff)) [
        | inl f ↦
            ap (λ e. decode_group code 0 e result) (groups_full open_group rest b nz f)
            ∙ decode_next code 0xff (open_group ++ (b ∷ [])) (groups [] rest) result
                (omega (arith, length-append open_group (b ∷ []), (==_iff _ _).0 f))
            ∙ decode-groups rest [] (result ++ (separator code ++ (open_group ++ (b ∷ [])))) 0xff
                (omega arith)
            ∙ ap ok (simp append_assoc)
        | inr nf ↦
            ap (λ e. decode_group code 0 e result) (groups_more open_group rest b nz nf)
            ∙ decode-groups rest (open_group ++ (b ∷ [])) result code
                (ground (arith, length-append open_group (b ∷ [])))
            ∙ ap ok (simp append_assoc)
      ]
    ]

pub cobs_encode-groups : (data' : Bytes) → cobs_encode data' ≡ groups [] data'
unfolding cobs_encode
cobs_encode-groups data' = fold-groups data' [] []

-- The decoder starts as after a full group.
cobs_decode-decode_group : (encoded : Bytes) → cobs_decode encoded ≡ decode_group 0xff 0 encoded []
unfolding cobs_decode
cobs_decode-decode_group [] = refl
cobs_decode-decode_group (code ∷ rest) = refl

-- `_cobs_decode` gives back what `_cobs_encode` was given.
pub cobs_decode-cobs_encode : (data' : Bytes) → cobs_decode (cobs_encode data') ≡ ok data'
cobs_decode-cobs_encode data' =
    ap cobs_decode (cobs_encode-groups data')
    ∙ cobs_decode-decode_group (groups [] data')
    ∙ decode-groups data' [] [] 0xff (omega arith)
