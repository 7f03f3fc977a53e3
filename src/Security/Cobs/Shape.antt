-- ===== src/Security/Cobs/Shape.antt =====
-- The shape and the size of what `_cobs_encode` writes.
use geberit_aquaclean.Prelude.{
  ℕ, ◌+◌, ◌*◌, ◌≤◌, ◌<◌, ◌≡◌, [], ◌∷◌, ◌++◌, arith, ◌==◌, length, length-append, All, All-append,
  inl, inr, Bool-cases, false, ==_iff,
}
use geberit_aquaclean.Prelude.Bytes.{Bytes, IsBytes}
use geberit_aquaclean.Security.Cobs.{cobs_encode}
use geberit_aquaclean.Security.Cobs.RoundTrip.{groups, cobs_encode-groups}

-- A byte that is not the delimiter.
abbrev pub IsInner : ℕ → Type 0
IsInner b = (0 < b) × (b < 256)

groups-IsInner :
    (rest open_group : Bytes)
    → IsBytes rest
    → All IsInner open_group
    → length open_group < 0xfe
    → All IsInner (groups open_group rest)
unfolding groups
groups-IsInner [] open_group h k l = ((omega arith, omega arith), k)
groups-IsInner (b ∷ rest) open_group (hb, h) k l =
    let tail = groups-IsInner rest [] h tt (omega arith) in
    elim (Bool-cases (b == 0)) [
      | inl z ↦
          rw z ((omega arith, omega arith), All-append IsInner open_group (groups [] rest) k tail)
      | inr nz ↦
          let inner : IsInner b = (ground arith, hb) in
          elim (Bool-cases (length open_group + 1 + 1 == 0xff)) [
            | inl f ↦
                rw (nz, f)
                  (
                    (omega arith, omega arith),
                    All-append IsInner open_group (b ∷ groups [] rest) k (inner, tail),
                  )
            | inr nf ↦
                rw (nz, nf)
                  (groups-IsInner rest (open_group ++ (b ∷ [])) h
                    (All-append IsInner open_group (b ∷ []) k (inner, tt))
                    (ground (arith, length-append open_group (b ∷ []))))
          ]
    ]

length-groups :
    (rest open_group : Bytes)
    → length open_group < 0xfe
    → (length open_group + length rest + 1 ≤ length (groups open_group rest))
      × (length (groups open_group rest) * 254 ≤ 255 * (length open_group + length rest) + 254)
unfolding groups
length-groups [] open_group l = omega arith
length-groups (b ∷ rest) open_group l = elim (Bool-cases (b == 0)) [
  | inl z ↦ rw z (
      omega (arith, length-append open_group (groups [] rest), length-groups rest [] (omega arith)))
  | inr nz ↦ elim (Bool-cases (length open_group + 1 + 1 == 0xff)) [
    | inl f ↦
        rw (nz, f)
          (omega (
            arith,
            (==_iff _ _).0 f,
            length-append open_group (b ∷ groups [] rest),
            length-groups rest [] (omega arith),
          ))
    | inr nf ↦
        rw (nz, nf)
          (omega (
            arith,
            length-append open_group (b ∷ []),
            length-groups rest (open_group ++ (b ∷ []))
                (ground (arith, length-append open_group (b ∷ []))),
          ))
  ]
]

-- Of bytes `_cobs_encode` makes bytes, none of them zero.
pub cobs_encode-IsInner : (data' : Bytes) → IsBytes data' → All IsInner (cobs_encode data')
cobs_encode-IsInner data' h =
    rw (cobs_encode-groups data') (groups-IsInner data' [] h tt (omega arith))

-- The encoding has one byte more than the data, and one for each 254 bytes at most.
pub length-cobs_encode :
    (data' : Bytes)
    → (length data' + 1 ≤ length (cobs_encode data'))
      × (length (cobs_encode data') * 254 ≤ 255 * length data' + 254)
length-cobs_encode data' =
    rw (cobs_encode-groups data') (omega (arith, length-groups data' [] (omega arith)))

inner_nonzero : (xs : Bytes) → All IsInner xs → All (λ b. (b == 0) ≡ false) xs
inner_nonzero [] h = tt
inner_nonzero (b ∷ bs) (hb, h) = (ground arith, inner_nonzero bs h)

-- No byte of an encoding is the delimiter.
pub cobs_encode_without_zero :
    (data' : Bytes) → IsBytes data' → All (λ b. (b == 0) ≡ false) (cobs_encode data')
cobs_encode_without_zero data' h = inner_nonzero (cobs_encode data') (cobs_encode-IsInner data' h)
