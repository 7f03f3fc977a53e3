-- ===== src/Ble20/Join/Payload.antt =====
-- The size of a join request, and when the PIN has a part in it.
use geberit_aquaclean.Prelude.{
  ℕ, suc, ◌≤◌, ◌≡◌, refl, sym, ap, ◌∙◌, ◌⊎◌, inl, inr, bit_and, true, false, Bool-cases, Option,
  none, some, arith, ◌==◌, ltb, leb, if◌then◌else◌, length, length-append, length-take, length-drop,
  length-replicate, take, drop, replicate, Result, ok, err, io_error,
}
use geberit_aquaclean.Prelude.Bytes.{to_le4, Bytes}
use geberit_aquaclean.Ble20.Client.{Ble20, Io, and_run, ret, raise, ◌>>=◌}
use geberit_aquaclean.Ble20.Join.{
  Identifiers, secret_field, build, attempt, attempts, asks_for_pin, Joined, done,
}

length-secret_field :
    (size : ℕ) (secret : Option Bytes) → 4 ≤ size → length (secret_field size secret) ≡ size
unfolding secret_field
length-secret_field size none h = length-replicate size 0
length-secret_field size (some encoded) h =
    let zeros : Bytes = replicate size 0 in
    let size_zeros : length zeros ≡ size = length-replicate size 0 in
    omega (
      arith,
      size_zeros,
      length-append (take 4 encoded) (drop (length (take 4 encoded)) zeros),
      length-drop {A = ℕ} (length (take 4 encoded)) zeros,
      length-take 4 encoded,
    )

-- A request has 6, 10 or 11 bytes, by its version, however long the PIN is.
pub length-build :
    (join_version : ℕ) (d : Identifiers) (secret : Option Bytes)
    → length (build join_version d secret)
      ≡ (if join_version == 0 then 6 else if leb 2 join_version then 11 else 10)
unfolding build to_le4
length-build join_version d secret = elim (Bool-cases (join_version == 0)) [
  | inl z ↦ rw (z) refl
  | inr z ↦ rw (z) (elim (Bool-cases (leb 2 join_version)) [
    | inl k ↦
        ap
          (λ b.
            suc (suc (suc (suc (suc (suc (length (secret_field (if b then 5 else 4) secret))))))))
          k
        ∙ ap (λ n. suc (suc (suc (suc (suc (suc n)))))) (length-secret_field 5 secret (omega arith))
        ∙ sym (ap (λ b. if b then 11 else 10) k)
    | inr k ↦
        ap
          (λ b.
            suc (suc (suc (suc (suc (suc (length (secret_field (if b then 5 else 4) secret))))))))
          k
        ∙ ap (λ n. suc (suc (suc (suc (suc (suc n)))))) (length-secret_field 4 secret (omega arith))
        ∙ sym (ap (λ b. if b then 11 else 10) k)
  ])
]

-- What an attempt without the PIN ended with gives no reason to try the PIN.
abbrev pub NeedsNoPin : Result (ℕ × ℕ) → Type 0
NeedsNoPin r =
    (progress error_bits : ℕ)
    → r ≡ ok (progress, error_bits)
    → (progress ≡ 3) ⊎ (bit_and error_bits 0x02 ≡ 0)

module _ (patience join_version : ℕ) (d : Identifiers) where
  after_first : Option Bytes → ℕ × ℕ → Io Joined
  after_first pin (progress, error_bits) =
      if progress == 3
      then ret done
      else if asks_for_pin error_bits pin
      then (attempt patience join_version d pin >>= λ r.
          if r.0 == 3 then ret done else raise io_error)
      else raise io_error

  first_alone :
      (pin : Option Bytes) (r : Result (ℕ × ℕ) × Ble20)
      → NeedsNoPin r.0
      → and_run r (after_first pin) ≡ and_run r (after_first none)
  unfolding after_first asks_for_pin
  first_alone none r h = refl
  first_alone (some p) (err e, c) h = refl
  first_alone (some p) (ok (progress, error_bits), c) h = elim (h progress error_bits refl) [
    | inl e ↦ let three : (progress == 3) ≡ true = ground arith in rw (three) refl
    | inr e ↦ let clear : ltb 0 (bit_and error_bits 0x02) ≡ false = ground arith in rw (clear) refl
  ]

  -- The PIN makes no difference, to what is sent or to the result, unless the attempt without it
  -- fails with the bit that says Protected.
  pub attempts_without_pin :
      (pin : Option Bytes) (c : Ble20)
      → NeedsNoPin (attempt patience join_version d none c).0
      → attempts patience join_version d pin c ≡ attempts patience join_version d none c
  unfolding attempts after_first
  attempts_without_pin pin c h = first_alone pin (attempt patience join_version d none c) h
