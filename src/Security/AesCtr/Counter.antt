-- ===== src/Security/AesCtr/Counter.antt =====
-- The keystream of `_AesCtrState` and that of counter mode, which is written down without the state.
use geberit_aquaclean.Prelude.{
  ℕ, ◌+◌, ◌*◌, ◌/◌, ◌%◌, ◌<◌, ◌≤◌, ◌^◌, ◌≡◌, refl, sym, ap, ◌∙◌, [], ◌∷◌, ◌++◌, arith, leb, ◌==◌,
  ==_iff, length, get_or, take, drop, bit_xor, inl, inr, Bool-cases, false, take-append_of_length,
  drop-append_of_length, length-take, length-drop, take-append-drop, All-drop, length-append,
  drop_all, append-nil,
}
use geberit_aquaclean.Prelude.Bits.{bit_and_mask}
use geberit_aquaclean.Prelude.Bytes.{Bytes, IsByte, IsBytes}
use geberit_aquaclean.Security.AesCtr.{
  AesCtrState, from_be, to_be4, increment, init, next_block, process_byte, process,
}

-- The counter of block `k`: the first twelve bytes of the nonce, and its last four plus `k`.
unfoldable pub counter_at : Bytes → ℕ → Bytes
counter_at nonce k = take 12 nonce ++ to_be4 ((from_be (drop 12 nonce) + k) % 2 ^ 32)

module _ (aes : Bytes → Bytes → Bytes) (key nonce : Bytes) where
  -- Byte `p` of block `k`.
  pub keystream : ℕ → ℕ → ℕ
  keystream k p = get_or (aes key (counter_at nonce k)) p 0

  -- Counter mode from byte `n` on.
  pub ctr_mode : ℕ → Bytes → Bytes
  ctr_mode n [] = []
  ctr_mode n (b ∷ bs) = bit_xor b (keystream (n / 16) (n % 16)) ∷ ctr_mode (n + 1) bs

length-to_be4 : (n : ℕ) → length (to_be4 n) ≡ 4
unfolding to_be4
length-to_be4 n = refl

be4_back : (n : ℕ) → n < 2 ^ 32 → from_be (to_be4 n) ≡ n
unfolding to_be4
be4_back n h = omega arith

increment_low :
    (front : Bytes) (x : ℕ)
    → length front ≡ 12
    → x < 2 ^ 32
    → increment (front ++ to_be4 x) ≡ front ++ to_be4 ((x + 1) % 2 ^ 32)
increment_low front x h small =
    unfold increment in
    rw (head, last, gone, digits, bit_and_mask 32 (x + 1)) (ap (λ r. front ++ r) (append-nil _))
  where
    head : take 12 (front ++ to_be4 x) ≡ front
    head = take-append_of_length front (to_be4 x) h

    last : drop 12 (front ++ to_be4 x) ≡ to_be4 x
    last = drop-append_of_length front (to_be4 x) h

    gone : drop 16 (front ++ to_be4 x) ≡ []
    gone =
        drop_all 16 (front ++ to_be4 x)
          (omega (arith, length-append front (to_be4 x), length-to_be4 x))

    digits : from_be (take 4 (to_be4 x)) ≡ x
    digits = unfold to_be4 in be4_back x small

four_bytes : (xs : Bytes) → length xs ≡ 4 → IsBytes xs → to_be4 ((from_be xs + 0) % 2 ^ 32) ≡ xs
unfolding to_be4
four_bytes (a ∷ b ∷ c ∷ d ∷ []) e (ha, (hb, (hc, (hd, _)))) = ground arith
four_bytes [] e h = absurd (omega arith)
four_bytes (a ∷ []) e h = absurd (omega arith)
four_bytes (a ∷ b ∷ []) e h = absurd (omega arith)
four_bytes (a ∷ b ∷ c ∷ []) e h = absurd (omega arith)
four_bytes (a ∷ b ∷ c ∷ d ∷ x ∷ xs) e h = absurd (omega arith)

counter_at-zero : (nonce : Bytes) → length nonce ≡ 16 → IsBytes nonce → counter_at nonce 0 ≡ nonce
unfolding counter_at
counter_at-zero nonce h bytes =
    ap (λ r. take 12 nonce ++ r)
      (four_bytes (drop 12 nonce) (omega (arith, length-drop 12 nonce))
        (All-drop IsByte 12 nonce bytes))
    ∙ take-append-drop 12 nonce

increment-counter_at :
    (nonce : Bytes) (k : ℕ)
    → length nonce ≡ 16
    → increment (counter_at nonce k) ≡ counter_at nonce (k + 1)
unfolding counter_at
increment-counter_at nonce k h =
    increment_low (take 12 nonce) ((from_be (drop 12 nonce) + k) % 2 ^ 32)
      (omega (arith, length-take 12 nonce)) (omega arith)
    ∙ ap (λ (t : ℕ). take 12 nonce ++ to_be4 t) (omega arith)

module _ (aes : Bytes → Bytes → Bytes) (key nonce : Bytes) (sixteen : length nonce ≡ 16) where
  -- The state in which byte `p` of block `k` comes next. At `p` = 16 the next block is still to be
  -- made.
  abbrev state_at : ℕ → ℕ → AesCtrState
  state_at k p = record {
    key = key;
    counter = counter_at nonce (k + 1);
    ks = aes key (counter_at nonce k);
    pos = p;
  }

  byte_inside :
      (k p b : ℕ)
      → p < 16
      → process_byte aes (state_at k p) b
        ≡ (bit_xor b (keystream aes key nonce k p), state_at k (p + 1))
  unfolding process_byte keystream
  byte_inside k p b h = let e : leb 16 p ≡ false = ground arith in rw e refl

  byte_at_end :
      (k b : ℕ)
      → process_byte aes (state_at k 16) b
        ≡ (bit_xor b (keystream aes key nonce (k + 1) 0), state_at (k + 1) 1)
  unfolding process_byte keystream next_block
  byte_at_end k b = rw (increment-counter_at nonce (k + 1) sixteen) refl

  byte_step :
      (k p b : ℕ)
      → p ≤ 16
      → process_byte aes (state_at k p) b ≡ (
        bit_xor b (keystream aes key nonce ((k * 16 + p) / 16) ((k * 16 + p) % 16)),
        state_at ((k * 16 + p) / 16) ((k * 16 + p) % 16 + 1),
      )
  byte_step k p b h = elim (Bool-cases (p == 16)) [
    | inl e ↦
        let full : p ≡ 16 = (==_iff p 16).0 e in
        let block : (k * 16 + p) / 16 ≡ k + 1 = omega arith in
        let first : (k * 16 + p) % 16 ≡ 0 = omega arith in rw (block, first, full) (byte_at_end k b)
    | inr ne ↦
        let inside : p < 16 = ground arith in
        let block : (k * 16 + p) / 16 ≡ k = omega arith in
        let here : (k * 16 + p) % 16 ≡ p = omega arith in
        rw (block, here) (byte_inside k p b inside)
  ]

  start : IsBytes nonce → init aes key nonce ≡ state_at 0 0
  unfolding init
  start bytes =
      let zeroth = counter_at-zero nonce sixteen bytes in
      let first = ap increment (sym zeroth) ∙ increment-counter_at nonce 0 sixteen in
      λ i. record { key = key; counter = first i; ks = aes key (sym zeroth i); pos = 0 }

  process-ctr_mode_from :
      (xs : Bytes) (k p : ℕ)
      → p ≤ 16
      → (process aes (state_at k p) xs).0 ≡ ctr_mode aes key nonce (k * 16 + p) xs
  unfolding process ctr_mode
  process-ctr_mode_from [] k p h = refl
  process-ctr_mode_from (b ∷ bs) k p h =
      let n : ℕ = k * 16 + p in
      let next : n / 16 * 16 + (n % 16 + 1) ≡ n + 1 = omega arith in
      let rest : (process aes (state_at (n / 16) (n % 16 + 1)) bs).0
          ≡ ctr_mode aes key nonce (n + 1) bs =
        process-ctr_mode_from bs (n / 16) (n % 16 + 1) (omega arith)
        ∙ ap (λ (t : ℕ). ctr_mode aes key nonce t bs) next in
      rw (byte_step k p b h)
        (ap (λ r. bit_xor b (keystream aes key nonce (n / 16) (n % 16)) ∷ r) rest)

  -- On a nonce of sixteen bytes a fresh cipher's output is that of counter mode from byte 0.
  pub process-ctr_mode :
      IsBytes nonce
      → (xs : Bytes) → (process aes (init aes key nonce) xs).0 ≡ ctr_mode aes key nonce 0 xs
  process-ctr_mode bytes xs =
      ap (λ s. (process aes s xs).0) (start bytes) ∙ process-ctr_mode_from xs 0 0 (omega arith)
