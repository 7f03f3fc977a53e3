-- ===== src/Security/AesCtr/Stream.antt =====
-- `process` as a stream cipher: lengths, chunks and decryption.
use geberit_aquaclean.Prelude.{
  ℕ, zero, Bool, true, false, ◌<◌, ◌≡◌, suc, refl, ap, [], ◌∷◌, ◌++◌, arith, leb, if◌then◌else◌,
  length, get_or,
}
use geberit_aquaclean.Prelude.Bits.{bit_xor_cancel, bit_xor-lt}
use geberit_aquaclean.Prelude.Bytes.{Bytes, IsBytes}
use geberit_aquaclean.Security.AesCtr.{AesCtrState, next_block, process_byte, process}

module _ (aes : Bytes → Bytes → Bytes) where
  pub length-process : (s : AesCtrState) (xs : Bytes) → length (process aes s xs).0 ≡ length xs
  unfolding process
  length-process s [] = refl
  length-process s (b ∷ bs) = ap suc (length-process (process_byte aes s b).1 bs)

  -- The keystream does not depend on the data.
  process_byte_twice :
      (s : AesCtrState) (b : ℕ)
      → process_byte aes s (process_byte aes s b).0 ≡ (b, (process_byte aes s b).1)
  unfolding process_byte
  process_byte_twice s b = ap (λ (x : ℕ). (x, (process_byte aes s b).1)) (bit_xor_cancel b _)

  -- Decrypting from the state in which the sender began gives the data back, and leaves the
  -- receiver in the state in which the sender is.
  pub process_twice :
      (s : AesCtrState) (xs : Bytes)
      → process aes s (process aes s xs).0 ≡ (xs, (process aes s xs).1)
  unfolding process
  process_twice s [] = refl
  process_twice s (b ∷ bs) =
      rw (process_byte_twice s b, process_twice (process_byte aes s b).1 bs) refl

  -- A stream that comes in two parts is encrypted as if it came in one.
  pub process-append :
      (s : AesCtrState) (xs ys : Bytes)
      → process aes s (xs ++ ys) ≡ (
        (process aes s xs).0 ++ (process aes (process aes s xs).1 ys).0,
        (process aes (process aes s xs).1 ys).1,
      )
  unfolding process
  process-append s [] ys = refl
  process-append s (b ∷ bs) ys = rw (process-append (process_byte aes s b).1 bs ys) refl

-- `aes_bytes`: the block cipher returns bytes.
module _ (aes : Bytes → Bytes → Bytes)
    (aes_bytes : (key block : Bytes) → IsBytes (aes key block)) where
  get_or-IsByte : (xs : Bytes) (i : ℕ) → IsBytes xs → get_or xs i 0 < 256
  get_or-IsByte [] i h = omega arith
  get_or-IsByte (x ∷ xs) zero h = h.0
  get_or-IsByte (x ∷ xs) (suc i) h = get_or-IsByte xs i h.1

  refill-IsBytes :
      (c : AesCtrState) (full : Bool)
      → IsBytes c.ks
      → IsBytes (if full then next_block aes c else c).ks
  unfolding next_block
  refill-IsBytes c true h = aes_bytes c.key c.counter
  refill-IsBytes c false h = h

  process_byte-IsBytes :
      (c : AesCtrState) (b : ℕ)
      → IsBytes c.ks
      → b < 256
      → ((process_byte aes c b).0 < 256) × IsBytes (process_byte aes c b).1.ks
  unfolding process_byte
  process_byte-IsBytes c b h hb =
      let ks = refill-IsBytes c (leb 16 c.pos) h in (bit_xor-lt 8 b _ hb (get_or-IsByte _ _ ks), ks)

  -- Encrypting bytes gives bytes.
  pub process-IsBytes :
      (c : AesCtrState) (xs : Bytes)
      → IsBytes c.ks
      → IsBytes xs
      → IsBytes (process aes c xs).0 × IsBytes (process aes c xs).1.ks
  unfolding process
  process-IsBytes c [] h hx = (tt, h)
  process-IsBytes c (b ∷ bs) h (hb, hx) =
      let (one, ks) = process_byte-IsBytes c b h hb in
      let (more, ks') = process-IsBytes (process_byte aes c b).1 bs ks hx in ((one, more), ks')
