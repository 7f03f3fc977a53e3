-- ===== src/Api/Deserializer/Int.antt =====
-- What `deserialize_to_int` reads, and what it leaves.
use geberit_aquaclean.Prelude.{
  ℕ, suc, ◌+◌, ◌*◌, ◌≡◌, refl, ap, sym, bit_or, [], ◌∷◌, ◌++◌, length, get_elem?-append,
  drop-append, take-append_of_length, arith, ok,
}
use geberit_aquaclean.Prelude.Bits.{◌<<<◌, shift-bit_or}
use geberit_aquaclean.Prelude.Bytes.{Bytes, IsByte, IsBytes, from_le}
use geberit_aquaclean.Api.Deserializer.{reverse_at, join_from, deserialize_to_int}

-- The four bytes behind `before` are reversed.
reverse_at-here :
    (before : Bytes) (b0 b1 b2 b3 : ℕ) (rest : Bytes) (i : ℕ)
    → i ≡ length before
    → reverse_at i 4 (before ++ b0 ∷ b1 ∷ b2 ∷ b3 ∷ rest) ≡ before ++ b3 ∷ b2 ∷ b1 ∷ b0 ∷ rest
unfolding reverse_at
reverse_at-here before b0 b1 b2 b3 rest i e =
    let tail : Bytes = b0 ∷ b1 ∷ b2 ∷ b3 ∷ rest in
    rw
      (
        take-append_of_length before tail (sym e),
        drop-append before tail {i = i} 0 (omega (arith, e)),
        drop-append before tail {i = i + 4} 4 (omega (arith, e)),
      )
      refl

join_byte : (acc b : ℕ) → IsByte b → bit_or (acc <<< 8) b ≡ acc * 256 + b
join_byte acc b h = shift-bit_or 8 acc b h

join_from-here :
    (before : Bytes) (b0 b1 b2 b3 : ℕ) (rest : Bytes) (i : ℕ)
    → i ≡ length before
    → IsBytes (b0 ∷ b1 ∷ b2 ∷ b3 ∷ [])
    → join_from i 4 0 (before ++ b3 ∷ b2 ∷ b1 ∷ b0 ∷ rest)
      ≡ (ok (from_le (b0 ∷ b1 ∷ b2 ∷ b3 ∷ [])), before ++ b3 ∷ b2 ∷ b1 ∷ b0 ∷ rest)
unfolding join_from from_le
join_from-here before b0 b1 b2 b3 rest i e (h0, (h1, (h2, (h3, _)))) =
    let tail : Bytes = b3 ∷ b2 ∷ b1 ∷ b0 ∷ rest in
    rw
      (
        get_elem?-append before tail {i = i} 0 (omega (arith, e)),
        get_elem?-append before tail {i = suc i} 1 (omega (arith, e)),
        get_elem?-append before tail {i = suc (suc i)} 2 (omega (arith, e)),
        get_elem?-append before tail {i = suc (suc (suc i))} 3 (omega (arith, e)),
        join_byte 0 b3 h3,
        join_byte (0 * 256 + b3) b2 h2,
        join_byte ((0 * 256 + b3) * 256 + b2) b1 h1,
        join_byte (((0 * 256 + b3) * 256 + b2) * 256 + b1) b0 h0,
      )
      (ap (λ n. (ok n, before ++ tail)) (omega arith))

-- Four bytes behind `before` are read low one first, and are left in the opposite order.
pub deserialize_to_int-here :
    (before : Bytes) (b0 b1 b2 b3 : ℕ) (rest : Bytes) (i : ℕ)
    → i ≡ length before
    → IsBytes (b0 ∷ b1 ∷ b2 ∷ b3 ∷ [])
    → deserialize_to_int i 4 (before ++ b0 ∷ b1 ∷ b2 ∷ b3 ∷ rest)
      ≡ (ok (from_le (b0 ∷ b1 ∷ b2 ∷ b3 ∷ [])), before ++ b3 ∷ b2 ∷ b1 ∷ b0 ∷ rest)
unfolding deserialize_to_int
deserialize_to_int-here before b0 b1 b2 b3 rest i e h =
    rw (reverse_at-here before b0 b1 b2 b3 rest i e, join_from-here before b0 b1 b2 b3 rest i e h)
      refl
