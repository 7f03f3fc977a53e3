-- ===== src/Prelude/Bits.antt =====
-- Python's `&`, `|`, `^` and shifts on natural numbers, as arithmetic.
use Prim.Native.Nat.{ℕ, zero, suc, ◌+◌, ◌-◌, ◌*◌, ◌/◌, ◌%◌, ◌^◌, ◌≤◌, ◌<◌, min, max}
use Prim.Native.Nat.{bit_and, bit_or, bit_xor, digits, bitwise, differ}
use Prim.Native.Nat.{bit_and-bitwise, bit_or-bitwise, bit_xor-bitwise}
use mathlib.Core.Path.{◌≡◌, refl, sym, ap, ◌∙◌}
use mathlib.Core.Bool.{Bool, true, ◌&&◌}
use native.Mathlib.Nat.{
  le_refl, pow-suc, one-le-pow, div-add-mod, mod-lt, mul-add-mod_self_left, mod-eq_of_lt,
}
use native.Mathlib.Omega.{arith}
use geberit_aquaclean.Prelude.Tests.{◌==◌}

-- x >> k and x << k.
infixl 60 ◌>>>◌ ◌<<<◌
abbrev pub ◌>>>◌ : ℕ → ℕ → ℕ
x >>> k = x / 2 ^ k

abbrev pub ◌<<<◌ : ℕ → ℕ → ℕ
x <<< k = x * 2 ^ k

-- Over a small range, every value is checked by evaluation.
unfoldable pub all_below : ℕ → (ℕ → Bool) → Bool
all_below zero p = true
all_below (suc n) p = p n && all_below n p

pub all_below→eq :
    (n : ℕ) (f g : ℕ → ℕ) → all_below n (λ x. f x == g x) ≡ true → (x : ℕ) → x < n → f x ≡ g x
unfolding all_below
all_below→eq zero f g h x lt = absurd (omega arith)
all_below→eq (suc n) f g h x lt = ground (arith, all_below→eq n f g (ground arith) x)

-- The fuel of the native recursion, dropped: any that reaches `a` gives the same number.
module _ (z : ℕ → ℕ) (f : ℕ → ℕ → ℕ) where
  digits_enough : (k n a b : ℕ) → n ≤ k → a ≤ n → digits z f n a b ≡ bitwise z f a b
  digits_enough k zero zero b h l = refl
  digits_enough k zero (suc a) b h l = absurd (omega arith)
  digits_enough k (suc n) zero b h l = refl
  digits_enough zero (suc n) (suc a) b h l = absurd (omega arith)
  digits_enough (suc k) (suc n) (suc a) b h l =
      let long = digits_enough k n (suc a / 2) (b / 2) (omega arith) (omega arith) in
      let short = digits_enough k a (suc a / 2) (b / 2) (omega arith) (omega arith) in
      ap (λ (t : ℕ). t * 2 + f (suc a % 2) (b % 2)) (long ∙ sym short)

  bitwise-half :
      (a b : ℕ)
      → bitwise z f (suc a) b ≡ bitwise z f (suc a / 2) (b / 2) * 2 + f (suc a % 2) (b % 2)
  bitwise-half a b =
      ap (λ (t : ℕ). t * 2 + f (suc a % 2) (b % 2))
        (digits_enough a a (suc a / 2) (b / 2) (le_refl a) (omega arith))

-- One equation for the lowest digit of each operation.
pub bit_or_low : (u v : ℕ) → bit_or u v ≡ bit_or (u / 2) (v / 2) * 2 + max (u % 2) (v % 2)
bit_or_low zero v = simp bit_or-bitwise (omega arith)
bit_or_low (suc u) v = simp bit_or-bitwise (bitwise-half (λ y. y) max u v)

pub bit_and_low : (u v : ℕ) → bit_and u v ≡ bit_and (u / 2) (v / 2) * 2 + min (u % 2) (v % 2)
bit_and_low zero v = simp bit_and-bitwise (omega arith)
bit_and_low (suc u) v = simp bit_and-bitwise (bitwise-half (λ y. 0) min u v)

differ-mod : (a b : ℕ) → a < 2 → b < 2 → differ a b ≡ (a + b) % 2
differ-mod zero b h k = omega arith
differ-mod (suc zero) zero h k = omega arith
differ-mod (suc zero) (suc zero) h k = omega arith
differ-mod (suc zero) (suc (suc b)) h k = absurd (omega arith)
differ-mod (suc (suc a)) b h k = absurd (omega arith)

xor_low : (a b : ℕ) → bit_xor a b ≡ bit_xor (a / 2) (b / 2) * 2 + differ (a % 2) (b % 2)
xor_low zero b = simp bit_xor-bitwise (omega arith)
xor_low (suc a) b = simp bit_xor-bitwise (bitwise-half (λ y. y) differ a b)

pub bit_xor_low : (a b : ℕ) → bit_xor a b ≡ bit_xor (a / 2) (b / 2) * 2 + (a % 2 + b % 2) % 2
bit_xor_low a b = omega (arith, xor_low a b, differ-mod (a % 2) (b % 2) (omega arith) (omega arith))

-- `x ^ y` undoes itself: what a stream cipher rests on.
bit_xor_twice : (n a b : ℕ) → a ≤ n → b ≤ n → bit_xor (bit_xor a b) b ≡ a
bit_xor_twice zero a b h k =
    let e : a ≡ 0 = omega arith in let e' : b ≡ 0 = omega arith in rw (e, e') refl
bit_xor_twice (suc n) a b h k = omega (
  arith,
  bit_xor_low (bit_xor a b) b,
  bit_xor_low a b,
  half,
  bit_xor_twice n (a / 2) (b / 2) (omega arith) (omega arith),
)
  where
    half : bit_xor (bit_xor a b / 2) (b / 2) ≡ bit_xor (bit_xor (a / 2) (b / 2)) (b / 2)
    half = ap (λ (t : ℕ). bit_xor t (b / 2)) (omega (arith, bit_xor_low a b))

pub bit_xor_cancel : (a b : ℕ) → bit_xor (bit_xor a b) b ≡ a
bit_xor_cancel a b = bit_xor_twice (a + b) a b (omega arith) (omega arith)

-- An exclusive or of two numbers of `k` bits has `k` bits.
pub bit_xor-lt : (k a b : ℕ) → a < 2 ^ k → b < 2 ^ k → bit_xor a b < 2 ^ k
bit_xor-lt zero a b h l =
    let e : a ≡ 0 = omega arith in let e' : b ≡ 0 = omega arith in rw (e, e') (omega arith)
bit_xor-lt (suc k) a b h l = omega (
  arith,
  bit_xor_low a b,
  pow-suc 2 k,
  bit_xor-lt k (a / 2) (b / 2) (omega (arith, pow-suc 2 k)) (omega (arith, pow-suc 2 k)),
)

bit_and-zero : (n a : ℕ) → a ≤ n → bit_and a 0 ≡ 0
bit_and-zero n zero h = refl
bit_and-zero zero (suc a) h = absurd (omega arith)
bit_and-zero (suc n) (suc a) h =
    omega (arith, bit_and_low (suc a) 0, bit_and-zero n (suc a / 2) (omega arith))

zero-bit_or : (b : ℕ) → bit_or 0 b ≡ b
zero-bit_or b = bit_or-bitwise 0 b

-- Or of a number below `2 ^ k` and a multiple of `2 ^ k`, either way round.
pub bit_or-shift : (k r q : ℕ) → r < 2 ^ k → bit_or r (q * 2 ^ k) ≡ r + q * 2 ^ k
bit_or-shift zero r q h =
    let e : r ≡ 0 = omega arith in rw e (zero-bit_or (q * 2 ^ 0) ∙ omega arith)
bit_or-shift (suc k) r q h =
    omega (arith, bit_or_low r (q * 2 ^ suc k), double, halves, bit_or-shift k (r / 2) q small)
  where
    double : q * 2 ^ suc k ≡ 2 * (q * 2 ^ k)
    double = omega (arith, ap (λ (t : ℕ). q * t) (pow-suc 2 k))

    small : r / 2 < 2 ^ k
    small = omega (arith, pow-suc 2 k)

    halves : bit_or (r / 2) (q * 2 ^ suc k / 2) ≡ bit_or (r / 2) (q * 2 ^ k)
    halves = ap (λ (t : ℕ). bit_or (r / 2) t) (omega (arith, double))

pub bit_or_comm : (n a b : ℕ) → a ≤ n → b ≤ n → bit_or a b ≡ bit_or b a
bit_or_comm zero a b h k =
    let e : a ≡ 0 = omega arith in let e' : b ≡ 0 = omega arith in rw (e, e') refl
bit_or_comm (suc n) a b h k = omega (
  arith,
  bit_or_low a b,
  bit_or_low b a,
  bit_or_comm n (a / 2) (b / 2) (omega arith) (omega arith),
)

pub shift-bit_or : (k q r : ℕ) → r < 2 ^ k → bit_or (q * 2 ^ k) r ≡ q * 2 ^ k + r
shift-bit_or k q r h =
    bit_or_comm (q * 2 ^ k + r) (q * 2 ^ k) r (omega arith) (omega arith)
    ∙ bit_or-shift k r q h
    ∙ omega arith

-- A mask of the low bits is a remainder.
pub bit_and-one : (a : ℕ) → bit_and a 0x01 ≡ a % 2
bit_and-one a = omega (arith, bit_and_low a 1, bit_and-zero (a / 2) (a / 2) (le_refl _))

pub bit_and_three : (a : ℕ) → bit_and a 0x03 ≡ a % 4
bit_and_three a = omega (arith, bit_and_low a 3, bit_and-one (a / 2))

pub bit_and_seven : (a : ℕ) → bit_and a 0x07 ≡ a % 8
bit_and_seven a = omega (arith, bit_and_low a 7, bit_and_three (a / 2))

pub bit_and_nibble : (a : ℕ) → bit_and a 0x0f ≡ a % 16
bit_and_nibble a = omega (arith, bit_and_low a 15, bit_and_seven (a / 2))

bit_and_five : (a : ℕ) → bit_and a 0x1f ≡ a % 32
bit_and_five a = omega (arith, bit_and_low a 31, bit_and_nibble (a / 2))

bit_and_six : (a : ℕ) → bit_and a 0x3f ≡ a % 64
bit_and_six a = omega (arith, bit_and_low a 63, bit_and_five (a / 2))

pub bit_and_0x7f : (a : ℕ) → bit_and a 0x7f ≡ a % 128
bit_and_0x7f a = omega (arith, bit_and_low a 127, bit_and_six (a / 2))

pub bit_and_byte : (a : ℕ) → bit_and a 0xff ≡ a % 256
bit_and_byte a = omega (arith, bit_and_low a 255, bit_and_0x7f (a / 2))

mod-double : (p a : ℕ) → 0 < p → a % (2 * p) ≡ a / 2 % p * 2 + a % 2
mod-double p a h =
    let rest : ℕ = a / 2 % p * 2 + a % 2 in
    let whole : a ≡ 2 * p * (a / 2 / p) + rest = omega (arith, div-add-mod (a / 2) p) in
    let small : rest < 2 * p = omega (arith, mod-lt (a / 2) h) in
    ap (λ (t : ℕ). t % (2 * p)) whole
    ∙ mul-add-mod_self_left (2 * p) (a / 2 / p) rest
    ∙ mod-eq_of_lt small

and_mask_suc :
    (k a : ℕ)
    → bit_and (a / 2) (2 ^ k - 1) ≡ a / 2 % 2 ^ k
    → bit_and a (2 ^ suc k - 1) ≡ a % 2 ^ suc k
and_mask_suc k a ih =
    omega (arith, bit_and_low a (2 ^ suc k - 1), high, pow-suc 2 k, one-le-pow k 2, whole)
  where
    doubled : 2 ^ suc k ≡ 2 * 2 ^ k
    doubled = omega (arith, pow-suc 2 k)

    whole : a % 2 ^ suc k ≡ a / 2 % 2 ^ k * 2 + a % 2
    whole = ap (λ (t : ℕ). a % t) doubled ∙ mod-double (2 ^ k) a (omega (arith, one-le-pow k 2))

    half : (2 ^ suc k - 1) / 2 ≡ 2 ^ k - 1
    half = omega (arith, pow-suc 2 k, one-le-pow k 2)

    high : bit_and (a / 2) ((2 ^ suc k - 1) / 2) ≡ a / 2 % 2 ^ k
    high = ap (λ (t : ℕ). bit_and (a / 2) t) half ∙ ih

-- A mask of `k` low bits, for every `k`.
pub bit_and_mask : (k a : ℕ) → bit_and a (2 ^ k - 1) ≡ a % 2 ^ k
bit_and_mask zero a = bit_and-zero a a (le_refl a) ∙ omega arith
bit_and_mask (suc k) a = and_mask_suc k a (bit_and_mask k (a / 2))

bit_and-le_fuel : (n a b : ℕ) → a + b ≤ n → bit_and a b ≤ b
bit_and-le_fuel zero a b h =
    let e : a ≡ 0 = omega arith in let e' : b ≡ 0 = omega arith in rw (e, e') (omega arith)
bit_and-le_fuel (suc n) zero b h = omega (arith, bit_and-bitwise 0 b)
bit_and-le_fuel (suc n) (suc a) b h =
    omega (arith, bit_and_low (suc a) b, bit_and-le_fuel n (suc a / 2) (b / 2) (omega arith))

pub bit_and-le : (a b : ℕ) → bit_and a b ≤ b
bit_and-le a b = bit_and-le_fuel (a + b) a b (omega arith)
