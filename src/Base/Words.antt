-- ===== src/Base/Words.antt =====
-- Bit operations on machine words, by the recursion on the binary digits for which the native
-- operations stand.
use Prim.Native.Nat.{
  ℕ, zero, suc, ◌+◌, ◌*◌, ◌/◌, ◌%◌, ◌^◌, ◌≤◌, ◌<◌, max, bit_or, bit_xor, digits, differ,
  bit_or-bitwise, bit_xor-bitwise,
}
use mathlib.Core.Path.{◌≡◌, refl, ap}
use native.Mathlib.Omega.{arith}

module _ (f : ℕ → ℕ → ℕ) (f0 : f 0 0 ≡ 0) (fz : (d : ℕ) → d < 2 → f 0 d ≡ d) where
  -- Rounds past the last digit add nothing.
  enough_rounds :
      (rounds more value other : ℕ)
      → value ≤ rounds
      → value ≤ more
      → digits (λ b. b) f rounds value other ≡ digits (λ b. b) f more value other
  enough_rounds zero zero value other r m = refl
  enough_rounds (suc rounds) zero zero other r m = refl
  enough_rounds zero (suc more) zero other r m = refl
  enough_rounds (suc rounds) (suc more) zero other r m = refl
  enough_rounds (suc rounds) zero (suc value) other r m = absurd (omega arith)
  enough_rounds zero (suc more) (suc value) other r m = absurd (omega arith)
  enough_rounds (suc rounds) (suc more) (suc value) other r m =
      omega
        (arith, enough_rounds rounds more (suc value / 2) (other / 2) (omega arith) (omega arith))

  digits_step :
      (a b : ℕ)
      → digits (λ b. b) f a a b ≡ digits (λ b. b) f (a / 2) (a / 2) (b / 2) * 2 + f (a % 2) (b % 2)
  digits_step zero b = omega (arith, fz (b % 2) (omega arith))
  digits_step (suc a) b =
      omega (arith, enough_rounds a (suc a / 2) (suc a / 2) (b / 2) (omega arith) (omega arith))

max_zero : (d : ℕ) → d < 2 → max 0 d ≡ d
max_zero d h = omega arith

differ_zero : (d : ℕ) → d < 2 → differ 0 d ≡ d
differ_zero d h = refl

pub bit_or_step : (a b : ℕ) → bit_or a b ≡ bit_or (a / 2) (b / 2) * 2 + max (a % 2) (b % 2)
bit_or_step a b =
    omega
      (arith, bit_or-bitwise a b, bit_or-bitwise (a / 2) (b / 2), digits_step max refl max_zero a b)

pub bit_xor_step : (a b : ℕ) → bit_xor a b ≡ bit_xor (a / 2) (b / 2) * 2 + differ (a % 2) (b % 2)
bit_xor_step a b = omega (
  arith,
  bit_xor-bitwise a b,
  bit_xor-bitwise (a / 2) (b / 2),
  digits_step differ refl differ_zero a b,
)

differ-lt : (x y : ℕ) → x < 2 → y < 2 → differ x y < 2
differ-lt zero y p q = q
differ-lt (suc x) zero p q = p
differ-lt (suc zero) (suc zero) p q = omega arith
differ-lt (suc zero) (suc (suc y)) p q = absurd (omega arith)
differ-lt (suc (suc x)) (suc y) p q = absurd (omega arith)

two_pow_suc : (k : ℕ) → 2 ^ suc k ≡ 2 * 2 ^ k
two_pow_suc k = omega arith

-- An exclusive or of words of `k` bits is one.
pub bit_xor-lt : (k a b : ℕ) → a < 2 ^ k → b < 2 ^ k → bit_xor a b < 2 ^ k
bit_xor-lt zero zero zero p q = omega arith
bit_xor-lt zero zero (suc b) p q = absurd (omega arith)
bit_xor-lt zero (suc a) b p q = absurd (omega arith)
bit_xor-lt (suc k) a b p q = omega (
  arith,
  two_pow_suc k,
  bit_xor_step a b,
  differ-lt (a % 2) (b % 2) (omega arith) (omega arith),
  bit_xor-lt k (a / 2) (b / 2) (omega (arith, two_pow_suc k)) (omega (arith, two_pow_suc k)),
)

zero-bit_or : (b : ℕ) → bit_or 0 b ≡ b
zero-bit_or b = bit_or-bitwise 0 b

half_double : (n : ℕ) → 2 * n / 2 ≡ n
half_double n = omega arith

-- An or of words with no common bits is a sum.
pub bit_or_disjoint : (s a b : ℕ) → a < 2 ^ s → bit_or a (b * 2 ^ s) ≡ a + b * 2 ^ s
bit_or_disjoint zero zero b h = omega (arith, zero-bit_or (b * 1))
bit_or_disjoint zero (suc a) b h = absurd (omega arith)
bit_or_disjoint (suc s) a b h =
    let doubled : b * 2 ^ suc s ≡ 2 * (b * 2 ^ s) =
      omega (arith, ap (λ (t : ℕ). b * t) (two_pow_suc s)) in
    rw doubled (
      omega (
        arith,
        bit_or_step a (2 * (b * 2 ^ s)),
        ap (λ (t : ℕ). bit_or (a / 2) t) (half_double (b * 2 ^ s)),
        bit_or_disjoint s (a / 2) b (omega (arith, two_pow_suc s)),
      ))
