-- ===== src/Base/Bits.antt =====
-- The bit operations at variables, read as arithmetic.
use Prim.Native.Nat.{
  ℕ, zero, suc, ◌+◌, ◌*◌, ◌/◌, ◌%◌, ◌^◌, ◌≤◌, ◌<◌, bit_or, bit_xor, digits, bitwise,
  bit_xor-bitwise, differ,
}
use mathlib.Core.Path.{◌≡◌, refl, ap, sym}
use mathlib.Core.Bool.{Bool, true, ◌&&◌}
use mathlib.Core.Logic.{inl, inr}
use native.Mathlib.Nat.{le_refl, pow-suc, one-le-pow}
use native.Mathlib.Omega.{arith}
use android_prybar.Base.Tests.{◌==◌, ==_iff, if◌then◌else◌, Bool-cases}

-- `p` at 0, …, `n - 1`.
unfoldable pub every : (ℕ → Bool) → ℕ → Bool
every p zero = true
every p (suc n) = every p n && p n

pub every_at : (p : ℕ → Bool) (n x : ℕ) → x < n → every p n ≡ true → p x ≡ true
unfolding every
every_at p zero x inside all = absurd (omega arith)
every_at p (suc n) x inside all = ground (arith, every_at p n x)

nibbles_table : every (λ x. bit_or (x / 16 * 16) (x % 16) == x) 256 ≡ true
unfolding every
nibbles_table = refl

-- A high nibble or-ed with a low one.
pub bit_or_nibbles : (hi lo : ℕ) → hi < 16 → lo < 16 → bit_or (hi * 16) lo ≡ hi * 16 + lo
bit_or_nibbles hi lo p q =
    let v = hi * 16 + lo in
    let hi_part : v / 16 ≡ hi = omega arith in
    let lo_part : v % 16 ≡ lo = omega arith in
    let h = (==_iff _ v).0 (every_at _ 256 v (omega arith) nibbles_table) in
    rw (hi_part, lo_part) at h

-- The exclusive or, digit by digit.
module _ (z : ℕ → ℕ) (f : ℕ → ℕ → ℕ) where
  digits_any_fuel : (n m a b : ℕ) → a ≤ n → a ≤ m → digits z f n a b ≡ digits z f m a b
  digits_any_fuel zero zero a b p q = refl
  digits_any_fuel zero (suc m) zero b p q = refl
  digits_any_fuel zero (suc m) (suc a) b p q = absurd (omega arith)
  digits_any_fuel (suc n) zero zero b p q = refl
  digits_any_fuel (suc n) zero (suc a) b p q = absurd (omega arith)
  digits_any_fuel (suc n) (suc m) zero b p q = refl
  digits_any_fuel (suc n) (suc m) (suc a) b p q =
      rw (digits_any_fuel n m (suc a / 2) (b / 2) (omega arith) (omega arith))

  lowest_digit :
      (a b : ℕ)
      → bitwise z f (suc a) b ≡ bitwise z f (suc a / 2) (b / 2) * 2 + f (suc a % 2) (b % 2)
  lowest_digit a b =
      omega (arith, digits_any_fuel a (suc a / 2) (suc a / 2) (b / 2) (omega arith) (le_refl _))

bit_xor_step : (a b : ℕ) → bit_xor a b ≡ bit_xor (a / 2) (b / 2) * 2 + differ (a % 2) (b % 2)
bit_xor_step zero b = simp bit_xor-bitwise (omega arith)
bit_xor_step (suc a) b = simp bit_xor-bitwise (lowest_digit (λ y. y) differ a b)

differ-zero : (x y : ℕ) → differ x y ≡ 0 → x ≡ y
differ-zero zero y e = sym e
differ-zero (suc x) zero e = e
differ-zero (suc x) (suc y) e = ap suc (differ-zero x y e)

differ_bound : (x y : ℕ) → x < 2 → y < 2 → differ x y < 2
differ_bound zero y p q = q
differ_bound (suc x) zero p q = p
differ_bound (suc x) (suc y) p q = differ_bound x y (omega arith) (omega arith)

-- `__builtin_ctzll`: the zeros below the lowest one, `n` of them at most.
unfoldable pub ctz : ℕ → ℕ → ℕ
ctz zero v = 0
ctz (suc n) v = let rest = ctz n (v / 2) in if v % 2 == 0 then suc rest else 0

pub ctz_bound : (n v : ℕ) → ctz n v ≤ n
unfolding ctz
ctz_bound zero v = omega arith
ctz_bound (suc n) v = ground (arith, ctz_bound n (v / 2))

mod_double : (x m : ℕ) → 0 < m → x % (2 * m) ≡ 2 * (x / 2 % m) + x % 2
mod_double x m h = grind arith

mod-pow-suc :
    (k x y : ℕ) → x / 2 % 2 ^ k ≡ y / 2 % 2 ^ k → x % 2 ≡ y % 2 → x % 2 ^ suc k ≡ y % 2 ^ suc k
mod-pow-suc k x y h p =
    let double : 2 ^ suc k ≡ 2 * 2 ^ k = omega (arith, pow-suc 2 k) in
    rw double (
      omega (
        arith,
        mod_double x (2 ^ k) (one-le-pow k 2 (omega arith)),
        mod_double y (2 ^ k) (one-le-pow k 2 (omega arith)),
      ))

xor_even-digit : (x y : ℕ) → bit_xor x y % 2 ≡ 0 → x % 2 ≡ y % 2
xor_even-digit x y e =
    differ-zero (x % 2) (y % 2)
      (omega (arith, bit_xor_step x y, differ_bound (x % 2) (y % 2) (omega arith) (omega arith)))

xor-half : (x y : ℕ) → bit_xor x y / 2 ≡ bit_xor (x / 2) (y / 2)
xor-half x y =
    omega (arith, bit_xor_step x y, differ_bound (x % 2) (y % 2) (omega arith) (omega arith))

-- Two numbers agree below the lowest one of their exclusive or.
pub mod-ctz : (n x y : ℕ) → x % 2 ^ ctz n (bit_xor x y) ≡ y % 2 ^ ctz n (bit_xor x y)
unfolding ctz
mod-ctz zero x y = omega arith
mod-ctz (suc n) x y = elim (Bool-cases (bit_xor x y % 2 == 0)) [
  | inl e ↦
      rw (e, xor-half x y)
        (mod-pow-suc _ x y (mod-ctz n (x / 2) (y / 2)) (xor_even-digit x y ((==_iff _ 0).0 e)))
  | inr e ↦ rw e (omega arith)
]
