-- ===== src/Prelude/Bits.antt =====
-- Laws of `&`, `|`, `^` on numbers of any width: the step on the lowest digit, the bounds,
-- disjoint fields, masks of low bits, and the cancellation of `^`.
use Prim.Native.Nat.{ℕ, zero, suc, ◌+◌, ◌-◌, ◌*◌, ◌/◌, ◌%◌, ◌^◌, ◌≤◌, ◌<◌, min, max}
use Prim.Native.Nat.{bit_and, bit_or, bit_xor, digits, bitwise, differ}
use Prim.Native.Nat.{bit_and-bitwise, bit_or-bitwise, bit_xor-bitwise}
use mathlib.Core.Path.{◌≡◌, refl, ap, ◌∙◌}
use native.Mathlib.Nat.{le_refl, pow-suc, one-le-pow}
use native.Mathlib.Nat.{mod-lt, mod-eq_of_lt, mul-add-mod_self_left, div-add-mod}
use native.Mathlib.Omega.{arith}

-- An operation on binary digits goes through `n` rounds, with `z` when the first number is used up.
-- Rounds beyond its value change nothing, so the lowest digit can be taken off.
module _ (z : ℕ → ℕ) (f : ℕ → ℕ → ℕ) where
  one_round_more : (n a b : ℕ) → a ≤ n → digits z f (suc n) a b ≡ digits z f n a b
  one_round_more zero zero b h = refl
  one_round_more zero (suc a) b h = absurd (omega arith)
  one_round_more (suc n) zero b h = refl
  one_round_more (suc n) (suc a) b h =
      ap (λ (t : ℕ). t * 2 + f (suc a % 2) (b % 2))
        (one_round_more n (suc a / 2) (b / 2) (omega arith))

  spare_rounds : (k a b : ℕ) → digits z f (a + k) a b ≡ bitwise z f a b
  spare_rounds zero a b = ap (λ (n : ℕ). digits z f n a b) (omega arith)
  spare_rounds (suc k) a b =
      let more : a + suc k ≡ suc (a + k) = omega arith in
      ap (λ (n : ℕ). digits z f n a b) more
      ∙ one_round_more (a + k) a b (omega arith)
      ∙ spare_rounds k a b

  -- `z` has to agree with a first number of zeros.
  lowest_digit :
      ((b : ℕ) → z b ≡ z (b / 2) * 2 + f 0 (b % 2))
      → (a b : ℕ) → bitwise z f a b ≡ f (a % 2) (b % 2) + 2 * bitwise z f (a / 2) (b / 2)
  lowest_digit law zero b = omega (arith, law b)
  lowest_digit law (suc a) b =
      let half = suc a / 2 in
      let enough : a ≡ half + (a - half) = omega arith in
      let rest : digits z f a half (b / 2) ≡ bitwise z f half (b / 2) =
        ap (λ (n : ℕ). digits z f n half (b / 2)) enough ∙ spare_rounds (a - half) half (b / 2) in
      omega (arith, rest)

pub bit_and_step : (a b : ℕ) → bit_and a b ≡ min (a % 2) (b % 2) + 2 * bit_and (a / 2) (b / 2)
bit_and_step a b = simp bit_and-bitwise (lowest_digit (λ y. 0) min (λ y. omega arith) a b)

pub bit_or_step : (a b : ℕ) → bit_or a b ≡ max (a % 2) (b % 2) + 2 * bit_or (a / 2) (b / 2)
bit_or_step a b = simp bit_or-bitwise (lowest_digit (λ y. y) max (λ y. omega arith) a b)

-- Two digits differ when their sum is odd.
differ_parity : (x y : ℕ) → x < 2 → y < 2 → differ x y ≡ (x + y) % 2
differ_parity zero y p q = omega arith
differ_parity (suc zero) zero p q = refl
differ_parity (suc zero) (suc zero) p q = refl
differ_parity (suc zero) (suc (suc y)) p q = absurd (omega arith)
differ_parity (suc (suc x)) y p q = absurd (omega arith)

pub bit_xor_step : (a b : ℕ) → bit_xor a b ≡ (a + b) % 2 + 2 * bit_xor (a / 2) (b / 2)
bit_xor_step a b =
    simp bit_xor-bitwise (lowest_digit (λ y. y) differ (λ y. zeros_differ y) a b)
    ∙ ap (λ (t : ℕ). t + 2 * bit_xor (a / 2) (b / 2)) (parity a b)
  where
    zeros_differ : (y : ℕ) → y ≡ y / 2 * 2 + differ 0 (y % 2)
    zeros_differ y = omega (arith, differ_parity 0 (y % 2) (omega arith) (omega arith))

    parity : (a b : ℕ) → differ (a % 2) (b % 2) ≡ (a + b) % 2
    parity a b = omega (arith, differ_parity (a % 2) (b % 2) (omega arith) (omega arith))

double_pow : (q k : ℕ) → q * 2 ^ suc k ≡ 2 * (q * 2 ^ k)
double_pow q k = omega (arith, ap (λ (t : ℕ). q * t) (pow-suc 2 k))

zero-bit_or : (b : ℕ) → bit_or 0 b ≡ b
zero-bit_or b = bit_or-bitwise 0 b

-- `r | (q << k)` is a sum when `r` fits `k` bits.
pub bit_or-fields : (k r q : ℕ) → r < 2 ^ k → bit_or r (q * 2 ^ k) ≡ r + q * 2 ^ k
bit_or-fields zero r q h = let e : r ≡ 0 = omega arith in rw e (omega (arith, zero-bit_or (q * 1)))
bit_or-fields (suc k) r q h =
    ground
      (arith, bit_or_step r (q * 2 ^ suc k), double_pow q k, pow-suc 2 k, bit_or-fields k (r / 2) q)

pub bit_xor-lt : (k a b : ℕ) → a < 2 ^ k → b < 2 ^ k → bit_xor a b < 2 ^ k
bit_xor-lt zero a b ha hb =
    let e : a ≡ 0 = omega arith in let d : b ≡ 0 = omega arith in rw (e, d) (omega arith)
bit_xor-lt (suc k) a b ha hb =
    ground (arith, bit_xor_step a b, pow-suc 2 k, bit_xor-lt k (a / 2) (b / 2))

-- `^` undoes itself.
pub bit_xor-cancel : (k a b : ℕ) → a < 2 ^ k → b < 2 ^ k → bit_xor (bit_xor a b) b ≡ a
bit_xor-cancel zero a b ha hb =
    let e : a ≡ 0 = omega arith in let d : b ≡ 0 = omega arith in rw (e, d) refl
bit_xor-cancel (suc k) a b ha hb = ground (
  arith,
  bit_xor_step a b,
  bit_xor_step (bit_xor a b) b,
  pow-suc 2 k,
  bit_xor-cancel k (a / 2) (b / 2),
)

-- `x & 0xff`, `x & 1` and the like: the low bits are the remainder.
zero-bit_and : (b : ℕ) → bit_and 0 b ≡ 0
zero-bit_and b = bit_and-bitwise 0 b

mod_pow-suc : (k a : ℕ) → a % 2 ^ suc k ≡ a / 2 % 2 ^ k * 2 + a % 2
mod_pow-suc k a =
    ap (λ (t : ℕ). t % 2 ^ suc k) split
    ∙ mul-add-mod_self_left (2 ^ suc k) (a / 2 / 2 ^ k) low
    ∙ mod-eq_of_lt (
        omega (
          arith,
          pow-suc 2 k,
          one-le-pow k 2,
          mod-lt (a / 2) {m = 2 ^ k} (one-le-pow k 2 (omega arith)),
        ))
  where
    low : ℕ
    low = a / 2 % 2 ^ k * 2 + a % 2

    split : a ≡ 2 ^ suc k * (a / 2 / 2 ^ k) + low
    split =
        omega
          (arith, div-add-mod (a / 2) (2 ^ k), ap (λ (t : ℕ). t * (a / 2 / 2 ^ k)) (pow-suc 2 k))

bit_and-zero : (n a : ℕ) → a ≤ n → bit_and a 0 ≡ 0
bit_and-zero n zero h = zero-bit_and 0
bit_and-zero zero (suc a) h = absurd (omega arith)
bit_and-zero (suc n) (suc a) h =
    omega (arith, bit_and_step (suc a) 0, bit_and-zero n (suc a / 2) (omega arith))

pub bit_and-mask : (k a : ℕ) → bit_and a (2 ^ k - 1) ≡ a % 2 ^ k
bit_and-mask zero a = omega (arith, bit_and-zero a a (le_refl a))
bit_and-mask (suc k) a = ground (
  arith,
  bit_and_step a (2 ^ suc k - 1),
  pow-suc 2 k,
  one-le-pow k 2,
  bit_and-mask k (a / 2),
  mod_pow-suc k a,
)

bit_xor-zero_fuel : (n a : ℕ) → a ≤ n → bit_xor a 0 ≡ a
bit_xor-zero_fuel n zero h = refl
bit_xor-zero_fuel zero (suc a) h = absurd (omega arith)
bit_xor-zero_fuel (suc n) (suc a) h =
    omega (arith, bit_xor_step (suc a) 0, bit_xor-zero_fuel n (suc a / 2) (omega arith))

pub bit_xor-zero : (a : ℕ) → bit_xor a 0 ≡ a
bit_xor-zero a = bit_xor-zero_fuel a a (le_refl a)

pub bit_xor_comm : (k a b : ℕ) → a < 2 ^ k → b < 2 ^ k → bit_xor a b ≡ bit_xor b a
bit_xor_comm zero a b ha hb =
    let e : a ≡ 0 = omega arith in let d : b ≡ 0 = omega arith in rw (e, d) refl
bit_xor_comm (suc k) a b ha hb =
    ground (arith, bit_xor_step a b, bit_xor_step b a, pow-suc 2 k, bit_xor_comm k (a / 2) (b / 2))

-- A top bit that only one of the two has is there in the result.
pub bit_xor-top : (k a b : ℕ) → a < 2 ^ k → 2 ^ k ≤ b → b < 2 ^ suc k → 2 ^ k ≤ bit_xor a b
bit_xor-top zero a b ha hl hb =
    let e : a ≡ 0 = omega arith in let d : b ≡ 1 = omega arith in rw (e, d) (omega arith)
bit_xor-top (suc k) a b ha hl hb = omega (
  arith,
  bit_xor_step a b,
  pow-suc 2 k,
  pow-suc 2 (suc k),
  bit_xor-top k (a / 2) (b / 2) (omega (arith, pow-suc 2 k)) (omega (arith, pow-suc 2 k))
      (omega (arith, pow-suc 2 (suc k))),
)
