-- ===== src/Keyspace/Xor.antt =====
-- Exclusive or of bytes at variables: the digit recursion, its group laws and its bounds.
use Prim.Native.Nat.{bit_xor, bit_xor-bitwise, digits, differ}
use native.Mathlib.Nat.{pow-suc}
use dep2p.Base.{ℕ, zero, suc, ◌+◌, ◌*◌, ◌/◌, ◌%◌, ◌^◌, ◌≤◌, ◌<◌, ◌≡◌, refl, ◌∙◌, arith}

abbrev xor_digits : ℕ → ℕ → ℕ → ℕ
xor_digits n a b = digits (λ r. r) differ n a b

-- Any count of digits that covers the first number gives the same result.
count_irrel : (n m a b : ℕ) → a ≤ n → a ≤ m → xor_digits n a b ≡ xor_digits m a b
count_irrel zero zero a b p q = refl
count_irrel zero (suc m) zero b p q = refl
count_irrel zero (suc m) (suc a) b p q = absurd (omega arith)
count_irrel (suc n) zero zero b p q = refl
count_irrel (suc n) zero (suc a) b p q = absurd (omega arith)
count_irrel (suc n) (suc m) zero b p q = refl
count_irrel (suc n) (suc m) (suc a) b p q =
    omega (arith, count_irrel n m (suc a / 2) (b / 2) (omega arith) (omega arith))

pub zero-xor : (b : ℕ) → bit_xor 0 b ≡ b
zero-xor b = bit_xor-bitwise 0 b

digit_sum : (x y : ℕ) → x < 2 → y < 2 → differ x y ≡ (x + y) % 2
digit_sum zero zero p q = omega arith
digit_sum zero (suc zero) p q = omega arith
digit_sum (suc zero) zero p q = omega arith
digit_sum (suc zero) (suc zero) p q = omega arith
digit_sum zero (suc (suc y)) p q = absurd (omega arith)
digit_sum (suc zero) (suc (suc y)) p q = absurd (omega arith)
digit_sum (suc (suc x)) y p q = absurd (omega arith)

-- The lowest digit, and the rest.
pub xor_step : (a b : ℕ) → bit_xor a b ≡ bit_xor (a / 2) (b / 2) * 2 + (a % 2 + b % 2) % 2
xor_step zero b = omega (arith, zero-xor b, zero-xor (b / 2))
xor_step (suc a) b = omega (
  arith,
  bit_xor-bitwise (suc a) b,
  bit_xor-bitwise (suc a / 2) (b / 2),
  count_irrel a (suc a / 2) (suc a / 2) (b / 2) (omega arith) (omega arith),
  digit_sum (suc a % 2) (b % 2) (omega arith) (omega arith),
)

comm_fuel : (n a b : ℕ) → a ≤ n → b ≤ n → bit_xor a b ≡ bit_xor b a
comm_fuel zero zero zero p q = refl
comm_fuel zero (suc a) b p q = absurd (omega arith)
comm_fuel zero zero (suc b) p q = absurd (omega arith)
comm_fuel (suc n) a b p q =
    omega
      (arith, xor_step a b, xor_step b a, comm_fuel n (a / 2) (b / 2) (omega arith) (omega arith))

pub xor_comm : (a b : ℕ) → bit_xor a b ≡ bit_xor b a
xor_comm a b = comm_fuel (a + b) a b (omega arith) (omega arith)

-- Two differences with a common end add up to the difference of the other ends.
cancel_fuel :
    (n a b c : ℕ) → a ≤ n → b ≤ n → c ≤ n → bit_xor (bit_xor a b) (bit_xor b c) ≡ bit_xor a c
cancel_fuel zero zero zero zero p q r = refl
cancel_fuel zero (suc a) b c p q r = absurd (omega arith)
cancel_fuel zero zero (suc b) c p q r = absurd (omega arith)
cancel_fuel zero zero zero (suc c) p q r = absurd (omega arith)
cancel_fuel (suc n) a b c p q r =
    xor_step (bit_xor a b) (bit_xor b c)
    ∙ rw (half a b, half b c)
        (omega (
          arith,
          cancel_fuel n (a / 2) (b / 2) (c / 2) (omega arith) (omega arith) (omega arith),
          xor_step a c,
          xor_step a b,
          xor_step b c,
        ))
  where
    half : (x y : ℕ) → bit_xor x y / 2 ≡ bit_xor (x / 2) (y / 2)
    half x y = omega (arith, xor_step x y)

pub xor_cancel : (a b c : ℕ) → bit_xor (bit_xor a b) (bit_xor b c) ≡ bit_xor a c
xor_cancel a b c = cancel_fuel (a + b + c) a b c (omega arith) (omega arith) (omega arith)

self_fuel : (n a : ℕ) → a ≤ n → bit_xor a a ≡ 0
self_fuel zero zero p = refl
self_fuel zero (suc a) p = absurd (omega arith)
self_fuel (suc n) a p = omega (arith, xor_step a a, self_fuel n (a / 2) (omega arith))

pub xor_self : (a : ℕ) → bit_xor a a ≡ 0
xor_self a = self_fuel a a (omega arith)

-- Distinct numbers have a difference.
zero_fuel : (n a b : ℕ) → a ≤ n → b ≤ n → bit_xor a b ≡ 0 → a ≡ b
zero_fuel zero zero zero p q e = refl
zero_fuel zero (suc a) b p q e = absurd (omega arith)
zero_fuel zero zero (suc b) p q e = absurd (omega arith)
zero_fuel (suc n) a b p q e =
    let rest : a / 2 ≡ b / 2 =
      zero_fuel n (a / 2) (b / 2) (omega arith) (omega arith) (omega (arith, xor_step a b)) in
    omega (arith, rest, xor_step a b)

pub eq_of_xor-zero : (a b : ℕ) → bit_xor a b ≡ 0 → a ≡ b
eq_of_xor-zero a b = zero_fuel (a + b) a b (omega arith) (omega arith)

-- The exclusive or of two numbers below a power of two stays below it.
pub xor-lt-pow : (m a b : ℕ) → a < 2 ^ m → b < 2 ^ m → bit_xor a b < 2 ^ m
xor-lt-pow zero zero zero p q = omega arith
xor-lt-pow zero (suc a) b p q = absurd (omega arith)
xor-lt-pow zero zero (suc b) p q = absurd (omega arith)
xor-lt-pow (suc m) a b p q =
    let double : 2 ^ suc m ≡ 2 ^ m * 2 = pow-suc 2 m in
    omega (
      arith,
      double,
      xor_step a b,
      xor-lt-pow m (a / 2) (b / 2) (omega (arith, double)) (omega (arith, double)),
    )

-- Two numbers with the same highest bit lose it.
pub xor-lt-top :
    (m a b : ℕ) → 2 ^ m ≤ a → a < 2 ^ suc m → 2 ^ m ≤ b → b < 2 ^ suc m → bit_xor a b < 2 ^ m
xor-lt-top zero a b p q r s =
    let one : a ≡ 1 = omega arith in let same : b ≡ 1 = omega arith in rw (one, same) (omega arith)
xor-lt-top (suc m) a b p q r s =
    let double : 2 ^ suc m ≡ 2 ^ m * 2 = pow-suc 2 m in
    let again : 2 ^ suc (suc m) ≡ 2 ^ suc m * 2 = pow-suc 2 (suc m) in
    omega (
      arith,
      double,
      xor_step a b,
      xor-lt-top m (a / 2) (b / 2) (omega (arith, double)) (omega (arith, double, again))
          (omega (arith, double)) (omega (arith, double, again)),
    )
