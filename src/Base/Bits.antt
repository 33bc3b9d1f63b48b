-- ===== src/Base/Bits.antt =====
-- The bit operations at variables: by digits, and by blocks of digits.
use Prim.Native.Nat.{max, bit_and, bit_or, bit_and-bitwise, bit_or-bitwise, digits}
use native.Mathlib.Nat.{pow-suc}
use dep2p.Base.{
  Bool, true, ◌&&◌, ℕ, zero, suc, ◌+◌, ◌-◌, ◌*◌, ◌/◌, ◌%◌, ◌^◌, ◌≤◌, ◌<◌, ◌≡◌, refl, sym, ◌∙◌, min,
  arith,
}

-- An operation on numbers that works digit by digit: the lowest one, and the halves.
pub record IsDigitwise (op : ℕ → ℕ → ℕ) : Type 0 where
  pub digit : ℕ → ℕ → ℕ
  pub step : (a b : ℕ) → op a b ≡ digit (a % 2) (b % 2) + op (a / 2) (b / 2) * 2
  pub none : op 0 0 ≡ 0

-- Any two counts of digits that cover the number give one result.
module _ (rest : ℕ → ℕ) (digit : ℕ → ℕ → ℕ) where
  of_zero : (count b : ℕ) → digits rest digit count 0 b ≡ rest b
  of_zero zero b = refl
  of_zero (suc count) b = refl

  two_counts : (x b k l : ℕ) → x ≤ k → x ≤ l → digits rest digit k x b ≡ digits rest digit l x b
  two_counts zero b k l hk hl = of_zero k b ∙ sym (of_zero l b)
  two_counts (suc x) b zero l hk hl = absurd (omega arith)
  two_counts (suc x) b (suc k) zero hk hl = absurd (omega arith)
  two_counts (suc x) b (suc k) (suc l) hk hl =
      let halves = two_counts (suc x / 2) (b / 2) k l (omega arith) (omega arith) in omega arith

  halved :
      (x b : ℕ) → digits rest digit x (suc x / 2) b ≡ digits rest digit (suc x / 2) (suc x / 2) b
  halved x b = two_counts (suc x / 2) b x (suc x / 2) (omega arith) (omega arith)

pub bit_and_lowest : (x b : ℕ) → bit_and x b ≡ min (x % 2) (b % 2) + bit_and (x / 2) (b / 2) * 2
bit_and_lowest zero b = omega (arith, bit_and-bitwise 0 b, bit_and-bitwise 0 (b / 2))
bit_and_lowest (suc x) b =
    let whole = bit_and-bitwise (suc x) b in
    let half = bit_and-bitwise (suc x / 2) (b / 2) in
    omega (arith, whole, half, halved (λ _. zero) min x (b / 2))

pub bit_and-IsDigitwise : IsDigitwise bit_and
bit_and-IsDigitwise = record { digit = min; step = bit_and_lowest; none = refl }

pub bit_or_lowest : (x b : ℕ) → bit_or x b ≡ max (x % 2) (b % 2) + bit_or (x / 2) (b / 2) * 2
bit_or_lowest zero b = omega (arith, bit_or-bitwise 0 b, bit_or-bitwise 0 (b / 2))
bit_or_lowest (suc x) b =
    let whole = bit_or-bitwise (suc x) b in
    let half = bit_or-bitwise (suc x / 2) (b / 2) in
    omega (arith, whole, half, halved (λ r. r) max x (b / 2))

pub bit_or-IsDigitwise : IsDigitwise bit_or
bit_or-IsDigitwise = record { digit = max; step = bit_or_lowest; none = refl }

module _ (op : ℕ → ℕ → ℕ) (w : IsDigitwise op) where
  -- The high digits and the low ones do not meet.
  pub op_blocks :
      (k a b c d : ℕ)
      → b < 2 ^ k
      → d < 2 ^ k
      → op (a * 2 ^ k + b) (c * 2 ^ k + d) ≡ op a c * 2 ^ k + op b d
  op_blocks zero a zero c zero p q =
      let ea : a * 2 ^ 0 + 0 ≡ a = omega arith in
      let ec : c * 2 ^ 0 + 0 ≡ c = omega arith in rw (ea, ec) (omega (arith, w.none))
  op_blocks zero a (suc b) c d p q = absurd (omega arith)
  op_blocks zero a zero c (suc d) p q = absurd (omega arith)
  op_blocks (suc k) a b c d p q =
      let double : 2 ^ suc k ≡ 2 ^ k * 2 = pow-suc 2 k in
      let more : (x : ℕ) → x * 2 ^ suc k ≡ x * 2 ^ k * 2 = λ x. rw double (grind arith) in
      let half : (x y : ℕ) → (x * 2 ^ suc k + y) / 2 ≡ x * 2 ^ k + y / 2 =
        λ x y. omega (arith, more x) in
      let low : (x y : ℕ) → (x * 2 ^ suc k + y) % 2 ≡ y % 2 = λ x y. omega (arith, more x) in
      w.step (a * 2 ^ suc k + b) (c * 2 ^ suc k + d)
      ∙ rw (half a b, half c d, low a b, low c d)
          (omega (
            arith,
            op_blocks k a (b / 2) c (d / 2) (omega (arith, double)) (omega (arith, double)),
            more (op a c),
            w.step b d,
          ))

-- A mask of ones.
pub bit_and-ones : (k x : ℕ) → x < 2 ^ k → bit_and x (2 ^ k - 1) ≡ x
bit_and-ones zero zero p = refl
bit_and-ones zero (suc x) p = absurd (omega arith)
bit_and-ones (suc k) x p =
    let double : 2 ^ suc k ≡ 2 ^ k * 2 = pow-suc 2 k in
    let some_left : 0 < 2 ^ k = omega (arith, double, p) in
    let half : (2 ^ suc k - 1) / 2 ≡ 2 ^ k - 1 = omega (arith, double, some_left) in
    bit_and_lowest x (2 ^ suc k - 1)
    ∙ rw half (omega (arith, double, some_left, bit_and-ones k (x / 2) (omega (arith, double))))

zero_fuel : (n x : ℕ) → x ≤ n → (bit_and x 0 ≡ 0) × (bit_or x 0 ≡ x)
zero_fuel n zero p = (refl, refl)
zero_fuel zero (suc x) p = absurd (omega arith)
zero_fuel (suc n) (suc x) p =
    let (h, k) = zero_fuel n (suc x / 2) (omega arith) in
    (omega (arith, bit_and_lowest (suc x) 0, h), omega (arith, bit_or_lowest (suc x) 0, k))

pub bit_and-zero : (x : ℕ) → bit_and x 0 ≡ 0
bit_and-zero x = (zero_fuel x x (omega arith)).0

pub bit_or-zero : (x : ℕ) → bit_or x 0 ≡ x
bit_or-zero x = (zero_fuel x x (omega arith)).1

pub zero-bit_and : (x : ℕ) → bit_and 0 x ≡ 0
zero-bit_and x = bit_and-bitwise 0 x

pub zero-bit_or : (x : ℕ) → bit_or 0 x ≡ x
zero-bit_or x = bit_or-bitwise 0 x

-- Over a small range, a check of every value by evaluation.
unfoldable pub checked : ℕ → (ℕ → Bool) → Bool
checked zero test = true
checked (suc limit) test = checked limit test && test limit

pub checked-holds : (n : ℕ) (p : ℕ → Bool) (x : ℕ) → checked n p ≡ true → x < n → p x ≡ true
unfolding checked
checked-holds zero p x h lt = absurd (omega arith)
checked-holds (suc n) p x h lt = ground (arith, checked-holds n p x)
