-- ===== src/Keyspace/Bytes.antt =====
-- Facts on byte lists: their values, their lexicographic order, and zero prefixes.
use native.Mathlib.Nat.{pow-suc}
use dep2p.Base.{
  ℕ, suc, ◌+◌, ◌*◌, ◌^◌, ◌<◌, ◌≡◌, refl, ◌↔◌, true, false, [], ◌∷◌, arith, length, ltb, ◌==◌,
  if◌then◌else◌,
}
use dep2p.Base.Sorting.{IsOrder}
use dep2p.Keyspace.{
  Bytes, IsBytes, leading_zeros8, zero_prefix_from, zero_prefix_len, less_bytes, equal_bytes,
  be_value,
}

pub be_value-lt : (a : Bytes) → IsBytes a → be_value a < 256 ^ length a
unfolding be_value
be_value-lt [] h = omega arith
be_value-lt (x ∷ a) h =
    let tail : be_value a < 256 ^ length a = be_value-lt a h.1 in
    let double : 256 ^ suc (length a) ≡ 256 ^ length a * 256 = pow-suc 256 (length a) in grind arith

-- Two numbers with a leading digit each compare by that digit first.
lead_lt : (x y m u v : ℕ) → u < m → x < y → x * m + u < y * m + v
lead_lt x y m u v hu h = grind arith

ltb_digits :
    (x y m u v : ℕ)
    → u < m
    → v < m
    → (if ltb x y then true else if ltb y x then false else ltb u v) ≡ ltb (x * m + u) (y * m + v)
ltb_digits x y m u v hu hv = ground (arith, lead_lt x y m u v hu, lead_lt y x m v u hv)

-- The order of slices of one length is the order of the numbers that they spell.
pub less_bytes-eq-ltb :
    (a b : Bytes)
    → IsBytes a
    → IsBytes b
    → length a ≡ length b
    → less_bytes a b ≡ ltb (be_value a) (be_value b)
unfolding less_bytes be_value
less_bytes-eq-ltb [] [] ha hb e = refl
less_bytes-eq-ltb [] (y ∷ b) ha hb e = absurd (omega arith)
less_bytes-eq-ltb (x ∷ a) [] ha hb e = absurd (omega arith)
less_bytes-eq-ltb (x ∷ a) (y ∷ b) ha hb e =
    let same : length a ≡ length b = omega arith in
    let ih = less_bytes-eq-ltb a b ha.1 hb.1 same in
    let va : be_value a < 256 ^ length b = rw same at (be_value-lt a ha.1) in
    rw (same, ih) (ltb_digits x y (256 ^ length b) _ _ va (be_value-lt b hb.1))

zero_prefix_from-add : (i : ℕ) (a : Bytes) → zero_prefix_from i a ≡ i * 8 + zero_prefix_len a
unfolding zero_prefix_len zero_prefix_from
zero_prefix_from-add i [] = omega arith
zero_prefix_from-add i (x ∷ a) =
    ground (arith, zero_prefix_from-add (i + 1) a, zero_prefix_from-add (0 + 1) a)

pub zero_prefix_len-nil : zero_prefix_len [] ≡ 0
unfolding zero_prefix_len
zero_prefix_len-nil = refl

pub zero_prefix_len-cons :
    (x : ℕ) (a : Bytes)
    → zero_prefix_len (x ∷ a) ≡ (if x == 0 then 8 + zero_prefix_len a else leading_zeros8 x)
unfolding zero_prefix_len
zero_prefix_len-cons x a = ground (arith, zero_prefix_from-add (0 + 1) a)

eq_of_equal_bytes : (a b : Bytes) → equal_bytes a b ≡ true → a ≡ b
unfolding equal_bytes
eq_of_equal_bytes [] [] h = refl
eq_of_equal_bytes [] (y ∷ b) h = cc
eq_of_equal_bytes (x ∷ a) [] h = cc
eq_of_equal_bytes (x ∷ a) (y ∷ b) h = ground (arith, eq_of_equal_bytes a b)

equal_bytes_self : (a : Bytes) → equal_bytes a a ≡ true
unfolding equal_bytes
equal_bytes_self [] = refl
equal_bytes_self (x ∷ a) = ground (arith, equal_bytes_self a)

pub equal_bytes_iff : (a b : Bytes) → (equal_bytes a b ≡ true) ↔ (a ≡ b)
equal_bytes_iff a b = (eq_of_equal_bytes a b, λ e. rw e (equal_bytes_self b))

-- `less_bytes` orders the slices, of any lengths.
less_asym : (a b : Bytes) → less_bytes a b ≡ true → less_bytes b a ≡ false
unfolding less_bytes
less_asym [] [] h = cc
less_asym [] (y ∷ b) h = refl
less_asym (x ∷ a) [] h = cc
less_asym (x ∷ a) (y ∷ b) h = ground (arith, less_asym a b)

less_trans :
    (a b c : Bytes) → less_bytes b a ≡ false → less_bytes c b ≡ false → less_bytes c a ≡ false
unfolding less_bytes
less_trans [] [] [] h k = refl
less_trans [] [] (z ∷ c) h k = refl
less_trans [] (y ∷ b) [] h k = refl
less_trans [] (y ∷ b) (z ∷ c) h k = refl
less_trans (x ∷ a) [] c h k = cc
less_trans (x ∷ a) (y ∷ b) [] h k = cc
less_trans (x ∷ a) (y ∷ b) (z ∷ c) h k = ground (arith, less_trans a b c)

pub less_bytes-IsOrder : IsOrder less_bytes
less_bytes-IsOrder = record { asym = less_asym; trans = less_trans }
