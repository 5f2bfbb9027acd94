-- ===== src/Bits.antt =====
-- Machine words as native numbers, seen through their bits: the operators `&`, `|`, `~` and `1 << i`
-- of `uint64_t`, and the laws that the bitmaps of the scheduler need.
pub mod Sets
pub mod Xor
pub mod Fields
use native.Mathlib.Nat.{pow-suc, one-le-pow}
use Prim.Native.Nat.{bit_and, bit_or, digits, bit_and-bitwise, bit_or-bitwise}
use lateral_root.Prelude.{
  ℕ, zero, suc, ◌+◌, ◌-◌, ◌*◌, ◌/◌, ◌%◌, ◌^◌, ◌≤◌, ◌<◌, min, max, ◌≡◌, ◌≢◌, refl, ap, sym, ◌∙◌,
  Bool, true, false, not, ◌&&◌, ◌||◌, arith, ◌==◌, Bool-cases, inl, inr,
}

-- Bit `i` of `n`.
unfoldable pub testbit : ℕ → ℕ → Bool
testbit n zero = n % 2 == 1
testbit n (suc i) = testbit (n / 2) i

abbrev pub word : ℕ
word = 2 ^ 64

-- `1 << i`, at 64 bits.
unfoldable pub one_hot : ℕ → ℕ
one_hot i = 2 ^ i % word

-- `~n`, at 64 bits.
unfoldable pub complement : ℕ → ℕ
complement n = word - 1 - n

pub zero-testbit : (i : ℕ) → testbit 0 i ≡ false
unfolding testbit
zero-testbit zero = refl
zero-testbit (suc i) = zero-testbit i

-- One digit in front of the others.
testbit-digit : (x d i : ℕ) → d ≤ 1 → testbit (x * 2 + d) (suc i) ≡ testbit x i
unfolding testbit
testbit-digit x d i h = ap (λ n. testbit n i) (omega arith)

and_digits :
    (n a b i : ℕ) → a ≤ n → testbit (digits (λ b. 0) min n a b) i ≡ (testbit a i && testbit b i)
unfolding testbit
and_digits zero zero b i h = ground (arith, zero-testbit i)
and_digits zero (suc a) b i h = absurd (omega arith)
and_digits (suc n) zero b i h = ground (arith, zero-testbit i)
and_digits (suc n) (suc a) b zero h = ground arith
and_digits (suc n) (suc a) b (suc i) h =
    testbit-digit _ (min (suc a % 2) (b % 2)) i (omega arith)
    ∙ and_digits n (suc a / 2) (b / 2) i (omega arith)

or_digits :
    (n a b i : ℕ) → a ≤ n → testbit (digits (λ b. b) max n a b) i ≡ (testbit a i || testbit b i)
unfolding testbit
or_digits zero zero b i h = ground (arith, zero-testbit i)
or_digits zero (suc a) b i h = absurd (omega arith)
or_digits (suc n) zero b i h = ground (arith, zero-testbit i)
or_digits (suc n) (suc a) b zero h = ground arith
or_digits (suc n) (suc a) b (suc i) h =
    testbit-digit _ (max (suc a % 2) (b % 2)) i (omega arith)
    ∙ or_digits n (suc a / 2) (b / 2) i (omega arith)

pub testbit-bit_and : (a b i : ℕ) → testbit (bit_and a b) i ≡ (testbit a i && testbit b i)
testbit-bit_and a b i = rw bit_and-bitwise (and_digits a a b i (omega arith))

pub testbit-bit_or : (a b i : ℕ) → testbit (bit_or a b) i ≡ (testbit a i || testbit b i)
testbit-bit_or a b i = rw bit_or-bitwise (or_digits a a b i (omega arith))

-- Numbers with the same bits are equal.
ext_below : (k a b : ℕ) → a ≤ k → b ≤ k → ((i : ℕ) → testbit a i ≡ testbit b i) → a ≡ b
unfolding testbit
ext_below zero a b p q h = omega arith
ext_below (suc k) a b p q h =
    let half : a / 2 ≡ b / 2 =
      ext_below k (a / 2) (b / 2) (omega arith) (omega arith) (λ i. h (suc i)) in
    ground (arith, h 0)

pub eq_of_testbit : (a b : ℕ) → ((i : ℕ) → testbit a i ≡ testbit b i) → a ≡ b
eq_of_testbit a b h = ext_below (a + b) a b (omega arith) (omega arith) h

-- A number of width `w` has no bit from `w` on, and the other way round.
pub testbit_of_ge : (w n i : ℕ) → n < 2 ^ w → w ≤ i → testbit n i ≡ false
unfolding testbit
testbit_of_ge zero n i h p = ground (arith, zero-testbit i)
testbit_of_ge (suc w) n zero h p = absurd (omega arith)
testbit_of_ge (suc w) n (suc i) h p =
    testbit_of_ge w (n / 2) i (omega (arith, pow-suc 2 w)) (omega arith)

pub lt_of_testbit : (w n : ℕ) → ((i : ℕ) → w ≤ i → testbit n i ≡ false) → n < 2 ^ w
unfolding testbit
lt_of_testbit zero n h =
    omega (arith, eq_of_testbit n 0 (λ i. h i (omega arith) ∙ sym (zero-testbit i)))
lt_of_testbit (suc w) n h =
    omega (arith, pow-suc 2 w, lt_of_testbit w (n / 2) (λ i p. h (suc i) (omega arith)))

flip_width : (w n i : ℕ) → n < 2 ^ w → i < w → testbit (2 ^ w - 1 - n) i ≡ not (testbit n i)
unfolding testbit
flip_width zero n i h p = absurd (omega arith)
flip_width (suc w) n zero h p = ground (arith, pow-suc 2 w)
flip_width (suc w) n (suc i) h p =
    ap (λ m. testbit m i) (omega (arith, pow-suc 2 w))
    ∙ flip_width w (n / 2) i (omega (arith, pow-suc 2 w)) (omega arith)

pub pow_bit : (i j : ℕ) → testbit (2 ^ i) j ≡ (i == j)
unfolding testbit
pow_bit zero zero = refl
pow_bit zero (suc j) = zero-testbit j ∙ ground arith
pow_bit (suc i) zero = ground (arith, pow-suc 2 i)
pow_bit (suc i) (suc j) =
    ap (λ m. testbit m j) (omega (arith, pow-suc 2 i)) ∙ pow_bit i j ∙ ground arith

pow-lt : (i w : ℕ) → i < w → 2 ^ i < 2 ^ w
pow-lt i zero h = absurd (omega arith)
pow-lt zero (suc w) h = omega (arith, pow-suc 2 w, one-le-pow w 2)
pow-lt (suc i) (suc w) h = omega (arith, pow-suc 2 w, pow-suc 2 i, pow-lt i w (omega arith))
