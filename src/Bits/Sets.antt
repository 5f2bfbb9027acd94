-- ===== src/Bits/Sets.antt =====
-- `uint64_t` bitmaps as sets of indices below 64: what the tests and updates of the scheduler's
-- bitmaps mean bit by bit.
use Prim.Native.Nat.{bit_and, bit_or}
use native.Mathlib.Nat.{mod-eq_of_lt}
use native.Mathlib.Decide.{dec_lt, ℕ_discrete}
use lateral_root.Prelude.{
  ℕ, zero, suc, ◌/◌, ◌%◌, ◌≤◌, ◌<◌, ◌≡◌, ◌≢◌, ◌↔◌, ap, true, false, not, ◌&&◌, arith, ◌==◌, ◌!=◌,
  ==_iff, Bool-cases, inl, inr,
}
use lateral_root.Bits.{
  testbit, word, one_hot, complement, zero-testbit, testbit-bit_and, testbit-bit_or, eq_of_testbit,
  testbit_of_ge, lt_of_testbit, flip_width, pow_bit, pow-lt,
}

pub testbit-one_hot : (i j : ℕ) → i < 64 → testbit (one_hot i) j ≡ (i == j)
unfolding one_hot
testbit-one_hot i j h = rw (mod-eq_of_lt (pow-lt i 64 h)) (pow_bit i j)

pub one_hot-lt : (i : ℕ) → one_hot i < word
unfolding one_hot
one_hot-lt i = omega arith

pub testbit_of_ge_word : (n i : ℕ) → n < word → 64 ≤ i → testbit n i ≡ false
testbit_of_ge_word n i h p = testbit_of_ge 64 n i h p

pub testbit-complement :
    (y i : ℕ) → y < word → i < 64 → testbit (complement y) i ≡ not (testbit y i)
unfolding complement
testbit-complement y i h p = flip_width 64 y i h p

-- `x & ~y` is the difference of sets.
pub testbit-clear :
    (x y i : ℕ)
    → x < word
    → y < word
    → testbit (bit_and x (complement y)) i ≡ (testbit x i && not (testbit y i))
testbit-clear x y i h p = elim (dec_lt i 64) [
  | yes q ↦ ground (arith, testbit-bit_and x (complement y) i, testbit-complement y i p q)
  | no q ↦ ground (arith, testbit-bit_and x (complement y) i, testbit_of_ge 64 x i h (omega arith))
]

pub bit_and-lt : (x y : ℕ) → x < word → bit_and x y < word
bit_and-lt x y h =
    lt_of_testbit 64 _ (λ i p. ground (arith, testbit-bit_and x y i, testbit_of_ge 64 x i h p))

pub bit_or-lt : (x y : ℕ) → x < word → y < word → bit_or x y < word
bit_or-lt x y h k = lt_of_testbit 64 _ (λ i p.
    ground (arith, testbit-bit_or x y i, testbit_of_ge 64 x i h p, testbit_of_ge 64 y i k p))

-- A word other than 0 has a bit.
exists_below : (k n : ℕ) → n ≤ k → n ≢ 0 → (i : ℕ) × (testbit n i ≡ true)
unfolding testbit
exists_below zero n p h = absurd (h (omega arith))
exists_below (suc k) n p h = elim (Bool-cases (n % 2 == 1)) [
  | inl odd ↦ (0, odd)
  | inr even ↦ let (i, b) = exists_below k (n / 2) (omega arith) (ground arith) in (suc i, b)
]

pub exists_bit : (n : ℕ) → n ≢ 0 → (i : ℕ) × (testbit n i ≡ true)
exists_bit n h = exists_below n n (omega arith) h

-- `if (x & (1 << i))`
pub bit_and-one_hot_ne : (x i : ℕ) → i < 64 → (bit_and x (one_hot i) != 0) ≡ testbit x i
bit_and-one_hot_ne x i h = elim (Bool-cases (testbit x i)) [
  | inl b ↦ ground (
    arith,
    testbit-bit_and x (one_hot i) i,
    testbit-one_hot i i h,
    zero-testbit i,
    λ (e : bit_and x (one_hot i) ≡ 0). ap (λ n. testbit n i) e,
  )
  | inr b ↦ ground (arith, eq_of_testbit (bit_and x (one_hot i)) 0 (missing b))
]
  where
    missing : testbit x i ≡ false → (j : ℕ) → testbit (bit_and x (one_hot i)) j ≡ testbit 0 j
    missing b j = elim (ℕ_discrete i j) [
      | yes e ↦ rw (← e) (ground (arith, testbit-bit_and x (one_hot i) i, zero-testbit i))
      | no ne ↦
          ground (arith, testbit-bit_and x (one_hot i) j, testbit-one_hot i j h, zero-testbit j)
    ]

-- `(x & y) == x`
pub bit_and-eq_left :
    (x y : ℕ) → ((bit_and x y == x) ≡ true) ↔ ((i : ℕ) → testbit x i ≡ true → testbit y i ≡ true)
bit_and-eq_left x y = (
  (λ e i b.
      ground (arith, testbit-bit_and x y i, ap (λ n. testbit n i) ((==_iff (bit_and x y) x).0 e))),
  λ sub. (==_iff _ _).1 (eq_of_testbit _ _ (λ i. ground (arith, testbit-bit_and x y i, sub i))),
)

-- `(x & y) == 0`
pub bit_and-eq_zero :
    (x y : ℕ) → ((bit_and x y == 0) ≡ true) ↔ ((i : ℕ) → testbit x i ≡ true → testbit y i ≡ false)
bit_and-eq_zero x y = (
  (λ e i b. ground (
    arith,
    testbit-bit_and x y i,
    zero-testbit i,
    ap (λ n. testbit n i) ((==_iff (bit_and x y) 0).0 e),
  )),
  λ apart.
      (==_iff _ _).1
        (eq_of_testbit _ _ (λ i. ground (arith, testbit-bit_and x y i, zero-testbit i, apart i))),
)
