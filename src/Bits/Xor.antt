-- ===== src/Bits/Xor.antt =====
-- The operator `^` of C++ by its bits, and its laws.
use Prim.Native.Nat.{bit_xor, bit_xor-bitwise, digits, differ}
use lateral_root.Prelude.{
  ℕ, zero, suc, ◌*◌, ◌/◌, ◌%◌, ◌^◌, ◌≤◌, ◌<◌, ◌≡◌, ap, sym, ◌∙◌, Bool, true, false, arith, not,
}
use lateral_root.Bits.{
  testbit, zero-testbit, testbit-digit, eq_of_testbit, testbit_of_ge, lt_of_testbit,
}

abbrev pub xor : Bool → Bool → Bool
xor true b = not b
xor false b = b

differ-le : (d e : ℕ) → d ≤ 1 → e ≤ 1 → differ d e ≤ 1
differ-le zero e p q = q
differ-le (suc zero) zero p q = omega arith
differ-le (suc zero) (suc zero) p q = omega arith
differ-le (suc zero) (suc (suc e)) p q = absurd (omega arith)
differ-le (suc (suc d)) e p q = absurd (omega arith)

xor-digits :
    (n a b i : ℕ)
    → a ≤ n
    → testbit (digits (λ b. b) differ n a b) i ≡ xor (testbit a i) (testbit b i)
unfolding testbit
xor-digits zero zero b i h = ground (arith, zero-testbit i)
xor-digits zero (suc a) b i h = absurd (omega arith)
xor-digits (suc n) zero b i h = ground (arith, zero-testbit i)
xor-digits (suc n) (suc a) b zero h = ground arith
xor-digits (suc n) (suc a) b (suc i) h =
    testbit-digit _ (differ (suc a % 2) (b % 2)) i
      (differ-le (suc a % 2) (b % 2) (omega arith) (omega arith))
    ∙ xor-digits n (suc a / 2) (b / 2) i (omega arith)

pub testbit-bit_xor : (a b i : ℕ) → testbit (bit_xor a b) i ≡ xor (testbit a i) (testbit b i)
testbit-bit_xor a b i = rw bit_xor-bitwise (xor-digits a a b i (omega arith))

pub bit_xor_comm : (a b : ℕ) → bit_xor a b ≡ bit_xor b a
bit_xor_comm a b =
    eq_of_testbit _ _ (λ i. ground (arith, testbit-bit_xor a b i, testbit-bit_xor b a i))

pub bit_xor_assoc : (a b c : ℕ) → bit_xor (bit_xor a b) c ≡ bit_xor a (bit_xor b c)
bit_xor_assoc a b c = eq_of_testbit _ _ (λ i. ground (
  arith,
  testbit-bit_xor a b i,
  testbit-bit_xor b c i,
  testbit-bit_xor (bit_xor a b) c i,
  testbit-bit_xor a (bit_xor b c) i,
))

pub bit_xor_self : (a : ℕ) → bit_xor a a ≡ 0
bit_xor_self a = eq_of_testbit _ _ (λ i. ground (arith, testbit-bit_xor a a i, zero-testbit i))

pub bit_xor_zero : (a : ℕ) → bit_xor a 0 ≡ a
bit_xor_zero a = eq_of_testbit _ _ (λ i. ground (arith, testbit-bit_xor a 0 i, zero-testbit i))

pub bit_xor_cancel : (a b : ℕ) → bit_xor (bit_xor a b) b ≡ a
bit_xor_cancel a b = bit_xor_assoc a b b ∙ ap (bit_xor a) (bit_xor_self b) ∙ bit_xor_zero a

pub bit_xor-lt : (w a b : ℕ) → a < 2 ^ w → b < 2 ^ w → bit_xor a b < 2 ^ w
bit_xor-lt w a b p q =
    lt_of_testbit w _ (λ i h.
      ground (arith, testbit-bit_xor a b i, testbit_of_ge w a i p h, testbit_of_ge w b i q h))

-- The bits of a number that is cut in halves.
pub bit_xor-half : (a b : ℕ) → bit_xor a b / 2 ≡ bit_xor (a / 2) (b / 2)
unfolding testbit
bit_xor-half a b = eq_of_testbit _ _ (λ i. shifted i ∙ sym (testbit-bit_xor (a / 2) (b / 2) i))
  where
    shifted : (i : ℕ) → testbit (bit_xor a b / 2) i ≡ xor (testbit (a / 2) i) (testbit (b / 2) i)
    shifted i = testbit-bit_xor a b (suc i)

-- The lowest bit.
pub bit_xor-parity : (a b : ℕ) → bit_xor a (2 * b) % 2 ≡ a % 2
unfolding testbit
bit_xor-parity a b = ground (arith, testbit-bit_xor a (2 * b) 0)
