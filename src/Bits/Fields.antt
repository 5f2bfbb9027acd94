-- ===== src/Bits/Fields.antt =====
-- Fields of bits side by side: where two numbers share no bit, `|` is a sum.
use Prim.Native.Nat.{bit_or}
use native.Mathlib.Nat.{pow-suc}
use lateral_root.Prelude.{
  ℕ, zero, suc, ◌+◌, ◌*◌, ◌/◌, ◌%◌, ◌^◌, ◌<◌, ◌≡◌, ap, sym, ◌∙◌, ◌||◌, arith,
}
use lateral_root.Bits.{testbit, zero-testbit, testbit-bit_or, eq_of_testbit}

bit_or-half : (a b : ℕ) → bit_or a b / 2 ≡ bit_or (a / 2) (b / 2)
unfolding testbit
bit_or-half a b = eq_of_testbit _ _ (λ i. shifted i ∙ sym (testbit-bit_or (a / 2) (b / 2) i))
  where
    shifted : (i : ℕ) → testbit (bit_or a b / 2) i ≡ (testbit (a / 2) i || testbit (b / 2) i)
    shifted i = testbit-bit_or a b (suc i)

bit_or-parity : (a b : ℕ) → bit_or a (2 * b) % 2 ≡ a % 2
unfolding testbit
bit_or-parity a b = ground (arith, testbit-bit_or a (2 * b) 0)

zero-bit_or : (b : ℕ) → bit_or 0 b ≡ b
zero-bit_or b = eq_of_testbit _ _ (λ i. ground (arith, testbit-bit_or 0 b i, zero-testbit i))

doubled : (n y : ℕ) → y * 2 ^ suc n ≡ 2 * (y * 2 ^ n)
doubled n y = omega (arith, ap (λ (t : ℕ). y * t) (pow-suc 2 n))

pub bit_or_fields : (k r q : ℕ) → r < 2 ^ k → bit_or r (q * 2 ^ k) ≡ r + q * 2 ^ k
bit_or_fields zero r q h =
    ap (λ t. bit_or t (q * 1)) {y = 0} (omega arith) ∙ zero-bit_or (q * 1) ∙ omega arith
bit_or_fields (suc k) r q h =
    let e : bit_or r (2 * (q * 2 ^ k)) / 2 ≡ r / 2 + q * 2 ^ k =
      bit_or-half r (2 * (q * 2 ^ k))
      ∙ ap (bit_or (r / 2)) (omega arith)
      ∙ bit_or_fields k (r / 2) q (omega (arith, pow-suc 2 k)) in
    ap (bit_or r) (doubled k q) ∙ omega (arith, e, bit_or-parity r (q * 2 ^ k), doubled k q)
