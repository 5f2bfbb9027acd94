-- ===== src/Crc/Shifts.antt =====
-- The bitwise definition of the two checksums: one step shifts out a bit and subtracts the polynomial.
use Prim.Native.Nat.{bit_xor}
use lateral_root.Prelude.{
  ℕ, zero, suc, ◌+◌, ◌*◌, ◌/◌, ◌%◌, ◌^◌, ◌<◌, ◌≡◌, refl, sym, ap, ◌∙◌, Bool, true, ◌&&◌, arith,
  ◌==◌, ==_iff, if◌then◌else◌,
}
use native.Mathlib.Nat.{pow-suc}
use lateral_root.Bits.Xor.{bit_xor_comm, bit_xor_assoc, bit_xor_zero, bit_xor-half, bit_xor-parity}

-- The polynomials, with the lowest coefficient in the highest bit.
abbrev pub polynomial_8 : ℕ
polynomial_8 = 0x8c

abbrev pub polynomial_16 : ℕ
polynomial_16 = 0x8408

unfoldable pub shift_out : ℕ → ℕ → ℕ
shift_out polynomial x = if x % 2 == 1 then bit_xor (x / 2) polynomial else x / 2

unfoldable pub shift_times : ℕ → ℕ → ℕ → ℕ
shift_times polynomial zero x = x
shift_times polynomial (suc n) x = shift_times polynomial n (shift_out polynomial x)

-- Whether two functions have the same values on the range of `count` numbers from `start` on.
unfoldable pub agrees : (ℕ → ℕ) → (ℕ → ℕ) → ℕ → ℕ → Bool
agrees f g start zero = true
agrees f g start (suc count) = f start == g start && agrees f g (suc start) count

agrees-value_from :
    (f g : ℕ → ℕ) (start count : ℕ)
    → agrees f g start count ≡ true
    → (offset : ℕ) → offset < count
    → f (start + offset) ≡ g (start + offset)
unfolding agrees
agrees-value_from f g start (suc count) same zero _ =
    ap f (omega arith)
    ∙ (==_iff (f start) (g start)).0 (ground (arith, same))
    ∙ ap g {x = start} (omega arith)
agrees-value_from f g start (suc count) same (suc offset) inside =
    ap f (omega arith)
    ∙ agrees-value_from f g (suc start) count (ground (arith, same)) offset (omega arith)
    ∙ ap g {x = suc start + offset} (omega arith)
agrees-value_from f g start zero same offset inside = absurd (omega arith)

pub agrees-value :
    (f g : ℕ → ℕ) (count : ℕ) → agrees f g 0 count ≡ true → (x : ℕ) → x < count → f x ≡ g x
agrees-value f g count same x inside =
    ap f {y = 0 + x} (omega arith)
    ∙ agrees-value_from f g 0 count same x inside
    ∙ ap g {x = 0 + x} (omega arith)

-- Bits above the one that is shifted out pass through a step.
shift_out-high :
    (polynomial x y : ℕ)
    → shift_out polynomial (bit_xor x (2 * y)) ≡ bit_xor (shift_out polynomial x) y
unfolding shift_out
shift_out-high polynomial x y =
    let h : bit_xor x (2 * y) / 2 ≡ bit_xor (x / 2) y =
      bit_xor-half x (2 * y) ∙ ap (bit_xor (x / 2)) (omega arith) in
    let swap : bit_xor (bit_xor (x / 2) y) polynomial ≡ bit_xor (bit_xor (x / 2) polynomial) y =
      bit_xor_assoc (x / 2) y polynomial
      ∙ ap (bit_xor (x / 2)) (bit_xor_comm y polynomial)
      ∙ sym (bit_xor_assoc (x / 2) polynomial y) in
    rw (bit_xor-parity x y, h) (ground (arith, swap))

doubled : (n y : ℕ) → 2 ^ suc n * y ≡ 2 * (2 ^ n * y)
doubled n y = omega (arith, ap (λ (t : ℕ). t * y) (pow-suc 2 n))

pub shift_times-high :
    (polynomial n x y : ℕ)
    → shift_times polynomial n (bit_xor x (2 ^ n * y)) ≡ bit_xor (shift_times polynomial n x) y
unfolding shift_times
shift_times-high polynomial zero x y = ap (bit_xor x) (omega arith)
shift_times-high polynomial (suc n) x y =
    ap (λ t. shift_times polynomial n (shift_out polynomial (bit_xor x t))) (doubled n y)
    ∙ ap (shift_times polynomial n) (shift_out-high polynomial x (2 ^ n * y))
    ∙ shift_times-high polynomial n (shift_out polynomial x) y

-- A number is the exclusive or of its low bits and its high bits.
pub bit_xor_fields : (k r q : ℕ) → r < 2 ^ k → bit_xor r (2 ^ k * q) ≡ r + 2 ^ k * q
bit_xor_fields zero r q h =
    ap (λ t. bit_xor t (1 * q)) {y = 0} (omega arith)
    ∙ bit_xor_comm 0 (1 * q)
    ∙ bit_xor_zero (1 * q)
    ∙ omega arith
bit_xor_fields (suc k) r q h =
    let e : bit_xor r (2 * (2 ^ k * q)) / 2 ≡ r / 2 + 2 ^ k * q =
      bit_xor-half r (2 * (2 ^ k * q))
      ∙ ap (bit_xor (r / 2)) (omega arith)
      ∙ bit_xor_fields k (r / 2) q (omega (arith, pow-suc 2 k)) in
    ap (bit_xor r) (doubled k q) ∙ omega (arith, e, bit_xor-parity r (2 ^ k * q), doubled k q)

halves : ℕ → ℕ → ℕ
halves zero n = n
halves (suc k) n = halves k (n / 2)

bit_xor-halves : (k a b : ℕ) → halves k (bit_xor a b) ≡ bit_xor (halves k a) (halves k b)
unfolding halves
bit_xor-halves zero a b = refl
bit_xor-halves (suc k) a b = ap (halves k) (bit_xor-half a b) ∙ bit_xor-halves k (a / 2) (b / 2)

halves_8 : (n : ℕ) → halves 8 n ≡ n / 256
unfolding halves
halves_8 n = omega arith

-- The high bits of an exclusive or.
pub bit_xor-high : (a b : ℕ) → bit_xor a b / 256 ≡ bit_xor (a / 256) (b / 256)
bit_xor-high a b =
    sym (halves_8 (bit_xor a b))
    ∙ bit_xor-halves 8 a b
    ∙ ap (λ t. bit_xor t (halves 8 b)) (halves_8 a)
    ∙ ap (bit_xor (a / 256)) (halves_8 b)
