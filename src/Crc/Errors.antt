-- ===== src/Crc/Errors.antt =====
-- What the checksums detect, and what they give on a message that carries its own checksum.
use Prim.Native.Nat.{bit_xor}
use native.Mathlib.Nat.{pow-suc}
use lateral_root.Prelude.{
  ℕ, zero, suc, ◌/◌, ◌%◌, ◌^◌, ◌≤◌, ◌<◌, ◌≡◌, sym, ap, ◌∙◌, true, false, List, [], ◌∷◌, ◌++◌, arith,
  ◌==◌, Bool-cases, inl, inr,
}
use lateral_root.Bits.{testbit, testbit_of_ge}
use lateral_root.Bits.Xor.{testbit-bit_xor, bit_xor_comm, bit_xor_cancel, bit_xor-lt}
use lateral_root.Crc.Shifts.{shift_out, shift_times}
use lateral_root.Crc.Bitwise.{AreBytes, bitwise_crc}

bit_xor_inj : (a b c : ℕ) → bit_xor a c ≡ bit_xor b c → a ≡ b
bit_xor_inj a b c e = sym (bit_xor_cancel a c) ∙ ap (λ t. bit_xor t c) e ∙ bit_xor_cancel b c

-- Over a polynomial whose highest bit, the bit `w`, is set.
module _ (w polynomial : ℕ) (small : polynomial < 2 ^ suc w)
    (top : testbit polynomial w ≡ true) where
  shift_out-lt : (x : ℕ) → x < 2 ^ suc w → shift_out polynomial x < 2 ^ suc w
  unfolding shift_out
  shift_out-lt x h = ground (arith, bit_xor-lt (suc w) (x / 2) polynomial (omega arith) small)

  -- The highest bit says what was shifted out.
  shift_out-top : (x : ℕ) → x < 2 ^ suc w → testbit (shift_out polynomial x) w ≡ (x % 2 == 1)
  unfolding shift_out
  shift_out-top x h =
      let below : testbit (x / 2) w ≡ false =
        testbit_of_ge w (x / 2) w (omega (arith, pow-suc 2 w)) (omega arith) in
      ground (arith, below, testbit-bit_xor (x / 2) polynomial w, top)

  shift_out_inj :
      (x y : ℕ)
      → x < 2 ^ suc w
      → y < 2 ^ suc w
      → shift_out polynomial x ≡ shift_out polynomial y
      → x ≡ y
  unfolding shift_out
  shift_out_inj x y h k e =
      let parity : (x % 2 == 1) ≡ (y % 2 == 1) =
        sym (shift_out-top x h) ∙ ap (λ t. testbit t w) e ∙ shift_out-top y k in
      elim (Bool-cases (x % 2 == 1)) [
        | inl t ↦
            let u : (y % 2 == 1) ≡ true = sym parity ∙ t in
            let half = bit_xor_inj (x / 2) (y / 2) polynomial (rw (t, u) at e) in
            ground (arith, half)
        | inr t ↦
            let u : (y % 2 == 1) ≡ false = sym parity ∙ t in
            let half : x / 2 ≡ y / 2 = rw (t, u) at e in ground (arith, half)
      ]

  shift_times-lt : (n x : ℕ) → x < 2 ^ suc w → shift_times polynomial n x < 2 ^ suc w
  unfolding shift_times
  shift_times-lt zero x h = h
  shift_times-lt (suc n) x h = shift_times-lt n (shift_out polynomial x) (shift_out-lt x h)

  shift_times_inj :
      (n x y : ℕ)
      → x < 2 ^ suc w
      → y < 2 ^ suc w
      → shift_times polynomial n x ≡ shift_times polynomial n y
      → x ≡ y
  unfolding shift_times
  shift_times_inj zero x y h k e = e
  shift_times_inj (suc n) x y h k e = shift_out_inj x y h k (
      shift_times_inj n (shift_out polynomial x) (shift_out polynomial y) (shift_out-lt x h)
        (shift_out-lt y k) e)

  module _ (wide : 256 ≤ 2 ^ suc w) where
    round-lt :
        (crc b : ℕ)
        → crc < 2 ^ suc w
        → b < 256
        → shift_times polynomial 8 (bit_xor crc b) < 2 ^ suc w
    round-lt crc b h k = shift_times-lt 8 _ (bit_xor-lt (suc w) crc b h (omega (arith, wide)))

    pub bitwise-lt :
        (message : List ℕ) (crc : ℕ)
        → AreBytes message
        → crc < 2 ^ suc w
        → bitwise_crc polynomial message crc < 2 ^ suc w
    unfolding bitwise_crc
    bitwise-lt [] crc p h = h
    bitwise-lt (b ∷ message) crc (p, ps) h = bitwise-lt message _ ps (round-lt crc b h p)

    -- Different remainders stay different, whatever bytes follow.
    bitwise_inj :
        (message : List ℕ) (c d : ℕ)
        → AreBytes message
        → c < 2 ^ suc w
        → d < 2 ^ suc w
        → bitwise_crc polynomial message c ≡ bitwise_crc polynomial message d
        → c ≡ d
    unfolding bitwise_crc
    bitwise_inj [] c d p h k e = e
    bitwise_inj (b ∷ message) c d (p, ps) h k e =
        let byte : b < 2 ^ suc w = omega (arith, wide) in
        bit_xor_inj c d b (
          shift_times_inj 8 _ _ (bit_xor-lt (suc w) c b h byte) (bit_xor-lt (suc w) d b k byte)
            (bitwise_inj message _ _ ps (round-lt c b h p) (round-lt d b k p) e))

    pub one_byte :
        (front back : List ℕ) (a b crc : ℕ)
        → AreBytes (front ++ a ∷ back)
        → b < 256
        → crc < 2 ^ suc w
        → bitwise_crc polynomial (front ++ a ∷ back) crc
          ≡ bitwise_crc polynomial (front ++ b ∷ back) crc
        → a ≡ b
    unfolding bitwise_crc
    one_byte [] back a b crc (p, ps) q h e =
        let wide_a : a < 2 ^ suc w = omega (arith, wide) in
        let wide_b : b < 2 ^ suc w = omega (arith, wide) in
        bit_xor_inj a b crc (
          bit_xor_comm a crc
          ∙ shift_times_inj 8 _ _ (bit_xor-lt (suc w) crc a h wide_a)
              (bit_xor-lt (suc w) crc b h wide_b)
              (bitwise_inj back _ _ ps (round-lt crc a h p) (round-lt crc b h q) e)
          ∙ bit_xor_comm crc b)
    one_byte (f ∷ front) back a b crc (p, ps) q h e =
        one_byte front back a b _ ps q (round-lt crc f h p) e
