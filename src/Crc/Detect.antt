-- ===== src/Crc/Detect.antt =====
-- What the two checksums of crc.cpp detect, and what they give on a message with its own checksum.
use Prim.Native.Nat.{bit_xor}
use lateral_root.Prelude.{
  ℕ, ◌*◌, ◌/◌, ◌%◌, ◌^◌, ◌<◌, ◌≡◌, ◌≢◌, refl, sym, ap, subst, ◌∙◌, true, some, List, [], ◌∷◌, ◌++◌,
  arith,
}
use lateral_root.Bits.{testbit}
use lateral_root.Bits.Xor.{bit_xor_comm, bit_xor_self, bit_xor_zero, bit_xor_cancel}
use lateral_root.Crc.{
  calculate_crc8, calculate_crc16, crc16_loop, crc8_loop, crc8_round, crc16_round, crc8_table,
}
use lateral_root.Crc.Shifts.{
  polynomial_8, polynomial_16, shift_times, shift_out, shift_times-high, bit_xor_fields,
}
use lateral_root.Crc.Bitwise.{AreBytes, crc8-bitwise, crc16-bitwise, crc16_round_lem}
use lateral_root.Crc.Errors.{bitwise-lt, one_byte}

top_8 : testbit polynomial_8 7 ≡ true
unfolding testbit
top_8 = refl

top_16 : testbit polynomial_16 15 ≡ true
unfolding testbit
top_16 = refl

AreBytes-replace :
    (front back : List ℕ) (a b : ℕ)
    → AreBytes (front ++ a ∷ back)
    → b < 256
    → AreBytes (front ++ b ∷ back)
AreBytes-replace [] back a b (p, ps) h = (h, ps)
AreBytes-replace (f ∷ front) back a b (p, ps) h = (p, AreBytes-replace front back a b ps h)

-- A message in which exactly one byte is replaced by another has another checksum of 8 bits and another one
-- of 16 bits, wherever the byte stands and whatever the start values are.
pub calculate_crc-one_byte :
    (front back : List ℕ) (a b init8 init16 : ℕ)
    → AreBytes (front ++ a ∷ back)
    → b < 256
    → init8 < 256
    → init16 < 65536
    → a ≢ b
    → (calculate_crc8 (some (front ++ a ∷ back)) init8
        ≢ calculate_crc8 (some (front ++ b ∷ back)) init8)
      × (calculate_crc16 (some (front ++ a ∷ back)) init16
          ≢ calculate_crc16 (some (front ++ b ∷ back)) init16)
unfolding calculate_crc8 calculate_crc16
calculate_crc-one_byte front back a b init8 init16 p h k8 k16 ne =
    let q = AreBytes-replace front back a b p h in
    (
      λ e. ne (
          one_byte 7 polynomial_8 (omega arith) top_8 (omega arith) front back a b init8 p h k8
            (sym (crc8-bitwise _ init8 p k8) ∙ e ∙ crc8-bitwise _ init8 q k8)),
      λ e. ne (
          one_byte 15 polynomial_16 (omega arith) top_16 (omega arith) front back a b init16 p h k16
            (sym (crc16-bitwise _ init16 p) ∙ e ∙ crc16-bitwise _ init16 q)),
    )

crc8_loop-append :
    (m n : List ℕ) (init : ℕ) → crc8_loop (m ++ n) init ≡ crc8_loop n (crc8_loop m init)
unfolding crc8_loop
crc8_loop-append [] n init = refl
crc8_loop-append (b ∷ m) n init = crc8_loop-append m n (crc8_round init b)

crc16_loop-append :
    (m n : List ℕ) (init : ℕ) → crc16_loop (m ++ n) init ≡ crc16_loop n (crc16_loop m init)
unfolding crc16_loop
crc16_loop-append [] n init = refl
crc16_loop-append (b ∷ m) n init = crc16_loop-append m n (crc16_round init b)

crc8_self : (c : ℕ) → crc8_round c c ≡ 0
unfolding crc8_round crc8_table
crc8_self c = rw (bit_xor_self c)

-- Only the high byte is left when the low byte is taken away.
take_low : (c : ℕ) → bit_xor c (c % 256) ≡ bit_xor 0 (2 ^ 8 * (c / 256))
take_low c =
    let low : ℕ = c % 256 in
    let high : ℕ = 2 ^ 8 * (c / 256) in
    let whole : bit_xor high low ≡ c =
      bit_xor_comm high low ∙ bit_xor_fields 8 low (c / 256) (omega arith) ∙ omega arith in
    ap (λ t. bit_xor t low) (sym whole)
    ∙ bit_xor_cancel high low
    ∙ sym (bit_xor_zero high)
    ∙ bit_xor_comm high 0

-- The low byte shifts the remainder down, and the high byte clears it.
crc16_self : (c : ℕ) → c < 65536 → crc16_round (crc16_round c (c % 256)) (c / 256) ≡ 0
unfolding shift_times shift_out
crc16_self c h =
    let first : crc16_round c (c % 256) ≡ c / 256 =
      crc16_round_lem c (c % 256) (omega arith)
      ∙ ap (shift_times polynomial_16 8) (take_low c)
      ∙ shift_times-high polynomial_16 8 0 (c / 256)
      ∙ bit_xor_comm 0 (c / 256)
      ∙ bit_xor_zero (c / 256) in
    ap (λ t. crc16_round t (c / 256)) first
    ∙ crc16_round_lem (c / 256) (c / 256) (omega arith)
    ∙ ap (shift_times polynomial_16 8) (bit_xor_self (c / 256))

-- A message followed by its own checksum, the low byte first where it has 16 bits, has the checksum 0.
pub calculate_crc-residue :
    (message : List ℕ) (init8 init16 : ℕ)
    → AreBytes message
    → init16 < 65536
    → let crc8 = calculate_crc8 (some message) init8 in
      let crc16 = calculate_crc16 (some message) init16 in
      (calculate_crc8 (some (message ++ crc8 ∷ [])) init8 ≡ 0)
      × (calculate_crc16 (some (message ++ (crc16 % 256) ∷ (crc16 / 256) ∷ [])) init16 ≡ 0)
unfolding calculate_crc8 calculate_crc16 crc8_loop crc16_loop
calculate_crc-residue message init8 init16 p h = (
  crc8_loop-append message _ init8 ∙ crc8_self (crc8_loop message init8),
  crc16_loop-append message _ init16
      ∙ crc16_self (crc16_loop message init16) (
          subst (λ x. x < 65536) (sym (crc16-bitwise message init16 p))
            (bitwise-lt 15 polynomial_16 (omega arith) top_16 (omega arith) message init16 p h)),
)
