-- ===== src/Crc/Bitwise.antt =====
-- The tables against the bitwise definition of the checksums.
use Prim.Native.Nat.{bit_xor}
use lateral_root.Prelude.{
  ℕ, ◌*◌, ◌/◌, ◌%◌, ◌^◌, ◌<◌, ◌≡◌, refl, sym, ap, subst, ◌∙◌, true, some, List, [], ◌∷◌, arith,
  get_or,
}
use lateral_root.Bits.Xor.{bit_xor_comm, bit_xor_zero, bit_xor-lt}
use lateral_root.Crc.{
  crc8_table, crc16_table, crc8_round, crc16_round, crc8_loop, crc16_loop, calculate_crc8,
  calculate_crc16,
}
use lateral_root.Crc.Shifts.{
  polynomial_8, polynomial_16, shift_out, shift_times, agrees, agrees-value, shift_times-high,
  bit_xor_fields, bit_xor-high,
}

abbrev pub AreBytes : List ℕ → Type 0
AreBytes [] = Unit {0}
AreBytes (b ∷ bytes) = (b < 256) × AreBytes bytes

-- The definition of the checksums: each byte is added to the remainder, and its 8 bits are shifted out.
unfoldable pub bitwise_crc : ℕ → List ℕ → ℕ → ℕ
bitwise_crc polynomial [] crc = crc
bitwise_crc polynomial (b ∷ message) crc =
    bitwise_crc polynomial message (shift_times polynomial 8 (bit_xor crc b))

table_8 : agrees (λ x. get_or crc8_table x 0) (shift_times polynomial_8 8) 0 256 ≡ true
unfolding agrees crc8_table shift_times shift_out
table_8 = refl

table_16 : agrees (λ x. get_or crc16_table x 0) (shift_times polynomial_16 8) 0 256 ≡ true
unfolding agrees crc16_table shift_times shift_out
table_16 = refl

bounded_8 : agrees (λ x. shift_times polynomial_8 8 x / 256) (λ x. 0) 0 256 ≡ true
unfolding agrees shift_times shift_out
bounded_8 = refl

entry_8 : (x : ℕ) → x < 256 → get_or crc8_table x 0 ≡ shift_times polynomial_8 8 x
entry_8 = agrees-value (λ x. get_or crc8_table x 0) (shift_times polynomial_8 8) 256 table_8

entry_16 : (x : ℕ) → x < 256 → get_or crc16_table x 0 ≡ shift_times polynomial_16 8 x
entry_16 = agrees-value (λ x. get_or crc16_table x 0) (shift_times polynomial_16 8) 256 table_16

bound_8 : (x : ℕ) → x < 256 → shift_times polynomial_8 8 x < 256
bound_8 x h =
    let e : shift_times polynomial_8 8 x / 256 ≡ 0 =
      agrees-value (λ x. shift_times polynomial_8 8 x / 256) (λ x. 0) 256 bounded_8 x h in
    omega (arith, e)

pub crc8_round_lem :
    (crc b : ℕ)
    → crc < 256
    → b < 256
    → (crc8_round crc b ≡ shift_times polynomial_8 8 (bit_xor crc b)) × (crc8_round crc b < 256)
unfolding crc8_round
crc8_round_lem crc b p q =
    let h = bit_xor-lt 8 crc b p q in
    (entry_8 _ h, subst (λ x. x < 256) (sym (entry_8 _ h)) (bound_8 _ h))

pub crc8-bitwise :
    (message : List ℕ) (init : ℕ)
    → AreBytes message
    → init < 256
    → crc8_loop message init ≡ bitwise_crc polynomial_8 message init
unfolding crc8_loop bitwise_crc
crc8-bitwise [] init p q = refl
crc8-bitwise (b ∷ message) init (p, ps) q =
    let (e, l) = crc8_round_lem init b q p in
    crc8-bitwise message (crc8_round init b) ps l ∙ ap (bitwise_crc polynomial_8 message) e

pub crc16_round_lem :
    (crc b : ℕ) → b < 256 → crc16_round crc b ≡ shift_times polynomial_16 8 (bit_xor crc b)
unfolding crc16_round
crc16_round_lem crc b p =
    let x : ℕ = bit_xor crc b in
    let high : x / 256 ≡ crc / 256 =
      bit_xor-high crc b
      ∙ ap (bit_xor (crc / 256)) {y = 0} (omega arith)
      ∙ bit_xor_zero (crc / 256) in
    let whole : bit_xor (x % 256) (2 ^ 8 * (x / 256)) ≡ x =
      bit_xor_fields 8 (x % 256) (x / 256) (omega arith) ∙ omega arith in
    let shifted : shift_times polynomial_16 8 x
        ≡ bit_xor (shift_times polynomial_16 8 (x % 256)) (x / 256) =
      ap (shift_times polynomial_16 8) (sym whole)
      ∙ shift_times-high polynomial_16 8 (x % 256) (x / 256) in
    bit_xor_comm (crc / 256) (get_or crc16_table (x % 256) 0)
    ∙ ap (λ t. bit_xor t (crc / 256)) (entry_16 (x % 256) (omega arith))
    ∙ ap (bit_xor (shift_times polynomial_16 8 (x % 256))) (sym high)
    ∙ sym shifted

pub crc16-bitwise :
    (message : List ℕ) (init : ℕ)
    → AreBytes message
    → crc16_loop message init ≡ bitwise_crc polynomial_16 message init
unfolding crc16_loop bitwise_crc
crc16-bitwise [] init p = refl
crc16-bitwise (b ∷ message) init (p, ps) =
    crc16-bitwise message (crc16_round init b) ps
    ∙ ap (bitwise_crc polynomial_16 message) (crc16_round_lem init b p)

-- Both checksums, computed with the tables, are the remainders that the bitwise definition gives with
-- the polynomials 0x8c and 0x8408, for every message of bytes and every start value (of 8 bits, for the
-- first).
pub calculate_crc-bitwise :
    (message : List ℕ) (init8 init16 : ℕ)
    → AreBytes message
    → init8 < 256
    → (calculate_crc8 (some message) init8 ≡ bitwise_crc polynomial_8 message init8)
      × (calculate_crc16 (some message) init16 ≡ bitwise_crc polynomial_16 message init16)
unfolding calculate_crc8 calculate_crc16
calculate_crc-bitwise message init8 init16 p q =
    (crc8-bitwise message init8 p q, crc16-bitwise message init16 p)
