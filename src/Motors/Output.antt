-- ===== src/Motors/Output.antt =====
-- What set_desired_output keeps of a request, and what the bytes of a message say about it.
use lateral_root.Prelude.{
  ℕ, zero, suc, ◌+◌, ◌*◌, ◌%◌, ◌<◌, ◌≤◌, ◌≡◌, ap, ◌∙◌, Bool, true, false, List, arith, length,
  get_or, set, length-set, get_or-set_self, get_or-set_ne, if◌then◌else◌, Bool-cases, inl, inr,
}
use lateral_root.Prelude.Int.{ℤ, pos, negsuc, neg_ℤ, int16_of, wrap_int16, IsInt16, ltb_ℤ}
use lateral_root.Motors.{
  DjiMotor, Message, normalized_id, limit_int16, set_desired_output, serialize_can_send_data,
  high_byte, low_byte,
}

-- The signed number in two bytes of a message, the high byte first.
abbrev pub decoded_output : List ℕ → ℕ → ℤ
decoded_output content i = int16_of (get_or content i 0 * 256 + get_or content (i + 1) 0)

-- The output that a request leads to: the request within the range of 16 bits, with the sign changed
-- for an inverted motor, except that the least number has no opposite.
abbrev pub expected_output : Bool → ℤ → ℤ
expected_output inverted desired =
    let limited = limit_int16 desired in
    if inverted then (if ltb_ℤ (negsuc 32767) limited then neg_ℤ limited else limited) else limited

pub limit_int16-IsInt16 : (v : ℤ) → IsInt16 (limit_int16 v)
limit_int16-IsInt16 (pos n) = ground arith
limit_int16-IsInt16 (negsuc n) = ground arith

negated :
    (v : ℤ) → IsInt16 v → wrap_int16 (neg_ℤ v) ≡ (if ltb_ℤ (negsuc 32767) v then neg_ℤ v else v)
negated (pos n) h = ground arith
negated (negsuc n) h = ground arith

pub set_desired_output_lem :
    (desired : ℤ) (m : DjiMotor)
    → (set_desired_output desired m).desired_output ≡ expected_output m.motor_inverted desired
unfolding set_desired_output
set_desired_output_lem desired m = elim (Bool-cases m.motor_inverted) [
  | inl e ↦ rw (e) (negated (limit_int16 desired) (limit_int16-IsInt16 desired))
  | inr e ↦ rw (e)
]

neg-IsInt16 : (v : ℤ) → IsInt16 v → IsInt16 (if ltb_ℤ (negsuc 32767) v then neg_ℤ v else v)
neg-IsInt16 (pos zero) h = ground arith
neg-IsInt16 (pos (suc n)) h = ground arith
neg-IsInt16 (negsuc n) h = ground arith

expected_output-IsInt16 : (b : Bool) (v : ℤ) → IsInt16 (expected_output b v)
expected_output-IsInt16 true v = neg-IsInt16 (limit_int16 v) (limit_int16-IsInt16 v)
expected_output-IsInt16 false v = limit_int16-IsInt16 v

pub bytes_lem : (v : ℤ) → IsInt16 v → int16_of (high_byte v * 256 + low_byte v) ≡ v
bytes_lem (pos n) h = ground arith
bytes_lem (negsuc n) h = ground arith

first_of_two :
    (l : List ℕ) (i a b : ℕ) → i + 1 < length l → get_or (set (set l i a) (i + 1) b) i 0 ≡ a
first_of_two l i a b h =
    get_or-set_ne (set l i a) (i + 1) i b 0 (λ e. omega (arith, e))
    ∙ get_or-set_self l i a 0 (omega arith)

second_of_two :
    (l : List ℕ) (i a b : ℕ) → i + 1 < length l → get_or (set (set l i a) (i + 1) b) (i + 1) 0 ≡ b
second_of_two l i a b h =
    get_or-set_self (set l i a) (i + 1) b 0 (omega (arith, length-set {0} l i a))

written :
    (l : List ℕ) (i : ℕ) (v : ℤ)
    → i + 1 < length l
    → IsInt16 v
    → decoded_output (set (set l i (high_byte v)) (i + 1) (low_byte v)) i ≡ v
written l i v h k =
    ap int16_of (
      ap (λ x. x * 256 + get_or (set (set l i (high_byte v)) (i + 1) (low_byte v)) (i + 1) 0)
        (first_of_two l i (high_byte v) (low_byte v) h)
      ∙ ap (λ x. high_byte v * 256 + x) (second_of_two l i (high_byte v) (low_byte v) h))
    ∙ bytes_lem v k

-- The bytes that a motor writes to a message of at least 8 bytes, read back as a signed number with the
-- high byte first, are its request limited to 16 bits, with the sign changed if the motor is inverted;
-- an inverted motor whose limited request is -32768 keeps the sign.
pub serialize-set_desired :
    (desired : ℤ) (m : DjiMotor) (message : Message)
    → 8 ≤ length message.content
    → decoded_output
        (serialize_can_send_data (set_desired_output desired m) message).content
        (2 * (normalized_id m.motor_identifier % 4))
      ≡ expected_output m.motor_inverted desired
unfolding serialize_can_send_data set_desired_output
serialize-set_desired desired m message h = rw (set_desired_output_lem desired m) (
    written message.content (2 * (normalized_id m.motor_identifier % 4))
      (expected_output m.motor_inverted desired) (omega arith)
      (expected_output-IsInt16 m.motor_inverted desired))
