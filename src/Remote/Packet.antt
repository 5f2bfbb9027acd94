-- ===== src/Remote/Packet.antt =====
-- The packets of the remote control, described from the side of the sender: four sticks of 11 bits and two
-- switches of 2 bits are packed into 48 bits, the lowest first; all else has bytes of its own.
use Prim.Native.Nat.{bit_or}
use native.Mathlib.Nat.{mod-eq_of_lt}
use lateral_root.Prelude.{
  ℕ, ◌+◌, ◌*◌, ◌/◌, ◌%◌, ◌^◌, ◌<◌, ◌≡◌, refl, ap, ◌∙◌, Bool, true, false, List, [], ◌∷◌, arith,
  ◌!=◌, if◌then◌else◌,
}
use lateral_root.Prelude.Int.{pos, ◌-ℤ◌, int16_of, wrap_int16}
use lateral_root.Bits.Fields.{bit_or_fields}
use lateral_root.RemoteMapState.{SwitchState, unknown, up, down, mid, switch_value}
use lateral_root.Remote.{RemoteInfo, parsed_info, stick, switch_of}

-- What a packet says: the sticks and the wheel as they are sent, around 1024, and the mouse as bit patterns.
pub record Sent : Type 0 where
  pub right_x : ℕ
  pub right_y : ℕ
  pub left_x : ℕ
  pub left_y : ℕ
  pub left_sw : SwitchState
  pub right_sw : SwitchState
  pub mouse_dx : ℕ
  pub mouse_dy : ℕ
  pub mouse_dz : ℕ
  pub button_l : Bool
  pub button_r : Bool
  pub keys : ℕ
  pub wheel_raw : ℕ

pub record IsSent (p : Sent) : Type 0 where
  pub right_x_lt : p.right_x < 2048
  pub right_y_lt : p.right_y < 2048
  pub left_x_lt : p.left_x < 2048
  pub left_y_lt : p.left_y < 2048
  pub keys_lt : p.keys < 65536

abbrev pub bit_of : Bool → ℕ
bit_of b = if b then 1 else 0

abbrev pub joystick_bits : Sent → ℕ
joystick_bits p =
    p.right_x
    + p.right_y * 2 ^ 11
    + p.left_x * 2 ^ 22
    + p.left_y * 2 ^ 33
    + switch_value p.right_sw * 2 ^ 44
    + switch_value p.left_sw * 2 ^ 46

abbrev low : ℕ → ℕ
low n = n % 256

abbrev high : ℕ → ℕ
high n = n / 256 % 256

abbrev pub packet : Sent → List ℕ
packet p =
    let n = joystick_bits p in
    (n % 256)
    ∷ (n / 2 ^ 8 % 256)
    ∷ (n / 2 ^ 16 % 256)
    ∷ (n / 2 ^ 24 % 256)
    ∷ (n / 2 ^ 32 % 256)
    ∷ (n / 2 ^ 40 % 256)
    ∷ low p.mouse_dx
    ∷ high p.mouse_dx
    ∷ low p.mouse_dy
    ∷ high p.mouse_dy
    ∷ low p.mouse_dz
    ∷ high p.mouse_dz
    ∷ bit_of p.button_l
    ∷ bit_of p.button_r
    ∷ low p.keys
    ∷ high p.keys
    ∷ low p.wheel_raw
    ∷ high p.wheel_raw
    ∷ []

-- The information in a packet.
abbrev pub info_of : Sent → RemoteInfo → RemoteInfo
info_of p info = record info {
  right_horizontal_value = pos p.right_x -ℤ pos 1024;
  right_vertical_value = pos p.right_y -ℤ pos 1024;
  left_horizontal_value = pos p.left_x -ℤ pos 1024;
  left_vertical_value = pos p.left_y -ℤ pos 1024;
  left_switch_state = p.left_sw;
  right_switch_state = p.right_sw;
  mouse_x = int16_of p.mouse_dx;
  mouse_y = int16_of p.mouse_dy;
  mouse_z = int16_of p.mouse_dz;
  mouse_l = p.button_l;
  mouse_r = p.button_r;
  key = p.keys;
  wheel_value = wrap_int16 (pos (p.wheel_raw % 65536) -ℤ pos 1024);
}

two_bytes : (n : ℕ) → bit_or (low n) (high n * 256) ≡ n % 65536
two_bytes n = bit_or_fields 8 (low n) (high n) (omega arith) ∙ omega arith

int16_of_mod : (n : ℕ) → int16_of (n % 65536) ≡ int16_of n
int16_of_mod n = let e : n % 65536 % 65536 ≡ n % 65536 = omega arith in rw (e)

signed_bytes : (n : ℕ) → int16_of (bit_or (low n) (high n * 256)) ≡ int16_of n
signed_bytes n = ap int16_of (two_bytes n) ∙ int16_of_mod n

switch_value-lt : (s : SwitchState) → switch_value s < 4
unfolding switch_value
switch_value-lt unknown = omega arith
switch_value-lt up = omega arith
switch_value-lt down = omega arith
switch_value-lt mid = omega arith

switch_of-value : (s : SwitchState) → switch_of (switch_value s) ≡ s
unfolding switch_value
switch_of-value unknown = refl
switch_of-value up = refl
switch_of-value down = refl
switch_of-value mid = refl

bit_of_lem : (b : Bool) → (bit_of b != 0) ≡ b
bit_of_lem true = refl
bit_of_lem false = refl

stick_lem : (n v : ℕ) → n % 2048 ≡ v → stick n ≡ pos v -ℤ pos 1024
stick_lem n v e = ap (λ k. pos k -ℤ pos 1024) e

module _ (p : Sent) (w : IsSent p) where
  abbrev n : ℕ
  n = joystick_bits p

  right_x_lem : bit_or (n % 256) (n / 2 ^ 8 % 256 * 256) % 2048 ≡ p.right_x
  right_x_lem =
      ap (λ t. t % 2048) (bit_or_fields 8 (n % 256) (n / 2 ^ 8 % 256) (omega arith))
      ∙ omega (arith, w.right_x_lt)

  right_y_lem : bit_or (n / 2 ^ 8 % 256 / 8) (n / 2 ^ 16 % 256 * 32) % 2048 ≡ p.right_y
  right_y_lem =
      ap (λ t. t % 2048) (bit_or_fields 5 (n / 2 ^ 8 % 256 / 8) (n / 2 ^ 16 % 256) (omega arith))
      ∙ omega (arith, w.right_x_lt, w.right_y_lt)

  left_x_lem :
      bit_or (bit_or (n / 2 ^ 16 % 256 / 64) (n / 2 ^ 24 % 256 * 4)) (n / 2 ^ 32 % 256 * 1024)
        % 2048
      ≡ p.left_x
  left_x_lem =
      let inner : bit_or (n / 2 ^ 16 % 256 / 64) (n / 2 ^ 24 % 256 * 4)
          ≡ n / 2 ^ 16 % 256 / 64 + n / 2 ^ 24 % 256 * 4 =
        bit_or_fields 2 (n / 2 ^ 16 % 256 / 64) (n / 2 ^ 24 % 256) (omega arith) in
      ap (λ t. bit_or t (n / 2 ^ 32 % 256 * 1024) % 2048) inner
      ∙ ap (λ t. t % 2048)
          (bit_or_fields 10 (n / 2 ^ 16 % 256 / 64 + n / 2 ^ 24 % 256 * 4) (n / 2 ^ 32 % 256)
            (omega arith))
      ∙ omega (arith, w.right_x_lt, w.right_y_lt, w.left_x_lt)

  left_y_lem : bit_or (n / 2 ^ 32 % 256 / 2) (n / 2 ^ 40 % 256 * 128) % 2048 ≡ p.left_y
  left_y_lem =
      ap (λ t. t % 2048) (bit_or_fields 7 (n / 2 ^ 32 % 256 / 2) (n / 2 ^ 40 % 256) (omega arith))
      ∙ omega (arith, w.right_x_lt, w.right_y_lt, w.left_x_lt, w.left_y_lt)

  left_sw_lem : n / 2 ^ 40 % 256 / 64 % 4 ≡ switch_value p.left_sw
  left_sw_lem = omega (
    arith,
    w.right_x_lt,
    w.right_y_lt,
    w.left_x_lt,
    w.left_y_lt,
    switch_value-lt p.left_sw,
    switch_value-lt p.right_sw,
  )

  right_sw_lem : n / 2 ^ 40 % 256 / 16 % 4 ≡ switch_value p.right_sw
  right_sw_lem = omega (
    arith,
    w.right_x_lt,
    w.right_y_lt,
    w.left_x_lt,
    w.left_y_lt,
    switch_value-lt p.left_sw,
    switch_value-lt p.right_sw,
  )

  -- What parseBuffer stores of a packet is the information that the packet was made of: the sticks less 1024,
  -- the switches, the mouse, the keys, and the wheel less 1024, each in 16 bits.
  pub parsed_info-packet : (info : RemoteInfo) → parsed_info (packet p) info ≡ info_of p info
  unfolding parsed_info
  parsed_info-packet info = λ i. record info {
    right_horizontal_value = stick_lem _ _ right_x_lem i;
    right_vertical_value = stick_lem _ _ right_y_lem i;
    left_horizontal_value = stick_lem _ _ left_x_lem i;
    left_vertical_value = stick_lem _ _ left_y_lem i;
    left_switch_state = (ap switch_of left_sw_lem ∙ switch_of-value p.left_sw) i;
    right_switch_state = (ap switch_of right_sw_lem ∙ switch_of-value p.right_sw) i;
    mouse_x = signed_bytes p.mouse_dx i;
    mouse_y = signed_bytes p.mouse_dy i;
    mouse_z = signed_bytes p.mouse_dz i;
    mouse_l = bit_of_lem p.button_l i;
    mouse_r = bit_of_lem p.button_r i;
    key = (two_bytes p.keys ∙ mod-eq_of_lt w.keys_lt) i;
    wheel_value = ap (λ k. wrap_int16 (pos k -ℤ pos 1024)) (two_bytes p.wheel_raw) i;
  }
