-- ===== src/Remote.antt =====
-- tap/communication/serial/remote.cpp and remote.hpp: the receiver of the remote control. The buffer is a
-- list of bytes, an `int16_t` the integer that it stands for.
pub mod Packet
pub mod Read
pub mod Silence
use Prim.Native.Nat.{bit_or}
use lateral_root.Prelude.{
  ℕ, zero, suc, ◌+◌, ◌-◌, ◌*◌, ◌/◌, ◌%◌, ◌^◌, Bool, true, false, not, ◌||◌, Option, none, some,
  List, [], ◌∷◌, ◌++◌, leb, ltb, ◌==◌, ◌!=◌, get_or, set, replicate, if◌then◌else◌,
}
use lateral_root.Prelude.Int.{ℤ, pos, pos_part, neg_part, ◌-ℤ◌, int16_of, wrap_int16}
use lateral_root.RemoteMapState.{
  SwitchState, unknown, up, down, mid, Switch, left_switch, right_switch,
}

pub data Channel : Type 0 where
  right_horizontal right_vertical left_horizontal left_vertical wheel : Channel

-- The struct `RemoteInfo`.
pub record RemoteInfo : Type 0 where
  pub update_counter : ℕ
  pub right_horizontal_value : ℤ
  pub right_vertical_value : ℤ
  pub left_horizontal_value : ℤ
  pub left_vertical_value : ℤ
  pub left_switch_state : SwitchState
  pub right_switch_state : SwitchState
  pub mouse_x : ℤ
  pub mouse_y : ℤ
  pub mouse_z : ℤ
  pub mouse_l : Bool
  pub mouse_r : Bool
  pub key : ℕ
  pub wheel_value : ℤ

pub data RemoteError : Type 0 where
  invalid_joystick_values : RemoteError

pub record Remote : Type 0 where
  pub remote : RemoteInfo
  pub connected : Bool
  pub rx_buffer : List ℕ
  pub last_read : ℕ
  pub current_buffer_index : ℕ
  pub errors : List RemoteError

abbrev pub remote_buf_len : ℕ
remote_buf_len = 18

abbrev pub remote_read_timeout : ℕ
remote_read_timeout = 6

abbrev pub remote_disconnect_timeout : ℕ
remote_disconnect_timeout = 100

abbrev pub analog_max_value : ℕ
analog_max_value = 660

abbrev pub empty_info : RemoteInfo
empty_info = record {
  update_counter = 0;
  right_horizontal_value = pos 0;
  right_vertical_value = pos 0;
  left_horizontal_value = pos 0;
  left_vertical_value = pos 0;
  left_switch_state = unknown;
  right_switch_state = unknown;
  mouse_x = pos 0;
  mouse_y = pos 0;
  mouse_z = pos 0;
  mouse_l = false;
  mouse_r = false;
  key = 0;
  wheel_value = pos 0;
}

abbrev pub construct_remote : Remote
construct_remote = record {
  remote = empty_info;
  connected = false;
  rx_buffer = replicate remote_buf_len 0;
  last_read = 0;
  current_buffer_index = 0;
  errors = [];
}

-- What `Remote` calls: one byte of the UART, its `discardReceiveBuffer`, the clock, and
-- `CommandMapper::handleKeyStateChange`. `W` is their state.
pub record RemotePort (W : Type 0) : Type 0 where
  pub read_byte : W → Option ℕ × W
  pub discard_receive_buffer : W → W
  pub get_time_milliseconds : W → ℕ × W
  pub handle_key_state_change : ℕ → SwitchState → SwitchState → Bool → Bool → W → W

-- `a - b` at uint32_t.
abbrev pub elapsed : ℕ → ℕ → ℕ
elapsed a b = (a + (2 ^ 32 - b)) % 2 ^ 32

abbrev pub switch_of : ℕ → SwitchState
switch_of zero = unknown
switch_of (suc zero) = up
switch_of (suc (suc zero)) = down
switch_of _ = mid

-- `(... & 0x07FF) - 1024`
abbrev pub stick : ℕ → ℤ
stick n = pos (n % 2048) -ℤ pos 1024

-- What `parseBuffer` stores.
unfoldable pub parsed_info : List ℕ → RemoteInfo → RemoteInfo
parsed_info buffer info =
    let rx = λ (i : ℕ). get_or buffer i 0 in
    record info {
      right_horizontal_value = stick (bit_or (rx 0) (rx 1 * 256));
      right_vertical_value = stick (bit_or (rx 1 / 8) (rx 2 * 32));
      left_horizontal_value = stick (bit_or (bit_or (rx 2 / 64) (rx 3 * 4)) (rx 4 * 1024));
      left_vertical_value = stick (bit_or (rx 4 / 2) (rx 5 * 128));
      left_switch_state = switch_of (rx 5 / 64 % 4);
      right_switch_state = switch_of (rx 5 / 16 % 4);
      mouse_x = int16_of (bit_or (rx 6) (rx 7 * 256));
      mouse_y = int16_of (bit_or (rx 8) (rx 9 * 256));
      mouse_z = int16_of (bit_or (rx 10) (rx 11 * 256));
      mouse_l = rx 12 != 0;
      mouse_r = rx 13 != 0;
      key = bit_or (rx 14) (rx 15 * 256);
      wheel_value = wrap_int16 (pos (bit_or (rx 16) (rx 17 * 256)) -ℤ pos 1024);
    }

abbrev pub out_of_range : ℤ → Bool
out_of_range v = ltb analog_max_value (pos_part v + neg_part v)

abbrev pub has_invalid_values : RemoteInfo → Bool
has_invalid_values info =
    out_of_range info.right_horizontal_value
    || out_of_range info.right_vertical_value
    || out_of_range info.left_horizontal_value
    || out_of_range info.left_vertical_value
    || out_of_range info.wheel_value

module _ {W : Type 0} (port : RemotePort W) where
  unfoldable pub parse_buffer : Remote → W → Remote × W
  parse_buffer r w =
      let info = parsed_info r.rx_buffer r.remote in
      (
        record r {
          remote = record info { update_counter = (info.update_counter + 1) % 2 ^ 32 };
          errors =
              if has_invalid_values info
              then r.errors ++ invalid_joystick_values ∷ []
              else r.errors;
        },
        port.handle_key_state_change info.key info.left_switch_state info.right_switch_state
            info.mouse_l info.mouse_r w,
      )

  unfoldable pub clear_rx_buffer : Remote → W → Remote × W
  clear_rx_buffer r w = (
    record r { current_buffer_index = 0; rx_buffer = replicate remote_buf_len 0 },
    port.discard_receive_buffer w,
  )

  unfoldable pub reset : Remote → W → Remote × W
  reset r w =
      let (r', w') =
        clear_rx_buffer
          (record r { remote = record empty_info { update_counter = r.remote.update_counter } })
          w in
      (r', port.handle_key_state_change 0 unknown unknown false false w')

  -- The loop over the UART, with the places that are left in the buffer. Once it is full a byte that is there
  -- is still read, and dropped.
  unfoldable pub read_bytes : ℕ → Remote → W → Remote × W
  read_bytes zero r w = (r, (port.read_byte w).1)
  read_bytes (suc left) r w =
      let (byte, w') = port.read_byte w in
      elim byte [
        | none ↦ (r, w')
        | some b ↦
            let (now, w'') = port.get_time_milliseconds w' in
            read_bytes left
              (record r {
                rx_buffer = set r.rx_buffer r.current_buffer_index b;
                current_buffer_index = r.current_buffer_index + 1;
                last_read = now;
              })
              w''
      ]

  -- The checks of `read` before and after the loop.
  unfoldable pub check_disconnect : Remote → W → Remote × W
  check_disconnect r w =
      let (now, w') = port.get_time_milliseconds w in
      if ltb remote_disconnect_timeout (elapsed now r.last_read)
      then reset (record r { connected = false }) w'
      else (r, w')

  unfoldable pub check_read_timeout : Remote → W → Remote × W
  check_read_timeout r w =
      let (now, w') = port.get_time_milliseconds w in
      if ltb remote_read_timeout (elapsed now r.last_read) then clear_rx_buffer r w' else (r, w')

  unfoldable pub parse_if_full : Remote → W → Remote × W
  parse_if_full r w =
      if leb remote_buf_len r.current_buffer_index
      then (let (r', w') = parse_buffer (record r { connected = true }) w in clear_rx_buffer r' w')
      else (r, w)

  unfoldable pub read : Remote → W → Remote × W
  read r w =
      let (r1, w1) = check_disconnect r w in
      let (r2, w2) = read_bytes (remote_buf_len - r1.current_buffer_index) r1 w1 in
      let (r3, w3) = check_read_timeout r2 w2 in parse_if_full r3 w3

-- The integer that `getChannel` divides by ANALOG_MAX_VALUE.
unfoldable pub get_channel : Channel → Remote → ℤ
get_channel right_horizontal r = r.remote.right_horizontal_value
get_channel right_vertical r = r.remote.right_vertical_value
get_channel left_horizontal r = r.remote.left_horizontal_value
get_channel left_vertical r = r.remote.left_vertical_value
get_channel wheel r = r.remote.wheel_value

unfoldable pub get_switch : Switch → Remote → SwitchState
get_switch left_switch r = r.remote.left_switch_state
get_switch right_switch r = r.remote.right_switch_state

unfoldable pub key_pressed : ℕ → Remote → Bool
key_pressed key r = r.remote.key / 2 ^ key % 2 != 0
