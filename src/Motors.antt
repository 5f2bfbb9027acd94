-- ===== src/Motors.antt =====
-- tap/motor: dji_motor_ids.hpp, the motors of dji_motor.cpp.in and dji_motor_tx_handler.cpp, which sends
-- the outputs of the motors. A motor is its address; `motors` gives the object at an address.
pub mod Output
pub mod Stores
pub mod Calls
pub mod Frames
pub mod Sending
use lateral_root.Prelude.{
  ℕ, zero, suc, ◌+◌, ◌-◌, ◌*◌, ◌/◌, ◌%◌, Bool, true, false, ◌&&◌, ◌||◌, Option, none, some, List,
  [], ◌∷◌, ◌++◌, map, foldl, ltb, leb, replicate, set, get_or, if◌then◌else◌,
}
use lateral_root.Prelude.Int.{ℤ, pos, negsuc, neg_ℤ, bits_16, wrap_int16, ltb_ℤ}
use lateral_root.Can.{CanBus, can_bus1, can_bus2}

abbrev pub motor1 : ℕ
motor1 = 0x201

abbrev pub motor4 : ℕ
motor4 = 0x204

abbrev pub motor8 : ℕ
motor8 = 0x208

abbrev pub dji_motors_per_can : ℕ
dji_motors_per_can = 8

-- The macro DJI_MOTOR_TO_NORMALIZED_ID.
unfoldable pub normalized_id : ℕ → ℕ
normalized_id id = if ltb id motor1 then dji_motors_per_can else id - motor1

pub record DjiMotor : Type 0 where
  pub motor_identifier : ℕ
  pub motor_can_bus : CanBus
  pub desired_output : ℤ
  pub motor_inverted : Bool
  pub current_control : Bool

-- `limitVal` at int32_t, with the limits of an int16_t.
abbrev pub limit_int16 : ℤ → ℤ
limit_int16 v =
    if ltb_ℤ v (negsuc 32767) then negsuc 32767 else if ltb_ℤ (pos 32767) v then pos 32767 else v

-- The negation is at 32 bits and the member has 16.
unfoldable pub set_desired_output : ℤ → DjiMotor → DjiMotor
set_desired_output desired m =
    let limited = limit_int16 desired in
    record m { desired_output = if m.motor_inverted then wrap_int16 (neg_ℤ limited) else limited }

-- `modm::can::Message`, as far as the handler uses it.
pub record Message : Type 0 where
  pub identifier : ℕ
  pub length : ℕ
  pub content : List ℕ

-- The bytes `output >> 8` and `output & 0xFF`.
abbrev pub high_byte : ℤ → ℕ
high_byte output = bits_16 output / 256

abbrev pub low_byte : ℤ → ℕ
low_byte output = bits_16 output % 256

unfoldable pub serialize_can_send_data : DjiMotor → Message → Message
serialize_can_send_data m message =
    let id = normalized_id m.motor_identifier % 4 in
    record message {
      content =
          set (set message.content (2 * id) (high_byte m.desired_output)) (2 * id + 1)
            (low_byte m.desired_output);
    }

pub data TxError : Type 0 where
  send_message_failure invalid_motor_id : TxError

abbrev pub MotorStore : Type 0
MotorStore = List (Option ℕ)

pub record DjiMotorTxHandler : Type 0 where
  pub can1_motor_store : MotorStore
  pub can2_motor_store : MotorStore
  pub errors : List TxError

abbrev pub construct_tx_handler : DjiMotorTxHandler
construct_tx_handler = record {
  can1_motor_store = replicate dji_motors_per_can none;
  can2_motor_store = replicate dji_motors_per_can none;
  errors = [];
}

abbrev pub store_of : CanBus → DjiMotorTxHandler → MotorStore
store_of can_bus1 h = h.can1_motor_store
store_of can_bus2 h = h.can2_motor_store

abbrev pub with_store : CanBus → MotorStore → DjiMotorTxHandler → DjiMotorTxHandler
with_store can_bus1 store h = record h { can1_motor_store = store }
with_store can_bus2 store h = record h { can2_motor_store = store }

abbrev pub raise_tx_error : TxError → DjiMotorTxHandler → DjiMotorTxHandler
raise_tx_error e h = record h { errors = h.errors ++ e ∷ [] }

abbrev pub is_null : Option ℕ → Bool
is_null none = true
is_null (some a) = false

-- What the driver of the CAN buses offers; `W` is its state.
pub record CanDriver (W : Type 0) : Type 0 where
  pub is_ready_to_send : CanBus → W → Bool
  pub send_message : CanBus → Message → W → W × Bool

-- The messages that are filled, and the flags that say that a motor has written to one.
pub record Outgoing : Type 0 where
  pub message_low : Message
  pub message_high : Message
  pub message_6020_current : Message
  pub valid_low : Bool
  pub valid_high : Bool
  pub valid_6020_current : Bool

abbrev pub empty_message : ℕ → Message
empty_message identifier = record { identifier = identifier; length = 8; content = replicate 8 0 }

abbrev pub no_outgoing : Outgoing
no_outgoing = record {
  message_low = empty_message 0x200;
  message_high = empty_message 0x1FF;
  message_6020_current = empty_message 0x1FE;
  valid_low = false;
  valid_high = false;
  valid_6020_current = false;
}

-- The messages whose flag is set, in the order in which they are sent.
abbrev pub valid_messages : Outgoing → List Message
valid_messages u =
    (if u.valid_low then u.message_low ∷ [] else [])
    ++ ((if u.valid_high then u.message_high ∷ [] else [])
        ++ (if u.valid_6020_current then u.message_6020_current ∷ [] else []))

module _ (motors : ℕ → DjiMotor) where
  -- `none` is a failed assertion.
  unfoldable pub add_motor_to_store : ℕ → MotorStore → Option MotorStore
  add_motor_to_store motor store =
      let id_index = normalized_id (motors motor).motor_identifier in
      if is_null (get_or store id_index none) && ltb id_index dji_motors_per_can
      then some (set store id_index (some motor))
      else none

  unfoldable pub add_motor_to_manager : ℕ → DjiMotorTxHandler → Option DjiMotorTxHandler
  add_motor_to_manager motor h =
      let bus = (motors motor).motor_can_bus in
      elim (add_motor_to_store motor (store_of bus h)) [
        | none ↦ none
        | some store ↦ some (with_store bus store h)
      ]

  unfoldable pub remove_from_motor_manager : ℕ → DjiMotorTxHandler → DjiMotorTxHandler
  remove_from_motor_manager motor h =
      let bus = (motors motor).motor_can_bus in
      let id = normalized_id (motors motor).motor_identifier in
      if ltb (normalized_id motor8) id || is_null (get_or (store_of bus h) id none)
      then raise_tx_error invalid_motor_id h
      else with_store bus (set (store_of bus h) id none) h

  -- One round of the loop of `serializeMotorStoreSendData`.
  unfoldable pub serialize_slot : Outgoing → Option ℕ → Outgoing
  serialize_slot u none = u
  serialize_slot u (some motor) =
      if leb (normalized_id (motors motor).motor_identifier) (normalized_id motor4)
      then record u {
        message_low = serialize_can_send_data (motors motor) u.message_low;
        valid_low = true;
      }
      else if (motors motor).current_control
      then record u {
        message_6020_current = serialize_can_send_data (motors motor) u.message_6020_current;
        valid_6020_current = true;
      }
      else record u {
        message_high = serialize_can_send_data (motors motor) u.message_high;
        valid_high = true;
      }

  unfoldable pub serialize_motor_store_send_data : MotorStore → Outgoing
  serialize_motor_store_send_data = foldl serialize_slot no_outgoing

  module _ {W : Type 0} (can : CanDriver W) where
    -- `messageSuccess &= sendMessage(bus, message)`, if the flag is set.
    unfoldable pub send_if : Bool → CanBus → Message → W × Bool → W × Bool
    send_if false bus message (w, success) = (w, success)
    send_if true bus message (w, success) =
        let (w', sent) = can.send_message bus message w in (w', success && sent)

    unfoldable pub send_on_bus : CanBus → Outgoing → W × Bool → W × Bool
    send_on_bus bus u (w, success) =
        if can.is_ready_to_send bus w
        then send_if u.valid_6020_current bus u.message_6020_current (
            send_if u.valid_high bus u.message_high
              (send_if u.valid_low bus u.message_low (w, success)))
        else (w, success)

    unfoldable pub encode_and_send_can_data : DjiMotorTxHandler → W → DjiMotorTxHandler × W
    encode_and_send_can_data h w =
        let (w', success) =
          send_on_bus can_bus2 (serialize_motor_store_send_data h.can2_motor_store)
            (send_on_bus can_bus1 (serialize_motor_store_send_data h.can1_motor_store) (w, true)) in
        (if success then h else raise_tx_error send_message_failure h, w')

-- `none` is the null pointer.
unfoldable pub get_motor : CanBus → ℕ → DjiMotorTxHandler → Option ℕ
get_motor bus motor_id h =
    let index = normalized_id motor_id in
    if ltb (normalized_id motor8) index then none else get_or (store_of bus h) index none

abbrev pub get_can1_motor : ℕ → DjiMotorTxHandler → Option ℕ
get_can1_motor = get_motor can_bus1

abbrev pub get_can2_motor : ℕ → DjiMotorTxHandler → Option ℕ
get_can2_motor = get_motor can_bus2
