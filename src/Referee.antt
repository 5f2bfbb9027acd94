-- ===== src/Referee.antt =====
-- tap/communication/serial/ref_serial.cpp and ref_serial_data.hpp: what the robot keeps of the status
-- messages of the referee system, and the damage that it took in the last second. The events are kept in
-- a `modm::BoundedDeque`. `receivedDps` is a float that only integers are added to and subtracted from.
pub mod Window
pub mod Hits
pub mod Damage
pub mod Robots
use lateral_root.Prelude.{
  ℕ, zero, suc, ◌+◌, ◌*◌, ◌/◌, ◌%◌, ◌^◌, Bool, true, false, ◌&&◌, Option, none, some, List, [], ◌∷◌,
  ltb, ◌==◌, ◌!=◌, get_or, if◌then◌else◌,
}
use lateral_root.Prelude.Int.{ℤ, pos, ◌+ℤ◌, ◌-ℤ◌, ltb_ℤ, bits_16, sub_ℕ}
use lateral_root.ErrorController.{Deque}
use lateral_root.Timers.Timeout.{uint32_count}
use lateral_root.Serial.{data_length}

abbrev pub dps_tracker_deque_size : ℕ
dps_tracker_deque_size = 20

pub record DamageEvent : Type 0 where
  pub damage_amount : ℕ
  pub timestamp_ms : ℕ

-- The members of `robotData` that a status message sets, and `receivedDpsTracker`.
pub record RefSerial (D : Type 0) : Type 0 where
  pub robot_id : ℕ
  pub robot_level : ℕ
  pub previous_hp : ℕ
  pub current_hp : ℕ
  pub max_hp : ℕ
  pub cooling_rate : ℕ
  pub heat_limit : ℕ
  pub power_consumption_limit : ℕ
  pub robot_power : ℕ
  pub robot_data_received_timestamp : ℕ
  pub received_dps : ℤ
  pub received_dps_tracker : D

abbrev pub construct_ref_serial : {D : Type 0} → D → RefSerial D
construct_ref_serial empty = record {
  robot_id = 0;
  robot_level = 0;
  previous_hp = 0;
  current_hp = 0;
  max_hp = 0;
  cooling_rate = 0;
  heat_limit = 0;
  power_consumption_limit = 0;
  robot_power = 0;
  robot_data_received_timestamp = 0;
  received_dps = pos 0;
  received_dps_tracker = empty;
}

-- A byte of the data of a message, which follows 5 bytes of header and 2 of type.
abbrev pub data_byte : List ℕ → ℕ → ℕ
data_byte message i = get_or message (7 + i) 0

abbrev pub data_uint16 : List ℕ → ℕ → ℕ
data_uint16 message i = data_byte message i + 256 * data_byte message (i + 1)

module _ {D : Type 0} (d : Deque DamageEvent D) where
  unfoldable pub process_received_damage : ℕ → ℤ → RefSerial D → RefSerial D
  process_received_damage timestamp damage_taken s =
      if ltb_ℤ (pos 0) damage_taken
      then (let damage_event : DamageEvent = record {
        damage_amount = bits_16 damage_taken;
        timestamp_ms = timestamp;
      } in
          let tracker = s.received_dps_tracker in
          record s {
            received_dps = s.received_dps +ℤ damage_taken;
            received_dps_tracker = d.append damage_event (
                if d.get_size tracker == dps_tracker_deque_size
                then d.remove_back tracker
                else tracker);
          })
      else s

  -- The test of the loop of `updateReceivedDamage`.
  unfoldable pub front_is_over : ℕ → D → Bool
  front_is_over now tracker =
      ltb 0 (d.get_size tracker) && ltb (((d.get tracker 0).timestamp_ms + 1000) % uint32_count) now

  abbrev pub forget_front : RefSerial D → RefSerial D
  forget_front s = record s {
    received_dps = s.received_dps -ℤ pos (d.get s.received_dps_tracker 0).damage_amount;
    received_dps_tracker = d.remove_front s.received_dps_tracker;
  }

  -- The clock is read in every round: `clock i` is its reading in round `i`. The first argument bounds the
  -- number of tests.
  unfoldable pub update_received_damage : ℕ → (ℕ → ℕ) → RefSerial D → Option (RefSerial D)
  update_received_damage zero clock s = none
  update_received_damage (suc fuel) clock s =
      let rest = update_received_damage fuel (λ i. clock (suc i)) (forget_front s) in
      if front_is_over (clock 0) s.received_dps_tracker then rest else some s

  -- The assignments of `decodeToRobotStatus`.
  abbrev pub store_robot_status : ℕ → List ℕ → RefSerial D → RefSerial D
  store_robot_status now message s = record s {
    robot_id = data_byte message 0;
    robot_level = data_byte message 1;
    current_hp = data_uint16 message 2;
    max_hp = data_uint16 message 4;
    cooling_rate = data_uint16 message 6;
    heat_limit = data_uint16 message 8;
    power_consumption_limit = data_uint16 message 10;
    robot_power = data_byte message 12 % 8;
    robot_data_received_timestamp = now;
  }

  unfoldable pub decode_to_robot_status : ℕ → List ℕ → RefSerial D → Bool × RefSerial D
  decode_to_robot_status now message s =
      if data_length message != 13
      then (false, s)
      else (let processed =
            process_received_damage now (sub_ℕ s.previous_hp (data_uint16 message 2))
              (store_robot_status now message s) in
          (true, record processed { previous_hp = processed.current_hp }))

infixl 10 ◌>>=◌
abbrev pub ◌>>=◌ : {A B : Type 0} → Option A → (A → Option B) → Option B
none >>= f = none
some a >>= f = f a

-- What a robot does with the referee system: it takes the damage of the past second off, or decodes a
-- status message at a time.
pub data RefCall : Type 0 where
  damage_update : (ℕ → ℕ) → RefCall
  robot_status : ℕ → List ℕ → RefCall

module _ {D : Type 0} (d : Deque DamageEvent D) where
  abbrev pub make_call : ℕ → RefCall → RefSerial D → Option (RefSerial D)
  make_call fuel (damage_update clock) s = update_received_damage d fuel clock s
  make_call fuel (robot_status now message) s = some (decode_to_robot_status d now message s).1

  unfoldable pub make_calls : ℕ → List RefCall → RefSerial D → Option (RefSerial D)
  make_calls fuel [] s = some s
  make_calls fuel (c ∷ calls) s = do s' ← make_call fuel c s; make_calls fuel calls s'
