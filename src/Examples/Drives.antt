-- ===== src/Examples/Drives.antt =====
-- Runs of the motors and their handler.
use lateral_root.Prelude.{
  ℕ, ◌*◌, ◌%◌, ◌≡◌, refl, true, false, ◌&&◌, ◌||◌, some, List, [], ◌∷◌, ◌++◌, ◌==◌, arith,
  if◌then◌else◌,
}
use lateral_root.Prelude.Int.{pos, negsuc}
use lateral_root.Can.{can_bus1, can_bus2}
use lateral_root.Motors.{
  DjiMotor, Message, DjiMotorTxHandler, construct_tx_handler, CanDriver, empty_message,
  normalized_id, set_desired_output, serialize_can_send_data, add_motor_to_manager,
  add_motor_to_store, get_motor, serialize_motor_store_send_data, store_of, valid_messages,
  encode_and_send_can_data, raise_tx_error, send_message_failure,
}
use lateral_root.Motors.Output.{decoded_output, expected_output, serialize-set_desired}
use lateral_root.Motors.Stores.{same_bus, construct-IsPlaced, put}
use lateral_root.Motors.Calls.{constructed, added, get-add_motor, Calls-frames, motor_at}
use lateral_root.Motors.Frames.{frame, filled, has, output, voltage_output, current_output}
use lateral_root.Motors.Sending.{deliver_to, encode_and_send_lem}

-- Motor 0 has the number 2, motor 1 the number 6 and is under current control.
abbrev motors : ℕ → DjiMotor
motors a = record {
  motor_identifier = if a == 0 then 0x202 else 0x206;
  motor_can_bus = can_bus1;
  desired_output = if a == 0 then negsuc 1 else pos 1000;
  motor_inverted = true;
  current_control = if a == 0 then false else true;
}

serialize-set_desired_example :
    decoded_output
      (serialize_can_send_data
        (set_desired_output (pos 40000) (motors 0))
        (empty_message 0x200)).content
      (2 * (normalized_id 0x202 % 4))
    ≡ expected_output true (pos 40000)
serialize-set_desired_example =
    serialize-set_desired (pos 40000) (motors 0) (empty_message 0x200) (omega arith)

abbrev with_first : DjiMotorTxHandler
with_first = put motors 0 (some 0) construct_tx_handler

first_added : add_motor_to_manager motors 0 construct_tx_handler ≡ some with_first
unfolding add_motor_to_manager add_motor_to_store normalized_id
first_added = refl

get-add_motor_example : get_motor can_bus1 0x202 with_first ≡ (
    if same_bus can_bus1 can_bus1 && (0x202 == 0x202)
    then some 0
    else get_motor can_bus1 0x202 construct_tx_handler)
get-add_motor_example =
    get-add_motor motors 0 construct_tx_handler with_first can_bus1 0x202
      (construct-IsPlaced motors) first_added

Calls-frames_example :
    let out = λ (i : ℕ). output motors (motor_at motors can_bus1 with_first i) in
    let voltage = λ (i : ℕ). voltage_output motors (motor_at motors can_bus1 with_first i) in
    let current = λ (i : ℕ). current_output motors (motor_at motors can_bus1 with_first i) in
    let at = λ (i : ℕ). has (motor_at motors can_bus1 with_first i) in
    serialize_motor_store_send_data motors (store_of can_bus1 with_first)
    ≡ filled
        (frame (out 0) (out 1) (out 2) (out 3))
        (frame (voltage 4) (voltage 5) (voltage 6) (voltage 7))
        (frame (current 4) (current 5) (current 6) (current 7))
        (at 0 || at 1 || at 2 || at 3)
        (has (voltage 4) || has (voltage 5) || has (voltage 6) || has (voltage 7))
        (has (current 4) || has (current 5) || has (current 6) || has (current 7))
Calls-frames_example =
    Calls-frames motors with_first can_bus1
      (added 0 construct_tx_handler with_first constructed first_added)

-- A driver that writes down what it is given, and refuses what comes after the first message.
abbrev recorder : CanDriver (List Message)
recorder = record {
  is_ready_to_send = λ b w. true;
  send_message = λ b m w. (w ++ m ∷ [], elim w [ [] ↦ true | _ ↦ false ]);
}

encode_and_send_lem_example :
    let first =
      deliver_to recorder can_bus1
        (valid_messages (serialize_motor_store_send_data motors with_first.can1_motor_store))
        [] in
    let second =
      deliver_to recorder can_bus2
        (valid_messages (serialize_motor_store_send_data motors with_first.can2_motor_store))
        first.0 in
    encode_and_send_can_data motors recorder with_first [] ≡ (
      if first.1 && second.1 then with_first else raise_tx_error send_message_failure with_first,
      second.0,
    )
encode_and_send_lem_example = encode_and_send_lem recorder motors with_first []
