-- ===== src/Examples/Arrivals.antt =====
-- Runs of the receivers of serial messages and of the remote.
use lateral_root.Prelude.{
  ℕ, ◌+◌, ◌%◌, ◌^◌, ◌≡◌, refl, ap, true, false, Option, none, some, List, [], ◌∷◌, ◌++◌, take, drop,
  set, replicate, arith, ltb, if◌then◌else◌,
}
use lateral_root.RemoteMapState.{up, mid}
use lateral_root.Serial.{
  DjiSerial, SerialLine, serial_header_search, process_frame_header, construct_dji_serial,
  serial_message, unchecked_message,
}
use lateral_root.Serial.Receive.{IsQueue, HasNoHead}
use lateral_root.Serial.Delivery.{update_times, update_serial-receives}
use lateral_root.Remote.{
  Remote, RemotePort, construct_remote, elapsed, has_invalid_values, invalid_joystick_values, read,
}
use lateral_root.Remote.Packet.{Sent, packet, info_of}
use lateral_root.Remote.Read.{IsPort, read-packet, next_time}
use lateral_root.Remote.Silence.{IsSilent, disconnected, emptied, released, after_read, read-silent}

-- The bytes that have not been read, and the messages that have been passed on.
abbrev Wire : Type 0
Wire = List ℕ × List (List ℕ)

abbrev line : SerialLine Wire
line = record {
  read = λ n w. (take n w.0, (drop n w.0, w.1));
  message_receive_callback = λ m w. (w.0, m ∷ w.1);
}

abbrev pending : Wire → List ℕ
pending w = w.0

line-IsQueue : IsQueue line pending
line-IsQueue = record { read_takes = λ n w. refl; read_drops = λ n w. refl }

abbrev noise : Wire
noise = (3 ∷ 0xA5 ∷ [], [])

abbrev found : DjiSerial
found = record (construct_dji_serial true) {
  new_message = set (set (replicate 1033 0) 0 3) 0 0xA5;
  rx_state = process_frame_header;
}

abbrev arriving : Wire
arriving = ((3 ∷ 4 ∷ []) ++ (serial_message 9 0x0201 (10 ∷ 20 ∷ []) ++ 0xA5 ∷ []), [])

update_serial-receives_example :
    (t : DjiSerial) × (u : Wire) × (update_times line 3 5 (construct_dji_serial true) arriving
      ≡ some (t, line.message_receive_callback t.most_recent_message u))
    × (take 9 t.most_recent_message ≡ unchecked_message 9 0x0201 (10 ∷ 20 ∷ []))
    × (t.rx_state ≡ serial_header_search)
    × (t.errors ≡ [])
    × (u.0 ≡ 0xA5 ∷ [])
update_serial-receives_example =
    update_serial-receives line 5 pending line-IsQueue (construct_dji_serial true) arriving
      (3 ∷ 4 ∷ []) (0xA5 ∷ []) 9 0x0201 (10 ∷ 20 ∷ []) refl refl refl (omega arith) three_four
      (omega arith) refl
  where
    three_four : HasNoHead (3 ∷ 4 ∷ [])
    three_four = ((λ e. omega (arith, e)), ((λ e. omega (arith, e)), tt))

-- The bytes that have not been read, at the time 50, and how often the mapper has been called.
abbrev Desk : Type 0
Desk = List ℕ × ℕ

abbrev first_of : List ℕ → Option ℕ
first_of [] = none
first_of (b ∷ bs) = some b

abbrev port : RemotePort Desk
port = record {
  read_byte = λ w. (first_of w.0, (drop 1 w.0, w.1));
  discard_receive_buffer = λ w. ([], w.1);
  get_time_milliseconds = λ w. (50, w);
  handle_key_state_change = λ k l r ml mr w. (w.0, w.1 + 1);
}

port-IsPort : IsPort port (λ w. w.0) 50
port-IsPort = record {
  reads_empty = λ w e. ap first_of e;
  reads_first = λ w b bs e. ap first_of e;
  keeps_rest = λ w. refl;
  same_time = λ w. refl;
  no_bytes = λ w. refl;
}

abbrev sent : Sent
sent = record {
  right_x = 1024;
  right_y = 1684;
  left_x = 364;
  left_y = 1000;
  left_sw = up;
  right_sw = mid;
  mouse_dx = 65535;
  mouse_dy = 3;
  mouse_dz = 0;
  button_l = true;
  button_r = false;
  keys = 17;
  wheel_raw = 1024;
}

read-packet_example :
    let info = info_of sent construct_remote.remote in
    (w' : Desk) × (read port construct_remote (packet sent ++ 1 ∷ [], 0) ≡ (
      record {
        remote = record info { update_counter = (0 + 1) % 2 ^ 32 };
        connected = true;
        rx_buffer = replicate 18 0;
        last_read = 50;
        current_buffer_index = 0;
        errors = if has_invalid_values info then [] ++ invalid_joystick_values ∷ [] else [];
      },
      port.discard_receive_buffer (port.handle_key_state_change 17 up mid true false w'),
    ))
read-packet_example =
    read-packet port (λ w. w.0) 50 port-IsPort sent construct_remote (packet sent ++ 1 ∷ [], 0)
      (1 ∷ []) (omega arith) refl refl refl (omega arith) (omega arith)

-- A desk at which nothing arrives, at the time 500.
abbrev silent_port : RemotePort ℕ
silent_port = record {
  read_byte = λ w. (none, w);
  discard_receive_buffer = λ w. w;
  get_time_milliseconds = λ w. (500, w);
  handle_key_state_change = λ k l r ml mr w. w + 1;
}

silent_port-IsSilent : IsSilent silent_port 500
silent_port-IsSilent = record { no_byte = λ w. refl; same_time = λ w. refl }

abbrev listening : Remote
listening = record construct_remote { connected = true; last_read = 300; current_buffer_index = 4 }

read-silent_example : read silent_port listening 0 ≡ (
    if ltb 100 (elapsed 500 300)
    then (
      disconnected listening,
      silent_port.discard_receive_buffer (
          next_time silent_port (
            after_read silent_port 500 silent_port-IsSilent
              (released silent_port 500 silent_port-IsSilent 0))),
    )
    else if ltb 6 (elapsed 500 300)
    then (
      emptied listening,
      silent_port.discard_receive_buffer (
          next_time silent_port
            (after_read silent_port 500 silent_port-IsSilent (next_time silent_port 0))),
    )
    else (
      listening,
      next_time silent_port
          (after_read silent_port 500 silent_port-IsSilent (next_time silent_port 0)),
    ))
read-silent_example = read-silent silent_port 500 silent_port-IsSilent listening 0 (omega arith)
