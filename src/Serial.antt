-- ===== src/Serial.antt =====
-- tap/communication/serial/dji_serial.hpp and dji_serial.cpp.in: the receiver of the serial protocol. A
-- message is the bytes of the packed struct `SerialMessage<SERIAL_RX_BUFF_SIZE>`, on a little-endian
-- machine: 5 of the header, 2 of the type, 1024 of the data and 2 of CRC16.
pub mod Buffer
pub mod Invariant
pub mod Steps
pub mod Receive
pub mod Frames
pub mod Reads
pub mod Messages
pub mod Delivery
use lateral_root.Prelude.{
  ℕ, zero, suc, ◌+◌, ◌-◌, ◌*◌, ◌/◌, ◌%◌, Bool, true, false, not, ◌&&◌, Option, none, some, List, [],
  ◌∷◌, ◌++◌, leb, ltb, ◌==◌, length, get_or, set, take, drop, replicate, if◌then◌else◌,
}
use lateral_root.Crc.{calculate_crc8, calculate_crc16, crc8_init, crc16_init}

abbrev pub serial_rx_buff_size : ℕ
serial_rx_buff_size = 1024

abbrev pub serial_head_byte : ℕ
serial_head_byte = 0xA5

abbrev pub sizeof_header : ℕ
sizeof_header = 5

-- Where the members of the struct stand.
abbrev pub crc16_position : ℕ
crc16_position = 1031

abbrev pub sizeof_message : ℕ
sizeof_message = 1033

abbrev pub data_length : List ℕ → ℕ
data_length message = get_or message 1 0 + 256 * get_or message 2 0

abbrev pub header_crc8 : List ℕ → ℕ
header_crc8 message = get_or message 4 0

abbrev pub message_crc16 : List ℕ → ℕ
message_crc16 message =
    get_or message crc16_position 0 + 256 * get_or message (crc16_position + 1) 0

pub data RxState : Type 0 where
  serial_header_search process_frame_header process_frame_data : RxState

pub data SerialError : Type 0 where
  crc8_failure length_too_long crc16_failure invalid_message_length : SerialError

pub record DjiSerial : Type 0 where
  pub rx_state : RxState
  pub new_message : List ℕ
  pub most_recent_message : List ℕ
  pub frame_curr_read_byte : ℕ
  pub rx_crc_enabled : Bool
  pub errors : List SerialError

abbrev pub construct_dji_serial : Bool → DjiSerial
construct_dji_serial rx_crc_enabled = record {
  rx_state = serial_header_search;
  new_message = replicate sizeof_message 0;
  most_recent_message = replicate sizeof_message 0;
  frame_curr_read_byte = 0;
  rx_crc_enabled = rx_crc_enabled;
  errors = [];
}

-- The UART driver, whose `read` gives at most the number of bytes that is asked for, and the callback that
-- derived classes define. `W` is their state.
pub record SerialLine (W : Type 0) : Type 0 where
  pub read : ℕ → W → List ℕ × W
  pub message_receive_callback : List ℕ → W → W

-- The bytes that `read` stores from a position of the message on.
unfoldable pub write_at : ℕ → List ℕ → List ℕ → List ℕ
write_at i [] message = message
write_at i (b ∷ bytes) message = write_at (i + 1) bytes (set message i b)

abbrev pub uint16 : ℕ → ℕ
uint16 n = n % 65536

abbrev pub verify_crc8 : List ℕ → Bool
verify_crc8 message = calculate_crc8 (some (take 4 message)) crc8_init == header_crc8 message

-- The `memcpy` of the checksum from behind the data.
unfoldable pub move_crc16 : List ℕ → List ℕ
move_crc16 message =
    write_at crc16_position
      (get_or message (7 + data_length message) 0 ∷ get_or message (8 + data_length message) 0 ∷ [])
      message

abbrev pub verify_crc16 : List ℕ → Bool
verify_crc16 message =
    message_crc16 message
    == calculate_crc16 (some (take (7 + data_length message) message)) crc16_init

-- Back to the search for a head byte, with an error.
abbrev pub give_up : SerialError → DjiSerial → DjiSerial
give_up e s = record s { rx_state = serial_header_search; errors = s.errors ++ e ∷ [] }

-- `bytesToRead`.
abbrev pub bytes_to_read : DjiSerial → ℕ
bytes_to_read s = 2 + data_length s.new_message + (if s.rx_crc_enabled then 2 else 0)

-- What is done when the header is complete.
unfoldable pub header_complete : DjiSerial → DjiSerial
header_complete s =
    if s.rx_crc_enabled && not (verify_crc8 s.new_message)
    then give_up crc8_failure s
    else if leb serial_rx_buff_size (data_length s.new_message)
    then give_up length_too_long s
    else record s { rx_state = process_frame_data }

module _ {W : Type 0} (line : SerialLine W) where
  -- The loop of the case SERIAL_HEADER_SEARCH. Without fuel it gives `none`.
  unfoldable pub search_header : ℕ → DjiSerial → W → Option (DjiSerial × W)
  search_header zero s w = none
  search_header (suc fuel) s w =
      let (bytes, w') = line.read 1 w in
      elim bytes [
        | [] ↦ some (s, w')
        | b ∷ more ↦
            let s' = record s { new_message = set s.new_message 0 b } in
            let rest = search_header fuel s' w' in
            if b == serial_head_byte
            then some (record s' { rx_state = process_frame_header; frame_curr_read_byte = 0 }, w')
            else rest
      ]

  unfoldable pub read_header : DjiSerial → W → DjiSerial × W
  read_header s w =
      let (bytes, w') = line.read (sizeof_header - s.frame_curr_read_byte - 1) w in
      let count = uint16 (s.frame_curr_read_byte + length bytes) in
      let s' = record s {
        new_message = write_at (s.frame_curr_read_byte + 1) bytes s.new_message;
        frame_curr_read_byte = count;
      } in
      (
        if count == sizeof_header - 1
            then header_complete (record s' { frame_curr_read_byte = 0 })
            else s',
        w',
      )

  -- What is done when all bytes of a message are there.
  unfoldable pub data_complete : DjiSerial → W → DjiSerial × W
  data_complete s w =
      let s' =
        if s.rx_crc_enabled then record s { new_message = move_crc16 s.new_message } else s in
      if s.rx_crc_enabled && not (verify_crc16 s'.new_message)
      then (give_up crc16_failure s', w)
      else (
        record s' { most_recent_message = s'.new_message; rx_state = serial_header_search },
        line.message_receive_callback s'.new_message w,
      )

  unfoldable pub read_data : DjiSerial → W → DjiSerial × W
  read_data s w =
      let (bytes, w') = line.read (bytes_to_read s - s.frame_curr_read_byte) w in
      let s' = record s {
        new_message = write_at (sizeof_header + s.frame_curr_read_byte) bytes s.new_message;
        frame_curr_read_byte = uint16 (s.frame_curr_read_byte + length bytes);
      } in
      if s'.frame_curr_read_byte == bytes_to_read s
      then data_complete s' w'
      else if ltb (bytes_to_read s) s'.frame_curr_read_byte
      then (give_up invalid_message_length (record s' { frame_curr_read_byte = 0 }), w')
      else (s', w')

  unfoldable pub update_in : RxState → ℕ → DjiSerial → W → Option (DjiSerial × W)
  update_in serial_header_search fuel s w = search_header fuel s w
  update_in process_frame_header fuel s w = some (read_header s w)
  update_in process_frame_data fuel s w = some (read_data s w)

  abbrev pub update_serial : ℕ → DjiSerial → W → Option (DjiSerial × W)
  update_serial fuel s w = update_in s.rx_state fuel s w

-- The constructor of `SerialMessage<DATA_SIZE>`, with the type and the data written to it, and `setCRC16`.
unfoldable pub serial_header : ℕ → ℕ → List ℕ
serial_header seq length =
    let start = serial_head_byte ∷ (length % 256) ∷ (length / 256) ∷ seq ∷ [] in
    start ++ calculate_crc8 (some start) crc8_init ∷ []

unfoldable pub unchecked_message : ℕ → ℕ → List ℕ → List ℕ
unchecked_message seq message_type contents =
    serial_header seq (uint16 (length contents))
    ++ (message_type % 256) ∷ (message_type / 256) ∷ contents

unfoldable pub serial_message : ℕ → ℕ → List ℕ → List ℕ
serial_message seq message_type contents =
    let message = unchecked_message seq message_type contents in
    let crc16 = calculate_crc16 (some message) crc16_init in
    message ++ (crc16 % 256) ∷ (crc16 / 256) ∷ []
