-- ===== src/Serial/Reads.antt =====
-- What one call of updateSerial makes of the bytes that it reads.
use mathlib.Core.List.{append_assoc}
use lateral_root.Prelude.{
  ℕ, ◌+◌, ◌-◌, ◌/◌, ◌%◌, ◌<◌, ◌≡◌, refl, true, some, List, [], ◌∷◌, ◌++◌, arith, length, ==_refl,
}
use lateral_root.Crc.{calculate_crc8, calculate_crc16, crc8_init, crc16_init}
use lateral_root.Serial.{
  DjiSerial, SerialLine, serial_header_search, verify_crc16, bytes_to_read, write_at, uint16,
  move_crc16, read_header, header_complete, read_data, data_complete, serial_header,
  unchecked_message, serial_message,
}

-- The parts in which the receiver reads a message, after the head byte.
abbrev pub header_rest : ℕ → ℕ → List ℕ
header_rest seq n =
    (n % 256)
    ∷ (n / 256)
    ∷ seq
    ∷ calculate_crc8 (some (0xA5 ∷ (n % 256) ∷ (n / 256) ∷ seq ∷ [])) crc8_init
    ∷ []

abbrev pub checksum : ℕ → ℕ → List ℕ → ℕ
checksum seq message_type contents =
    calculate_crc16 (some (unchecked_message seq message_type contents)) crc16_init

abbrev pub body : ℕ → ℕ → List ℕ → List ℕ
body seq message_type contents =
    let crc16 = checksum seq message_type contents in
    (message_type % 256) ∷ (message_type / 256) ∷ (contents ++ (crc16 % 256) ∷ (crc16 / 256) ∷ [])

pub serial_header_lem : (seq n : ℕ) → serial_header seq n ≡ 0xA5 ∷ header_rest seq n
unfolding serial_header
serial_header_lem seq n = refl

pub parts :
    (seq message_type : ℕ) (contents tail : List ℕ)
    → serial_message seq message_type contents ++ tail
      ≡ 0xA5
        ∷ (header_rest seq (uint16 (length contents)) ++ (body seq message_type contents ++ tail))
unfolding serial_message unchecked_message serial_header
parts seq message_type contents tail = simp (append_assoc)

module _ {W : Type 0} (line : SerialLine W) where
  pub read_header_lem :
      (s : DjiSerial) (w : W) (h : List ℕ)
      → (line.read 4 w).0 ≡ h
      → length h ≡ 4
      → read_header line (record s { frame_curr_read_byte = 0 }) w ≡ (
        header_complete
            (record s { new_message = write_at 1 h s.new_message; frame_curr_read_byte = 0 }),
        (line.read 4 w).1,
      )
  unfolding read_header
  read_header_lem s w h e l = rw (e, l)

  pub data_complete_lem :
      (s : DjiSerial) (w : W)
      → s.rx_crc_enabled ≡ true
      → verify_crc16 (move_crc16 s.new_message) ≡ true
      → data_complete line s w ≡ (
        record s {
          new_message = move_crc16 s.new_message;
          most_recent_message = move_crc16 s.new_message;
          rx_state = serial_header_search;
        },
        line.message_receive_callback (move_crc16 s.new_message) w,
      )
  unfolding data_complete
  data_complete_lem s w on ok = ground (arith, on, ok)

  pub read_data_lem :
      (s : DjiSerial) (w : W) (bytes : List ℕ)
      → (line.read (bytes_to_read s) w).0 ≡ bytes
      → length bytes ≡ bytes_to_read s
      → bytes_to_read s < 65536
      → read_data line (record s { frame_curr_read_byte = 0 }) w
        ≡ data_complete line
            (record s {
              new_message = write_at 5 bytes s.new_message;
              frame_curr_read_byte = bytes_to_read s;
            })
            (line.read (bytes_to_read s) w).1
  unfolding read_data
  read_data_lem s w bytes e l p =
      let z : bytes_to_read s - 0 ≡ bytes_to_read s = omega arith in
      let count : uint16 (0 + bytes_to_read s) ≡ bytes_to_read s = omega arith in
      rw (z, e, l, count, ==_refl (bytes_to_read s))
