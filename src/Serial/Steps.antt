-- ===== src/Serial/Steps.antt =====
-- Every call of updateSerial keeps what holds of a DJISerial between calls.
use lateral_root.Prelude.{ℕ, ◌+◌, ◌-◌, ◌≤◌, length}
use lateral_root.Serial.{DjiSerial, SerialLine, bytes_to_read, write_at, uint16}

module _ {W : Type 0} (line : SerialLine W)
    (reads : (n : ℕ) (w : W) → length (line.read n w).0 ≤ n) where
  abbrev after : DjiSerial → W → DjiSerial
  after s w =
      let bytes = (line.read (bytes_to_read s - s.frame_curr_read_byte) w).0 in
      record s {
        new_message = write_at (5 + s.frame_curr_read_byte) bytes s.new_message;
        frame_curr_read_byte = uint16 (s.frame_curr_read_byte + length bytes);
      }
