-- ===== src/Serial/Frames.antt =====
-- What the header and the checksum of a message that setCRC16 has finished say to the receiver.
use lateral_root.Prelude.{
  ℕ, ◌+◌, ◌*◌, ◌<◌, ◌≡◌, sym, ap, ◌∙◌, true, false, some, List, [], ◌∷◌, ◌++◌, arith, length,
  get_or, take, take-append, leb, ==_refl,
}
use lateral_root.Crc.{calculate_crc8, crc8_init}
use lateral_root.Serial.{
  DjiSerial, process_frame_data, data_length, verify_crc8, message_crc16, write_at, move_crc16,
  header_complete, serial_header, sizeof_message,
}
use lateral_root.Serial.Buffer.{
  take-write_at_before, take-write_at, take-take, length-take, get_or-append, get_or-take,
}

-- A message that has a header of a given length in front.
module _ (m : List ℕ) (seq n : ℕ) (e : take 5 m ≡ serial_header seq n) where
  header_byte : (j : ℕ) → j < 5 → get_or m j 0 ≡ get_or (serial_header seq n) j 0
  header_byte j h = sym (get_or-take 5 j m h) ∙ ap (λ l. get_or l j 0) e

  pub data_length_lem : data_length m ≡ n
  unfolding serial_header
  data_length_lem = omega (arith, header_byte 1 (omega arith), header_byte 2 (omega arith))

  pub verify_crc8_lem : verify_crc8 m ≡ true
  unfolding serial_header
  verify_crc8_lem =
      let crc : get_or m 4 0 ≡ calculate_crc8 (some (take 4 m)) crc8_init =
        header_byte 4 (omega arith)
        ∙ ap (λ t. calculate_crc8 (some t) crc8_init)
            (sym (ap (take 4) e) ∙ take-take 4 5 m (omega arith)) in
      rw (crc) (==_refl (calculate_crc8 (some (take 4 m)) crc8_init))

  pub header_complete_lem :
      (s : DjiSerial)
      → s.new_message ≡ m
      → n < 1024
      → header_complete s ≡ record s { rx_state = process_frame_data }
  unfolding header_complete
  header_complete_lem s p h =
      let right : verify_crc8 s.new_message ≡ true = ap verify_crc8 p ∙ verify_crc8_lem in
      let len : data_length s.new_message ≡ n = ap data_length p ∙ data_length_lem in
      let small : leb 1024 (data_length s.new_message) ≡ false = ground arith in
      ground (arith, right, small)

-- The message `m` with the bytes of the type, the data and the checksum behind the header.
module _ (m : List ℕ) (sized : length m ≡ sizeof_message) (front : List ℕ) (lo hi : ℕ)
    (count : length front ≡ 7 + data_length m) (short : data_length m < 1024)
    (e : take (9 + data_length m) m ≡ front ++ lo ∷ hi ∷ []) where
  pub moved_front : take (7 + data_length m) (move_crc16 m) ≡ front
  unfolding move_crc16
  moved_front =
      take-write_at_before (7 + data_length m) 1031 _ m (omega arith)
      ∙ sym (take-take (7 + data_length m) (9 + data_length m) m (omega arith))
      ∙ ap (take (7 + data_length m)) e
      ∙ take-append (7 + data_length m) front _ count

  checksum_byte : (j : ℕ) → j < 2 → get_or m (7 + data_length m + j) 0 ≡ get_or (lo ∷ hi ∷ []) j 0
  checksum_byte j h =
      sym (get_or-take (9 + data_length m) (7 + data_length m + j) m (omega arith))
      ∙ ap (λ l. get_or l (7 + data_length m + j) 0) e
      ∙ get_or-append front (lo ∷ hi ∷ []) (7 + data_length m + j) j (omega (arith, count))

  moved_byte :
      (j : ℕ) (x y : ℕ)
      → j < 2
      → get_or (write_at 1031 (x ∷ y ∷ []) m) (1031 + j) 0 ≡ get_or (x ∷ y ∷ []) j 0
  moved_byte j x y h =
      sym (get_or-take 1033 (1031 + j) (write_at 1031 (x ∷ y ∷ []) m) (omega arith))
      ∙ ap (λ l. get_or l (1031 + j) 0) (take-write_at 1031 (x ∷ y ∷ []) m (omega (arith, sized)))
      ∙ get_or-append (take 1031 m) (x ∷ y ∷ []) (1031 + j) j
          (omega (arith, length-take 1031 m (omega (arith, sized))))

  pub moved_crc16 : message_crc16 (move_crc16 m) ≡ lo + 256 * hi
  unfolding move_crc16
  moved_crc16 =
      let x : ℕ = get_or m (7 + data_length m) 0 in
      let y : ℕ = get_or m (8 + data_length m) 0 in
      let low : x ≡ lo = ap (λ k. get_or m k 0) (omega arith) ∙ checksum_byte 0 (omega arith) in
      let high : y ≡ hi = ap (λ k. get_or m k 0) (omega arith) ∙ checksum_byte 1 (omega arith) in
      omega (arith, low, high, moved_byte 0 x y (omega arith), moved_byte 1 x y (omega arith))
