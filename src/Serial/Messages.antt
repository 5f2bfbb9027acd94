-- ===== src/Serial/Messages.antt =====
-- What the buffer holds while a message comes in.
use mathlib.Core.List.{append_assoc}
use lateral_root.Prelude.{
  ℕ, ◌+◌, ◌/◌, ◌%◌, ◌<◌, ◌≡◌, sym, ap, ◌∙◌, true, some, List, [], ◌∷◌, ◌++◌, arith, length,
  length-append, set, take, ◌==◌, ==_refl, length-set,
}
use lateral_root.Crc.{calculate_crc16, crc16_init}
use lateral_root.Serial.{
  data_length, verify_crc16, message_crc16, write_at, uint16, move_crc16, serial_header,
  unchecked_message, sizeof_message,
}
use lateral_root.Serial.Buffer.{
  length-write_at, take-write_at_before, take-write_at, take-set_self, data_length-same,
}
use lateral_root.Serial.Frames.{data_length_lem, moved_front, moved_crc16}
use lateral_root.Serial.Invariant.{move_crc16-header}
use lateral_root.Serial.Reads.{header_rest, checksum, body, serial_header_lem}

-- The buffer while a message comes in: after the head byte, the header, the rest, and the move of CRC16.
module _ (m : List ℕ) (sized : length m ≡ sizeof_message) (seq message_type : ℕ) (contents : List ℕ)
    (short : length contents < 1024) where
  abbrev pub with_head : List ℕ
  with_head = set m 0 0xA5

  abbrev pub with_header : List ℕ
  with_header = write_at 1 (header_rest seq (uint16 (length contents))) with_head

  abbrev pub with_body : List ℕ
  with_body = write_at 5 (body seq message_type contents) with_header

  pub with_header_lem : take 5 with_header ≡ serial_header seq (uint16 (length contents))
  with_header_lem =
      take-write_at 1 (header_rest seq (uint16 (length contents))) with_head
        (omega (arith, sized, length-set {0} m 0 0xA5))
      ∙ ap (λ l. l ++ header_rest seq (uint16 (length contents)))
          (take-set_self 0 m 0xA5 (omega (arith, sized)))
      ∙ sym (serial_header_lem seq (uint16 (length contents)))

  pub with_header-length : data_length with_header ≡ length contents
  with_header-length =
      data_length_lem with_header seq (uint16 (length contents)) with_header_lem ∙ omega arith

  pub length-body : length (body seq message_type contents) ≡ 4 + length contents
  length-body = omega (
    arith,
    length-append {0} contents (
        (checksum seq message_type contents % 256)
        ∷ (checksum seq message_type contents / 256)
        ∷ []),
  )

  header_sized : length with_header ≡ 1033
  header_sized = length-write_at 1 _ with_head ∙ length-set m 0 0xA5 ∙ sized

  body_header : take 5 with_body ≡ take 5 with_header
  body_header = take-write_at_before 5 5 _ with_header (omega arith)

  with_body-length : data_length with_body ≡ length contents
  with_body-length = data_length-same with_body with_header body_header ∙ with_header-length

  with_body_lem :
      take (9 + data_length with_body) with_body
      ≡ unchecked_message seq message_type contents
        ++ (checksum seq message_type contents % 256)
          ∷ (checksum seq message_type contents / 256)
          ∷ []
  unfolding unchecked_message
  with_body_lem =
      ap (λ k. take k with_body) {y = 5 + length (body seq message_type contents)}
        (omega (arith, with_body-length, length-body))
      ∙ take-write_at 5 (body seq message_type contents) with_header
          (omega (arith, header_sized, length-body))
      ∙ ap (λ l. l ++ body seq message_type contents) with_header_lem
      ∙ sym (append_assoc (serial_header seq (uint16 (length contents))) _ _)

  front_length : length (unchecked_message seq message_type contents) ≡ 7 + data_length with_body
  unfolding unchecked_message serial_header
  front_length = omega (arith, with_body-length)

  body_sized : length with_body ≡ sizeof_message
  body_sized = length-write_at 5 _ with_header ∙ header_sized

  pub moved-length : data_length (move_crc16 with_body) ≡ length contents
  moved-length = data_length-same _ with_body (move_crc16-header with_body) ∙ with_body-length

  pub moved_lem :
      take (7 + length contents) (move_crc16 with_body)
      ≡ unchecked_message seq message_type contents
  moved_lem =
      ap (λ k. take (7 + k) (move_crc16 with_body)) (sym with_body-length)
      ∙ moved_front with_body body_sized _ _ _ front_length (omega (arith, with_body-length, short))
          with_body_lem

  pub moved-verify_crc16 : verify_crc16 (move_crc16 with_body) ≡ true
  moved-verify_crc16 =
      let crc : message_crc16 (move_crc16 with_body) ≡ checksum seq message_type contents =
        moved_crc16 with_body body_sized _ (checksum seq message_type contents % 256)
          (checksum seq message_type contents / 256) front_length
          (omega (arith, with_body-length, short)) with_body_lem
        ∙ omega arith in
      let front : take (7 + data_length (move_crc16 with_body)) (move_crc16 with_body)
          ≡ unchecked_message seq message_type contents =
        ap (λ k. take (7 + k) (move_crc16 with_body)) moved-length ∙ moved_lem in
      ap (λ t. message_crc16 (move_crc16 with_body) == calculate_crc16 (some t) crc16_init) front
      ∙ ap (λ (k : ℕ). k == checksum seq message_type contents) crc
      ∙ ==_refl (checksum seq message_type contents)
