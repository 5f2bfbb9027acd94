-- ===== src/Serial/Delivery.antt =====
-- A message that the constructor of SerialMessage and setCRC16 build arrives whole.
use lateral_root.Prelude.{
  ℕ, zero, suc, ◌+◌, ◌<◌, ◌≡◌, refl, sym, ap, ◌∙◌, true, Option, none, some, List, ◌++◌, arith,
  length, set, take, drop, take-append, drop-append, if◌then◌else◌,
}
use lateral_root.Serial.{
  DjiSerial, SerialLine, serial_header_search, process_frame_header, process_frame_data,
  data_length, bytes_to_read, uint16, move_crc16, update_in, update_serial, unchecked_message,
  serial_message, sizeof_message, search_header,
}
use lateral_root.Serial.Receive.{IsQueue, HasNoHead, search_header_lem}
use lateral_root.Serial.Frames.{header_complete_lem}
use lateral_root.Serial.Messages.{
  with_header, with_body, with_header_lem, with_header-length, length-body, moved_lem,
  moved-verify_crc16,
}
use lateral_root.Serial.Reads.{
  header_rest, body, parts, read_header_lem, data_complete_lem, read_data_lem,
}

-- Calls of updateSerial one after the other.
pub update_times : {W : Type 0} → SerialLine W → ℕ → ℕ → DjiSerial → W → Option (DjiSerial × W)
update_times line zero fuel s w = some (s, w)
update_times line (suc k) fuel s w = elim (update_serial line fuel s w) [
  | none ↦ none
  | some (s', w') ↦ update_times line k fuel s' w'
]

module _ {W : Type 0} (line : SerialLine W) (fuel : ℕ) where
  update_times-suc :
      (k : ℕ) (s s' : DjiSerial) (w w' : W)
      → update_serial line fuel s w ≡ some (s', w')
      → update_times line (suc k) fuel s w ≡ update_times line k fuel s' w'
  unfolding update_times
  update_times-suc k s s' w w' e = rw (e, update_times)

  first_call :
      (s : DjiSerial) (v w : W)
      → search_header line fuel s w
        ≡ some (
          record s {
            new_message = set s.new_message 0 0xA5;
            rx_state = process_frame_header;
            frame_curr_read_byte = 0;
          },
          v,
        )
      → update_in line serial_header_search fuel s w
        ≡ some (
          record s {
            new_message = set s.new_message 0 0xA5;
            rx_state = process_frame_header;
            frame_curr_read_byte = 0;
          },
          v,
        )
  unfolding update_in
  first_call s v w e = e

  module _ (pending : W → List ℕ) (q : IsQueue line pending) (s : DjiSerial) (v : W)
      (sized : length s.new_message ≡ sizeof_message) (on : s.rx_crc_enabled ≡ true)
      (seq message_type : ℕ) (contents : List ℕ) (short : length contents < 1024) where
    abbrev header : List ℕ
    header = with_header s.new_message sized seq message_type contents short

    abbrev whole : List ℕ
    whole = with_body s.new_message sized seq message_type contents short

    -- The three states between the calls.
    abbrev found : DjiSerial
    found = record s {
      new_message = set s.new_message 0 0xA5;
      rx_state = process_frame_header;
      frame_curr_read_byte = 0;
    }

    abbrev accepted : DjiSerial
    accepted = record s {
      new_message = header;
      rx_state = process_frame_data;
      frame_curr_read_byte = 0;
    }

    abbrev complete : DjiSerial
    complete = record s {
      new_message = whole;
      rx_state = process_frame_data;
      frame_curr_read_byte = bytes_to_read accepted;
    }

    second_call :
        (rest : List ℕ)
        → pending v ≡ header_rest seq (uint16 (length contents)) ++ rest
        → (update_serial line fuel found v ≡ some (accepted, (line.read 4 v).1))
          × (pending (line.read 4 v).1 ≡ rest)
    unfolding update_in
    second_call rest p = (
      ap some (
          read_header_lem line found v (header_rest seq (uint16 (length contents)))
            (q.read_takes 4 v ∙ ap (take 4) p) refl
          ∙ ap (λ t. (t, (line.read 4 v).1))
              (header_complete_lem header seq (uint16 (length contents))
                (with_header_lem s.new_message sized seq message_type contents short)
                (record found { new_message = header }) refl (omega arith))),
      q.read_drops 4 v ∙ ap (drop 4) p,
    )

    to_read : bytes_to_read accepted ≡ length (body seq message_type contents)
    to_read =
        ap (λ b. 2 + data_length header + (if b then 2 else 0)) on
        ∙ omega (
          arith,
          with_header-length s.new_message sized seq message_type contents short,
          length-body s.new_message sized seq message_type contents short,
        )

    third_call :
        (rest : List ℕ)
        → pending v ≡ body seq message_type contents ++ rest
        → let u = (line.read (bytes_to_read accepted) v).1 in
          (update_serial line fuel accepted v
            ≡ some (
              record complete {
                new_message = move_crc16 whole;
                most_recent_message = move_crc16 whole;
                rx_state = serial_header_search;
              },
              line.message_receive_callback (move_crc16 whole) u,
            ))
          × (pending u ≡ rest)
    unfolding update_in
    third_call rest p = (
      ap some (
          read_data_lem line accepted v (body seq message_type contents)
            (q.read_takes (bytes_to_read accepted) v
              ∙ ap (take (bytes_to_read accepted)) p
              ∙ take-append (bytes_to_read accepted) (body seq message_type contents) rest
                  (sym to_read))
            (sym to_read)
            (omega
              (arith, to_read, length-body s.new_message sized seq message_type contents short))
          ∙ data_complete_lem line complete _ on
              (moved-verify_crc16 s.new_message sized seq message_type contents short)),
      q.read_drops (bytes_to_read accepted) v
          ∙ ap (drop (bytes_to_read accepted)) p
          ∙ drop-append (bytes_to_read accepted) (body seq message_type contents) rest
              (sym to_read),
    )

  -- Whatever bytes other than the head byte 0xA5 come first, three calls of updateSerial receive a message that
  -- SerialMessage's constructor and setCRC16 have built from at most 1023 bytes of data, if the receiver is
  -- searching for a header, checks the checksums and has enough fuel to skip those bytes: the callback is called
  -- once, with a message that begins with the header, the type and the data that were sent; the receiver
  -- searches again, has raised no error, and has read no byte after the message. The UART is a queue.
  pub update_serial-receives :
      (pending : W → List ℕ)
      → IsQueue line pending
      → (s : DjiSerial) (w : W) (garbage rest : List ℕ) (seq message_type : ℕ) (contents : List ℕ)
      → length s.new_message ≡ sizeof_message
      → s.rx_state ≡ serial_header_search
      → s.rx_crc_enabled ≡ true
      → length contents < 1024
      → HasNoHead garbage
      → length garbage < fuel
      → pending w ≡ garbage ++ (serial_message seq message_type contents ++ rest)
      → (t : DjiSerial) × (u : W) × (update_times line 3 fuel s w
          ≡ some (t, line.message_receive_callback t.most_recent_message u))
        × (take (7 + length contents) t.most_recent_message
            ≡ unchecked_message seq message_type contents)
        × (t.rx_state ≡ serial_header_search)
        × (t.errors ≡ s.errors)
        × (pending u ≡ rest)
  unfolding update_times
  update_serial-receives pending q s w garbage rest seq message_type contents sized st on short g f
        p =
      let (v, e, left) =
        search_header_lem line pending q garbage
          (header_rest seq (uint16 (length contents)) ++ (body seq message_type contents ++ rest))
          fuel s w g (p ∙ ap (λ l. garbage ++ l) (parts seq message_type contents rest)) f in
      let (e2, left2) =
        second_call pending q s v sized on seq message_type contents short
          (body seq message_type contents ++ rest) left in
      let (e3, left3) =
        third_call pending q s (line.read 4 v).1 sized on seq message_type contents short rest
          left2 in
      (
        _,
        _,
        update_times-suc 2 s _ w v (ap (λ r. update_in line r fuel s w) st ∙ first_call s v w e)
            ∙ update_times-suc 1 _ _ v _ e2
            ∙ update_times-suc 0 _ _ (line.read 4 v).1 _ e3,
        moved_lem s.new_message sized seq message_type contents short,
        refl,
        refl,
        left3,
      )
