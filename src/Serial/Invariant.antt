-- ===== src/Serial/Invariant.antt =====
-- What holds of a DJISerial between calls of updateSerial.
use lateral_root.Prelude.{
  ℕ, zero, suc, ◌+◌, ◌-◌, ◌≤◌, ◌<◌, ◌≡◌, ◌⊎◌, inl, inr, refl, sym, ap, subst, ◌∙◌, Bool, true,
  false, not, ◌&&◌, some, List, [], ◌∷◌, arith, length, length-set, set, take, replicate, leb, ◌==◌,
  Bool-cases, List-cases,
}
use mathlib.Core.Option.{some-injective}
use lateral_root.Serial.{
  DjiSerial, SerialLine, RxState, serial_header_search, process_frame_header, process_frame_data,
  sizeof_message, data_length, verify_crc8, verify_crc16, bytes_to_read, write_at, move_crc16,
  uint16, construct_dji_serial, header_complete, search_header, read_header, data_complete,
}
use lateral_root.Serial.Buffer.{
  length-write_at, take-write_at_before, data_length-same, verify_crc8-same,
}

-- A message that may be passed on: its length is allowed and, if checksums are enforced, they are right.
pub record IsMessage (enforced : Bool) (message : List ℕ) : Type 0 where
  pub whole : length message ≡ sizeof_message
  pub allowed : data_length message < 1024
  pub header_right : enforced ≡ true → verify_crc8 message ≡ true
  pub all_right : enforced ≡ true → verify_crc16 message ≡ true

-- What a state of the receiver asks of the other members.
abbrev pub Fits : RxState → DjiSerial → Type 0
Fits serial_header_search s = Unit {0}
Fits process_frame_header s = s.frame_curr_read_byte < 4
Fits process_frame_data s =
    (s.frame_curr_read_byte < bytes_to_read s)
    × (data_length s.new_message < 1024)
    × (s.rx_crc_enabled ≡ true → verify_crc8 s.new_message ≡ true)

pub record IsReceiving (s : DjiSerial) : Type 0 where
  pub sized : length s.new_message ≡ sizeof_message
  pub fits : Fits s.rx_state s
  pub received :
      (s.most_recent_message ≡ replicate sizeof_message 0)
      ⊎ IsMessage s.rx_crc_enabled s.most_recent_message

pub construct-IsReceiving : (b : Bool) → IsReceiving (construct_dji_serial b)
construct-IsReceiving b = record { sized = refl; fits = tt; received = inl refl }

pub header_complete-IsReceiving :
    (s : DjiSerial)
    → s.frame_curr_read_byte ≡ 0
    → length s.new_message ≡ sizeof_message
    → (s.most_recent_message ≡ replicate sizeof_message 0)
      ⊎ IsMessage s.rx_crc_enabled s.most_recent_message
    → IsReceiving (header_complete s)
unfolding header_complete
header_complete-IsReceiving s z sized received =
    elim (Bool-cases (s.rx_crc_enabled && not (verify_crc8 s.new_message))) [
      | inl e ↦ rw (e) (record { sized = sized; fits = tt; received = received })
      | inr e ↦ elim (Bool-cases (leb 1024 (data_length s.new_message))) [
        | inl l ↦ rw (e, l) (record { sized = sized; fits = tt; received = received })
        | inr l ↦
            rw (e, l)
              (record {
                sized = sized;
                fits = (omega (arith, z), ground arith, λ on. ground arith);
                received = received;
              })
      ]
    ]

pub pair_left :
    {W : Type 0} {s t : DjiSerial} {w v : W} → ◌≡◌ {A = DjiSerial × W} (s, w) (t, v) → s ≡ t
pair_left e = ap (λ p. p.0) e

-- Moving the checksum leaves the header as it is.
pub move_crc16-header : (m : List ℕ) → take 5 (move_crc16 m) ≡ take 5 m
unfolding move_crc16
move_crc16-header m = take-write_at_before 5 1031 _ m (omega arith)

-- One round of the search for a head byte.
module _ {W : Type 0} (line : SerialLine W) (fuel : ℕ) (s : DjiSerial) (w : W) where
  abbrev pub with_head : ℕ → DjiSerial
  with_head b = record s { new_message = set s.new_message 0 b }

  abbrev pub head_found : ℕ → DjiSerial
  head_found b = record (with_head b) { rx_state = process_frame_header; frame_curr_read_byte = 0 }

  pub search_header-empty :
      (line.read 1 w).0 ≡ [] → search_header line (suc fuel) s w ≡ some (s, (line.read 1 w).1)
  unfolding search_header
  search_header-empty q = rw (q, search_header)

  pub search_header-found :
      (b : ℕ) (more : List ℕ)
      → (line.read 1 w).0 ≡ b ∷ more
      → (b == 0xA5) ≡ true
      → search_header line (suc fuel) s w ≡ some (head_found b, (line.read 1 w).1)
  unfolding search_header
  search_header-found b more q h = rw (q, h, search_header)

  pub search_header-skip :
      (b : ℕ) (more : List ℕ)
      → (line.read 1 w).0 ≡ b ∷ more
      → (b == 0xA5) ≡ false
      → search_header line (suc fuel) s w ≡ search_header line fuel (with_head b) (line.read 1 w).1
  unfolding search_header
  search_header-skip b more q h = rw (q, h, search_header)

module _ {W : Type 0} (line : SerialLine W)
    (reads : (n : ℕ) (w : W) → length (line.read n w).0 ≤ n) where
  pub search_header-IsReceiving :
      (fuel : ℕ) (s t : DjiSerial) (w v : W)
      → IsReceiving s
      → s.rx_state ≡ serial_header_search
      → search_header line fuel s w ≡ some (t, v)
      → IsReceiving t
  unfolding search_header
  search_header-IsReceiving zero s t w v i st e = cc
  search_header-IsReceiving (suc fuel) s t w v i st e = elim (List-cases (line.read 1 w).0) [
    | inl q ↦
        let p : s ≡ t =
          pair_left (some-injective _ _ (sym (search_header-empty line fuel s w q) ∙ e)) in
        subst IsReceiving p i
    | inr (b, more, q) ↦
        let s' : DjiSerial = record s { new_message = set s.new_message 0 b } in
        elim (Bool-cases (b == 0xA5)) [
          | inl h ↦
              let p : record s' { rx_state = process_frame_header; frame_curr_read_byte = 0 } ≡ t =
                pair_left
                  (some-injective _ _ (sym (search_header-found line fuel s w b more q h) ∙ e)) in
              subst IsReceiving p (record {
                sized = length-set s.new_message 0 b ∙ i.sized;
                fits = omega arith;
                received = i.received;
              })
          | inr h ↦
              search_header-IsReceiving fuel s' t (line.read 1 w).1 v
                (record {
                  sized = length-set s.new_message 0 b ∙ i.sized;
                  fits = subst (λ r. Fits r s') (sym st) tt;
                  received = i.received;
                })
                st (sym (search_header-skip line fuel s w b more q h) ∙ e)
        ]
  ]

  pub read_header-IsReceiving :
      (s : DjiSerial) (w : W)
      → IsReceiving s
      → s.rx_state ≡ process_frame_header
      → IsReceiving (read_header line s w).0
  unfolding read_header
  read_header-IsReceiving s w i st =
      let n = 4 - s.frame_curr_read_byte in
      let r : ℕ = length (line.read (5 - s.frame_curr_read_byte - 1) w).0 in
      let early : s.frame_curr_read_byte < 4 = subst (λ q. Fits q s) st i.fits in
      let most : r ≤ 5 - s.frame_curr_read_byte - 1 = reads (5 - s.frame_curr_read_byte - 1) w in
      let sized =
        length-write_at (s.frame_curr_read_byte + 1)
          (line.read (5 - s.frame_curr_read_byte - 1) w).0 s.new_message
        ∙ i.sized in
      elim (Bool-cases (uint16 (s.frame_curr_read_byte + r) == 4)) [
        | inl e ↦ rw (e) (header_complete-IsReceiving _ refl sized i.received)
        | inr e ↦ rw (e) (record {
          sized = sized;
          fits =
              subst
                (λ q. Fits q (record s {
                  new_message =
                      write_at (s.frame_curr_read_byte + 1)
                        (line.read (5 - s.frame_curr_read_byte - 1) w).0 s.new_message;
                  frame_curr_read_byte = uint16 (s.frame_curr_read_byte + r);
                }))
                (sym st) (ground arith);
          received = i.received;
        })
      ]

  pub data_complete-IsReceiving :
      (s : DjiSerial) (w : W)
      → length s.new_message ≡ sizeof_message
      → data_length s.new_message < 1024
      → (s.rx_crc_enabled ≡ true → verify_crc8 s.new_message ≡ true)
      → (s.most_recent_message ≡ replicate sizeof_message 0)
        ⊎ IsMessage s.rx_crc_enabled s.most_recent_message
      → IsReceiving (data_complete line s w).0
  unfolding data_complete move_crc16
  data_complete-IsReceiving s w sized short right received = elim (Bool-cases s.rx_crc_enabled) [
    | inl on ↦
        let e = move_crc16-header s.new_message in
        let len = length-write_at 1031 _ s.new_message in
        elim (Bool-cases (verify_crc16 (move_crc16 s.new_message))) [
          | inl ok ↦
              rw (on, ok)
                (record {
                  sized = len ∙ sized;
                  fits = tt;
                  received = inr (record {
                    whole = len ∙ sized;
                    allowed = omega (arith, data_length-same _ s.new_message e);
                    header_right = λ h. verify_crc8-same _ s.new_message e ∙ right on;
                    all_right = λ h. ok;
                  });
                })
          | inr bad ↦
              rw (on, bad)
                (record { sized = len ∙ sized; fits = tt; received = rw (on) at received })
        ]
    | inr off ↦ rw (off) (record {
      sized = sized;
      fits = tt;
      received =
          inr (record {
            whole = sized;
            allowed = short;
            header_right = λ h. cc;
            all_right = λ h. cc;
          });
    })
  ]
