-- ===== src/Serial/Receive.antt =====
-- A message that is built by the constructor of SerialMessage and setCRC16 is received by updateSerial.
use lateral_root.Prelude.{
  ℕ, zero, suc, ◌<◌, ◌≡◌, ◌≢◌, refl, ap, ◌∙◌, false, some, List, [], ◌∷◌, ◌++◌, arith, length, set,
  take, drop, ◌==◌,
}
use lateral_root.Serial.{DjiSerial, SerialLine, process_frame_header, search_header}
use lateral_root.Serial.Invariant.{search_header-found, search_header-skip, with_head}

-- The UART as a queue of the bytes that have arrived and not been read.
pub record IsQueue {W : Type 0} (line : SerialLine W) (pending : W → List ℕ) : Type 0 where
  pub read_takes : (n : ℕ) (w : W) → (line.read n w).0 ≡ take n (pending w)
  pub read_drops : (n : ℕ) (w : W) → pending (line.read n w).1 ≡ drop n (pending w)

abbrev pub HasNoHead : List ℕ → Type 0
HasNoHead [] = Unit {0}
HasNoHead (b ∷ bytes) = (b ≢ 0xA5) × HasNoHead bytes

set_twice : (m : List ℕ) (a b : ℕ) → set (set m 0 a) 0 b ≡ set m 0 b
set_twice [] a b = refl
set_twice (x ∷ m) a b = refl

module _ {W : Type 0} (line : SerialLine W) (pending : W → List ℕ) (q : IsQueue line pending) where
  -- The search skips what is in front of the head byte.
  pub search_header_lem :
      (garbage rest : List ℕ) (fuel : ℕ) (s : DjiSerial) (w : W)
      → HasNoHead garbage
      → pending w ≡ garbage ++ 0xA5 ∷ rest
      → length garbage < fuel
      → (v : W) × (search_header line fuel s w
          ≡ some (
            record s {
              new_message = set s.new_message 0 0xA5;
              rx_state = process_frame_header;
              frame_curr_read_byte = 0;
            },
            v,
          ))
        × (pending v ≡ rest)
  search_header_lem garbage rest zero s w g p f = absurd (omega arith)
  search_header_lem [] rest (suc fuel) s w g p f =
      let e : (line.read 1 w).0 ≡ 0xA5 ∷ [] = q.read_takes 1 w ∙ ap (take 1) p in
      (
        (line.read 1 w).1,
        search_header-found line fuel s w 0xA5 [] e refl,
        q.read_drops 1 w ∙ ap (drop 1) p,
      )
  search_header_lem (b ∷ garbage) rest (suc fuel) s w (g, gs) p f =
      let e : (line.read 1 w).0 ≡ b ∷ [] = q.read_takes 1 w ∙ ap (take 1) p in
      let other : (b == 0xA5) ≡ false = ground arith in
      let (v, found, left) =
        search_header_lem garbage rest fuel (with_head line fuel s w b) (line.read 1 w).1 gs
          (q.read_drops 1 w ∙ ap (drop 1) p) (omega arith) in
      (
        v,
        search_header-skip line fuel s w b [] e other
            ∙ found
            ∙ ap
                (λ m. some (
                  record s {
                    new_message = m;
                    rx_state = process_frame_header;
                    frame_curr_read_byte = 0;
                  },
                  v,
                ))
                (set_twice s.new_message b 0xA5),
        left,
      )
