-- ===== src/Remote/Read.antt =====
-- What Remote::read makes of a packet that has arrived whole.
use lateral_root.Prelude.{
  ℕ, zero, suc, ◌+◌, ◌-◌, ◌%◌, ◌^◌, ◌≤◌, ◌<◌, ◌≡◌, refl, sym, ap, ◌∙◌, true, false, none, some,
  List, [], ◌∷◌, ◌++◌, arith, length, take, drop, set, replicate, ltb, leb, if◌then◌else◌,
}
use lateral_root.Serial.{write_at}
use lateral_root.Serial.Buffer.{length-write_at, take-write_at}
use lateral_root.Remote.{
  RemoteInfo, Remote, RemotePort, elapsed, parsed_info, has_invalid_values, invalid_joystick_values,
  parse_buffer, clear_rx_buffer, read_bytes, check_disconnect, check_read_timeout, parse_if_full,
  read,
}
use lateral_root.Remote.Packet.{Sent, IsSent, packet, info_of, parsed_info-packet}

-- The UART as a queue of bytes, and a clock that does not move on during the call.
pub record IsPort {W : Type 0} (port : RemotePort W) (pending : W → List ℕ) (now : ℕ) : Type 0 where
  pub reads_empty : (w : W) → pending w ≡ [] → (port.read_byte w).0 ≡ none
  pub reads_first :
      (w : W) (b : ℕ) (bs : List ℕ) → pending w ≡ b ∷ bs → (port.read_byte w).0 ≡ some b
  pub keeps_rest : (w : W) → pending (port.read_byte w).1 ≡ drop 1 (pending w)
  pub same_time : (w : W) → (port.get_time_milliseconds w).0 ≡ now
  pub no_bytes : (w : W) → pending (port.get_time_milliseconds w).1 ≡ pending w

take_all : (k : ℕ) (l : List ℕ) → length l ≡ k → take k l ≡ l
take_all zero [] e = refl
take_all zero (x ∷ l) e = absurd (omega (arith, e))
take_all (suc k) [] e = refl
take_all (suc k) (x ∷ l) e = ap (λ t. x ∷ t) (take_all k l (omega (arith, e)))

-- A buffer that is overwritten from end to end.
overwritten : (bs buffer : List ℕ) → length bs ≡ length buffer → write_at 0 bs buffer ≡ bs
overwritten bs buffer e =
    sym (
      take_all (0 + length bs) (write_at 0 bs buffer)
        (omega (arith, length-write_at 0 bs buffer, e)))
    ∙ take-write_at 0 bs buffer (omega (arith, e))

abbrev with_byte : ℕ → Remote → Remote
with_byte b r = record r {
  rx_buffer = set r.rx_buffer r.current_buffer_index b;
  current_buffer_index = r.current_buffer_index + 1;
}

read_bytes-some :
    {W : Type 0} (port : RemotePort W) (left b : ℕ) (r : Remote) (w : W)
    → (port.read_byte w).0 ≡ some b
    → let (now, w2) = port.get_time_milliseconds (port.read_byte w).1 in
      read_bytes port (suc left) r w
      ≡ read_bytes port left (record (with_byte b r) { last_read = now }) w2
unfolding read_bytes
read_bytes-some port left b r w e = rw (e, read_bytes)

-- The parts of `read`, one after the other.
module _ {W : Type 0} (port : RemotePort W) where
  abbrev pub next_time : W → W
  next_time w = (port.get_time_milliseconds w).1

  pub check_disconnect_soon :
      (r : Remote) (w : W) (now : ℕ)
      → (port.get_time_milliseconds w).0 ≡ now
      → elapsed now r.last_read ≤ 100
      → check_disconnect port r w ≡ (r, next_time w)
  unfolding check_disconnect
  check_disconnect_soon r w now e h =
      let t : ltb 100 (elapsed now r.last_read) ≡ false = ground arith in rw (e, t)

  pub check_read_timeout_soon :
      (r : Remote) (w : W) (now : ℕ)
      → (port.get_time_milliseconds w).0 ≡ now
      → elapsed now r.last_read ≤ 6
      → check_read_timeout port r w ≡ (r, next_time w)
  unfolding check_read_timeout
  check_read_timeout_soon r w now e h =
      let t : ltb 6 (elapsed now r.last_read) ≡ false = ground arith in rw (e, t)

  abbrev pub parsed_with : RemoteInfo → Remote → Remote
  parsed_with info r = record r {
    remote = record info { update_counter = (info.update_counter + 1) % 2 ^ 32 };
    connected = true;
    rx_buffer = replicate 18 0;
    current_buffer_index = 0;
    errors = if has_invalid_values info then r.errors ++ invalid_joystick_values ∷ [] else r.errors;
  }

  parse_if_full_lem :
      (r : Remote) (w : W) (info : RemoteInfo)
      → 18 ≤ r.current_buffer_index
      → parsed_info r.rx_buffer r.remote ≡ info
      → parse_if_full port r w ≡ (
        parsed_with info r,
        port.discard_receive_buffer (
            port.handle_key_state_change info.key info.left_switch_state info.right_switch_state
              info.mouse_l info.mouse_r w),
      )
  unfolding parse_if_full parse_buffer clear_rx_buffer
  parse_if_full_lem r w info h e =
      let t : leb 18 r.current_buffer_index ≡ true = ground arith in
      rw (t) (
        ap
          (λ i. (
            parsed_with i r,
            port.discard_receive_buffer (
                port.handle_key_state_change i.key i.left_switch_state i.right_switch_state
                  i.mouse_l i.mouse_r w),
          ))
          e)

  pub read-stages :
      (r r1 r2 r3 : Remote) (w w1 w2 w3 : W)
      → check_disconnect port r w ≡ (r1, w1)
      → read_bytes port (18 - r1.current_buffer_index) r1 w1 ≡ (r2, w2)
      → check_read_timeout port r2 w2 ≡ (r3, w3)
      → read port r w ≡ parse_if_full port r3 w3
  unfolding read
  read-stages r r1 r2 r3 w w1 w2 w3 e f g = rw (e) (rw (f) (rw (g)))

module _ {W : Type 0} (port : RemotePort W) (pending : W → List ℕ) (now : ℕ)
    (q : IsPort port pending now) where
  abbrev filled : List ℕ → Remote → Remote
  filled [] r = r
  filled (b ∷ bs) r = record r {
    rx_buffer = write_at r.current_buffer_index (b ∷ bs) r.rx_buffer;
    current_buffer_index = r.current_buffer_index + length (b ∷ bs);
    last_read = now;
  }

  filled_cons :
      (b : ℕ) (bs : List ℕ) (r : Remote)
      → filled bs (record r {
        rx_buffer = set r.rx_buffer r.current_buffer_index b;
        current_buffer_index = r.current_buffer_index + 1;
        last_read = now;
      })
        ≡ filled (b ∷ bs) r
  unfolding write_at
  filled_cons b [] r = ground arith
  filled_cons b (c ∷ bs) r = ground arith

  -- The loop takes as many bytes as there are places.
  read_bytes_lem :
      (bs rest : List ℕ) (r : Remote) (w : W)
      → pending w ≡ bs ++ rest
      → (w' : W) × (read_bytes port (length bs) r w ≡ (filled bs r, w'))
  unfolding read_bytes
  read_bytes_lem [] rest r w p = ((port.read_byte w).1, refl)
  read_bytes_lem (b ∷ bs) rest r w p =
      let e : (port.read_byte w).0 ≡ some b = q.reads_first w b (bs ++ rest) p in
      let w1 : W = (port.read_byte w).1 in
      let w2 : W = (port.get_time_milliseconds w1).1 in
      let r' : Remote = record r {
        rx_buffer = set r.rx_buffer r.current_buffer_index b;
        current_buffer_index = r.current_buffer_index + 1;
        last_read = now;
      } in
      let (w', h) = read_bytes_lem bs rest r' w2 (q.no_bytes w1 ∙ q.keeps_rest w ∙ ap (drop 1) p) in
      (
        w',
        read_bytes-some port (length bs) b r w e
            ∙ ap (λ t. read_bytes port (length bs) (record (with_byte b r) { last_read = t }) w2)
                (q.same_time w1)
            ∙ h
            ∙ ap (λ t. (t, w')) (filled_cons b bs r),
      )

  -- A packet that has arrived whole, and is there at most 100 ms after the last byte before it, is taken over:
  -- the information is what the sender put in, the remote counts as connected, the update counter goes up
  -- by one, an error is raised exactly if a stick or the wheel is out of range, the buffer is empty again, and
  -- the command mapper is told the keys, the switches and the mouse buttons of the packet. No packet has
  -- been started before. The UART is a queue, and the clock does not move on during the call.
  pub read-packet :
      (p : Sent) (r : Remote) (w : W) (rest : List ℕ)
      → IsSent p
      → pending w ≡ packet p ++ rest
      → r.current_buffer_index ≡ 0
      → length r.rx_buffer ≡ 18
      → now < 2 ^ 32
      → elapsed now r.last_read ≤ 100
      → let info = info_of p r.remote in
        (w' : W) × (read port r w ≡ (
          record {
            remote = record info { update_counter = (r.remote.update_counter + 1) % 2 ^ 32 };
            connected = true;
            rx_buffer = replicate 18 0;
            last_read = now;
            current_buffer_index = 0;
            errors =
                if has_invalid_values info
                then r.errors ++ invalid_joystick_values ∷ []
                else r.errors;
          },
          port.discard_receive_buffer
              (port.handle_key_state_change p.keys p.left_sw p.right_sw p.button_l p.button_r w'),
        ))
  read-packet p r w rest s e z l small soon =
      let w1 : W = next_time port w in
      let (w2, f) = read_bytes_lem (packet p) rest r w1 (q.no_bytes w ∙ e) in
      let places : 18 - r.current_buffer_index ≡ 18 = omega (arith, z) in
      let buffer : write_at r.current_buffer_index (packet p) r.rx_buffer ≡ packet p =
        ap (λ i. write_at i (packet p) r.rx_buffer) z
        ∙ overwritten (packet p) r.rx_buffer (omega (arith, l)) in
      let same : elapsed now now ≤ 6 = omega arith in
      (
        next_time port w2,
        read-stages port r r (filled (packet p) r) (filled (packet p) r) w w1 w2 (next_time port w2)
              (check_disconnect_soon port r w now (q.same_time w) soon)
              (ap (λ k. read_bytes port k r w1) places ∙ f)
              (check_read_timeout_soon port (filled (packet p) r) w2 now (q.same_time w2) same)
            ∙ parse_if_full_lem port (filled (packet p) r) (next_time port w2) (info_of p r.remote)
                (omega arith)
                (ap (λ b. parsed_info b r.remote) buffer ∙ parsed_info-packet p s r.remote),
      )
