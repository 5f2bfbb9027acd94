-- ===== src/Remote/Silence.antt =====
-- What Remote::read does when no byte arrives.
use lateral_root.Prelude.{
  ℕ, zero, suc, ◌-◌, ◌≤◌, ◌<◌, ◌≡◌, refl, ◌∙◌, true, false, none, arith, replicate, ltb, leb,
  if◌then◌else◌, Bool-cases, inl, inr,
}
use lateral_root.RemoteMapState.{unknown}
use lateral_root.Remote.{
  Remote, RemotePort, elapsed, empty_info, clear_rx_buffer, reset, read_bytes, check_disconnect,
  check_read_timeout, parse_if_full, read,
}
use lateral_root.Remote.Read.{
  next_time, read-stages, check_disconnect_soon, check_read_timeout_soon,
}

-- The UART has no byte, and the clock does not move on during the call.
pub record IsSilent {W : Type 0} (port : RemotePort W) (now : ℕ) : Type 0 where
  pub no_byte : (w : W) → (port.read_byte w).0 ≡ none
  pub same_time : (w : W) → (port.get_time_milliseconds w).0 ≡ now

abbrev pub emptied : Remote → Remote
emptied r = record r { current_buffer_index = 0; rx_buffer = replicate 18 0 }

abbrev pub disconnected : Remote → Remote
disconnected r = record (emptied r) {
  connected = false;
  remote = record empty_info { update_counter = r.remote.update_counter };
}

module _ {W : Type 0} (port : RemotePort W) (now : ℕ) (q : IsSilent port now) where
  abbrev pub after_read : W → W
  after_read w = (port.read_byte w).1

  -- What is left when the remote is found to be gone: nothing is pressed any more.
  abbrev pub released : W → W
  released w =
      port.handle_key_state_change 0 unknown unknown false false
        (port.discard_receive_buffer (next_time port w))

  read_bytes_silent : (left : ℕ) (r : Remote) (w : W) → read_bytes port left r w ≡ (r, after_read w)
  unfolding read_bytes
  read_bytes_silent zero r w = refl
  read_bytes_silent (suc left) r w = rw (q.no_byte w, read_bytes)

  parse_not_full :
      (r : Remote) (w : W) → r.current_buffer_index < 18 → parse_if_full port r w ≡ (r, w)
  unfolding parse_if_full
  parse_not_full r w h = let t : leb 18 r.current_buffer_index ≡ false = ground arith in rw (t)

  check_read_timeout_late :
      (r : Remote) (w : W)
      → 6 < elapsed now r.last_read
      → check_read_timeout port r w ≡ (emptied r, port.discard_receive_buffer (next_time port w))
  unfolding check_read_timeout clear_rx_buffer
  check_read_timeout_late r w h =
      let t : ltb 6 (elapsed now r.last_read) ≡ true = ground arith in rw (q.same_time w, t)

  check_disconnect_late :
      (r : Remote) (w : W)
      → 100 < elapsed now r.last_read
      → check_disconnect port r w ≡ (disconnected r, released w)
  unfolding check_disconnect reset clear_rx_buffer
  check_disconnect_late r w h =
      let t : ltb 100 (elapsed now r.last_read) ≡ true = ground arith in rw (q.same_time w, t)

  -- If no byte arrives, `read` resets the remote exactly if the last byte came more than 100 ms ago: it counts
  -- as disconnected, the information is cleared except for the update counter, the bytes of a packet that
  -- was begun are dropped, and the command mapper is told that nothing is pressed. Between 6 and 100 ms
  -- only the bytes are dropped, and up to 6 ms nothing changes. The buffer is not full before.
  pub read-silent :
      (r : Remote) (w : W)
      → r.current_buffer_index < 18
      → read port r w ≡ (
          if ltb 100 (elapsed now r.last_read)
          then (
            disconnected r,
            port.discard_receive_buffer (next_time port (after_read (released w))),
          )
          else if ltb 6 (elapsed now r.last_read)
          then (
            emptied r,
            port.discard_receive_buffer (next_time port (after_read (next_time port w))),
          )
          else (r, next_time port (after_read (next_time port w))))
  read-silent r w h = elim (Bool-cases (ltb 100 (elapsed now r.last_read))) [
    | inl e ↦
        let late : 100 < elapsed now r.last_read = ground arith in
        rw (e) (
          read-stages port r (disconnected r) (disconnected r) (disconnected r) w (released w)
            (after_read (released w))
            (port.discard_receive_buffer (next_time port (after_read (released w))))
            (check_disconnect_late r w late) (read_bytes_silent 18 (disconnected r) (released w))
            (check_read_timeout_late (disconnected r) (after_read (released w)) (omega arith))
          ∙ parse_not_full (disconnected r) _ (omega arith))
    | inr e ↦
        let soon : elapsed now r.last_read ≤ 100 = ground arith in
        let w1 : W = next_time port w in
        elim (Bool-cases (ltb 6 (elapsed now r.last_read))) [
          | inl f ↦
              let late : 6 < elapsed now r.last_read = ground arith in
              rw (e, f)
                (read-stages port r r r (emptied r) w w1 (after_read w1)
                    (port.discard_receive_buffer (next_time port (after_read w1)))
                    (check_disconnect_soon port r w now (q.same_time w) soon)
                    (read_bytes_silent (18 - r.current_buffer_index) r w1)
                    (check_read_timeout_late r (after_read w1) late)
                  ∙ parse_not_full (emptied r) _ (omega arith))
          | inr f ↦
              let fresh : elapsed now r.last_read ≤ 6 = ground arith in
              rw (e, f)
                (read-stages port r r r r w w1 (after_read w1) (next_time port (after_read w1))
                    (check_disconnect_soon port r w now (q.same_time w) soon)
                    (read_bytes_silent (18 - r.current_buffer_index) r w1)
                    (check_read_timeout_soon port r (after_read w1) now
                      (q.same_time (after_read w1)) fresh)
                  ∙ parse_not_full r _ h)
        ]
  ]
