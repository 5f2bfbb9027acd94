-- ===== src/Motors/Sending.antt =====
-- Which messages encodeAndSendCanData sends, and when it raises an error.
use lateral_root.Prelude.{ℕ, ◌≡◌, Bool, true, ◌&&◌, List, [], ◌∷◌, arith, if◌then◌else◌}
use lateral_root.Can.{CanBus, can_bus1, can_bus2}
use lateral_root.Motors.{
  DjiMotor, Message, Outgoing, CanDriver, DjiMotorTxHandler, valid_messages,
  serialize_motor_store_send_data, send_if, send_on_bus, encode_and_send_can_data, raise_tx_error,
  send_message_failure,
}

module _ {W : Type 0} (can : CanDriver W) where
  -- One message after the other; the flag says whether the driver has taken all of them.
  pub send_all : CanBus → List Message → W → W × Bool
  send_all bus [] w = (w, true)
  send_all bus (message ∷ rest) w =
      let (w', sent) = can.send_message bus message w in
      let (w'', success) = send_all bus rest w' in (w'', sent && success)

  -- What a bus is sent, if the driver is ready for it.
  pub deliver_to : CanBus → List Message → W → W × Bool
  deliver_to bus messages w =
      if can.is_ready_to_send bus w then send_all bus messages w else (w, true)

  abbrev pub both_sent : W × Bool → Bool → W × Bool
  both_sent (w, a) b = (w, b && a)

  module _ (motors : ℕ → DjiMotor) where
    send_on_bus_lem :
        (bus : CanBus) (u : Outgoing) (w : W) (s : Bool)
        → send_on_bus motors can bus u (w, s) ≡ both_sent (deliver_to bus (valid_messages u) w) s
    unfolding send_on_bus send_if deliver_to send_all
    send_on_bus_lem bus u w s = ground arith

    -- encodeAndSendCanData first gives the valid messages of bus 1 to the driver, in the order low, high,
    -- 6020 current, if the driver is ready for bus 1, and then those of bus 2, if it is then ready for bus
    -- 2; it raises an error exactly if the driver has refused one of them.
    pub encode_and_send_lem :
        (h : DjiMotorTxHandler) (w : W)
        → let first =
            deliver_to can_bus1
              (valid_messages (serialize_motor_store_send_data motors h.can1_motor_store))
              w in
          let second =
            deliver_to can_bus2
              (valid_messages (serialize_motor_store_send_data motors h.can2_motor_store))
              first.0 in
          encode_and_send_can_data motors can h w
          ≡ (if first.1 && second.1 then h else raise_tx_error send_message_failure h, second.0)
    unfolding encode_and_send_can_data
    encode_and_send_lem h w =
        rw
          (send_on_bus_lem can_bus1 (serialize_motor_store_send_data motors h.can1_motor_store) w
            true)
          rw
          (send_on_bus_lem can_bus2 (serialize_motor_store_send_data motors h.can2_motor_store)
            (deliver_to can_bus1
              (valid_messages (serialize_motor_store_send_data motors h.can1_motor_store)) w).0
            _)
