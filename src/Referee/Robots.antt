-- ===== src/Referee/Robots.antt =====
-- tap/communication/serial/ref_serial.cpp and ref_serial_data.hpp: the identifiers of the robots of the two
-- teams, and the handlers of the messages between robots.
use lateral_root.Prelude.{
  ℕ, ◌+◌, ◌-◌, ◌%◌, ◌≤◌, ◌≡◌, ◌⊎◌, inl, inr, refl, sym, ap, ◌∙◌, Bool, true, false, not, ◌&&◌, ◌||◌,
  Option, none, some, List, [], ◌∷◌, leb, ltb, ◌==◌, Bool-cases, arith, if◌then◌else◌,
}
use lateral_root.Serial.{data_length}
use lateral_root.Referee.{data_uint16}

abbrev pub invalid_robot : ℕ
invalid_robot = 0

abbrev pub red_hero : ℕ
red_hero = 1

abbrev pub blue_hero : ℕ
blue_hero = 101

abbrev pub is_blue_team : ℕ → Bool
is_blue_team id = leb blue_hero id

-- The operators on identifiers, which are 16 bits wide.
abbrev pub plus_id : ℕ → ℕ → ℕ
plus_id a b = (a + b) % 65536

abbrev pub minus_id : ℕ → ℕ → ℕ
minus_id a b = (a + 65536 - b) % 65536

-- The first argument is the identifier of this robot.
unfoldable pub get_robot_id_based_on_current_robot_team : ℕ → ℕ → ℕ
get_robot_id_based_on_current_robot_team own id =
    if id == invalid_robot || own == invalid_robot
    then id
    else if not (is_blue_team own) && is_blue_team id
    then plus_id (minus_id id blue_hero) red_hero
    else if is_blue_team own && not (is_blue_team id)
    then plus_id (minus_id id red_hero) blue_hero
    else id

-- The identifiers that the enumeration names, except for the invalid one.
abbrev pub IsRobot : ℕ → Type 0
IsRobot id = (1 ≤ id) × (id ≤ 9) ⊎ (101 ≤ id) × (id ≤ 109)

-- For two robots, the identifier that `getRobotIdBasedOnCurrentRobotTeam` makes of the second one is that
-- of a robot of the team of the first one, in the place of the second one, and the function keeps it.
pub get_robot_id_based_on_current_robot_team_lem :
    (own id : ℕ)
    → IsRobot own
    → IsRobot id
    → (let id' = get_robot_id_based_on_current_robot_team own id in
        IsRobot id'
        × (is_blue_team id' ≡ is_blue_team own)
        × (id' % 100 ≡ id % 100)
        × (get_robot_id_based_on_current_robot_team own id' ≡ id'))
unfolding get_robot_id_based_on_current_robot_team
get_robot_id_based_on_current_robot_team_lem own id (inl o) (inl i) =
    (ground arith, ground arith, ground arith, ground arith)
get_robot_id_based_on_current_robot_team_lem own id (inl o) (inr i) =
    (ground arith, ground arith, ground arith, ground arith)
get_robot_id_based_on_current_robot_team_lem own id (inr o) (inl i) =
    (ground arith, ground arith, ground arith, ground arith)
get_robot_id_based_on_current_robot_team_lem own id (inr o) (inr i) =
    (ground arith, ground arith, ground arith, ground arith)

-- A handler takes the message and changes the state `W` of the robot's code.
abbrev pub Handler : Type 0 → Type 0
Handler W = List ℕ → W → W

-- `msgIdToRobotToRobotHandlerMap`.
abbrev pub HandlerMap : Type 0 → Type 0
HandlerMap W = List (ℕ × Handler W)

module _ {W : Type 0} where
  unfoldable pub find : ℕ → HandlerMap W → Option (Handler W)
  find id [] = none
  find id ((k, h) ∷ handlers) = if k == id then some h else find id handlers

  abbrev pub is_some : Option (Handler W) → Bool
  is_some none = false
  is_some (some h) = true

  -- Whether there was an error, and the map after the call.
  unfoldable pub attach_robot_to_robot_message_handler :
      ℕ → Handler W → HandlerMap W → Bool × HandlerMap W
  attach_robot_to_robot_message_handler id handler handlers =
      if is_some (find id handlers) || ltb id 0x0200 || ltb 0x02FF id
      then (true, handlers)
      else (false, (id, handler) ∷ handlers)

  abbrev pub call : Option (Handler W) → List ℕ → W → W
  call none message w = w
  call (some handler) message w = handler message w

  -- The interactive header has 6 bytes, the first two of which are `dataCmdId`.
  unfoldable pub handle_robot_to_robot_communication : HandlerMap W → List ℕ → W → Bool × W
  handle_robot_to_robot_communication [] message w =
      if ltb (data_length message) 6 then (false, w) else (true, w)
  handle_robot_to_robot_communication (h ∷ handlers) message w =
      if ltb (data_length message) 6
      then (false, w)
      else (true, call (find (data_uint16 message 0) (h ∷ handlers)) message w)

  handle_robot_to_robot_communication_lem :
      (handlers : HandlerMap W) (message : List ℕ) (w : W)
      → 6 ≤ data_length message
      → handle_robot_to_robot_communication handlers message w
        ≡ (true, call (find (data_uint16 message 0) handlers) message w)
  unfolding handle_robot_to_robot_communication find
  handle_robot_to_robot_communication_lem [] message w long =
      ap (λ short. if short then (false, w) else (true, w)) {x = ltb (data_length message) 6}
        {y = false} (ground arith)
  handle_robot_to_robot_communication_lem (h ∷ rest) message w long =
      ap
        (λ short.
          if short
          then (false, w)
          else (true, call (find (data_uint16 message 0) (h ∷ rest)) message w))
        {x = ltb (data_length message) 6} {y = false} (ground arith)

  -- After a handler was attached under an identifier that had none, from 0x200 to 0x2FF, without an error, a
  -- message with at least a whole interactive header is given to it and to no other one if the message has
  -- this identifier; each other message is handled as before.
  pub handle-attach :
      (id : ℕ) (handler : Handler W) (handlers : HandlerMap W) (message : List ℕ) (w : W)
      → find id handlers ≡ none
      → 0x0200 ≤ id
      → id ≤ 0x02FF
      → 6 ≤ data_length message
      → (let (error, attached) = attach_robot_to_robot_message_handler id handler handlers in
          (error ≡ false)
          × (handle_robot_to_robot_communication attached message w ≡ (
              if id == data_uint16 message 0
              then (true, handler message w)
              else handle_robot_to_robot_communication handlers message w)))
  unfolding attach_robot_to_robot_message_handler find
  handle-attach id handler handlers message w free low high long =
      let good : (is_some (find id handlers) || ltb id 0x0200 || ltb 0x02FF id) ≡ false =
        rw free (ground arith) in
      let before = handle_robot_to_robot_communication_lem handlers message w long in
      let after =
        handle_robot_to_robot_communication_lem ((id, handler) ∷ handlers) message w long in
      elim (Bool-cases (id == data_uint16 message 0)) [
        | inl same ↦ rw (good, same) (refl, after ∙ rw same refl)
        | inr other ↦ rw (good, other) (refl, after ∙ rw other (sym before))
      ]
