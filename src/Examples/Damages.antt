-- ===== src/Examples/Damages.antt =====
-- Runs of the referee's receiver; the deque of 20 places is a list.
use lateral_root.Prelude.{
  ℕ, ◌+◌, ◌%◌, inl, inr, true, false, ◌≡◌, refl, List, [], ◌∷◌, ◌++◌, arith, length,
}
use lateral_root.ErrorController.{Deque, tail, but_last}
use lateral_root.Referee.{DamageEvent, RefCall, damage_update, robot_status}
use lateral_root.Referee.Robots.{
  get_robot_id_based_on_current_robot_team, IsRobot, is_blue_team,
  get_robot_id_based_on_current_robot_team_lem, Handler, attach_robot_to_robot_message_handler,
  handle_robot_to_robot_communication, handle-attach, find,
}

abbrev first_event : List DamageEvent → DamageEvent
first_event [] = record { damage_amount = 0; timestamp_ms = 0 }
first_event (e ∷ es) = e

abbrev twenty_places : Deque DamageEvent (List DamageEvent)
twenty_places = record {
  elements = λ q. q;
  get_size = length;
  get_max_size = 20;
  get = λ q i. first_event q;
  append = λ a q. q ++ a ∷ [];
  remove_front = tail;
  remove_back = but_last;
}

-- A status message with a health below 256.
abbrev status : ℕ → List ℕ
status hp =
    0xA5 ∷ 13 ∷ 0 ∷ 0 ∷ 0 ∷ 1 ∷ 2 ∷ 3 ∷ 1 ∷ hp ∷ 0 ∷ 200 ∷ 0 ∷ 10 ∷ 0 ∷ 100 ∷ 0 ∷ 80 ∷ 0 ∷ 7 ∷ []

-- It is healed to 200, hit twice, and the first hit is over at the second update.
abbrev fight : List RefCall
fight =
    robot_status 10 (status 200)
    ∷ robot_status 100 (status 150)
    ∷ damage_update (λ i. 200)
    ∷ robot_status 900 (status 140)
    ∷ damage_update (λ i. 1200)
    ∷ []

-- A red engineer takes the identifier of the blue sentry for that of the red one.
get_robot_id_based_on_current_robot_team_lem_example :
    (let id' = get_robot_id_based_on_current_robot_team 2 107 in
      IsRobot id'
      × (is_blue_team id' ≡ is_blue_team 2)
      × (id' % 100 ≡ 7)
      × (get_robot_id_based_on_current_robot_team 2 id' ≡ id'))
get_robot_id_based_on_current_robot_team_lem_example =
    get_robot_id_based_on_current_robot_team_lem 2 107 (inl (omega arith, omega arith))
      (inr (omega arith, omega arith))

abbrev count_up : Handler ℕ
count_up message n = n + 1

-- A message of type 0x301 with a whole interactive header and the identifier 0x210.
abbrev greeting : List ℕ
greeting = 0xA5 ∷ 6 ∷ 0 ∷ 0 ∷ 0 ∷ 1 ∷ 3 ∷ 0x10 ∷ 2 ∷ 1 ∷ 0 ∷ 2 ∷ 0 ∷ []

handle-attach_example :
    (let (error, attached) = attach_robot_to_robot_message_handler 0x210 count_up [] in
      (error ≡ false) × (handle_robot_to_robot_communication attached greeting 5 ≡ (true, 6)))
unfolding find
handle-attach_example =
    handle-attach 0x210 count_up [] greeting 5 refl (omega arith) (omega arith) (omega arith)
