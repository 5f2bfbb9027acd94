-- ===== src/Mapping/Edges.antt =====
-- What the mappings do to the scheduler over a sequence of states of the remote.
use lateral_root.Prelude.{Bool, not, ◌&&◌, List, [], ◌∷◌, ◌≡◌, refl, ap, ◌∙◌, arith, if◌then◌else◌}
use lateral_root.RemoteMapState.{RemoteMapState}
use lateral_root.Mapping.{
  SchedulerMethods, CommandMapping, is_held, add_commands, remove_commands, PressMapping,
  HoldMapping, execute_press, execute_hold,
}

-- Between two states of the remote the scheduler goes on by itself: each step of a history is a state
-- and what happens to the scheduler before it.
abbrev pub History : Type 0 → Type 0
History S = List (RemoteMapState × (S → S))

module _ {S : Type 0} (o : SchedulerMethods S) where
  unfoldable pub press_history : History S → PressMapping × S → PressMapping × S
  press_history [] t = t
  press_history ((state, other) ∷ h) (m, s) = press_history h (execute_press o state (m, other s))

  unfoldable pub hold_history : History S → HoldMapping × S → HoldMapping × S
  hold_history [] t = t
  hold_history ((state, other) ∷ h) (m, s) = hold_history h (execute_hold o state (m, other s))

  -- The commands are added each time the remote comes to match the mapping; the first argument says
  -- whether it matched before.
  unfoldable pub rising_edges : CommandMapping → Bool → History S → S → S
  rising_edges m before [] s = s
  rising_edges m before ((state, other) ∷ h) s =
      rising_edges m (is_held m state) h
        (if not before && is_held m state then add_commands o m (other s) else other s)

  -- They are added when it comes to match the mapping, and removed when it ceases to.
  unfoldable pub both_edges : CommandMapping → Bool → History S → S → S
  both_edges m before [] s = s
  both_edges m before ((state, other) ∷ h) s = both_edges m (is_held m state) h (
      if is_held m state
      then if before then other s else add_commands o m (other s)
      else if before
      then remove_commands o m (other s)
      else other s)

  execute_press_lem :
      (state : RemoteMapState) (m : PressMapping) (s : S)
      → execute_press o state (m, s) ≡ (
        record m { pressed = is_held m.mapping state },
        if not m.pressed && is_held m.mapping state then add_commands o m.mapping s else s,
      )
  unfolding execute_press
  execute_press_lem state m s = ground arith

  -- Over every history of the remote, a press mapping adds its commands exactly when the remote comes
  -- to match it, and never removes one.
  pub press_history-rising_edges :
      (h : History S) (m : PressMapping) (s : S)
      → (press_history h (m, s)).1 ≡ rising_edges m.mapping m.pressed h s
  unfolding press_history rising_edges
  press_history-rising_edges [] m s = refl
  press_history-rising_edges ((state, other) ∷ h) m s =
      ap (λ t. (press_history h t).1) (execute_press_lem state m (other s))
      ∙ press_history-rising_edges h (record m { pressed = is_held m.mapping state }) _

  execute_hold_lem :
      (state : RemoteMapState) (m : HoldMapping) (s : S)
      → execute_hold o state (m, s) ≡ (
        record m { command_scheduled = is_held m.mapping state },
        (if is_held m.mapping state
            then if m.command_scheduled then s else add_commands o m.mapping s
            else if m.command_scheduled
            then remove_commands o m.mapping s
            else s),
      )
  unfolding execute_hold
  execute_hold_lem state m s = ground arith

  -- Over every history of the remote, a hold mapping adds its commands exactly when the remote comes
  -- to match it, and removes them exactly when it ceases to.
  pub hold_history-both_edges :
      (h : History S) (m : HoldMapping) (s : S)
      → (hold_history h (m, s)).1 ≡ both_edges m.mapping m.command_scheduled h s
  unfolding hold_history both_edges
  hold_history-both_edges [] m s = refl
  hold_history-both_edges ((state, other) ∷ h) m s =
      ap (λ t. (hold_history h t).1) (execute_hold_lem state m (other s))
      ∙ hold_history-both_edges h (record m { command_scheduled = is_held m.mapping state }) _
