-- ===== src/Setpoint/Waiting.antt =====
-- move_command.cpp: time in which the subsystem is jammed or offline does not move the setpoint.
use lateral_root.Prelude.{ℕ, ◌≡◌, refl, ap, ◌∙◌, true, false, List, [], ◌∷◌}
use lateral_root.Setpoint.{Floats, SetpointMethods}
use lateral_root.Setpoint.Ramp.{update}
use lateral_root.Setpoint.Moves.{MoveCommand, elapsed, stuck, execute_move}

module _ {F W : Type 0} (f : Floats F) (o : SetpointMethods F W) where
  abbrev pub AreStuck : List W → Type 0
  AreStuck [] = Unit {0}
  AreStuck (w ∷ ws) = (stuck f o w ≡ true) × AreStuck ws

  -- A call of `execute` in each of the worlds.
  pub executed_in : List W → MoveCommand F → MoveCommand F
  executed_in [] m = m
  executed_in (w ∷ ws) m = executed_in ws (execute_move f o (m, w)).0

  abbrev pub step_of : ℕ → MoveCommand F → F
  step_of time m = f.divide (f.times (f.of_uint time) m.target_displacement) (f.of_uint m.move_time)

  waited : W → MoveCommand F → MoveCommand F
  waited w m = record m { previous_move_time = o.get_time_milliseconds w }

  execute_stuck :
      (m : MoveCommand F) (w : W) → stuck f o w ≡ true → execute_move f o (m, w) ≡ (waited w m, w)
  unfolding execute_move waited
  execute_stuck m w e = rw (e)

  last_stuck :
      (ws : List W) (v : W) (m : MoveCommand F)
      → AreStuck ws
      → stuck f o v ≡ true
      → (execute_move f o (executed_in ws m, v)).0 ≡ waited v m
  unfolding executed_in waited
  last_stuck [] v m s e = ap (λ p. p.0) (execute_stuck m v e)
  last_stuck (w ∷ ws) v m (s, ss) e =
      ap (λ p. (execute_move f o (executed_in ws p.0, v)).0) (execute_stuck m w s)
      ∙ last_stuck ws v (waited w m) ss e

  -- After any number of executions in which the subsystem is jammed or offline, and a last one of them, an
  -- execution in which it is neither moves the ramp only by the time since that last one, and sets the setpoint
  -- to the ramp.
  pub execute_move-after_stuck :
      (m : MoveCommand F) (ws : List W) (v w : W)
      → AreStuck ws
      → stuck f o v ≡ true
      → stuck f o w ≡ false
      → let waiting = (execute_move f o (executed_in ws m, v)).0 in
        let time = elapsed (o.get_time_milliseconds w) (o.get_time_milliseconds v) in
        let ramp = update f (step_of time m) m.ramp_to_target_value in
        ((execute_move f o (waiting, w)).0.ramp_to_target_value ≡ ramp)
        × ((execute_move f o (waiting, w)).1 ≡ o.set_setpoint ramp.value w)
  unfolding execute_move waited
  execute_move-after_stuck m ws v w ss e g = rw (last_stuck ws v m ss e, g) (refl, refl)
