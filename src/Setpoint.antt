-- ===== src/Setpoint.antt =====
-- tap/control/setpoint/commands: commands that move a mechanism. `float` is any type with the operations that
-- the code applies to it, and the subsystem is what robot code derives from SetpointSubsystem.
pub mod Ramp
pub mod Unjam
pub mod UnjamIntegral
pub mod Moves
pub mod Waiting
pub mod Cleared
pub mod Rounds
use lateral_root.Prelude.{ℕ, Bool}

pub record Floats (F : Type 0) : Type 0 where
  pub plus : F → F → F
  pub minus : F → F → F
  pub times : F → F → F
  pub divide : F → F → F
  pub negate : F → F
  pub absolute : F → F
  pub copysign : F → F → F
  pub le : F → F → Bool
  pub lt : F → F → Bool
  pub of_uint : ℕ → F
  pub ramp_epsilon : F
  pub nine_tenths : F

-- `compareFloatClose` of tap/algorithms/math_user_utils.hpp.
abbrev pub compare_float_close : {F : Type 0} → Floats F → F → F → F → Bool
compare_float_close f val1 val2 epsilon = f.le (f.absolute (f.minus val1 val2)) epsilon

-- The virtual methods of SetpointSubsystem and IntegrableSetpointSubsystem that the commands call, and the clock.
-- `W` is the state of all they see.
pub record SetpointMethods (F W : Type 0) : Type 0 where
  pub get_setpoint : W → F
  pub set_setpoint : F → W → W
  pub get_current_value : W → F
  pub get_current_value_integral : W → F
  pub get_jam_setpoint_tolerance : W → F
  pub is_jammed : W → Bool
  pub is_online : W → Bool
  pub clear_jam : W → W
  pub get_time_milliseconds : W → ℕ
