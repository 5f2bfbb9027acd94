-- ===== src/Setpoint/Ramp.antt =====
-- tap/algorithms/ramp.cpp: a value that is moved towards a target.
use lateral_root.Prelude.{Bool, true, false, not, if◌then◌else◌}
use lateral_root.Setpoint.{Floats, compare_float_close}

pub record Ramp (F : Type 0) : Type 0 where
  pub target : F
  pub value : F
  pub target_reached : Bool

-- The constructor, and `reset`.
abbrev pub construct_ramp : {F : Type 0} → F → Ramp F
construct_ramp v = record { target = v; value = v; target_reached = true }

module _ {F : Type 0} (f : Floats F) where
  unfoldable pub set_target : F → Ramp F → Ramp F
  set_target target r =
      if not (compare_float_close f target r.target f.ramp_epsilon)
      then record r { target = target; target_reached = false }
      else r

  abbrev pub set_value : F → Ramp F → Ramp F
  set_value value r = record r { value = value }

  unfoldable pub update : F → Ramp F → Ramp F
  update increment r =
      let step = f.copysign increment (f.minus r.target r.value) in
      let difference = f.copysign (f.minus r.target r.value) step in
      let value =
        if f.lt (f.absolute step) (f.absolute difference) then f.plus r.value step else r.target in
      record r {
        value = value;
        target_reached = compare_float_close f value r.target f.ramp_epsilon;
      }
