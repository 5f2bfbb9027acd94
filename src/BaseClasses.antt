-- ===== src/BaseClasses.antt =====
-- tap/control/command.cpp and subsystem.cpp: the members of the base classes `Command` and `Subsystem`
-- that are not virtual. Their virtual methods are in `Objects`.
pub mod Requirements
use Prim.Native.Nat.{bit_or}
use lateral_root.Prelude.{
  ℕ, zero, suc, ◌^◌, Bool, true, false, Option, none, some, List, [], ◌∷◌, ltb, if◌then◌else◌,
}
use lateral_root.Registry.{Registry, Asserted, ok, failed, construct, destruct}

-- The identifier is `none` for -1.
pub record Command : Type 0 where
  pub global_identifier : Option ℕ
  pub requirements_bitwise : ℕ

pub record Subsystem : Type 0 where
  pub global_identifier : Option ℕ
  pub default_command : Option ℕ
  pub test_command : Option ℕ

abbrev pub constructed_command : Asserted (Option ℕ × Registry) → Asserted (Command × Registry)
constructed_command (failed e) = failed e
constructed_command (ok (i, r)) = ok (record { global_identifier = i; requirements_bitwise = 0 }, r)

-- The constructor of the command at an address.
abbrev pub construct_command : ℕ → Registry → Asserted (Command × Registry)
construct_command command r = constructed_command (construct (some command) r)

abbrev pub constructed_subsystem : Asserted (Option ℕ × Registry) → Asserted (Subsystem × Registry)
constructed_subsystem (failed e) = failed e
constructed_subsystem (ok (i, r)) =
    ok (record { global_identifier = i; default_command = none; test_command = none }, r)

abbrev pub construct_subsystem : ℕ → Registry → Asserted (Subsystem × Registry)
construct_subsystem subsystem r = constructed_subsystem (construct (some subsystem) r)

abbrev pub destruct_command : ℕ → Command → Registry → Asserted Registry
destruct_command command c = destruct (some command) c.global_identifier

abbrev pub destruct_subsystem : ℕ → Subsystem → Registry → Asserted Registry
destruct_subsystem subsystem b = destruct (some subsystem) b.global_identifier

-- `1UL << i`, where `width` is the number of bits of an `unsigned long`; `none` where C++ leaves the
-- shift undefined.
abbrev pub shift_1ul : ℕ → ℕ → Option ℕ
shift_1ul width i = if ltb i width then some (2 ^ i) else none

abbrev pub with_bit : Command → Option ℕ → Option Command
with_bit c none = none
with_bit c (some bit) = some (record c { requirements_bitwise = bit_or c.requirements_bitwise bit })

-- The subsystem is given by its identifier, the null pointer is `none`.
unfoldable pub add_subsystem_requirement : ℕ → Option ℕ → Command → Option Command
add_subsystem_requirement width none c = some c
add_subsystem_requirement width (some i) c = with_bit c (shift_1ul width i)

abbrev pub set_default_command : Option ℕ → Subsystem → Subsystem
set_default_command none b = b
set_default_command (some c) b = record b { default_command = some c }

abbrev pub set_test_command : Option ℕ → Subsystem → Subsystem
set_test_command none b = b
set_test_command (some c) b = record b { test_command = some c }
