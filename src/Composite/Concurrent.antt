-- ===== src/Composite/Concurrent.antt =====
-- tap/control/concurrent_command.hpp. `race` is the template parameter RACE. Each method returns the
-- command and the state of the objects.
pub mod Effects
use Prim.Native.Nat.{bit_and, bit_or}
use lateral_root.Prelude.{
  ℕ, Bool, true, false, not, Option, none, some, List, [], ◌∷◌, foldl, ◌==◌, ◌!=◌, if◌then◌else◌,
}
use lateral_root.Bits.{one_hot}
use lateral_root.Iterator.{has_bit}
use lateral_root.Objects.{Objects}

pub record ConcurrentCommand : Type 0 where
  pub commands : List ℕ
  pub finished_commands : ℕ
  pub all_commands : ℕ
  pub requirements : ℕ
  pub race : Bool

module _ {W : Type 0} (o : Objects W) where
  -- The loop of the constructor; `none` is an assertion that fails.
  unfoldable pub include_commands : List ℕ → ConcurrentCommand → Option ConcurrentCommand
  include_commands [] q = some q
  include_commands (c ∷ cs) q =
      let rest = include_commands cs (record q {
        requirements = bit_or q.requirements (o.requirements c);
        all_commands = bit_or q.all_commands (one_hot (o.command_id c));
      }) in
      if bit_and q.requirements (o.requirements c) == 0 then rest else none

  unfoldable pub construct_concurrent : List ℕ → Bool → Option ConcurrentCommand
  unfolding include_commands
  construct_concurrent commands race = include_commands commands (record {
    commands = commands;
    finished_commands = 0;
    all_commands = 0;
    requirements = 0;
    race = race;
  })

  -- The loop of `isReady`, which stops at the first command that is not ready.
  unfoldable pub is_ready_concurrent : List ℕ → W → Bool × W
  is_ready_concurrent [] w = (true, w)
  is_ready_concurrent (c ∷ cs) w =
      let (ready, w') = o.is_ready c w in
      let rest = is_ready_concurrent cs w' in if not ready then (false, w') else rest

  unfoldable pub initialize_concurrent : ConcurrentCommand × W → ConcurrentCommand × W
  initialize_concurrent (q, w) = (q, foldl (λ u c. o.initialize c u) w q.commands)

  -- The body of the loop of `execute`.
  unfoldable pub execute_one : ℕ → ConcurrentCommand × W → ConcurrentCommand × W
  execute_one c (q, w) =
      if not (has_bit q.finished_commands (o.command_id c))
      then (let w' = o.execute c w in
          if o.is_finished c w'
          then (
            record q { finished_commands = bit_or q.finished_commands (one_hot (o.command_id c)) },
            o.end c false w',
          )
          else (q, w'))
      else (q, w)

  unfoldable pub execute_each : List ℕ → ConcurrentCommand × W → ConcurrentCommand × W
  execute_each [] t = t
  execute_each (c ∷ cs) t = execute_each cs (execute_one c t)

  unfoldable pub execute_concurrent : ConcurrentCommand × W → ConcurrentCommand × W
  unfolding execute_each
  execute_concurrent (q, w) = execute_each q.commands (q, w)

  -- The body of the loop of `end`.
  unfoldable pub end_one : Bool → ConcurrentCommand → W → ℕ → W
  end_one interrupted q w c =
      if not (has_bit q.finished_commands (o.command_id c))
      then if q.race then o.end c true w else o.end c interrupted w
      else w

  unfoldable pub end_concurrent : Bool → ConcurrentCommand → W → W
  unfolding end_one
  end_concurrent interrupted q w = foldl (end_one interrupted q) w q.commands

  abbrev pub is_finished_concurrent : ConcurrentCommand → Bool
  is_finished_concurrent q =
      if q.race then q.finished_commands != 0 else q.finished_commands == q.all_commands
