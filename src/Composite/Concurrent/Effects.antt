-- ===== src/Composite/Concurrent/Effects.antt =====
-- Which of its commands a concurrent command executes, and what happens when it is started again.
use Prim.Native.Nat.{bit_or}
use lateral_root.Prelude.{
  ℕ, ◌<◌, ◌≡◌, ◌≢◌, refl, ap, ◌∙◌, true, false, List, [], ◌∷◌, foldl, arith, if◌then◌else◌,
}
use lateral_root.Bits.{one_hot}
use lateral_root.Iterator.{has_bit}
use lateral_root.Objects.{Objects}
use lateral_root.Composite.Concurrent.{
  ConcurrentCommand, initialize_concurrent, execute_one, execute_each, execute_concurrent,
  is_finished_concurrent,
}

module _ {W : Type 0} (o : Objects W) where
  -- The identifiers are below 64 and differ from one another.
  abbrev pub Apart : ℕ → List ℕ → Type 0
  Apart c [] = Unit {0}
  Apart c (d ∷ ds) = (o.command_id c ≢ o.command_id d) × Apart c ds

  abbrev pub AreDistinct : List ℕ → Type 0
  AreDistinct [] = Unit {0}
  AreDistinct (c ∷ cs) = (o.command_id c < 64) × Apart c cs × AreDistinct cs

  abbrev pub AllFinished : ℕ → List ℕ → Type 0
  AllFinished finished [] = Unit {0}
  AllFinished finished (c ∷ cs) =
      (has_bit finished (o.command_id c) ≡ true) × AllFinished finished cs

  -- What one round does to the objects, command by command: those that were not finished before the
  -- round are executed, and ended if they finish.
  abbrev pub round_act : ℕ → ℕ → W → W
  round_act finished c w =
      if has_bit finished (o.command_id c)
      then w
      else if o.is_finished c (o.execute c w)
      then o.end c false (o.execute c w)
      else o.execute c w

  -- The bits of the commands of a list are those of another bitmap.
  abbrev SameBits : ℕ → ℕ → List ℕ → Type 0
  SameBits a b [] = Unit {0}
  SameBits a b (c ∷ cs) =
      (has_bit a (o.command_id c) ≡ has_bit b (o.command_id c)) × SameBits a b cs

  one_skipped :
      (c : ℕ) (q : ConcurrentCommand) (w : W)
      → has_bit q.finished_commands (o.command_id c) ≡ true
      → execute_one o c (q, w) ≡ (q, w)
  unfolding execute_one
  one_skipped c q w e = rw e

  abbrev marked : ℕ → ConcurrentCommand → ConcurrentCommand
  marked c q = record q {
    finished_commands = bit_or q.finished_commands (one_hot (o.command_id c));
  }

  execute_each-finished :
      (cs : List ℕ) (q : ConcurrentCommand) (w : W)
      → AllFinished q.finished_commands cs
      → execute_each o cs (q, w) ≡ (q, w)
  unfolding execute_each
  execute_each-finished [] q w h = refl
  execute_each-finished (c ∷ cs) q w h =
      ap (execute_each o cs) (one_skipped c q w h.0) ∙ execute_each-finished cs q w h.1

  -- A command that is no race, and whose commands have all finished, is not reset when it is
  -- initialized again: it counts as finished at once, and executing it executes none of them.
  pub execute-initialize_finished :
      (q : ConcurrentCommand) (w : W)
      → q.race ≡ false
      → q.finished_commands ≡ q.all_commands
      → AllFinished q.finished_commands q.commands
      → let t = initialize_concurrent o (q, w) in
        (is_finished_concurrent o t.0 ≡ true) × (execute_concurrent o t ≡ t)
  unfolding initialize_concurrent execute_concurrent
  execute-initialize_finished q w r e h = (
    ground arith,
    execute_each-finished q.commands q (foldl (λ u c. o.initialize c u) w q.commands) h,
  )
