-- ===== src/Composite/Sequential/Refinement.antt =====
-- A sequential command does to its commands what a queue does that runs its head until it finishes.
use lateral_root.Prelude.{
  ℕ, zero, suc, ◌≤◌, ◌<◌, ◌≡◌, refl, Bool, true, false, some, List, [], ◌∷◌, arith, if◌then◌else◌,
  length, get_elem?,
}
use native.Mathlib.Numerals.{add-one}
use lateral_root.Objects.{Objects}
use lateral_root.Composite.Sequential.{
  SequentialCommand, start_current, continue_current, execute_sequential,
}

-- The commands that are left, and whether the first of them was started.
pub record Queue : Type 0 where
  pub left : List ℕ
  pub started : Bool

module _ {W : Type 0} (o : Objects W) where
  -- One command is run: started if it is not yet and is ready, executed if it is started, and ended
  -- when it is finished; the Boolean says whether it ended.
  unfoldable pub run_head : ℕ → List ℕ → Bool → W → Queue × W
  run_head c rest true w =
      let w' = o.execute c w in
      if o.is_finished c w'
      then (record { left = rest; started = false }, o.end c false w')
      else (record { left = c ∷ rest; started = true }, w')
  run_head c rest false w =
      let (ready, w') = o.is_ready c w in
      if ready
      then (let w″ = o.execute c (o.initialize c w') in
          if o.is_finished c w″
          then (record { left = rest; started = false }, o.end c false w″)
          else (record { left = c ∷ rest; started = true }, w″))
      else (record { left = c ∷ rest; started = false }, w')

  unfoldable pub run_queue : Queue × W → Queue × W
  run_queue (q, w) = elim q.left [ [] ↦ (q, w) | c ∷ rest ↦ run_head c rest q.started w ]

abbrev pub drop : {A : Type 0} → ℕ → List A → List A
drop zero xs = xs
drop (suc n) [] = []
drop (suc n) (x ∷ xs) = drop n xs

abbrev pub view : SequentialCommand → Queue
view q = record { left = drop q.current_command q.commands; started = q.command_initialized }

get_elem?-drop :
    (cs : List ℕ) (n : ℕ)
    → n < length cs
    → (c : ℕ) × (get_elem? cs n ≡ some c) × (drop n cs ≡ c ∷ drop (suc n) cs)
get_elem?-drop [] n h = absurd (omega arith)
get_elem?-drop (x ∷ cs) zero h = (x, refl, refl)
get_elem?-drop (x ∷ cs) (suc n) h = get_elem?-drop cs n (omega arith)

-- What a step of the code leaves, beside a step of the queue.
pub record Follows {W : Type 0} (commands : List ℕ) (code : SequentialCommand × W)
    (queue : Queue × W) : Type 0 where
  pub same_queue : view code.0 ≡ queue.0
  pub same_objects : code.1 ≡ queue.1
  pub same_commands : code.0.commands ≡ commands
  pub inside : code.0.current_command ≤ length commands

module _ {W : Type 0} (o : Objects W) where
  step_Follows :
      (q : SequentialCommand) (w : W) (c : ℕ)
      → q.current_command < length q.commands
      → drop q.current_command q.commands ≡ c ∷ drop (suc q.current_command) q.commands
      → Follows q.commands
          (continue_current o c (start_current o c (q, w)))
          (run_head o c (drop (suc q.current_command) q.commands) q.command_initialized w)
  unfolding continue_current start_current run_head
  step_Follows q w c h e = ground (arith, e, add-one q.current_command)

  -- While a command is left, `execute` stays inside the array, and does to the objects and to the
  -- commands that are left what running the head of the queue of these commands does.
  pub execute_sequential-Follows :
      (q : SequentialCommand) (w : W)
      → q.current_command < length q.commands
      → (t : SequentialCommand × W) × (execute_sequential o (q, w) ≡ some t)
        × Follows q.commands t (run_queue o (view q, w))
  unfolding execute_sequential run_queue
  execute_sequential-Follows q w h =
      let (c, at_c, e) = get_elem?-drop q.commands q.current_command h in
      (
        continue_current o c (start_current o c (q, w)),
        rw (at_c, execute_sequential),
        rw (e, run_queue) (step_Follows q w c h e),
      )
