-- ===== src/Scheduler/Effects.antt =====
-- Which virtual methods the loops of tap/control/command_scheduler.cpp call, in which order: the
-- state of the objects after a loop is a fold over the scheduled commands, by increasing identifier.
pub mod Run
pub mod Add
use Prim.Native.Nat.{bit_and}
use lateral_root.Prelude.{
  ℕ, zero, suc, ◌+◌, ◌≤◌, ◌<◌, ◌≡◌, ◌≢◌, refl, sym, ap, ◌∙◌, Bool, true, false, Option, none, some,
  List, [], ◌∷◌, foldl, arith, ◌!=◌, Bool-cases, inl, inr, if◌then◌else◌,
}
use lateral_root.Bits.{testbit, one_hot}
use lateral_root.Bits.Sets.{bit_and-one_hot_ne, testbit-clear, testbit-one_hot, one_hot-lt}
use lateral_root.Registry.{at}
use lateral_root.Iterator.{has_bit, for_each}
use lateral_root.Iterator.Scan.{scan, scan-set, scan-unset, for_each-scan}
use lateral_root.Objects.{Objects, Statics}
use lateral_root.Scheduler.{Scheduler}
use lateral_root.Scheduler.Commands.{
  dereference, safe_disconnected, requirements_registered, unschedule, remove_command, interrupt,
  interrupt_all, schedule, add_ready_command, add_command,
}
use lateral_root.Scheduler.Run.{execute_command, execute_all, end_all}
use lateral_root.Scheduler.Invariant.{WellFormed, IsScheduled, Inv}
use lateral_root.Scheduler.Invariant.Commands.{index_lt}
use lateral_root.Scheduler.Invariant.Loops.{execute_command-Inv}
use lateral_root.Scheduler.Invariant.Remove.{unschedule-Inv, scheduled-testbit, remove_command-Inv}

module _ {W : Type 0} (o : Objects W) where
  -- What a run does to one command while the robot is connected.
  abbrev pub execute_act : ℕ → W → W
  execute_act c w =
      if o.is_finished c (o.execute c w) then o.end c false (o.execute c w) else o.execute c w

  -- What adding a command that uses some subsystems does to a scheduled one.
  abbrev pub interrupt_act : ℕ → ℕ → W → W
  interrupt_act required c w =
      if bit_and (o.requirements c) required != 0 then o.end c true w else w

module _ {W : Type 0} (o : Objects W) (g : Statics) where
  abbrev pub prepend : Option ℕ → List ℕ → List ℕ
  prepend none cs = cs
  prepend (some c) cs = c ∷ cs

  -- The commands of the registrar whose bit is set, from an index on; the first argument is the
  -- number of indices left.
  unfoldable pub commands_from : ℕ → ℕ → ℕ → List ℕ
  commands_from zero i added = []
  commands_from (suc rounds) i added =
      let rest = commands_from rounds (suc i) added in
      if testbit added i then prepend (at g.commands i) rest else rest

  abbrev pub scheduled_commands : Scheduler W → List ℕ
  scheduled_commands s = commands_from g.commands.max_index 0 s.added_command_bitmap

  -- A body that does `act` to the objects, and touches no bit but its own command's.
  pub record Acts (act : ℕ → W → W) (body : ℕ → Scheduler W → Scheduler W) : Type 0 where
    pub acts :
        (c : ℕ) (t : Scheduler W)
        → Inv o g t
        → IsScheduled o g t c
        → (body c t).world ≡ act c t.world
    pub keeps : (c : ℕ) (t : Scheduler W) → Inv o g t → IsScheduled o g t c → Inv o g (body c t)
    pub local :
        (c j : ℕ) (t : Scheduler W)
        → Inv o g t
        → IsScheduled o g t c
        → o.command_id c ≢ j
        → testbit (body c t).added_command_bitmap j ≡ testbit t.added_command_bitmap j

commands_from_congr :
    {W : Type 0} (o : Objects W) (g : Statics) (rounds i a b : ℕ)
    → ((j : ℕ) → i ≤ j → testbit a j ≡ testbit b j)
    → commands_from o g rounds i a ≡ commands_from o g rounds i b
unfolding commands_from
commands_from_congr o g zero i a b h = refl
commands_from_congr o g (suc rounds) i a b h =
    rw (h i (omega arith), commands_from_congr o g rounds (suc i) a b (λ j p. h j (omega arith)))

module _ {W : Type 0} {o : Objects W} {g : Statics} (f : WellFormed o g) (act : ℕ → W → W)
    (body : ℕ → Scheduler W → Scheduler W) (acts : Acts o g act body)
    (loop_body : ℕ → Scheduler W → Scheduler W)
    (loop_body_at : (i c : ℕ) (t : Scheduler W)
      → at g.commands i ≡ some c
      → loop_body i t ≡ body c t) where
  tested :
      (i : ℕ) (t : Scheduler W)
      → i < g.commands.max_index
      → has_bit t.added_command_bitmap i ≡ testbit t.added_command_bitmap i
  tested i t lt =
      bit_and-one_hot_ne t.added_command_bitmap i (omega (arith, f.commands_valid.bounded))

  commands_from-set :
      (rounds i c added : ℕ)
      → testbit added i ≡ true
      → at g.commands i ≡ some c
      → commands_from o g (suc rounds) i added ≡ c ∷ commands_from o g rounds (suc i) added
  unfolding commands_from
  commands_from-set rounds i c added set at_i = rw (set, at_i)

  commands_from-unset :
      (rounds i added : ℕ)
      → testbit added i ≡ false
      → commands_from o g (suc rounds) i added ≡ commands_from o g rounds (suc i) added
  unfolding commands_from
  commands_from-unset rounds i added unset = rw unset

  abbrev run_from : ℕ → ℕ → Scheduler W → Scheduler W
  run_from = scan (λ t. t.added_command_bitmap) g.commands.max_index loop_body

  -- The turn of a command whose bit is set, given the claim for the indices after it.
  scan_step :
      (rounds i c : ℕ) (t : Scheduler W)
      → i < g.commands.max_index
      → Inv o g t
      → testbit t.added_command_bitmap i ≡ true
      → at g.commands i ≡ some c
      → ((u : Scheduler W)
          → Inv o g u
          → (run_from rounds (suc i) u).world
            ≡ foldl
                (λ w c. act c w)
                u.world
                (commands_from o g rounds (suc i) u.added_command_bitmap))
      → (run_from rounds (suc i) (loop_body i t)).world
        ≡ foldl (λ w c. act c w) t.world (commands_from o g (suc rounds) i t.added_command_bitmap)
  scan_step rounds i c t lt v set at_i rest =
      let c_id : o.command_id c ≡ i = f.command_ids i c at_i in
      let here : IsScheduled o g t c = (rw c_id at_i, rw c_id set) in
      let later =
        commands_from_congr o g rounds (suc i) (body c t).added_command_bitmap
          t.added_command_bitmap (λ j p. acts.local c j t v here (λ q. absurd (omega arith))) in
      rw (commands_from-set rounds i c t.added_command_bitmap set at_i, loop_body_at i c t at_i)
        (rest (body c t) (acts.keeps c t v here)
          ∙ ap (λ l. foldl (λ w c. act c w) (body c t).world l) later
          ∙ ap
              (λ w.
                foldl (λ w c. act c w) w (commands_from o g rounds (suc i) t.added_command_bitmap))
              (acts.acts c t v here))

  scan-foldl :
      (rounds i : ℕ) (t : Scheduler W)
      → rounds + i ≡ g.commands.max_index
      → Inv o g t
      → (run_from rounds i t).world
        ≡ foldl (λ w c. act c w) t.world (commands_from o g rounds i t.added_command_bitmap)
  unfolding scan commands_from
  scan-foldl zero i t e v = refl
  scan-foldl (suc rounds) i t e v = elim (Bool-cases (testbit t.added_command_bitmap i)) [
    | inl set ↦
        let (c, at_i) = v.commands_held i set in
        ap (λ u. u.world)
          (scan-set _ g.commands.max_index loop_body rounds i t (tested i t (omega arith) ∙ set))
        ∙ scan_step rounds i c t (omega arith) v set at_i
            (λ u. scan-foldl rounds (suc i) u (omega arith))
    | inr unset ↦
        ap (λ u. u.world)
          (scan-unset _ g.commands.max_index loop_body rounds i t
            (tested i t (omega arith) ∙ unset))
        ∙ scan-foldl rounds (suc i) t (omega arith) v
        ∙ ap (foldl (λ w c. act c w) t.world)
            (sym (commands_from-unset rounds i t.added_command_bitmap unset))
  ]

  pub for_each-foldl :
      (t : Scheduler W)
      → Inv o g t
      → (for_each (λ t. t.added_command_bitmap) g.commands.max_index loop_body t).world
        ≡ foldl (λ w c. act c w) t.world (scheduled_commands o g t)
  for_each-foldl t v =
      ap (λ u. u.world) (for_each-scan _ g.commands.max_index loop_body t)
      ∙ scan-foldl g.commands.max_index 0 t (omega arith) v
