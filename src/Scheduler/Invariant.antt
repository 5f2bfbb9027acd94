-- ===== src/Scheduler/Invariant.antt =====
-- What holds of a scheduler between two calls: which commands are scheduled, and that the bitmaps of
-- subsystems are in step with them.
pub mod Commands
pub mod Remove
pub mod Interrupt
pub mod Add
pub mod Loops
pub mod Disconnect
pub mod Run
pub mod Calls
use lateral_root.Prelude.{ℕ, ◌<◌, ◌≡◌, ◌≢◌, Bool, true, false, Option, some}
use lateral_root.Bits.{testbit, word}
use lateral_root.Registry.{at}
use lateral_root.Registry.Laws.{IsValid}
use lateral_root.Objects.{Objects, Statics}
use lateral_root.Scheduler.{Scheduler}

module _ {W : Type 0} (o : Objects W) (g : Statics) where
  -- The command was constructed, and not destroyed since.
  abbrev pub IsConstructed : ℕ → Type 0
  IsConstructed c = at g.commands (o.command_id c) ≡ some c

  -- The registrars hold objects at their own identifiers, and the commands of the subsystems are
  -- constructed.
  pub record WellFormed : Type 0 where
    pub commands_valid : IsValid g.commands
    pub subsystems_valid : IsValid g.subsystems
    pub command_ids : (i c : ℕ) → at g.commands i ≡ some c → o.command_id c ≡ i
    pub subsystem_ids : (i b : ℕ) → at g.subsystems i ≡ some b → o.subsystem_id b ≡ i
    pub requirement_words : (c : ℕ) → o.requirements c < word
    pub defaults : (b c : ℕ) (w : W) → o.default_command b w ≡ some c → IsConstructed c
    pub tests : (b c : ℕ) (w : W) → o.test_command b w ≡ some c → IsConstructed c

  abbrev pub Requires : ℕ → ℕ → Type 0
  Requires c k = testbit (o.requirements c) k ≡ true

  -- A command whose bit is set in a bitmap of added commands.
  abbrev pub IsAdded : ℕ → ℕ → Type 0
  IsAdded added c = IsConstructed c × (testbit added (o.command_id c) ≡ true)

  pub record Consistent (registered_subsystems associated added : ℕ) (faulted : Bool) : Type 0 where
    pub registered_word : registered_subsystems < word
    pub associated_word : associated < word
    pub added_word : added < word
    -- Every bit of the two bitmaps that are iterated over has an object.
    pub commands_held : (i : ℕ) → testbit added i ≡ true → (c : ℕ) × (at g.commands i ≡ some c)
    pub subsystems_held :
        (i : ℕ) → testbit registered_subsystems i ≡ true → (b : ℕ) × (at g.subsystems i ≡ some b)
    -- No two scheduled commands use one subsystem.
    pub exclusive :
        (c d k : ℕ) → IsAdded added c → IsAdded added d → Requires c k → Requires d k → c ≡ d
    -- The associated subsystems are those that scheduled commands use.
    pub covered : (c k : ℕ) → IsAdded added c → Requires c k → testbit associated k ≡ true
    pub used : (k : ℕ) → testbit associated k ≡ true → (c : ℕ) × IsAdded added c × Requires c k
    -- A scheduled command uses registered subsystems only, and at least one.
    pub registered :
        (c k : ℕ) → IsAdded added c → Requires c k → testbit registered_subsystems k ≡ true
    pub busy : (c : ℕ) → IsAdded added c → o.requirements c ≢ 0
    pub sound : faulted ≡ false

  abbrev pub IsScheduled : Scheduler W → ℕ → Type 0
  IsScheduled s = IsAdded s.added_command_bitmap

  abbrev pub Inv : Scheduler W → Type 0
  Inv s =
      Consistent s.registered_subsystem_bitmap s.subsystems_associated_with_command_bitmap
        s.added_command_bitmap s.null_dereferenced
