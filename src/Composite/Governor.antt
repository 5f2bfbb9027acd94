-- ===== src/Composite/Governor.antt =====
-- tap/control/governor: `GovernorLimitedCommand` and `GovernorWithFallbackCommand`. The governors are
-- derived in robot code; their methods are not const, and are a parameter.
pub mod Laws
use lateral_root.Prelude.{
  ℕ, Bool, true, false, not, ◌&&◌, ◌||◌, List, [], ◌∷◌, foldl, if◌then◌else◌,
}
use lateral_root.Objects.{Objects}

-- `CommandGovernorInterface`
pub record Governors (W : Type 0) : Type 0 where
  pub on_governed_command_initialized : ℕ → W → W
  pub governor_is_ready : ℕ → W → Bool × W
  pub governor_is_finished : ℕ → W → Bool × W

module _ {W : Type 0} (v : Governors W) where
  -- `std::all_of` over `isReady`, which stops at the first that is not ready.
  unfoldable pub all_ready : List ℕ → W → Bool × W
  all_ready [] w = (true, w)
  all_ready (x ∷ xs) w =
      let (ready, w') = v.governor_is_ready x w in
      let rest = all_ready xs w' in if ready then rest else (false, w')

  -- `std::any_of` over `isFinished`, which stops at the first that is finished.
  unfoldable pub any_finished : List ℕ → W → Bool × W
  any_finished [] w = (false, w)
  any_finished (x ∷ xs) w =
      let (finished, w') = v.governor_is_finished x w in
      let rest = any_finished xs w' in if finished then (true, w') else rest

pub record GovernorLimitedCommand : Type 0 where
  pub command : ℕ
  pub governors : List ℕ

pub record GovernorWithFallbackCommand : Type 0 where
  pub governed_command_selected : Bool
  pub command_when_governors_ready : ℕ
  pub fallback_command : ℕ
  pub governors : List ℕ
  pub stop_fallback_command_if_governors_ready : Bool

-- The second of two tests is made only if the first one leaves the result open.
abbrev pub and_then : {W : Type 0} → Bool × W → (W → Bool × W) → Bool × W
and_then (true, w) test = test w
and_then (false, w) test = (false, w)

abbrev pub or_else : {W : Type 0} → Bool × W → (W → Bool × W) → Bool × W
or_else (true, w) test = (true, w)
or_else (false, w) test = test w

module _ {W : Type 0} (o : Objects W) (v : Governors W) where
  unfoldable pub is_ready_limited : GovernorLimitedCommand → W → Bool × W
  is_ready_limited q w = and_then (all_ready v q.governors w) (o.is_ready q.command)

  unfoldable pub initialize_limited : GovernorLimitedCommand → W → W
  initialize_limited q w =
      foldl (λ u x. v.on_governed_command_initialized x u) (o.initialize q.command w) q.governors

  unfoldable pub execute_limited : GovernorLimitedCommand → W → W
  execute_limited q w = o.execute q.command w

  unfoldable pub end_limited : Bool → GovernorLimitedCommand → W → W
  end_limited interrupted q w = o.end q.command interrupted w

  unfoldable pub is_finished_limited : GovernorLimitedCommand → W → Bool × W
  is_finished_limited q w =
      or_else (any_finished v q.governors w) (λ u. (o.is_finished q.command u, u))

  abbrev pub selected : GovernorWithFallbackCommand → ℕ
  selected q =
      if q.governed_command_selected then q.command_when_governors_ready else q.fallback_command

  -- `isReady` selects one of the two commands.
  unfoldable pub is_ready_fallback :
      GovernorWithFallbackCommand → W → Bool × GovernorWithFallbackCommand × W
  is_ready_fallback q w =
      let (ready, w') = all_ready v q.governors w in
      let q' = record q { governed_command_selected = ready } in
      let (r, w₂) = o.is_ready (selected q') w' in (r, q', w₂)

  unfoldable pub initialize_fallback : GovernorWithFallbackCommand → W → W
  initialize_fallback q w = o.initialize (selected q) w

  unfoldable pub execute_fallback : GovernorWithFallbackCommand → W → W
  execute_fallback q w = o.execute (selected q) w

  unfoldable pub end_fallback : Bool → GovernorWithFallbackCommand → W → W
  end_fallback interrupted q w = o.end (selected q) interrupted w

  unfoldable pub is_finished_fallback : GovernorWithFallbackCommand → W → Bool × W
  is_finished_fallback q w =
      if q.governed_command_selected
      then or_else (o.is_finished q.command_when_governors_ready w, w) (any_finished v q.governors)
      else or_else (o.is_finished q.fallback_command w, w)
          (λ u.
            if q.stop_fallback_command_if_governors_ready
            then all_ready v q.governors u
            else (false, u))
