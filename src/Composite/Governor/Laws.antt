-- ===== src/Composite/Governor/Laws.antt =====
-- When a governed command is ready and when it ends, and which of its two commands the command with a
-- fallback ends.
use lateral_root.Prelude.{
  ℕ, ◌≡◌, refl, Bool, true, false, ◌&&◌, ◌||◌, List, [], ◌∷◌, Bool-cases, inl, inr,
}
use lateral_root.Objects.{Objects}
use lateral_root.Composite.Governor.{
  Governors, all_ready, any_finished, GovernorLimitedCommand, GovernorWithFallbackCommand,
  is_ready_limited, is_finished_limited, is_ready_fallback, end_fallback,
}

module _ {W : Type 0} (o : Objects W) (v : Governors W) where
  -- The governors' tests only read.
  pub record OnlyRead : Type 0 where
    pub reads_ready : (x : ℕ) (w : W) → (v.governor_is_ready x w).1 ≡ w
    pub reads_finished : (x : ℕ) (w : W) → (v.governor_is_finished x w).1 ≡ w

  -- Every governor answers that it is ready.
  abbrev pub every_ready : List ℕ → W → Bool
  every_ready [] w = true
  every_ready (x ∷ xs) w = (v.governor_is_ready x w).0 && every_ready xs w

  -- Some governor answers that it is finished.
  abbrev pub some_finished : List ℕ → W → Bool
  some_finished [] w = false
  some_finished (x ∷ xs) w = (v.governor_is_finished x w).0 || some_finished xs w

  pub all_ready_lem : OnlyRead → (xs : List ℕ) (w : W) → all_ready v xs w ≡ (every_ready xs w, w)
  unfolding all_ready
  all_ready_lem r [] w = refl
  all_ready_lem r (x ∷ xs) w = elim (Bool-cases (v.governor_is_ready x w).0) [
    | inl e ↦ rw (e, r.reads_ready x w, all_ready_lem r xs w)
    | inr e ↦ rw (e, r.reads_ready x w)
  ]

  pub any_finished_lem :
      OnlyRead → (xs : List ℕ) (w : W) → any_finished v xs w ≡ (some_finished xs w, w)
  unfolding any_finished
  any_finished_lem r [] w = refl
  any_finished_lem r (x ∷ xs) w = elim (Bool-cases (v.governor_is_finished x w).0) [
    | inl e ↦ rw (e, r.reads_finished x w)
    | inr e ↦ rw (e, r.reads_finished x w, any_finished_lem r xs w)
  ]

  -- If the governors' tests only read, a governed command is ready exactly when every governor and
  -- the command are.
  pub is_ready_limited_lem :
      (q : GovernorLimitedCommand) (w : W)
      → OnlyRead
      → (is_ready_limited o v q w).0 ≡ every_ready q.governors w && (o.is_ready q.command w).0
  unfolding is_ready_limited
  is_ready_limited_lem q w r = elim (Bool-cases (every_ready q.governors w)) [
    | inl e ↦ rw (all_ready_lem r q.governors w, e)
    | inr e ↦ rw (all_ready_lem r q.governors w, e)
  ]

  -- A governed command is finished exactly when one governor or the command is.
  pub is_finished_limited_lem :
      (q : GovernorLimitedCommand) (w : W)
      → OnlyRead
      → (is_finished_limited o v q w).0 ≡ some_finished q.governors w || o.is_finished q.command w
  unfolding is_finished_limited
  is_finished_limited_lem q w r = elim (Bool-cases (some_finished q.governors w)) [
    | inl e ↦ rw (any_finished_lem r q.governors w, e)
    | inr e ↦ rw (any_finished_lem r q.governors w, e)
  ]

  -- If the governed command runs, the governors' tests only read, and not every governor is ready
  -- any more, then a call of `isReady` makes the following `end` end the fallback command, which
  -- does not run.
  pub end_fallback-is_ready :
      (q : GovernorWithFallbackCommand) (w : W) (interrupted : Bool)
      → OnlyRead
      → q.governed_command_selected ≡ true
      → every_ready q.governors w ≡ false
      → let (r, q', u) = is_ready_fallback o v q w in
        end_fallback o v interrupted q' u
        ≡ o.end q.fallback_command interrupted (o.is_ready q.fallback_command w).1
  unfolding is_ready_fallback end_fallback
  end_fallback-is_ready q w interrupted r running e = rw (all_ready_lem r q.governors w, e)
