-- ===== src/Scheduler/Invariant/Commands.antt =====
-- Removing and adding a command keep the invariant of the scheduler.
use Prim.Native.Nat.{bit_and, bit_or}
use native.Mathlib.Decide.{dec_lt, ℕ_discrete}
use lateral_root.Prelude.{
  ℕ, ◌<◌, ◌≡◌, ◌≢◌, sym, ap, subst, ◌∙◌, Bool, true, false, not, ◌&&◌, ◌||◌, some, arith, ◌==◌,
  Bool-cases, inl, inr, ◌⊎◌,
}
use lateral_root.Bits.{testbit, word, one_hot, complement, testbit-bit_or}
use lateral_root.Bits.Sets.{testbit-one_hot, one_hot-lt, testbit-clear, bit_and-lt, bit_or-lt}
use lateral_root.Registry.{at}
use lateral_root.Objects.{Objects, Statics}
use lateral_root.Scheduler.Invariant.{WellFormed, IsConstructed, Requires, IsAdded, Consistent}

module _ {W : Type 0} {o : Objects W} {g : Statics} (f : WellFormed o g) where
  -- An identifier in use is below the maximum, and so below 64.
  pub index_lt_max : (i c : ℕ) → at g.commands i ≡ some c → i < g.commands.max_index
  index_lt_max i c e = elim (dec_lt i g.commands.max_index) [
    | yes h ↦ h
    | no h ↦ cc (f.commands_valid.free i (omega arith))
  ]

  pub index_lt : (i c : ℕ) → at g.commands i ≡ some c → i < 64
  index_lt i c e = omega (arith, index_lt_max i c e, f.commands_valid.bounded)

  -- Two constructed commands with one identifier are one.
  pub same_id :
      (c d : ℕ)
      → IsConstructed o g c
      → IsConstructed o g d
      → o.command_id c ≡ o.command_id d
      → c ≡ d
  same_id c d hc hd e = cc

  module _ (c : ℕ) (here : IsConstructed o g c) (added associated : ℕ) (added_word : added < word)
      (associated_word : associated < word) where
    cleared_added :
        (i : ℕ)
        → testbit (bit_and added (complement (one_hot (o.command_id c)))) i
          ≡ (testbit added i && not (o.command_id c == i))
    cleared_added i =
        rw (← testbit-one_hot (o.command_id c) i (index_lt _ c here))
          (testbit-clear added (one_hot (o.command_id c)) i added_word (one_hot-lt _))

    cleared_associated :
        (k : ℕ)
        → testbit (bit_and associated (complement (o.requirements c))) k
          ≡ (testbit associated k && not (testbit (o.requirements c) k))
    cleared_associated k =
        testbit-clear associated (o.requirements c) k associated_word (f.requirement_words c)

  -- The bitmaps after the command `c` ended.
  module _ (c : ℕ) {r u a : ℕ} {n : Bool} (v : Consistent o g r u a n)
      (c_in : IsAdded o g a c) where
    abbrev pub added_left : ℕ
    added_left = bit_and a (complement (one_hot (o.command_id c)))

    abbrev pub associated_left : ℕ
    associated_left = bit_and u (complement (o.requirements c))

    -- What is still scheduled was scheduled, and is another command.
    pub still :
        (d : ℕ) → IsAdded o g added_left d → IsAdded o g a d × (o.command_id c ≢ o.command_id d)
    still d (hd, b) = (
      (
        hd,
        ground (arith, cleared_added c c_in.0 a u v.added_word v.associated_word (o.command_id d)),
      ),
      (λ e.
          ground
            (arith, cleared_added c c_in.0 a u v.added_word v.associated_word (o.command_id d))),
    )

    pub stays : (d : ℕ) → IsAdded o g a d → c ≢ d → IsAdded o g added_left d
    stays d (hd, b) ne = (
      hd,
      elim (ℕ_discrete (o.command_id c) (o.command_id d)) [
        | yes e ↦ absurd (ne (same_id c d c_in.0 hd e))
        | no e ↦
            ground
              (arith, cleared_added c c_in.0 a u v.added_word v.associated_word (o.command_id d))
      ],
    )

    freed :
        (k : ℕ) → testbit associated_left k ≡ (testbit u k && not (testbit (o.requirements c) k))
    freed k = cleared_associated c c_in.0 a u v.added_word v.associated_word k

    unschedule-covered :
        (d k : ℕ) → IsAdded o g added_left d → Requires o g d k → testbit associated_left k ≡ true
    unschedule-covered d k sd q =
        let (before, ne) = still d sd in
        elim (Bool-cases (testbit (o.requirements c) k)) [
          | inl e ↦ absurd (ne (ap o.command_id (v.exclusive c d k c_in before e q)))
          | inr e ↦ ground (arith, freed k, v.covered d k before q)
        ]

    unschedule-used :
        (k : ℕ)
        → testbit associated_left k ≡ true
        → (d : ℕ) × IsAdded o g added_left d × Requires o g d k
    unschedule-used k e =
        let (d, sd, q) = v.used k (ground (arith, freed k)) in
        (d, stays d sd (λ p. ground (arith, freed k, ap (λ x. testbit (o.requirements x) k) p)), q)

    pub unschedule-Consistent : Consistent o g r associated_left added_left n
    unschedule-Consistent = record {
      registered_word = v.registered_word;
      associated_word = bit_and-lt u _ v.associated_word;
      added_word = bit_and-lt a _ v.added_word;
      commands_held = λ i e.
          v.commands_held i
            (ground (arith, cleared_added c c_in.0 a u v.added_word v.associated_word i));
      subsystems_held = v.subsystems_held;
      exclusive = λ d e k sd se. v.exclusive d e k (still d sd).0 (still e se).0;
      covered = unschedule-covered;
      used = unschedule-used;
      registered = λ d k sd. v.registered d k (still d sd).0;
      busy = λ d sd. v.busy d (still d sd).0;
      sound = v.sound;
    }

  -- The bitmaps after the command `c` was added, when no scheduled command uses its subsystems.
  module _ (c : ℕ) {r u a : ℕ} {n : Bool} (v : Consistent o g r u a n) (here : IsConstructed o g c)
      (needs : o.requirements c ≢ 0) (subset : (k : ℕ) → Requires o g c k → testbit r k ≡ true)
      (free : (d k : ℕ)
        → IsAdded o g a d
        → Requires o g c k
        → testbit (o.requirements d) k ≡ false) where
    abbrev pub added_now : ℕ
    added_now = bit_or a (one_hot (o.command_id c))

    abbrev pub associated_now : ℕ
    associated_now = bit_or u (o.requirements c)

    bit_after : (i : ℕ) → testbit added_now i ≡ (testbit a i || (o.command_id c == i))
    bit_after i =
        rw (← testbit-one_hot (o.command_id c) i (index_lt _ c here))
          (testbit-bit_or a (one_hot (o.command_id c)) i)

    use_after : (k : ℕ) → testbit associated_now k ≡ (testbit u k || testbit (o.requirements c) k)
    use_after k = testbit-bit_or u (o.requirements c) k

    pub old_or_new : (d : ℕ) → IsAdded o g added_now d → IsAdded o g a d ⊎ (d ≡ c)
    old_or_new d (hd, b) = elim (Bool-cases (testbit a (o.command_id d))) [
      | inl e ↦ inl (hd, e)
      | inr e ↦ inr (same_id d c hd here (ground (arith, bit_after (o.command_id d))))
    ]

    pub now-IsAdded : IsAdded o g added_now c
    now-IsAdded = (here, ground (arith, bit_after (o.command_id c)))

    pub kept : (d : ℕ) → IsAdded o g a d → IsAdded o g added_now d
    kept d (hd, b) = (hd, ground (arith, bit_after (o.command_id d)))

    clash : (d k : ℕ) → IsAdded o g a d → Requires o g c k → testbit (o.requirements d) k ≢ true
    clash d k sd q p = cc (free d k sd q)

    to_new : (d k : ℕ) → d ≡ c → Requires o g d k → Requires o g c k
    to_new d k e q = subst (λ x. Requires o g x k) e q

    schedule-held : (i : ℕ) → testbit added_now i ≡ true → (d : ℕ) × (at g.commands i ≡ some d)
    schedule-held i e = elim (Bool-cases (testbit a i)) [
      | inl old ↦ v.commands_held i old
      | inr new ↦ (c, subst (λ j. at g.commands j ≡ some c) (ground (arith, bit_after i)) here)
    ]

    schedule-exclusive :
        (d e k : ℕ)
        → IsAdded o g added_now d
        → IsAdded o g added_now e
        → Requires o g d k
        → Requires o g e k
        → d ≡ e
    schedule-exclusive d e k sd se q t = elim (old_or_new d sd) [
      | inl d_old ↦ elim (old_or_new e se) [
        | inl e_old ↦ v.exclusive d e k d_old e_old q t
        | inr e_new ↦ absurd (clash d k d_old (to_new e k e_new t) q)
      ]
      | inr d_new ↦ elim (old_or_new e se) [
        | inl e_old ↦ absurd (clash e k e_old (to_new d k d_new q) t)
        | inr e_new ↦ d_new ∙ sym e_new
      ]
    ]

    schedule-covered :
        (d k : ℕ) → IsAdded o g added_now d → Requires o g d k → testbit associated_now k ≡ true
    schedule-covered d k sd q = elim (old_or_new d sd) [
      | inl old ↦ ground (arith, use_after k, v.covered d k old q)
      | inr new ↦ ground (arith, use_after k, to_new d k new q)
    ]

    schedule-used :
        (k : ℕ)
        → testbit associated_now k ≡ true
        → (d : ℕ) × IsAdded o g added_now d × Requires o g d k
    schedule-used k e = elim (Bool-cases (testbit u k)) [
      | inl old ↦ let (d, sd, q) = v.used k old in (d, kept d sd, q)
      | inr new ↦ (c, now-IsAdded, ground (arith, use_after k))
    ]

    schedule-registered :
        (d k : ℕ) → IsAdded o g added_now d → Requires o g d k → testbit r k ≡ true
    schedule-registered d k sd q = elim (old_or_new d sd) [
      | inl old ↦ v.registered d k old q
      | inr new ↦ subset k (to_new d k new q)
    ]

    schedule-busy : (d : ℕ) → IsAdded o g added_now d → o.requirements d ≢ 0
    schedule-busy d sd = elim (old_or_new d sd) [ inl old ↦ v.busy d old | inr new ↦ rw new needs ]

    pub schedule-Consistent : Consistent o g r associated_now added_now n
    schedule-Consistent = record {
      registered_word = v.registered_word;
      associated_word = bit_or-lt u _ v.associated_word (f.requirement_words c);
      added_word = bit_or-lt a _ v.added_word (one_hot-lt _);
      commands_held = schedule-held;
      subsystems_held = v.subsystems_held;
      exclusive = schedule-exclusive;
      covered = schedule-covered;
      used = schedule-used;
      registered = schedule-registered;
      busy = schedule-busy;
      sound = v.sound;
    }
