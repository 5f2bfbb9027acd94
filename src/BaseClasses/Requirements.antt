-- ===== src/BaseClasses/Requirements.antt =====
-- The bitmap that the calls of `addSubsystemRequirement` of a command build up.
use Prim.Native.Nat.{bit_or}
use lateral_root.Prelude.{
  ℕ, ◌≤◌, ◌<◌, ◌^◌, ◌≡◌, ◌↔◌, ◌⊎◌, refl, true, false, Option, none, some, List, [], ◌∷◌, arith, ltb,
  inl, inr,
}
use lateral_root.Bits.{testbit, testbit-bit_or}
use lateral_root.Bits.{pow_bit}
use lateral_root.BaseClasses.{Command, add_subsystem_requirement}

-- The calls for a list of subsystems.
unfoldable pub add_requirements : ℕ → List (Option ℕ) → Command → Option Command
add_requirements width [] c = some c
add_requirements width (p ∷ ps) c = elim (add_subsystem_requirement width p c) [
  | none ↦ none
  | some c' ↦ add_requirements width ps c'
]

-- The identifiers fit in an `unsigned long`.
abbrev pub AreBelow : ℕ → List (Option ℕ) → Type 0
AreBelow width [] = Unit {0}
AreBelow width (none ∷ ps) = AreBelow width ps
AreBelow width (some i ∷ ps) = (i < width) × AreBelow width ps

-- A subsystem of the list has the identifier.
abbrev pub HasId : ℕ → List (Option ℕ) → Type 0
HasId k [] = ⊥
HasId k (none ∷ ps) = HasId k ps
HasId k (some i ∷ ps) = (i ≡ k) ⊎ HasId k ps

bit_set : (r i k : ℕ) → (testbit (bit_or r (2 ^ i)) k ≡ true) ↔ ((testbit r k ≡ true) ⊎ (i ≡ k))
bit_set r i k = ground (arith, testbit-bit_or r (2 ^ i) k, pow_bit i k)

-- The command requires exactly the subsystems that were passed in, beside those that it required before,
-- if their identifiers are below the number of bits of an `unsigned long`.
pub add_requirements-HasId :
    (width : ℕ) (ps : List (Option ℕ)) (c : Command)
    → AreBelow width ps
    → (c' : Command) × (add_requirements width ps c ≡ some c')
      × ((k : ℕ)
          → (testbit c'.requirements_bitwise k ≡ true)
            ↔ ((testbit c.requirements_bitwise k ≡ true) ⊎ HasId k ps))
unfolding add_requirements add_subsystem_requirement
add_requirements-HasId width [] c below =
    (c, refl, λ k. (inl, λ x. elim x [ inl e ↦ e | inr n ↦ absurd n ]))
add_requirements-HasId width (none ∷ ps) c below = add_requirements-HasId width ps c below
add_requirements-HasId width (some i ∷ ps) c below =
    let (c', e, iff) =
      add_requirements-HasId width ps
        (record c { requirements_bitwise = bit_or c.requirements_bitwise (2 ^ i) }) below.1 in
    (
      c',
      rw (add_requirements, fits) e,
      λ k. (
        (λ e. elim ((iff k).0 e) [
          | inl old ↦ elim ((bit_set c.requirements_bitwise i k).0 old) [
            | inl x ↦ inl x
            | inr x ↦ inr (inl x)
          ]
          | inr rest ↦ inr (inr rest)
        ]),
        (λ x. elim x [
          | inl old ↦ (iff k).1 (inl ((bit_set c.requirements_bitwise i k).1 (inl old)))
          | inr new ↦ elim new [
            | inl here ↦ (iff k).1 (inl ((bit_set c.requirements_bitwise i k).1 (inr here)))
            | inr rest ↦ (iff k).1 (inr rest)
          ]
        ]),
      ),
    )
  where
    fits : ltb i width ≡ true
    fits = ground (arith, below.0)

-- A subsystem whose identifier is the number of bits of an `unsigned long` or more cannot be required:
-- the shift is undefined.
pub add_subsystem_requirement-undefined :
    (width i : ℕ) (c : Command) → width ≤ i → add_subsystem_requirement width (some i) c ≡ none
unfolding add_subsystem_requirement
add_subsystem_requirement-undefined width i c h = rw (misfits)
  where
    misfits : ltb i width ≡ false
    misfits = ground arith
