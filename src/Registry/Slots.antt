-- ===== src/Registry/Slots.antt =====
-- The search of the registrars for the lowest index that holds the null pointer.
use lateral_root.Prelude.{
  ℕ, zero, suc, ◌<◌, ◌≡◌, ◌≢◌, refl, ap, subst, inl, inr, Option, none, some, List, [], ◌∷◌, arith,
  length, get_or, Option-cases,
}
use mathlib.Core.Option

unfoldable pub lowest_null : List (Option ℕ) → Option ℕ
lowest_null [] = none
lowest_null (none ∷ slots) = some zero
lowest_null (some object ∷ slots) = Option.map suc (lowest_null slots)

-- The index that is found holds the null pointer, lies in the array, and every lower one is in use.
pub record IsLowest (slots : List (Option ℕ)) (i : ℕ) : Type 0 where
  pub inside : i < length slots
  pub null : get_or slots i none ≡ none
  pub below : (j : ℕ) → j < i → get_or slots j none ≢ none

IsLowest-suc :
    {slots : List (Option ℕ)} {i : ℕ} (object : ℕ)
    → IsLowest slots i
    → IsLowest (some object ∷ slots) (suc i)
IsLowest-suc {slots} {i} object h = record { inside = omega arith; null = h.null; below = below }
  where
    below : (j : ℕ) → j < suc i → get_or (some object ∷ slots) j none ≢ none
    below zero p = λ e. cc
    below (suc j) p = h.below j (omega arith)

IsLowest-zero : (slots : List (Option ℕ)) → IsLowest (none ∷ slots) zero
IsLowest-zero slots = record {
  inside = omega arith;
  null = refl;
  below = λ j p. absurd (omega arith);
}

pub lowest_null-IsLowest :
    (slots : List (Option ℕ)) (i : ℕ) → lowest_null slots ≡ some i → IsLowest slots i
unfolding lowest_null
lowest_null-IsLowest [] i e = cc
lowest_null-IsLowest (none ∷ slots) i e =
    subst (IsLowest (none ∷ slots)) {x = zero} (cc) (IsLowest-zero slots)
lowest_null-IsLowest (some object ∷ slots) i e = elim (Option-cases (lowest_null slots)) [
  | inl missing ↦ cc
  | inr (j, found) ↦
      subst (IsLowest (some object ∷ slots)) (ground (arith, ap (Option.map suc) found))
        (IsLowest-suc object (lowest_null-IsLowest slots j found))
]

-- A null pointer in the array is enough for the search to succeed.
pub lowest_null-found :
    (slots : List (Option ℕ)) (i : ℕ)
    → i < length slots
    → get_or slots i none ≡ none
    → (j : ℕ) × (lowest_null slots ≡ some j)
unfolding lowest_null
lowest_null-found [] i h e = absurd (omega arith)
lowest_null-found (none ∷ slots) i h e = (0, refl)
lowest_null-found (some object ∷ slots) zero h e = cc
lowest_null-found (some object ∷ slots) (suc i) h e =
    let (j, found) = lowest_null-found slots i (omega arith) e in (suc j, rw found)
