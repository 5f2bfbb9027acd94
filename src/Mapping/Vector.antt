-- ===== src/Mapping/Vector.antt =====
-- The vector of commands that the constructor of `CommandMapping` leaves.
use lateral_root.Prelude.{
  ℕ, ◌-◌, ◌≤◌, Option, none, some, List, [], ◌∷◌, ◌++◌, ◌≡◌, refl, ap, sym, ◌∙◌, arith, length,
  length-append, map,
}
use mathlib.Core.List.{append-nil}
use lateral_root.RemoteMapState.{RemoteMapState}
use lateral_root.Mapping.{not_null, drop, construct_mapping}

drop-length :
    (xs ys : List (Option ℕ))
    → length xs ≤ length ys
    → length (drop (length xs) ys) ≡ length ys - length xs
drop-length [] ys h = omega arith
drop-length (x ∷ xs) [] h = absurd (omega arith)
drop-length (x ∷ xs) (y ∷ ys) h = omega (arith, drop-length xs ys (omega arith))

length-not_null : (cs : List (Option ℕ)) → length (not_null cs) ≤ length cs
length-not_null [] = omega arith
length-not_null (none ∷ cs) = omega (arith, length-not_null cs)
length-not_null (some c ∷ cs) = omega (arith, length-not_null cs)

-- The vector of a constructed mapping is as long as the one that was passed in, so `std::remove_if`
-- has removed nothing.
pub length-construct_mapping :
    (cs : List (Option ℕ)) (rms : RemoteMapState)
    → length (construct_mapping cs rms).mapped_commands ≡ length cs
unfolding construct_mapping
length-construct_mapping cs rms = omega (
  arith,
  length-append (not_null cs) (drop (length (not_null cs)) cs),
  drop-length (not_null cs) cs (length-not_null cs),
  length-not_null cs,
)

not_null_self : (cs : List ℕ) → not_null (map some cs ++ none ∷ []) ≡ map some cs
not_null_self [] = refl
not_null_self (c ∷ cs) = ap (λ l. some c ∷ l) (not_null_self cs)

drop-append : (xs ys : List (Option ℕ)) → drop (length xs) (xs ++ ys) ≡ ys
drop-append [] ys = refl
drop-append (x ∷ xs) ys = drop-append xs ys

-- A null pointer behind other commands that are not null stays in the vector of the mapping.
pub construct_mapping_null :
    (cs : List ℕ) (rms : RemoteMapState)
    → (construct_mapping (map some cs ++ none ∷ []) rms).mapped_commands ≡ map some cs ++ none ∷ []
unfolding construct_mapping
construct_mapping_null cs rms =
    rw (not_null_self cs) (ap (λ l. map some cs ++ l) (drop-append (map some cs) (none ∷ [])))

not_null-all : (cs : List ℕ) → not_null (map some cs) ≡ map some cs
not_null-all [] = refl
not_null-all (c ∷ cs) = ap (λ l. some c ∷ l) (not_null-all cs)

-- Without null pointers the vector is the one that was passed in.
pub construct_mapping_lem :
    (cs : List ℕ) (rms : RemoteMapState)
    → (construct_mapping (map some cs) rms).mapped_commands ≡ map some cs
unfolding construct_mapping
construct_mapping_lem cs rms = rw (not_null-all cs) (
    ap (λ l. map some cs ++ l)
      (ap (drop (length (map some cs))) (sym (append-nil (map some cs)))
        ∙ drop-append (map some cs) [])
    ∙ append-nil (map some cs))
