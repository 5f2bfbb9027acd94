-- ===== src/ErrorController/Rotate.antt =====
-- Removing an error by rotating the list removes the one at the index.
use lateral_root.Prelude.{
  ℕ, zero, suc, ◌+◌, ◌-◌, ◌≤◌, ◌<◌, ◌≡◌, refl, ap, sym, subst, ◌∙◌, Bool, true, false, List, [],
  ◌∷◌, ◌++◌, arith, ◌==◌, ◌!=◌, leb, ltb, Bool-cases, length, length-append, if◌then◌else◌, inl,
  inr,
}
use mathlib.Core.List.{append-nil, append_assoc}
use lateral_root.ErrorController.{
  Deque, DequeLaws, tail, but_last, SystemError, rotate, remove_system_error_at_index,
}

module _ {A : Type 0} where
  -- The list without its element at an index.
  abbrev pub without : ℕ → List A → List A
  without i [] = []
  without zero (x ∷ xs) = xs
  without (suc i) (x ∷ xs) = x ∷ without i xs

  -- The elements that the loop appends again, from the round `i` on.
  abbrev kept_from : ℕ → ℕ → List A → List A
  kept_from i index [] = []
  kept_from i index (x ∷ xs) =
      if i != index then x ∷ kept_from (suc i) index xs else kept_from (suc i) index xs

  kept_after : (i index : ℕ) (xs : List A) → index < i → kept_from i index xs ≡ xs
  kept_after i index [] h = refl
  kept_after i index (x ∷ xs) h =
      rw (differs) (ap (λ l. x ∷ l) (kept_after (suc i) index xs (omega arith)))
    where
      differs : (i != index) ≡ true
      differs = ground arith

  kept-without : (i k : ℕ) (xs : List A) → kept_from i (i + k) xs ≡ without k xs
  kept-without i k [] = refl
  kept-without i zero (x ∷ xs) = rw (same) (kept_after (suc i) (i + 0) xs (omega arith))
    where
      same : (i != i + 0) ≡ false
      same = ground arith
  kept-without i (suc k) (x ∷ xs) =
      rw (differs) (ap (λ l. x ∷ l) (shifted ∙ kept-without (suc i) k xs))
    where
      differs : (i != i + suc k) ≡ true
      differs = ground arith

      shifted : kept_from (suc i) (i + suc k) xs ≡ kept_from (suc i) (suc i + k) xs
      shifted = ap (λ n. kept_from (suc i) n xs) (omega arith)

  without-last : (xs : List A) → but_last xs ≡ without (length xs - 1) xs
  without-last [] = refl
  without-last (x ∷ []) = refl
  without-last (x ∷ y ∷ ys) =
      ap (λ l. x ∷ l) (without-last (y ∷ ys))
      ∙ ap (λ n. without n (x ∷ y ∷ ys)) {x = suc (suc (length ys) - 1)} (omega arith)

module _ {D : Type 0} {d : Deque SystemError D} (laws : DequeLaws d) where
  rotate-kept :
      (xs ys : List SystemError) (i index : ℕ) (q : D)
      → d.elements q ≡ xs ++ ys
      → length (xs ++ ys) ≤ d.get_max_size
      → d.elements (rotate d (length xs) i index q) ≡ ys ++ kept_from i index xs
  unfolding rotate
  rotate-kept [] ys i index q e h = e ∙ sym (append-nil ys)
  rotate-kept (x ∷ xs) ys i index q e h = elim (Bool-cases (i != index)) [
    | inl keep ↦
        ap branch keep
        ∙ rotate-kept xs (ys ++ x ∷ []) (suc i) index (d.append (d.get q 0) (d.remove_front q))
            moved moved_length
        ∙ append_assoc ys (x ∷ []) (kept_from (suc i) index xs)
        ∙ ap kept (sym keep)
    | inr skip ↦
        ap branch skip
        ∙ rotate-kept xs ys (suc i) index (d.remove_front q) front (omega arith)
        ∙ ap kept (sym skip)
  ]
    where
      branch : Bool → List SystemError
      branch b = d.elements (
          rotate d (length xs) (suc i) index
            (if b then d.append (d.get q 0) (d.remove_front q) else d.remove_front q))

      kept : Bool → List SystemError
      kept b = ys ++ (if b then x ∷ kept_from (suc i) index xs else kept_from (suc i) index xs)

      front : d.elements (d.remove_front q) ≡ xs ++ ys
      front = laws.elements_remove_front q ∙ ap tail e

      moved : d.elements (d.append (d.get q 0) (d.remove_front q)) ≡ xs ++ (ys ++ x ∷ [])
      moved =
          laws.elements_append (d.remove_front q) (d.get q 0) (omega (arith, ap length front, h))
          ∙ ap (λ l. l ++ d.get q 0 ∷ []) front
          ∙ ap (λ a. (xs ++ ys) ++ a ∷ []) (laws.get_front q x (xs ++ ys) e)
          ∙ append_assoc xs ys (x ∷ [])

      moved_length : length (xs ++ (ys ++ x ∷ [])) ≤ d.get_max_size
      moved_length = omega (
        arith,
        length-append xs (ys ++ x ∷ []),
        length-append ys (x ∷ []),
        length-append xs ys,
        h,
      )

  all_rotated :
      (index : ℕ) (q : D)
      → length (d.elements q) ≤ d.get_max_size
      → d.elements (rotate d (d.get_size q) 0 index q) ≡ without index (d.elements q)
  all_rotated index q h =
      ap (λ n. d.elements (rotate d n 0 index q)) (laws.size_elements q)
      ∙ rotate-kept (d.elements q) [] 0 index q (sym (append-nil (d.elements q)))
          (subst (λ l. length l ≤ d.get_max_size) (sym (append-nil (d.elements q))) h)
      ∙ ap (λ n. kept_from 0 n (d.elements q)) {y = 0 + index} (omega arith)
      ∙ kept-without 0 index (d.elements q)

  without-front : (xs : List SystemError) → tail xs ≡ without 0 xs
  without-front [] = refl
  without-front (x ∷ xs) = refl

  without-outside : (index : ℕ) (xs : List SystemError) → length xs ≤ index → without index xs ≡ xs
  without-outside index [] h = refl
  without-outside zero (x ∷ xs) h = absurd (omega arith)
  without-outside (suc index) (x ∷ xs) h = ap (λ l. x ∷ l) (without-outside index xs (omega arith))

  -- `removeSystemErrorAtIndex` says whether the index is in the list. The errors that are left are those
  -- of the list without the one at the index, in the same order, and so all of them if it is not in the
  -- list. The deque obeys its laws, and holds no more elements than it has room for.
  pub remove_system_error_at_index-without :
      (index : ℕ) (q : D)
      → length (d.elements q) ≤ d.get_max_size
      → ((remove_system_error_at_index d index q).0 ≡ ltb index (length (d.elements q)))
        × (d.elements (remove_system_error_at_index d index q).1 ≡ without index (d.elements q))
  unfolding remove_system_error_at_index
  remove_system_error_at_index-without index q h = elim (Bool-cases (leb (d.get_size q) index)) [
    | inl outside ↦ rw outside (
      ground (arith, laws.size_elements q),
      sym (without-outside index (d.elements q) (ground (arith, laws.size_elements q))),
    )
    | inr inside ↦ elim (Bool-cases (index == 0)) [
      | inl first ↦
          rw (inside, first)
            (
              ground (arith, laws.size_elements q),
              laws.elements_remove_front q
                  ∙ without-front (d.elements q)
                  ∙ ap (λ n. without n (d.elements q)) (ground arith),
            )
      | inr later ↦ elim (Bool-cases (index == d.get_size q - 1)) [
        | inl end ↦
            rw (inside, later, end)
              (
                ground (arith, laws.size_elements q),
                laws.elements_remove_back q
                    ∙ without-last (d.elements q)
                    ∙ ap (λ n. without n (d.elements q)) (ground (arith, laws.size_elements q)),
              )
        | inr middle ↦
            rw (inside, later, middle) (ground (arith, laws.size_elements q), all_rotated index q h)
      ]
    ]
  ]
