-- ===== src/ErrorController/Laws.antt =====
-- Adding errors keeps at most one of each kind, and drops the oldest one when there is no room.
use lateral_root.Prelude.{
  ℕ, zero, suc, ◌-◌, ◌≤◌, ◌<◌, ◌≡◌, refl, ap, sym, subst, ◌∙◌, true, false, some, List, [], ◌∷◌,
  ◌++◌, arith, leb, ltb, Bool-cases, length, length-append, if◌then◌else◌, inl, inr,
}
use lateral_root.ErrorController.{
  Deque, DequeLaws, tail, but_last, SystemError, same_error, is_added, add_to_error_list,
  remove_all_system_errors,
}

-- No error of the list is the same as another one.
abbrev pub AreDistinct : List SystemError → Type 0
AreDistinct [] = Unit {0}
AreDistinct (e ∷ es) = (is_added e es ≡ false) × AreDistinct es

same_error_sym : (a b : SystemError) → same_error a b ≡ same_error b a
same_error_sym a b = ground arith

-- Neither the first error of a list is the same as another one, nor one of the rest.
is_added_parts :
    (e x : SystemError) (es : List SystemError)
    → is_added e (x ∷ es) ≡ false
    → (same_error x e ≡ false) × (is_added e es ≡ false)
is_added_parts e x es h = elim (Bool-cases (same_error x e)) [
  | inl s ↦ cc (h, s)
  | inr s ↦ (s, ap (λ b. if b then true else is_added e es) (sym s) ∙ h)
]

is_added-append :
    (e a : SystemError) (es : List SystemError)
    → is_added e es ≡ false
    → same_error a e ≡ false
    → is_added e (es ++ a ∷ []) ≡ false
is_added-append e a [] h ne = rw ne
is_added-append e a (x ∷ es) h ne =
    let (differs, rest) = is_added_parts e x es h in rw differs (is_added-append e a es rest ne)

AreDistinct-append :
    (a : SystemError) (es : List SystemError)
    → AreDistinct es
    → is_added a es ≡ false
    → AreDistinct (es ++ a ∷ [])
AreDistinct-append a [] h new = (refl, tt)
AreDistinct-append a (e ∷ es) h new =
    let (differs, rest) = is_added_parts a e es new in
    (is_added-append e a es h.0 (same_error_sym a e ∙ differs), AreDistinct-append a es h.1 rest)

AreDistinct-tail : (es : List SystemError) → AreDistinct es → AreDistinct (tail es)
AreDistinct-tail [] h = tt
AreDistinct-tail (e ∷ es) h = h.1

is_added-tail :
    (a : SystemError) (es : List SystemError) → is_added a es ≡ false → is_added a (tail es) ≡ false
is_added-tail a [] h = refl
is_added-tail a (e ∷ es) h = (is_added_parts a e es h).1

length-tail : (es : List SystemError) → length (tail es) ≡ length es - 1
length-tail [] = refl
length-tail (e ∷ es) = omega arith

-- The errors after an error was added.
abbrev pub added : ℕ → SystemError → List SystemError → List SystemError
added max_size error es =
    if is_added error es
    then es
    else (if leb max_size (length es) then tail es else es) ++ error ∷ []

module _ {D : Type 0} {d : Deque SystemError D} (laws : DequeLaws d)
    (room : 0 < d.get_max_size) where
  -- `addToErrorList` changes nothing if the same error is in the list. Else it appends the error, after
  -- it dropped the oldest one if the list is full. The deque obeys its laws and has room for an element,
  -- and holds no more elements than it has room for.
  pub add_to_error_list-added :
      (error : SystemError) (q : D)
      → length (d.elements q) ≤ d.get_max_size
      → d.elements (add_to_error_list d error q) ≡ added d.get_max_size error (d.elements q)
  unfolding add_to_error_list
  add_to_error_list-added error q h = elim (Bool-cases (is_added error (d.elements q))) [
    | inl old ↦ rw old
    | inr new ↦ elim (Bool-cases (leb d.get_max_size (length (d.elements q)))) [
      | inl full ↦
          rw (new, laws.size_elements q, full)
            (laws.elements_append (d.remove_front q) error (
                omega (
                  arith,
                  ap length (laws.elements_remove_front q),
                  length-tail (d.elements q),
                  room,
                  h,
                ))
              ∙ ap (λ l. l ++ error ∷ []) (laws.elements_remove_front q))
      | inr free ↦
          rw (new, laws.size_elements q, free) (laws.elements_append q error (ground arith))
    ]
  ]

  -- The invariant of the list.
  pub record IsValid (es : List SystemError) : Type 0 where
    pub fits : length es ≤ d.get_max_size
    pub distinct : AreDistinct es

  -- Adding an error keeps the list within its size and without two errors that are the same. The deque
  -- obeys its laws and has room for an element.
  pub add_to_error_list-IsValid :
      (error : SystemError) (q : D)
      → IsValid (d.elements q)
      → IsValid (d.elements (add_to_error_list d error q))
  add_to_error_list-IsValid error q v =
      subst IsValid (sym (add_to_error_list-added error q v.fits))
        (elim (Bool-cases (is_added error (d.elements q))) [
          | inl old ↦ rw old v
          | inr new ↦ elim (Bool-cases (leb d.get_max_size (length (d.elements q)))) [
            | inl full ↦
                rw (new, full)
                  (record {
                    fits = omega (
                      arith,
                      length-append (tail (d.elements q)) (error ∷ []),
                      length-tail (d.elements q),
                      room,
                      v.fits,
                    );
                    distinct =
                        AreDistinct-append error (tail (d.elements q))
                          (AreDistinct-tail (d.elements q) v.distinct)
                          (is_added-tail error (d.elements q) new);
                  })
            | inr free ↦
                rw (new, free)
                  (record {
                    fits = ground (arith, length-append (d.elements q) (error ∷ []));
                    distinct = AreDistinct-append error (d.elements q) v.distinct new;
                  })
          ]
        ])

length-but_last : {A : Type 0} (x : A) (xs : List A) → length (but_last (x ∷ xs)) ≡ length xs
length-but_last x [] = refl
length-but_last x (y ∷ ys) = ap suc (length-but_last y ys)

module _ {D : Type 0} {d : Deque SystemError D} (laws : DequeLaws d) where
  -- `removeAllSystemErrors` ends with an empty list; fuel above the number of errors is enough. The
  -- deque obeys its laws.
  pub remove_all_system_errors-empty :
      (fuel : ℕ) (q : D) (es : List SystemError)
      → d.elements q ≡ es
      → length es < fuel
      → (q' : D) × (remove_all_system_errors d fuel q ≡ some q') × (d.elements q' ≡ [])
  unfolding remove_all_system_errors
  remove_all_system_errors-empty zero q es e h = absurd (omega arith)
  remove_all_system_errors-empty (suc fuel) q [] e h = (q, rw (laws.size_elements q, e), e)
  remove_all_system_errors-empty (suc fuel) q (x ∷ xs) e h =
      let shorter = laws.elements_remove_back q ∙ ap but_last e in
      let (q', r, empty) =
        remove_all_system_errors-empty fuel (d.remove_back q) (but_last (x ∷ xs)) shorter
          (omega (arith, length-but_last x xs)) in
      (q', rw (laws.size_elements q, e, positive) r, empty)
    where
      positive : ltb 0 (suc (length xs)) ≡ true
      positive = ground arith
