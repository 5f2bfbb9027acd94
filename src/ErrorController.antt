-- ===== src/ErrorController.antt =====
-- tap/errors/error_controller.cpp and system_error.hpp. The list of errors is a `modm::BoundedDeque`, of
-- which `Deque` holds the operations that the code uses and `DequeLaws` what they do.
pub mod Rotate
pub mod Laws
use lateral_root.Prelude.{
  ℕ, zero, suc, ◌+◌, ◌-◌, ◌<◌, ◌≡◌, Bool, true, false, ◌&&◌, Option, none, some, List, [], ◌∷◌,
  ◌++◌, length, leb, ltb, ◌==◌, ◌!=◌, if◌then◌else◌,
}

-- `elements` is what an iteration over the deque visits.
pub record Deque (A D : Type 0) : Type 0 where
  pub elements : D → List A
  pub get_size : D → ℕ
  pub get_max_size : ℕ
  pub get : D → ℕ → A
  pub append : A → D → D
  pub remove_front : D → D
  pub remove_back : D → D

abbrev pub tail : {A : Type 0} → List A → List A
tail [] = []
tail (x ∷ xs) = xs

abbrev pub but_last : {A : Type 0} → List A → List A
but_last [] = []
but_last (x ∷ []) = []
but_last (x ∷ y ∷ ys) = x ∷ but_last (y ∷ ys)

pub record DequeLaws {A D : Type 0} (d : Deque A D) : Type 0 where
  pub size_elements : (q : D) → d.get_size q ≡ length (d.elements q)
  pub get_front : (q : D) (x : A) (xs : List A) → d.elements q ≡ x ∷ xs → d.get q 0 ≡ x
  pub elements_append :
      (q : D) (a : A)
      → length (d.elements q) < d.get_max_size
      → d.elements (d.append a q) ≡ d.elements q ++ a ∷ []
  pub elements_remove_front : (q : D) → d.elements (d.remove_front q) ≡ tail (d.elements q)
  pub elements_remove_back : (q : D) → d.elements (d.remove_back q) ≡ but_last (d.elements q)

-- The texts are compared by their addresses.
pub record SystemError : Type 0 where
  pub description : ℕ
  pub filename : ℕ
  pub line_number : ℕ

abbrev pub same_error : SystemError → SystemError → Bool
same_error a b =
    a.description == b.description && a.filename == b.filename && a.line_number == b.line_number

-- The loop of `addToErrorList`.
abbrev pub is_added : SystemError → List SystemError → Bool
is_added error [] = false
is_added error (e ∷ es) = if same_error e error then true else is_added error es

module _ {D : Type 0} (d : Deque SystemError D) where
  unfoldable pub add_to_error_list : SystemError → D → D
  add_to_error_list error q =
      if is_added error (d.elements q)
      then q
      else d.append error (if leb d.get_max_size (d.get_size q) then d.remove_front q else q)

  -- The loop of `removeSystemErrorAtIndex`; the first argument is the number of rounds left.
  unfoldable pub rotate : ℕ → ℕ → ℕ → D → D
  rotate zero i index q = q
  rotate (suc rounds) i index q =
      let se = d.get q 0 in
      let q' = d.remove_front q in
      rotate rounds (suc i) index (if i != index then d.append se q' else q')

  unfoldable pub remove_system_error_at_index : ℕ → D → Bool × D
  remove_system_error_at_index index q =
      if leb (d.get_size q) index
      then (false, q)
      else if index == 0
      then (true, d.remove_front q)
      else if index == d.get_size q - 1
      then (true, d.remove_back q)
      else (true, rotate (d.get_size q) 0 index q)

  -- The `while` loop, with fuel; `none` says that it is used up.
  unfoldable pub remove_all_system_errors : ℕ → D → Option D
  remove_all_system_errors zero q = none
  remove_all_system_errors (suc fuel) q =
      let rest = remove_all_system_errors fuel (d.remove_back q) in
      if ltb 0 (d.get_size q) then rest else some q
