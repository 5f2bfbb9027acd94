-- ===== src/Examples/Errors.antt =====
-- Runs of the error controller, on a deque of three places that is a list.
use lateral_root.Prelude.{ℕ, ◌≡◌, refl, ap, true, List, [], ◌∷◌, ◌++◌, arith, length}
use lateral_root.ErrorController.{
  Deque, DequeLaws, tail, but_last, SystemError, add_to_error_list, remove_system_error_at_index,
}
use lateral_root.ErrorController.Rotate.{remove_system_error_at_index-without}
use lateral_root.ErrorController.Laws.{IsValid, add_to_error_list-IsValid}

abbrev error_at : ℕ → SystemError
error_at line = record { description = 1; filename = 2; line_number = line }

abbrev first_of : List SystemError → SystemError
first_of [] = error_at 0
first_of (e ∷ es) = e

abbrev three_places : Deque SystemError (List SystemError)
three_places = record {
  elements = λ q. q;
  get_size = length;
  get_max_size = 3;
  get = λ q i. first_of q;
  append = λ a q. q ++ a ∷ [];
  remove_front = tail;
  remove_back = but_last;
}

three_places-DequeLaws : DequeLaws three_places
three_places-DequeLaws = record {
  size_elements = λ q. refl;
  get_front = λ q x xs e. ap first_of e;
  elements_append = λ q a h. refl;
  elements_remove_front = λ q. refl;
  elements_remove_back = λ q. refl;
}

abbrev full_list : List SystemError
full_list = error_at 10 ∷ error_at 20 ∷ error_at 30 ∷ []

remove_system_error_at_index-without_example :
    ((remove_system_error_at_index three_places 1 full_list).0 ≡ true)
    × ((remove_system_error_at_index three_places 1 full_list).1 ≡ error_at 10 ∷ error_at 30 ∷ [])
remove_system_error_at_index-without_example =
    remove_system_error_at_index-without three_places-DequeLaws 1 full_list (omega arith)

add_to_error_list-IsValid_example :
    IsValid three_places-DequeLaws
      (omega arith)
      (add_to_error_list three_places (error_at 20) full_list)
add_to_error_list-IsValid_example =
    add_to_error_list-IsValid three_places-DequeLaws (omega arith) (error_at 20) full_list
      (record { fits = omega arith; distinct = (refl, (refl, (refl, tt))) })
