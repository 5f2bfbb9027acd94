-- ===== src/Scroll/Window.antt =====
-- The window of entries that a menu shows follows its cursor.
use lateral_root.Prelude.{
  ℕ, ◌+◌, ◌-◌, ◌<◌, ◌≤◌, ◌≡◌, ◌⊎◌, refl, Bool, true, false, not, List, arith, ltb, leb, min,
  if◌then◌else◌, Bool-cases, inl, inr,
}
use lateral_root.Prelude.Int.{pos, ◌+ℤ◌, ◌-ℤ◌, ltb_ℤ, wrap_int8}
use lateral_root.Scroll.{
  ScrollHandler, ScrollError, Button, up_button, down_button, other_button, set_cursor,
  largest_index_displayed, move_down, move_up, on_short_button_press,
}

-- The menu in plain numbers: `height` entries are shown from `top` on.
pub record Menu : Type 0 where
  pub entries : ℕ
  pub height : ℕ
  pub cursor : ℕ
  pub top : ℕ

-- The cursor is on an entry and inside the window, and the window is filled if there are entries enough.
pub record IsMenu (v : Menu) : Type 0 where
  pub entries_lt : v.entries < 128
  pub height_lt : v.height < 128
  pub on_entry : v.cursor < v.entries
  pub not_above : v.top ≤ v.cursor
  pub not_below : v.cursor < v.top + v.height
  pub filled : (v.top ≡ 0) ⊎ (v.top + v.height ≤ v.entries)

abbrev pub handler_of : Menu → Bool → List ScrollError → ScrollHandler
handler_of v changed errors = record {
  max_entries = pos v.height;
  size = pos v.entries;
  cursor_index = pos v.cursor;
  smallest_index_displayed = pos v.top;
  cursor_changed = changed;
  errors = errors;
}

-- The cursor moves by one entry unless it is at an end, and takes the window along at its edges.
abbrev pub pressed : Button → Menu → Menu
pressed down_button v =
    if ltb (v.cursor + 1) v.entries
    then record v {
      cursor = v.cursor + 1;
      top = if ltb (v.cursor + 1) (v.top + v.height) then v.top else v.top + 1;
    }
    else v
pressed up_button v =
    if ltb 0 v.cursor
    then record v {
      cursor = v.cursor - 1;
      top = if ltb (v.cursor - 1) v.top then v.top - 1 else v.top;
    }
    else v
pressed other_button v = v

abbrev pub moves : Button → Menu → Bool
moves down_button v = ltb (v.cursor + 1) v.entries
moves up_button v = ltb 0 v.cursor
moves other_button v = false

-- The cursor stays or goes to the last entry; a window that reaches beyond it is moved up.
abbrev pub resized : ℕ → Menu → Menu
resized k v = record v {
  entries = k;
  cursor = min v.cursor (k - 1);
  top = if leb (min (v.top + v.height) v.entries) k then v.top else k - v.height;
}

pub pressed-IsMenu : (b : Button) (v : Menu) → IsMenu v → IsMenu (pressed b v)
pressed-IsMenu down_button v w = ground arith
pressed-IsMenu up_button v w = ground arith
pressed-IsMenu other_button v w = w

pub resized-IsMenu : (k : ℕ) (v : Menu) → 0 < k → k < 128 → IsMenu v → IsMenu (resized k v)
resized-IsMenu k v h l w = ground arith

pub largest_lem :
    (v : Menu) (changed : Bool) (errors : List ScrollError)
    → v.entries < 128
    → 0 < v.entries
    → 0 < v.height
    → largest_index_displayed (handler_of v changed errors)
      ≡ pos (min (v.top + v.height) v.entries - 1)
unfolding largest_index_displayed
largest_lem v changed errors l h k = ground arith

move_down_lem :
    (v : Menu) (changed : Bool) (errors : List ScrollError)
    → IsMenu v
    → move_down (handler_of v changed errors)
      ≡ handler_of (pressed down_button v) (if moves down_button v then true else changed) errors
unfolding move_down set_cursor
move_down_lem v changed errors w =
    let next : Menu = record v { cursor = v.cursor + 1 } in
    let largest = largest_lem next true errors w.entries_lt (omega (arith, w)) (omega (arith, w)) in
    let start : ltb_ℤ (pos v.cursor) (pos v.entries -ℤ pos 1) ≡ ltb (v.cursor + 1) v.entries =
      ground (arith, w) in
    elim (Bool-cases (ltb (v.cursor + 1) v.entries)) [
      | inl e ↦
          let stored : wrap_int8 (pos v.cursor +ℤ pos 1) ≡ pos (v.cursor + 1) = ground (arith, w) in
          let lower : wrap_int8 (pos v.top +ℤ pos 1) ≡ pos (v.top + 1) = ground (arith, w) in
          let past : ltb_ℤ (pos (min (v.top + v.height) v.entries - 1)) (pos (v.cursor + 1))
              ≡ not (ltb (v.cursor + 1) (v.top + v.height)) =
            ground (arith, w) in
          rw (start, e, stored, largest, past)
            elim (Bool-cases (ltb (v.cursor + 1) (v.top + v.height))) [
              | inl f ↦ rw (f)
              | inr f ↦ rw (f, lower)
            ]
      | inr e ↦ rw (start, e)
    ]

move_up_lem :
    (v : Menu) (changed : Bool) (errors : List ScrollError)
    → IsMenu v
    → move_up (handler_of v changed errors)
      ≡ handler_of (pressed up_button v) (if moves up_button v then true else changed) errors
unfolding move_up set_cursor
move_up_lem v changed errors w =
    let start : ltb_ℤ (pos 0) (pos v.cursor) ≡ ltb 0 v.cursor = ground arith in
    elim (Bool-cases (ltb 0 v.cursor)) [
      | inl e ↦
          let stored : wrap_int8 (pos v.cursor -ℤ pos 1) ≡ pos (v.cursor - 1) = ground (arith, w) in
          let past : ltb_ℤ (pos (v.cursor - 1)) (pos v.top) ≡ ltb (v.cursor - 1) v.top =
            ground arith in
          rw (start, e, stored, past)
            elim (Bool-cases (ltb (v.cursor - 1) v.top)) [
              | inl f ↦
                  let higher : wrap_int8 (pos v.top -ℤ pos 1) ≡ pos (v.top - 1) =
                    ground (arith, w) in
                  rw (f, higher)
              | inr f ↦ rw (f)
            ]
      | inr e ↦ rw (start, e)
    ]

by_button :
    (b : Button) (v : Menu) (changed : Bool) (errors : List ScrollError)
    → IsMenu v
    → (elim b as (λ _. ScrollHandler) [
      | up_button ↦ move_up (handler_of v changed errors)
      | down_button ↦ move_down (handler_of v changed errors)
      | other_button ↦ handler_of v changed errors
    ])
      ≡ handler_of (pressed b v) (if moves b v then true else changed) errors
by_button up_button v changed errors w = move_up_lem v changed errors w
by_button down_button v changed errors w = move_down_lem v changed errors w
by_button other_button v changed errors w = refl

pub press_lem :
    (b : Button) (v : Menu) (changed : Bool) (errors : List ScrollError)
    → IsMenu v
    → on_short_button_press b (handler_of v changed errors)
      ≡ handler_of (pressed b v) (if moves b v then true else changed) errors
unfolding on_short_button_press
press_lem b v changed errors w =
    let some_size : ltb (v.entries + 0) 0 ≡ false = ground (arith, w) in
    let some_entries : ltb 0 (v.entries + 0) ≡ true = ground (arith, w) in
    let some_height : ltb 0 (v.height + 0) ≡ true = ground (arith, w) in
    let no_height : ltb (v.height + 0) 0 ≡ false = ground (arith, w) in
    rw (some_size, some_entries, some_height, no_height) (by_button b v changed errors w)
