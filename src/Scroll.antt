-- ===== src/Scroll.antt =====
-- tap/display/vertical_scroll_logic_handler.cpp and .hpp: the cursor of a menu and the window of entries that is
-- shown. The members are `int8_t`; what is computed as an `int` and stored in one keeps its lowest 8 bits.
pub mod Window
pub mod Resize
use lateral_root.Prelude.{ℕ, Bool, true, false, ◌||◌, List, [], ◌∷◌, ◌++◌, if◌then◌else◌}
use lateral_root.Prelude.Int.{ℤ, pos, ◌+ℤ◌, ◌-ℤ◌, ltb_ℤ, wrap_int8}

-- `modm::MenuButtons::Button`, of which the code tells two apart.
pub data Button : Type 0 where
  up_button down_button other_button : Button

pub data ScrollError : Type 0 where
  max_entries_below_zero size_below_zero : ScrollError

pub record ScrollHandler : Type 0 where
  pub max_entries : ℤ
  pub size : ℤ
  pub cursor_index : ℤ
  pub smallest_index_displayed : ℤ
  pub cursor_changed : Bool
  pub errors : List ScrollError

abbrev pub leb_ℤ : ℤ → ℤ → Bool
leb_ℤ a b = if ltb_ℤ b a then false else true

abbrev pub eqb_ℤ : ℤ → ℤ → Bool
eqb_ℤ a b = if ltb_ℤ a b then false else if ltb_ℤ b a then false else true

unfoldable pub construct_scroll : ℤ → ℤ → ScrollHandler
construct_scroll size max_entries = record {
  max_entries = if leb_ℤ max_entries (pos 0) then pos 1 else max_entries;
  size = size;
  cursor_index = pos 0;
  smallest_index_displayed = pos 0;
  cursor_changed = false;
  errors = if leb_ℤ max_entries (pos 0) then max_entries_below_zero ∷ [] else [];
}

unfoldable pub set_cursor : ℤ → ScrollHandler → ScrollHandler
set_cursor new_cursor s = record s { cursor_index = wrap_int8 new_cursor; cursor_changed = true }

unfoldable pub largest_index_displayed : ScrollHandler → ℤ
largest_index_displayed s =
    let below = s.smallest_index_displayed +ℤ s.max_entries in
    wrap_int8 ((if ltb_ℤ below s.size then below else s.size) -ℤ pos 1)

unfoldable pub move_down : ScrollHandler → ScrollHandler
move_down s =
    if ltb_ℤ s.cursor_index (s.size -ℤ pos 1)
    then (let t = set_cursor (s.cursor_index +ℤ pos 1) s in
        if ltb_ℤ (largest_index_displayed t) t.cursor_index
        then record t { smallest_index_displayed = wrap_int8 (t.smallest_index_displayed +ℤ pos 1) }
        else t)
    else s

unfoldable pub move_up : ScrollHandler → ScrollHandler
move_up s =
    if ltb_ℤ (pos 0) s.cursor_index
    then (let t = set_cursor (s.cursor_index -ℤ pos 1) s in
        if ltb_ℤ t.cursor_index t.smallest_index_displayed
        then record t { smallest_index_displayed = wrap_int8 (t.smallest_index_displayed -ℤ pos 1) }
        else t)
    else s

unfoldable pub on_short_button_press : Button → ScrollHandler → ScrollHandler
on_short_button_press button s =
    if ltb_ℤ s.size (pos 0)
    then record s { errors = s.errors ++ size_below_zero ∷ [] }
    else if eqb_ℤ s.size (pos 0) || eqb_ℤ s.max_entries (pos 0)
    then s
    else elim button [ down_button ↦ move_down s | up_button ↦ move_up s | other_button ↦ s ]

abbrev pub max_ℤ : ℤ → ℤ → ℤ
max_ℤ a b = if ltb_ℤ a b then b else a

unfoldable pub set_size : ℤ → ScrollHandler → ScrollHandler
set_size size s =
    if ltb_ℤ size (pos 0)
    then s
    else (let t = if leb_ℤ size s.cursor_index then set_cursor (size -ℤ pos 1) s else s in
        let u =
          if leb_ℤ size (largest_index_displayed t)
          then record t {
            smallest_index_displayed = wrap_int8 (max_ℤ (size -ℤ t.max_entries) (pos 0));
          }
          else t in
        record u { size = size })

unfoldable pub acknowledge_cursor_changed : ScrollHandler → ScrollHandler × Bool
acknowledge_cursor_changed s =
    if s.cursor_changed then (record s { cursor_changed = false }, true) else (s, false)
