-- ===== src/Scroll/Resize.antt =====
-- What setSize does to the cursor and the window of a menu.
use lateral_root.Prelude.{
  ℕ, ◌+◌, ◌-◌, ◌<◌, ◌≡◌, refl, ap, ◌∙◌, Bool, true, false, not, List, arith, leb, min,
  if◌then◌else◌, Bool-cases, inl, inr,
}
use lateral_root.Prelude.Int.{pos, negsuc, ◌-ℤ◌, ltb_ℤ, wrap_int8}
use lateral_root.Scroll.{
  ScrollHandler, ScrollError, Button, set_cursor, largest_index_displayed, on_short_button_press,
  set_size, leb_ℤ, max_ℤ,
}
use lateral_root.Scroll.Window.{
  Menu, IsMenu, handler_of, pressed, moves, resized, resized-IsMenu, pressed-IsMenu, press_lem,
  largest_lem,
}

-- The cursor part of setSize.
abbrev clipped : ℕ → Menu → Menu
clipped k v = record v { cursor = min v.cursor (k - 1) }

clip_lem :
    (k : ℕ) (v : Menu) (changed : Bool) (errors : List ScrollError)
    → 0 < k
    → k < 128
    → (if leb_ℤ (pos k) (pos v.cursor)
        then set_cursor (pos k -ℤ pos 1) (handler_of v changed errors)
        else handler_of v changed errors)
      ≡ handler_of (clipped k v) (if leb k v.cursor then true else changed) errors
unfolding set_cursor
clip_lem k v changed errors h l =
    let start : leb_ℤ (pos k) (pos v.cursor) ≡ leb k v.cursor = ground arith in
    elim (Bool-cases (leb k v.cursor)) [
      | inl e ↦
          let stored : wrap_int8 (pos k -ℤ pos 1) ≡ pos (k - 1) = ground arith in
          let least : min v.cursor (k - 1) ≡ k - 1 = ground arith in rw (start, e, stored, least)
      | inr e ↦ let least : min v.cursor (k - 1) ≡ v.cursor = ground arith in rw (start, e, least)
    ]

set_size_lem :
    (k : ℕ) (v : Menu) (changed : Bool) (errors : List ScrollError)
    → 0 < k
    → k < 128
    → IsMenu v
    → set_size (pos k) (handler_of v changed errors)
      ≡ handler_of (resized k v) (if leb k v.cursor then true else changed) errors
unfolding set_size
set_size_lem k v changed errors h l w =
    let c : Bool = if leb k v.cursor then true else changed in
    let start : ltb_ℤ (pos k) (pos 0) ≡ false = ground arith in
    let largest =
      largest_lem (clipped k v) c errors w.entries_lt (omega (arith, w)) (omega (arith, w)) in
    let reach : leb_ℤ (pos k) (pos (min (v.top + v.height) v.entries - 1))
        ≡ not (leb (min (v.top + v.height) v.entries) k) =
      ground (arith, w) in
    rw (start, clip_lem k v changed errors h l, largest, reach)
      elim (Bool-cases (leb (min (v.top + v.height) v.entries) k)) [
        | inl e ↦ rw (e)
        | inr e ↦
            let top : wrap_int8 (max_ℤ (pos k -ℤ pos v.height) (pos 0)) ≡ pos (k - v.height) =
              ground arith in
            rw (e, top)
      ]

set_size-cursor :
    (k : ℕ) (s : ScrollHandler)
    → (set_size (pos k) s).cursor_index
      ≡ (if leb_ℤ (pos k) s.cursor_index then wrap_int8 (pos k -ℤ pos 1) else s.cursor_index)
unfolding set_size set_cursor
set_size-cursor k s =
    let start : ltb_ℤ (pos k) (pos 0) ≡ false = ground arith in
    let t : ScrollHandler =
      if leb_ℤ (pos k) s.cursor_index then set_cursor (pos k -ℤ pos 1) s else s in
    rw (start) elim (Bool-cases (leb_ℤ (pos k) (largest_index_displayed t))) [
      | inl e ↦ rw (e) (of_if (leb_ℤ (pos k) s.cursor_index))
      | inr e ↦ rw (e) (of_if (leb_ℤ (pos k) s.cursor_index))
    ]
  where
    of_if :
        (b : Bool)
        → (if b then set_cursor (pos k -ℤ pos 1) s else s).cursor_index
          ≡ (if b then wrap_int8 (pos k -ℤ pos 1) else s.cursor_index)
    of_if true = refl
    of_if false = refl

-- After setSize(0) the cursor is at -1, and stays there when the menu grows again: it is on no entry until a
-- button moves it.
pub set_size_zero :
    (k : ℕ) (v : Menu) (changed : Bool) (errors : List ScrollError)
    → 0 < k
    → k < 128
    → IsMenu v
    → (set_size (pos k) (set_size (pos 0) (handler_of v changed errors))).cursor_index ≡ negsuc 0
set_size_zero k v changed errors h l w =
    let gone : (set_size (pos 0) (handler_of v changed errors)).cursor_index ≡ negsuc 0 =
      set_size-cursor 0 (handler_of v changed errors) ∙ ground (arith, w) in
    let above : leb_ℤ (pos k) (negsuc 0) ≡ false = ground arith in
    set_size-cursor k (set_size (pos 0) (handler_of v changed errors))
    ∙ ap (λ c. if leb_ℤ (pos k) c then wrap_int8 (pos k -ℤ pos 1) else c) gone
    ∙ rw (above)

-- Button presses, and setSize with sizes of 1 to 127.
pub data Input : Type 0 where
  press : Button → Input
  resize : (k : ℕ) → 0 < k → k < 128 → Input

pub handle : Input → ScrollHandler → ScrollHandler
handle (press b) s = on_short_button_press b s
handle (resize k _ _) s = set_size (pos k) s

abbrev pub followed : Input → Menu → Menu
followed (press b) v = pressed b v
followed (resize k _ _) v = resized k v

abbrev pub moved : Input → Menu → Bool
moved (press b) v = moves b v
moved (resize k _ _) v = leb k v.cursor

-- A handler whose members describe a menu with its cursor on an entry and inside the window follows the menu
-- in plain numbers at every button press and every setSize with a size of 1 to 127, and stays such a handler:
-- the cursor moves by one and takes the window along at its edges, a smaller size pulls it back to the last
-- entry and the window with it; the flag says that the cursor has been set, and no error is raised.
pub handle-follows :
    (i : Input) (v : Menu) (changed : Bool) (errors : List ScrollError)
    → IsMenu v
    → (handle i (handler_of v changed errors)
        ≡ handler_of (followed i v) (if moved i v then true else changed) errors)
      × IsMenu (followed i v)
unfolding handle
handle-follows (press b) v changed errors w = (press_lem b v changed errors w, pressed-IsMenu b v w)
handle-follows (resize k h l) v changed errors w =
    (set_size_lem k v changed errors h l w, resized-IsMenu k v h l w)
