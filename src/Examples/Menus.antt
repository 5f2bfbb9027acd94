-- ===== src/Examples/Menus.antt =====
-- Runs of a menu of five entries, three of which are shown.
use lateral_root.Prelude.{◌≡◌, true, false, [], arith, if◌then◌else◌}
use lateral_root.Scroll.{down_button}
use lateral_root.Scroll.Window.{Menu, IsMenu, handler_of}
use lateral_root.Scroll.Resize.{press, handle, followed, moved, handle-follows}

-- The cursor is at the lower edge of the window.
abbrev menu : Menu
menu = record { entries = 5; height = 3; cursor = 2; top = 0 }

handle-follows_example :
    (handle (press down_button) (handler_of menu false [])
      ≡ handler_of
          (followed (press down_button) menu)
          (if moved (press down_button) menu then true else false)
          [])
    × IsMenu (followed (press down_button) menu)
handle-follows_example = handle-follows (press down_button) menu false [] menu-IsMenu
  where
    menu-IsMenu : IsMenu menu
    menu-IsMenu = ground arith
