-- ===== src/RemoteMapState.antt =====
-- tap/control/remote_map_state.cpp: the switches, keys and mouse buttons that a mapping waits for, or
-- that the remote is in. Key sets are `uint16_t` bitmaps. The enumerations are those of
-- tap/communication/serial/remote.hpp.
pub mod Laws
use Prim.Native.Nat.{bit_and, bit_or}
use lateral_root.Prelude.{
  ℕ, zero, suc, ◌*◌, ◌%◌, ◌^◌, Bool, true, false, not, ◌&&◌, ◌||◌, List, [], ◌∷◌, foldl, ◌==◌, ◌!=◌,
  if◌then◌else◌, ◌≡◌,
}

pub data SwitchState : Type 0 where
  unknown up down mid : SwitchState

-- The enumerators have the values 0 to 3.
unfoldable pub switch_value : SwitchState → ℕ
switch_value unknown = 0
switch_value up = 1
switch_value down = 2
switch_value mid = 3

abbrev pub same_switch : SwitchState → SwitchState → Bool
same_switch a b = switch_value a == switch_value b

pub data Switch : Type 0 where
  left_switch right_switch : Switch

pub data MouseButton : Type 0 where
  left right : MouseButton

-- `Remote::Key`, the number of a key's bit, from W = 0 to B = 15.
abbrev pub Key : Type 0
Key = ℕ

pub record RemoteMapState : Type 0 where
  pub l_switch : SwitchState
  pub r_switch : SwitchState
  pub keys : ℕ
  pub neg_keys : ℕ
  pub l_mouse_button : Bool
  pub r_mouse_button : Bool

-- The default constructor.
abbrev pub nothing_mapped : RemoteMapState
nothing_mapped = record {
  l_switch = unknown;
  r_switch = unknown;
  keys = 0;
  neg_keys = 0;
  l_mouse_button = false;
  r_mouse_button = false;
}

unfoldable pub init_l_switch : SwitchState → RemoteMapState → RemoteMapState
init_l_switch unknown r = r
init_l_switch ss r = record r { l_switch = ss }

unfoldable pub init_r_switch : SwitchState → RemoteMapState → RemoteMapState
init_r_switch unknown r = r
init_r_switch ss r = record r { r_switch = ss }

unfoldable pub init_keys : ℕ → RemoteMapState → RemoteMapState
init_keys keys r =
    if keys == 0 then r else if bit_and r.neg_keys keys != 0 then r else record r { keys = keys }

unfoldable pub init_neg_keys : ℕ → RemoteMapState → RemoteMapState
init_neg_keys neg_keys r =
    if neg_keys == 0
    then r
    else if bit_and r.keys neg_keys != 0
    then r
    else record r { neg_keys = neg_keys }

-- `std::accumulate` over a list of keys, narrowed to `uint16_t`.
unfoldable pub key_bits : List Key → ℕ
key_bits keys = foldl (λ acc key. bit_or acc (2 ^ key)) 0 keys % 2 ^ 16

unfoldable pub init_key_list : List Key → RemoteMapState → RemoteMapState
unfolding key_bits init_keys
init_key_list keys r = init_keys (key_bits keys) r

unfoldable pub init_neg_key_list : List Key → RemoteMapState → RemoteMapState
unfolding key_bits init_neg_keys
init_neg_key_list keys r = init_neg_keys (key_bits keys) r

unfoldable pub init_l_mouse_button : RemoteMapState → RemoteMapState
init_l_mouse_button r = record r { l_mouse_button = true }

unfoldable pub init_r_mouse_button : RemoteMapState → RemoteMapState
init_r_mouse_button r = record r { r_mouse_button = true }

init_mouse_button : MouseButton → RemoteMapState → RemoteMapState
unfolding init_l_mouse_button init_r_mouse_button
init_mouse_button left r = init_l_mouse_button r
init_mouse_button right r = init_r_mouse_button r

-- The constructors, in the order of the class.
unfoldable pub construct_full :
    SwitchState → SwitchState → List Key → List Key → Bool → Bool → RemoteMapState
unfolding init_l_switch init_r_switch init_key_list init_neg_key_list init_l_mouse_button
    init_r_mouse_button
construct_full leftss rightss key_set neg_key_set mouse_left mouse_right =
    let r =
      init_neg_key_list neg_key_set
        (init_key_list key_set (init_r_switch rightss (init_l_switch leftss nothing_mapped))) in
    let r' = if mouse_left then init_l_mouse_button r else r in
    if mouse_right then init_r_mouse_button r' else r'

unfoldable pub construct_switch : Switch → SwitchState → RemoteMapState
unfolding init_l_switch init_r_switch
construct_switch left_switch ss = init_l_switch ss nothing_mapped
construct_switch right_switch ss = init_r_switch ss nothing_mapped

unfoldable pub construct_switches : SwitchState → SwitchState → RemoteMapState
unfolding init_l_switch init_r_switch
construct_switches leftss rightss = init_r_switch rightss (init_l_switch leftss nothing_mapped)

unfoldable pub construct_keys : List Key → List Key → RemoteMapState
unfolding init_key_list init_neg_key_list
construct_keys key_set neg_key_set =
    init_neg_key_list neg_key_set (init_key_list key_set nothing_mapped)

unfoldable pub construct_button_keys : MouseButton → List Key → List Key → RemoteMapState
unfolding init_mouse_button init_key_list init_neg_key_list
construct_button_keys button key_set neg_key_set =
    init_neg_key_list neg_key_set (init_key_list key_set (init_mouse_button button nothing_mapped))

unfoldable pub construct_button : MouseButton → RemoteMapState
unfolding init_mouse_button
construct_button button = init_mouse_button button nothing_mapped

-- `a != b` on `bool`
abbrev pub differ : Bool → Bool → Bool
differ true b = not b
differ false b = b

unfoldable pub state_subset_of : RemoteMapState → RemoteMapState → Bool
state_subset_of r other =
    if not (same_switch r.r_switch unknown) && not (same_switch r.r_switch other.r_switch)
    then false
    else if not (same_switch r.l_switch unknown) && not (same_switch r.l_switch other.l_switch)
    then false
    else if bit_and r.keys other.keys != r.keys
    then false
    else if r.l_mouse_button && differ other.l_mouse_button r.l_mouse_button
    then false
    else if r.r_mouse_button && differ other.r_mouse_button r.r_mouse_button
    then false
    else true

-- `operator==`
unfoldable pub same_state : RemoteMapState → RemoteMapState → Bool
same_state a b =
    same_switch a.l_switch b.l_switch
    && same_switch a.r_switch b.r_switch
    && a.keys == b.keys
    && a.neg_keys == b.neg_keys
    && not (differ a.l_mouse_button b.l_mouse_button)
    && not (differ a.r_mouse_button b.r_mouse_button)

abbrev pub neg_keys_used : RemoteMapState → Bool
neg_keys_used r = r.neg_keys != 0
