-- ===== src/RemoteMapState/Laws.antt =====
-- What the tests and the initialisers of a `RemoteMapState` mean.
use Prim.Native.Nat.{bit_and}
use lateral_root.Prelude.{
  ℕ, ◌≡◌, ◌↔◌, ◌⊎◌, ap, Bool, true, false, not, ◌&&◌, List, arith, ◌==◌, ◌!=◌, Bool-cases, inl, inr,
  if◌then◌else◌,
}
use lateral_root.Bits.{testbit, zero-testbit}
use lateral_root.Bits.Sets.{bit_and-eq_left, bit_and-eq_zero}
use lateral_root.RemoteMapState.{
  SwitchState, unknown, switch_value, same_switch, Key, RemoteMapState, nothing_mapped,
  init_l_switch, init_r_switch, init_keys, init_neg_keys, key_bits, state_subset_of, same_state,
  construct_full, init_l_mouse_button, init_r_mouse_button,
}

-- A switch of a mapping fits that of the remote.
abbrev pub Fits : SwitchState → SwitchState → Type 0
Fits a b = (a ≡ unknown) ⊎ (a ≡ b)

pub record IsSubset (r other : RemoteMapState) : Type 0 where
  pub right_fits : Fits r.r_switch other.r_switch
  pub left_fits : Fits r.l_switch other.l_switch
  pub keys_held : (k : ℕ) → testbit r.keys k ≡ true → testbit other.keys k ≡ true
  pub left_pressed : r.l_mouse_button ≡ true → other.l_mouse_button ≡ true
  pub right_pressed : r.r_mouse_button ≡ true → other.r_mouse_button ≡ true

same_switch_iff : (a b : SwitchState) → (same_switch a b ≡ true) ↔ (a ≡ b)
unfolding switch_value
same_switch_iff a b = ground arith

-- The guard of `stateSubsetOf` on a switch.
abbrev misfit : SwitchState → SwitchState → Bool
misfit a b = not (same_switch a unknown) && not (same_switch a b)

Fits-of : (a b : SwitchState) → misfit a b ≡ false → Fits a b
unfolding switch_value
Fits-of a b e = ground arith

of_Fits : (a b : SwitchState) → Fits a b → misfit a b ≡ false
unfolding switch_value
of_Fits a b h = ground arith

-- `stateSubsetOf` holds exactly when every switch, key and button that the mapping uses is in the
-- state that it asks for.
pub state_subset_of_iff :
    (r other : RemoteMapState) → (state_subset_of r other ≡ true) ↔ IsSubset r other
unfolding state_subset_of
state_subset_of_iff r other = (
  (λ e. record {
    right_fits = Fits-of r.r_switch other.r_switch (ground arith);
    left_fits = Fits-of r.l_switch other.l_switch (ground arith);
    keys_held = (bit_and-eq_left r.keys other.keys).0 (ground arith);
    left_pressed = ground arith;
    right_pressed = ground arith;
  }),
  (λ h. ground (
    arith,
    of_Fits r.r_switch other.r_switch h.right_fits,
    of_Fits r.l_switch other.l_switch h.left_fits,
    (bit_and-eq_left r.keys other.keys).1 h.keys_held,
    h.left_pressed,
    h.right_pressed,
  )),
)

-- `operator==` is equality.
pub same_state_iff : (a b : RemoteMapState) → (same_state a b ≡ true) ↔ (a ≡ b)
unfolding same_state
same_state_iff a b = (
  (λ e.
      ground (arith, same_switch_iff a.l_switch b.l_switch, same_switch_iff a.r_switch b.r_switch)),
  (λ e. ground (
    arith,
    same_switch_iff a.l_switch b.l_switch,
    same_switch_iff a.r_switch b.r_switch,
    ap (λ (x : RemoteMapState). x.keys) e,
  )),
)

-- No key is a key and a neg key at once.
abbrev pub AreApart : RemoteMapState → Type 0
AreApart r = (k : ℕ) → testbit r.keys k ≡ true → testbit r.neg_keys k ≡ false

init_keys-AreApart : (keys : ℕ) (r : RemoteMapState) → AreApart r → AreApart (init_keys keys r)
unfolding init_keys
init_keys-AreApart keys r h = elim (Bool-cases (keys == 0)) [
  | inl e ↦ rw e h
  | inr e ↦ elim (Bool-cases (bit_and r.neg_keys keys != 0)) [
    | inl clash ↦ rw (e, clash) h
    | inr free ↦ rw (e, free) (λ k b. other k b (Bool-cases (testbit r.neg_keys k)) (ground arith))
  ]
]
  where
    other :
        (k : ℕ)
        → testbit keys k ≡ true
        → (testbit r.neg_keys k ≡ true) ⊎ (testbit r.neg_keys k ≡ false)
        → (bit_and r.neg_keys keys == 0) ≡ true
        → testbit r.neg_keys k ≡ false
    other k b (inl set) z = cc ((bit_and-eq_zero r.neg_keys keys).0 z k set)
    other k b (inr unset) z = unset

init_neg_keys-AreApart :
    (keys : ℕ) (r : RemoteMapState) → AreApart r → AreApart (init_neg_keys keys r)
unfolding init_neg_keys
init_neg_keys-AreApart keys r h = elim (Bool-cases (keys == 0)) [
  | inl e ↦ rw e h
  | inr e ↦ elim (Bool-cases (bit_and r.keys keys != 0)) [
    | inl clash ↦ rw (e, clash) h
    | inr free ↦ rw (e, free) ((bit_and-eq_zero r.keys keys).0 (ground arith))
  ]
]

init_switches-AreApart :
    (leftss rightss : SwitchState) (r : RemoteMapState)
    → AreApart r
    → AreApart (init_r_switch rightss (init_l_switch leftss r))
unfolding init_l_switch init_r_switch
init_switches-AreApart unknown unknown r h = h
init_switches-AreApart unknown _ r h = h
init_switches-AreApart _ unknown r h = h
init_switches-AreApart _ _ r h = h

init_buttons-AreApart :
    (mouse_left mouse_right : Bool) (r : RemoteMapState)
    → AreApart r
    → let r' = if mouse_left then init_l_mouse_button r else r in
      AreApart (if mouse_right then init_r_mouse_button r' else r')
unfolding init_l_mouse_button init_r_mouse_button
init_buttons-AreApart true true r h = h
init_buttons-AreApart true false r h = h
init_buttons-AreApart false true r h = h
init_buttons-AreApart false false r h = h

-- Whatever key sets are passed in, no key of a constructed state is a key and a neg key at once.
pub construct_full-AreApart :
    (leftss rightss : SwitchState) (key_set neg_key_set : List Key) (mouse_left mouse_right : Bool)
    → AreApart (construct_full leftss rightss key_set neg_key_set mouse_left mouse_right)
unfolding construct_full
construct_full-AreApart leftss rightss key_set neg_key_set mouse_left mouse_right =
    init_buttons-AreApart mouse_left mouse_right _ (
      init_neg_keys-AreApart (key_bits neg_key_set) _ (
        init_keys-AreApart (key_bits key_set) _
          (init_switches-AreApart leftss rightss nothing_mapped (λ k b. cc (zero-testbit k)))))
