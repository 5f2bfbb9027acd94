-- ===== src/Referee/Window.antt =====
-- The damage that the robot took as a list of events, which the referee's messages extend.
use lateral_root.Prelude.{
  ℕ, zero, suc, ◌+◌, ◌-◌, ◌%◌, ◌≤◌, ◌<◌, ◌≡◌, refl, Bool, List, [], ◌∷◌, ◌++◌, foldl, arith, ltb,
  ◌==◌, Bool-cases, length, length-append, get_or, if◌then◌else◌, inl, inr,
}
use lateral_root.Prelude.Int.{pos}
use lateral_root.ErrorController.{Deque, but_last}
use lateral_root.Timers.Timeout.{uint32_count}
use lateral_root.Crc.Bitwise.{AreBytes}
use lateral_root.Serial.{data_length}
use lateral_root.Referee.{DamageEvent, RefSerial, RefCall, damage_update, robot_status, data_uint16}

abbrev pub damage_of : List DamageEvent → ℕ
damage_of [] = 0
damage_of (e ∷ events) = e.damage_amount + damage_of events

abbrev pub last_damage : List DamageEvent → ℕ
last_damage [] = 0
last_damage (e ∷ []) = e.damage_amount
last_damage (e ∷ f ∷ events) = last_damage (f ∷ events)

abbrev pub is_over : ℕ → DamageEvent → Bool
is_over now e = ltb ((e.timestamp_ms + 1000) % uint32_count) now

-- The events without the leading ones that are over.
unfoldable pub drop_over : (ℕ → ℕ) → List DamageEvent → List DamageEvent
drop_over clock [] = []
drop_over clock (e ∷ events) =
    let rest = drop_over (λ i. clock (suc i)) events in
    if is_over (clock 0) e then rest else e ∷ events

-- What the robot knows: the events it tracks, the damage of those it forgot before their time, and the
-- health of the last status message.
pub record Window : Type 0 where
  pub events : List DamageEvent
  pub forgotten : ℕ
  pub hp : ℕ

unfoldable pub add_event : DamageEvent → Window → Window
add_event e w =
    if length w.events == 20
    then record w {
      events = but_last w.events ++ e ∷ [];
      forgotten = w.forgotten + last_damage w.events;
    }
    else record w { events = w.events ++ e ∷ [] }

unfoldable pub observe : Window → RefCall → Window
observe w (damage_update clock) = record w { events = drop_over clock w.events }
observe w (robot_status now message) =
    if data_length message == 13
    then (let hp = data_uint16 message 2 in
        let damage_event : DamageEvent = record { damage_amount = w.hp - hp; timestamp_ms = now } in
        record (if ltb hp w.hp then add_event damage_event w else w) { hp = hp })
    else w

pub damage_of-append :
    (es fs : List DamageEvent) → damage_of (es ++ fs) ≡ damage_of es + damage_of fs
damage_of-append [] fs = omega arith
damage_of-append (e ∷ es) fs = omega (arith, damage_of-append es fs)

pub damage_of_snoc :
    (es : List DamageEvent) (e : DamageEvent)
    → damage_of (es ++ e ∷ []) ≡ damage_of es + e.damage_amount
damage_of_snoc es e = omega (arith, damage_of-append es (e ∷ []))

pub length_snoc : {A : Type 0} (es : List A) (e : A) → length (es ++ e ∷ []) ≡ length es + 1
length_snoc es e = omega (arith, length-append es (e ∷ []))

pub damage_of-but_last :
    (es : List DamageEvent) → damage_of (but_last es) + last_damage es ≡ damage_of es
damage_of-but_last [] = refl
damage_of-but_last (e ∷ []) = omega arith
damage_of-but_last (e ∷ f ∷ es) = omega (arith, damage_of-but_last (f ∷ es))

pub length-but_last : {A : Type 0} (es : List A) → length (but_last es) ≡ length es - 1
length-but_last [] = refl
length-but_last (e ∷ []) = refl
length-but_last (e ∷ f ∷ es) = omega (arith, length-but_last (f ∷ es))

pub length-drop_over :
    (clock : ℕ → ℕ) (es : List DamageEvent) → length (drop_over clock es) ≤ length es
unfolding drop_over
length-drop_over clock [] = omega arith
length-drop_over clock (e ∷ es) = ground (arith, length-drop_over (λ i. clock (suc i)) es)

pub get_or-AreBytes : (bytes : List ℕ) (i : ℕ) → AreBytes bytes → get_or bytes i 0 < 256
get_or-AreBytes [] i h = omega arith
get_or-AreBytes (b ∷ bytes) zero (h, _) = h
get_or-AreBytes (b ∷ bytes) (suc i) (_, h) = get_or-AreBytes bytes i h

abbrev pub HaveBytes : List RefCall → Type 0
HaveBytes [] = Unit {0}
HaveBytes (damage_update clock ∷ calls) = HaveBytes calls
HaveBytes (robot_status now message ∷ calls) = AreBytes message × HaveBytes calls

pub add_event-forgotten : (e : DamageEvent) (w : Window) → w.forgotten ≤ (add_event e w).forgotten
unfolding add_event
add_event-forgotten e w = elim (Bool-cases (length w.events == 20)) [
  | inl full ↦ rw full (omega arith)
  | inr free ↦ rw free (omega arith)
]

pub observe-forgotten : (w : Window) (c : RefCall) → w.forgotten ≤ (observe w c).forgotten
unfolding observe
observe-forgotten w (damage_update clock) = omega arith
observe-forgotten w (robot_status now message) =
    let hp = data_uint16 message 2 in
    let damage_event : DamageEvent = record { damage_amount = w.hp - hp; timestamp_ms = now } in
    elim (Bool-cases (data_length message == 13)) [
      | inr other ↦ rw other (omega arith)
      | inl full ↦ elim (Bool-cases (ltb hp w.hp)) [
        | inl less ↦ rw (full, less) (add_event-forgotten damage_event w)
        | inr more ↦ rw (full, more) (omega arith)
      ]
    ]

pub foldl-forgotten :
    (calls : List RefCall) (w : Window) → w.forgotten ≤ (foldl observe w calls).forgotten
foldl-forgotten [] w = omega arith
foldl-forgotten (c ∷ calls) w =
    omega (arith, observe-forgotten w c, foldl-forgotten calls (observe w c))

module _ {D : Type 0} (d : Deque DamageEvent D) where
  abbrev pub Tracks : RefSerial D → List DamageEvent → ℕ → Type 0
  Tracks s events forgotten =
      (d.elements s.received_dps_tracker ≡ events)
      × (s.received_dps ≡ pos (damage_of events + forgotten))

  abbrev pub Represents : RefSerial D → Window → Type 0
  Represents s w =
      Tracks s w.events w.forgotten
      × (s.previous_hp ≡ w.hp)
      × (w.hp < 65536)
      × (length w.events ≤ 20)
