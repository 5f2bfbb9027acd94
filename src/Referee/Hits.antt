-- ===== src/Referee/Hits.antt =====
-- A status message that tells of damage adds an event.
use lateral_root.Prelude.{
  ℕ, ◌+◌, ◌-◌, ◌%◌, ◌≤◌, ◌<◌, ◌≡◌, refl, ap, ◌∙◌, true, false, List, [], ◌∷◌, ◌++◌, arith, ltb,
  ◌==◌, Bool-cases, length, if◌then◌else◌, inl, inr,
}
use lateral_root.Prelude.Int.{ℤ, pos, ◌+ℤ◌, ltb_ℤ, sub_ℕ}
use lateral_root.ErrorController.{Deque, DequeLaws, but_last}
use lateral_root.Referee.{DamageEvent, RefSerial, process_received_damage}
use lateral_root.Referee.Window.{
  damage_of, Window, add_event, damage_of_snoc, damage_of-but_last, length_snoc, length-but_last,
  Tracks,
}

plus_damage : (v : ℤ) (a n : ℕ) → v ≡ pos a → v +ℤ pos n ≡ pos (a + n)
plus_damage v a n e = ap (λ (u : ℤ). u +ℤ pos n) e ∙ ground arith

module _ {D : Type 0} {d : Deque DamageEvent D} (laws : DequeLaws d)
    (room : d.get_max_size ≡ 20) where
  appended :
      (q : D) (es : List DamageEvent) (e : DamageEvent)
      → length es < 20
      → d.elements q ≡ es
      → d.elements (d.append e q) ≡ es ++ e ∷ []
  appended q es e short same =
      laws.elements_append q e (omega (arith, room, ap length same)) ∙ ap (λ xs. xs ++ e ∷ []) same

  pub process_received_damage_lem :
      (timestamp n : ℕ) (s : RefSerial D) (w : Window)
      → 0 < n
      → n < 65536
      → length w.events ≤ 20
      → Tracks d s w.events w.forgotten
      → (let damage_event : DamageEvent = record { damage_amount = n; timestamp_ms = timestamp } in
          let w' = add_event damage_event w in
          Tracks d (process_received_damage d timestamp (pos n) s) w'.events w'.forgotten
          × (length w'.events ≤ 20))
  unfolding process_received_damage add_event
  process_received_damage_lem timestamp n s w positive small short (q, v) =
      let tracker = s.received_dps_tracker in
      let damage_event : DamageEvent = record { damage_amount = n; timestamp_ms = timestamp } in
      let hurt : ltb_ℤ (pos 0) (pos n) ≡ true = ground arith in
      let low : n % 65536 ≡ n = omega arith in
      let size : d.get_size tracker ≡ length w.events = laws.size_elements tracker ∙ ap length q in
      elim (Bool-cases (length w.events == 20)) [
        | inl full ↦
            let shorter : d.elements (d.remove_back tracker) ≡ but_last w.events =
              laws.elements_remove_back tracker ∙ ap but_last q in
            rw (hurt, size, full, low)
              (
                (
                  appended (d.remove_back tracker) (but_last w.events) damage_event
                      (ground (arith, length-but_last w.events, full)) shorter,
                  plus_damage s.received_dps (damage_of w.events + w.forgotten) n v
                      ∙ ap pos (
                          omega (
                            arith,
                            damage_of_snoc (but_last w.events) damage_event,
                            damage_of-but_last w.events,
                          )),
                ),
                ground (
                  arith,
                  length_snoc (but_last w.events) damage_event,
                  length-but_last w.events,
                  full,
                ),
              )
        | inr free ↦
            rw (hurt, size, free, low)
              (
                (
                  appended tracker w.events damage_event (ground (arith, free)) q,
                  plus_damage s.received_dps (damage_of w.events + w.forgotten) n v
                      ∙ ap pos (omega (arith, damage_of_snoc w.events damage_event)),
                ),
                ground (arith, length_snoc w.events damage_event, free),
              )
      ]

  process_received_damage-none :
      (timestamp a b : ℕ) (s : RefSerial D)
      → a ≤ b
      → process_received_damage d timestamp (sub_ℕ a b) s ≡ s
  unfolding process_received_damage
  process_received_damage-none timestamp a b s h =
      let healed : ltb_ℤ (pos 0) (sub_ℕ a b) ≡ false = ground arith in rw healed refl

  pub process_received_damage-hp :
      (timestamp : ℕ) (damage : ℤ) (s : RefSerial D)
      → (process_received_damage d timestamp damage s).current_hp ≡ s.current_hp
  unfolding process_received_damage
  process_received_damage-hp timestamp damage s = elim (Bool-cases (ltb_ℤ (pos 0) damage)) [
    | inl hurt ↦ rw hurt refl
    | inr healed ↦ rw healed refl
  ]

  -- The part of a status message that is about damage, for the health before it and in it.
  abbrev pub hit : ℕ → ℕ → Window → Window
  hit now hp w =
      let damage_event : DamageEvent = record { damage_amount = w.hp - hp; timestamp_ms = now } in
      if ltb hp w.hp then add_event damage_event w else w

  pub process_received_damage-hit :
      (now previous hp : ℕ) (s : RefSerial D) (w : Window)
      → previous ≡ w.hp
      → w.hp < 65536
      → length w.events ≤ 20
      → Tracks d s w.events w.forgotten
      → Tracks d
          (process_received_damage d now (sub_ℕ previous hp) s)
          (hit now hp w).events
          (hit now hp w).forgotten
        × (length (hit now hp w).events ≤ 20)
  process_received_damage-hit now previous hp s w e small short t =
      elim (Bool-cases (ltb hp w.hp)) [
        | inl less ↦
            let damage : sub_ℕ previous hp ≡ pos (w.hp - hp) = ground arith in
            rw (less, damage)
              (process_received_damage_lem now (w.hp - hp) s w (ground arith) (ground arith) short
                t)
        | inr more ↦
            let healed : process_received_damage d now (sub_ℕ previous hp) s ≡ s =
              process_received_damage-none now previous hp s (ground arith) in
            rw (more, healed) (t, short)
      ]
