-- ===== src/Referee/Damage.antt =====
-- The loop that takes old events off, and histories of status messages and updates.
use lateral_root.Prelude.{
  ℕ, zero, suc, ◌+◌, ◌<◌, ◌≡◌, refl, sym, ap, subst, ◌∙◌, false, some, List, [], ◌∷◌, foldl, arith,
  ◌==◌, Bool-cases, length, inl, inr,
}
use lateral_root.Prelude.Int.{ℤ, pos, ◌≤ℤ◌, ◌-ℤ◌, sub_ℕ}
use lateral_root.ErrorController.{Deque, DequeLaws, tail}
use lateral_root.Crc.Bitwise.{AreBytes}
use lateral_root.Serial.{data_length}
use lateral_root.Referee.{
  DamageEvent, RefSerial, RefCall, damage_update, robot_status, data_uint16, store_robot_status,
  front_is_over, forget_front, update_received_damage, decode_to_robot_status, make_calls, ◌>>=◌,
}
use lateral_root.Referee.Window.{
  damage_of, is_over, drop_over, Window, observe, length-drop_over, get_or-AreBytes, HaveBytes,
  foldl-forgotten, Tracks, Represents,
}
use lateral_root.Referee.Hits.{process_received_damage-hit, process_received_damage-hp}

minus_damage : (v : ℤ) (a b c : ℕ) → v ≡ pos (a + b + c) → v -ℤ pos a ≡ pos (b + c)
minus_damage v a b c e = ap (λ (u : ℤ). u -ℤ pos a) e ∙ ground arith

module _ {D : Type 0} {d : Deque DamageEvent D} (laws : DequeLaws d)
    (room : d.get_max_size ≡ 20) where
  front_is_over-nil : (now : ℕ) (q : D) → d.elements q ≡ [] → front_is_over d now q ≡ false
  unfolding front_is_over
  front_is_over-nil now q e = ground (arith, laws.size_elements q, ap length e)

  front_is_over-cons :
      (now : ℕ) (q : D) (x : DamageEvent) (xs : List DamageEvent)
      → d.elements q ≡ x ∷ xs
      → front_is_over d now q ≡ is_over now x
  unfolding front_is_over
  front_is_over-cons now q x xs e =
      rw (laws.get_front q x xs e, laws.size_elements q, e) (ground arith)

  pub update_received_damage_lem :
      (fuel : ℕ) (clock : ℕ → ℕ) (s : RefSerial D) (events : List DamageEvent) (forgotten : ℕ)
      → length events < fuel
      → Tracks d s events forgotten
      → (s' : RefSerial D) × (update_received_damage d fuel clock s ≡ some s')
        × Tracks d s' (drop_over clock events) forgotten
        × (s'.previous_hp ≡ s.previous_hp)
  unfolding update_received_damage drop_over
  update_received_damage_lem zero clock s events forgotten enough t = absurd (omega arith)
  update_received_damage_lem (suc fuel) clock s [] forgotten enough (q, n) =
      (s, rw (front_is_over-nil (clock 0) s.received_dps_tracker q) refl, (q, n), refl)
  update_received_damage_lem (suc fuel) clock s (x ∷ xs) forgotten enough (q, n) =
      let same = front_is_over-cons (clock 0) s.received_dps_tracker x xs q in
      elim (Bool-cases (is_over (clock 0) x)) [
        | inl o ↦
            let front = laws.get_front s.received_dps_tracker x xs q in
            let value : s.received_dps -ℤ pos (d.get s.received_dps_tracker 0).damage_amount
                ≡ pos (damage_of xs + forgotten) =
              ap (λ (y : DamageEvent). s.received_dps -ℤ pos y.damage_amount) front
              ∙ minus_damage s.received_dps x.damage_amount (damage_of xs) forgotten n in
            let (s', e, t, p) =
              update_received_damage_lem fuel (λ i. clock (suc i)) (forget_front d s) xs forgotten
                (omega arith)
                (laws.elements_remove_front s.received_dps_tracker ∙ ap tail q, value) in
            (s', rw (same, o) e, rw o t, p)
        | inr o ↦ (s, rw (same, o) refl, rw o (q, n), refl)
      ]

  decode_to_robot_status-Represents :
      (now : ℕ) (message : List ℕ) (s : RefSerial D) (w : Window)
      → AreBytes message
      → Represents d s w
      → Represents d
          (decode_to_robot_status d now message s).1
          (observe w (robot_status now message))
  unfolding decode_to_robot_status observe
  decode_to_robot_status-Represents now message s w bytes (t, e, small, short) =
      elim (Bool-cases (data_length message == 13)) [
        | inl full ↦
            let (tracks, few) =
              process_received_damage-hit laws room now s.previous_hp (data_uint16 message 2)
                (store_robot_status d now message s) w e small short t in
            let kept =
              process_received_damage-hp laws room now (sub_ℕ s.previous_hp (data_uint16 message 2))
                (store_robot_status d now message s) in
            let word : data_uint16 message 2 < 65536 =
              omega (arith, get_or-AreBytes message 9 bytes, get_or-AreBytes message 10 bytes) in
            rw full (tracks, kept, word, few)
        | inr other ↦ rw other (t, e, small, short)
      ]

  pub make_calls-Represents :
      (fuel : ℕ) (calls : List RefCall) (s : RefSerial D) (w : Window)
      → 20 < fuel
      → HaveBytes calls
      → Represents d s w
      → (s' : RefSerial D) × (make_calls d fuel calls s ≡ some s')
        × Represents d s' (foldl observe w calls)
  unfolding make_calls observe
  make_calls-Represents fuel [] s w enough bytes r = (s, refl, r)
  make_calls-Represents fuel (robot_status now message ∷ calls) s w enough (b, bytes) r =
      make_calls-Represents fuel calls _ _ enough bytes
        (decode_to_robot_status-Represents now message s w b r)
  make_calls-Represents fuel (damage_update clock ∷ calls) s w enough bytes (t, e, small, short) =
      let (s', updated, t', same) =
        update_received_damage_lem fuel clock s w.events w.forgotten (omega arith) t in
      let (s'', made, r) =
        make_calls-Represents fuel calls s' (observe w (damage_update clock)) enough bytes
          (t', same ∙ e, small, omega (arith, length-drop_over clock w.events)) in
      (s'', ap (λ o. o >>= make_calls d fuel calls) updated ∙ made, r)

  -- A robot of which the window tells the events, the health, and the damage of forgotten events: after any
  -- status messages and updates, `receivedDps` is still at least the damage that was forgotten before them.
  pub make_calls-forgotten :
      (calls : List RefCall) (s : RefSerial D) (w : Window)
      → HaveBytes calls
      → Represents d s w
      → (s' : RefSerial D) × (make_calls d 21 calls s ≡ some s')
        × (pos w.forgotten ≤ℤ s'.received_dps)
  make_calls-forgotten calls s w bytes r =
      let (s', made, ((q, v), hp, small, short)) =
        make_calls-Represents 21 calls s w (omega arith) bytes r in
      (s', made, subst (λ v. pos w.forgotten ≤ℤ v) (sym v) (omega (arith, foldl-forgotten calls w)))
