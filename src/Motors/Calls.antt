-- ===== src/Motors/Calls.antt =====
-- What getCan1Motor and getCan2Motor return after calls of addMotorToManager and
-- removeFromMotorManager, in any order.
use lateral_root.Prelude.{
  ℕ, ◌+◌, ◌<◌, ◌≡◌, refl, sym, ap, subst, ◌∙◌, true, not, ◌&&◌, ◌||◌, Option, none, some, List, [],
  ◌∷◌, arith, length, get_or, if◌then◌else◌, ◌==◌, Bool-cases, Option-cases, inl, inr,
}
use lateral_root.Can.{CanBus, can_bus1, can_bus2}
use lateral_root.Motors.{
  DjiMotor, DjiMotorTxHandler, construct_tx_handler, normalized_id, store_of, is_null,
  add_motor_to_manager, remove_from_motor_manager, get_motor, raise_tx_error, invalid_motor_id,
  serialize_motor_store_send_data,
}
use lateral_root.Motors.Stores.{
  same_bus, is_motor_id, IsPlaced, construct-IsPlaced, put, get_or-put, put-IsPlaced, slot_eq,
  is_motor_id_lem, get_motor_lem, add_motor_lem, same_bus_lem,
}
use lateral_root.Motors.Frames.{
  IsAt, output, voltage_output, current_output, frame, filled, has, serialize-frames,
}

eight_slots :
    (l : List (Option ℕ))
    → length l ≡ 8
    → let at = λ (i : ℕ). get_or l i none in
      l ≡ at 0 ∷ at 1 ∷ at 2 ∷ at 3 ∷ at 4 ∷ at 5 ∷ at 6 ∷ at 7 ∷ []
eight_slots (a ∷ b ∷ c ∷ d ∷ e ∷ f ∷ g ∷ h ∷ []) p = refl
eight_slots _ p = absurd (omega arith)

module _ (motors : ℕ → DjiMotor) where
  get-put :
      (motor : ℕ) (v : Option ℕ) (h : DjiMotorTxHandler) (b : CanBus) (id : ℕ)
      → IsPlaced motors h
      → is_motor_id (motors motor).motor_identifier ≡ true
      → get_motor b id (put motors motor v h) ≡ (
          if same_bus b (motors motor).motor_can_bus && (id == (motors motor).motor_identifier)
          then v
          else get_motor b id h)
  get-put motor v h b id w p =
      let mid = (motors motor).motor_identifier in
      let q : normalized_id mid < 8 = ground (arith, is_motor_id_lem motors mid) in
      ground (
        arith,
        get_motor_lem motors b id (put motors motor v h),
        get_motor_lem motors b id h,
        get_or-put motors motor v h w b (normalized_id id) q,
        slot_eq motors mid id p,
      )

  is_null_lem : (o : Option ℕ) → is_null o ≡ true → o ≡ none
  is_null_lem none e = refl
  is_null_lem (some a) e = cc

  get-raised :
      (b : CanBus) (id : ℕ) (h : DjiMotorTxHandler)
      → get_motor b id (raise_tx_error invalid_motor_id h) ≡ get_motor b id h
  unfolding get_motor
  get-raised can_bus1 id h = refl
  get-raised can_bus2 id h = refl

  -- After a call of addMotorToManager that does not fail, the motor is found under its bus and identifier,
  -- and any other bus or identifier gives what it gave before.
  pub get-add_motor :
      (motor : ℕ) (h h' : DjiMotorTxHandler) (b : CanBus) (id : ℕ)
      → IsPlaced motors h
      → add_motor_to_manager motors motor h ≡ some h'
      → get_motor b id h' ≡ (
          if same_bus b (motors motor).motor_can_bus && (id == (motors motor).motor_identifier)
          then some motor
          else get_motor b id h)
  get-add_motor motor h h' b id w e =
      let (p, q) = add_motor_lem motors motor h h' e in
      ap (get_motor b id) q ∙ get-put motor (some motor) h b id w p

  remove_lem :
      (motor : ℕ) (h : DjiMotorTxHandler)
      → remove_from_motor_manager motors motor h ≡ (
          if is_motor_id (motors motor).motor_identifier
            && not
                (is_null (get_motor (motors motor).motor_can_bus (motors motor).motor_identifier h))
          then put motors motor none h
          else raise_tx_error invalid_motor_id h)
  unfolding remove_from_motor_manager normalized_id
  remove_lem motor h =
      ground
        (arith, get_motor_lem motors (motors motor).motor_can_bus (motors motor).motor_identifier h)

  absent :
      (b c : CanBus) (id mid : ℕ) (h : DjiMotorTxHandler)
      → is_null (get_motor c mid h) ≡ true
      → get_motor b id (raise_tx_error invalid_motor_id h)
        ≡ (if same_bus b c && (id == mid) then none else get_motor b id h)
  absent b c id mid h n = get-raised b id h ∙ elim (Bool-cases (same_bus b c && (id == mid))) [
    | inl t ↦
        let p : b ≡ c = same_bus_lem b c (ground arith) in
        let q : id ≡ mid = ground arith in
        let e : is_null (get_motor b id h) ≡ true = cc in rw (t) (is_null_lem (get_motor b id h) e)
    | inr t ↦ rw (t)
  ]

  -- removeFromMotorManager clears the slot of the motor's bus and identifier, whichever motor is there, and
  -- changes nothing else; if the slot is empty or there is no such slot it changes no slot.
  pub get-remove_motor :
      (motor : ℕ) (h : DjiMotorTxHandler) (b : CanBus) (id : ℕ)
      → IsPlaced motors h
      → get_motor b id (remove_from_motor_manager motors motor h) ≡ (
          if same_bus b (motors motor).motor_can_bus && (id == (motors motor).motor_identifier)
          then none
          else get_motor b id h)
  get-remove_motor motor h b id w =
      let mid = (motors motor).motor_identifier in
      let bus = (motors motor).motor_can_bus in
      rw (remove_lem motor h) elim (Bool-cases (is_motor_id mid)) [
        | inl p ↦ elim (Bool-cases (is_null (get_motor bus mid h))) [
          | inl n ↦ rw (p, n) (absent b bus id mid h n)
          | inr n ↦ rw (p, n) (get-put motor none h b id w p)
        ]
        | inr p ↦
            let n : is_null (get_motor bus mid h) ≡ true =
              ap is_null (get_motor_lem motors bus mid h) ∙ rw (p) in
            rw (p) (absent b bus id mid h n)
      ]

  -- The handlers that calls of its methods lead to.
  pub data Calls : DjiMotorTxHandler → Type 0 where
    constructed : Calls construct_tx_handler
    added :
        (motor : ℕ) (h h' : DjiMotorTxHandler)
        → Calls h
        → add_motor_to_manager motors motor h ≡ some h'
        → Calls h'
    removed :
        (motor : ℕ) (h : DjiMotorTxHandler)
        → Calls h
        → Calls (remove_from_motor_manager motors motor h)

  raised-IsPlaced :
      (h : DjiMotorTxHandler)
      → IsPlaced motors h
      → IsPlaced motors (raise_tx_error invalid_motor_id h)
  raised-IsPlaced h w = record {
    eight = λ b. elim b as (λ b. length (store_of b (raise_tx_error invalid_motor_id h)) ≡ 8) [
      | can_bus1 ↦ w.eight can_bus1
      | can_bus2 ↦ w.eight can_bus2
    ];
    placed = placed_in;
  }
    where
      placed_in :
          (b : CanBus) (i a : ℕ)
          → get_or (store_of b (raise_tx_error invalid_motor_id h)) i none ≡ some a
          → (normalized_id (motors a).motor_identifier ≡ i) × ((motors a).motor_can_bus ≡ b)
      placed_in can_bus1 i a e = w.placed can_bus1 i a e
      placed_in can_bus2 i a e = w.placed can_bus2 i a e

  pub Calls-IsPlaced : (h : DjiMotorTxHandler) → Calls h → IsPlaced motors h
  Calls-IsPlaced _ constructed = construct-IsPlaced motors
  Calls-IsPlaced _ (added motor h h' c e) =
      let (p, q) = add_motor_lem motors motor h h' e in
      subst (IsPlaced motors) {x = put motors motor (some motor) h} (sym q) (
        put-IsPlaced motors motor (some motor) h (Calls-IsPlaced h c)
          (ground (arith, is_motor_id_lem motors (motors motor).motor_identifier)) (inr refl))
  Calls-IsPlaced _ (removed motor h c) =
      let mid = (motors motor).motor_identifier in
      let w = Calls-IsPlaced h c in
      rw (remove_lem motor h) elim (Bool-cases (is_motor_id mid)) [
        | inl p ↦ elim (Bool-cases (is_null (get_motor (motors motor).motor_can_bus mid h))) [
          | inl n ↦ rw (p, n) (raised-IsPlaced h w)
          | inr n ↦
              rw (p, n)
                (put-IsPlaced motors motor none h w (ground (arith, is_motor_id_lem motors mid))
                  (inl refl))
        ]
        | inr p ↦ rw (p) (raised-IsPlaced h w)
      ]

  -- The store of a bus as its slots, for handlers that calls lead to.
  slots :
      (h : DjiMotorTxHandler) (b : CanBus)
      → IsPlaced motors h
      → let at = λ (i : ℕ). get_or (store_of b h) i none in
        store_of b h ≡ at 0 ∷ at 1 ∷ at 2 ∷ at 3 ∷ at 4 ∷ at 5 ∷ at 6 ∷ at 7 ∷ []
  slots h b w = eight_slots (store_of b h) (w.eight b)

  slot_IsAt :
      (h : DjiMotorTxHandler) (b : CanBus) (i : ℕ)
      → IsPlaced motors h
      → IsAt motors i (get_or (store_of b h) i none)
  slot_IsAt h b i w = elim (Option-cases (get_or (store_of b h) i none)) [
    | inl e ↦ rw (e) tt
    | inr (a, e) ↦ rw (e) (w.placed b i a e).0
  ]

  -- The motor with the number i + 1 on a bus.
  abbrev pub motor_at : CanBus → DjiMotorTxHandler → ℕ → Option ℕ
  motor_at b h i = get_motor b (0x201 + i) h

  motor_at_lem :
      (h : DjiMotorTxHandler) (b : CanBus) (i : ℕ)
      → i < 8
      → get_or (store_of b h) i none ≡ motor_at b h i
  unfolding normalized_id
  motor_at_lem h b i p = ground (arith, get_motor_lem motors b (0x201 + i) h)

  -- The messages of a bus after the loop over its motors, for any handler that calls of its methods lead to.
  -- The first holds the two bytes of the outputs of motors 1 to 4, the second those of the motors 5 to 8 that
  -- are not under current control and the third those of the motors 5 to 8 that are, with zeros where the
  -- bus has no such motor; and a message is flagged as valid exactly if the bus has such a motor.
  pub Calls-frames :
      (h : DjiMotorTxHandler) (b : CanBus)
      → Calls h
      → let out = λ (i : ℕ). output motors (motor_at b h i) in
        let voltage = λ (i : ℕ). voltage_output motors (motor_at b h i) in
        let current = λ (i : ℕ). current_output motors (motor_at b h i) in
        serialize_motor_store_send_data motors (store_of b h)
        ≡ filled
            (frame (out 0) (out 1) (out 2) (out 3))
            (frame (voltage 4) (voltage 5) (voltage 6) (voltage 7))
            (frame (current 4) (current 5) (current 6) (current 7))
            (has (motor_at b h 0)
              || has (motor_at b h 1)
              || has (motor_at b h 2)
              || has (motor_at b h 3))
            (has (voltage 4) || has (voltage 5) || has (voltage 6) || has (voltage 7))
            (has (current 4) || has (current 5) || has (current 6) || has (current 7))
  Calls-frames h b c =
      let w = Calls-IsPlaced h c in
      let at =
        λ (i : ℕ) (p : i < 8). subst (IsAt motors i) (motor_at_lem h b i p) (slot_IsAt h b i w) in
      let e : store_of b h
          ≡ motor_at b h 0
            ∷ motor_at b h 1
            ∷ motor_at b h 2
            ∷ motor_at b h 3
            ∷ motor_at b h 4
            ∷ motor_at b h 5
            ∷ motor_at b h 6
            ∷ motor_at b h 7
            ∷ [] =
        slots h b w
        ∙ rw (
          motor_at_lem h b 0 (omega arith),
          motor_at_lem h b 1 (omega arith),
          motor_at_lem h b 2 (omega arith),
          motor_at_lem h b 3 (omega arith),
          motor_at_lem h b 4 (omega arith),
          motor_at_lem h b 5 (omega arith),
          motor_at_lem h b 6 (omega arith),
          motor_at_lem h b 7 (omega arith),
        ) in
      ap (serialize_motor_store_send_data motors) e
      ∙ serialize-frames motors _ _ _ _ _ _ _ _ (
        at 0 (omega arith),
        at 1 (omega arith),
        at 2 (omega arith),
        at 3 (omega arith),
        at 4 (omega arith),
        at 5 (omega arith),
        at 6 (omega arith),
        at 7 (omega arith),
      )
