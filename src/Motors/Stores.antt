-- ===== src/Motors/Stores.antt =====
-- The two stores of dji_motor_tx_handler.cpp under adding and removing motors.
use lateral_root.Prelude.{
  ℕ, ◌<◌, ◌≡◌, ◌↔◌, ◌⊎◌, refl, sym, ap, ◌∙◌, Bool, true, false, ◌&&◌, Option, none, some, arith,
  length, get_or, set, length-set, get_or-set_self, get_or-set_ne, get_or-replicate, if◌then◌else◌,
  ltb, leb, ◌==◌, Bool-cases, inl, inr,
}
use lateral_root.Can.{CanBus, can_bus1, can_bus2}
use lateral_root.Motors.{
  DjiMotor, DjiMotorTxHandler, MotorStore, construct_tx_handler, normalized_id, store_of,
  with_store, is_null, add_motor_to_store, add_motor_to_manager, get_motor,
}

abbrev pub same_bus : CanBus → CanBus → Bool
same_bus can_bus1 can_bus1 = true
same_bus can_bus2 can_bus2 = true
same_bus _ _ = false

-- The identifiers MOTOR1 to MOTOR8.
abbrev pub is_motor_id : ℕ → Bool
is_motor_id id = leb 0x201 id && leb id 0x208

pub get_or-set_if :
    (l : MotorStore) (i j : ℕ) (v : Option ℕ)
    → i < length l
    → get_or (set l i v) j none ≡ (if i == j then v else get_or l j none)
get_or-set_if l i j v h = elim (Bool-cases (i == j)) [
  | inl e ↦ let p : i ≡ j = ground arith in rw (e) (rw (← p) (get_or-set_self l i v none h))
  | inr e ↦ rw (e) (get_or-set_ne l i j v none (λ p. ground arith))
]

store_of-with :
    (b c : CanBus) (s : MotorStore) (h : DjiMotorTxHandler)
    → store_of b (with_store c s h) ≡ (if same_bus b c then s else store_of b h)
store_of-with can_bus1 can_bus1 s h = refl
store_of-with can_bus1 can_bus2 s h = refl
store_of-with can_bus2 can_bus1 s h = refl
store_of-with can_bus2 can_bus2 s h = refl

pub same_bus_lem : (b c : CanBus) → same_bus b c ≡ true → b ≡ c
same_bus_lem can_bus1 can_bus1 e = refl
same_bus_lem can_bus1 can_bus2 e = cc
same_bus_lem can_bus2 can_bus1 e = cc
same_bus_lem can_bus2 can_bus2 e = refl

module _ (motors : ℕ → DjiMotor) where
  -- Every motor in a store is in the slot of its number, in the store of its bus.
  pub record IsPlaced (h : DjiMotorTxHandler) : Type 0 where
    pub eight : (b : CanBus) → length (store_of b h) ≡ 8
    pub placed :
        (b : CanBus) (i a : ℕ)
        → get_or (store_of b h) i none ≡ some a
        → (normalized_id (motors a).motor_identifier ≡ i) × ((motors a).motor_can_bus ≡ b)

  pub construct-IsPlaced : IsPlaced construct_tx_handler
  construct-IsPlaced = record { eight = eight_in; placed = λ b i a e. absurd (none_in b i a e) }
    where
      eight_in : (b : CanBus) → length (store_of b construct_tx_handler) ≡ 8
      eight_in can_bus1 = refl
      eight_in can_bus2 = refl

      none_in :
          (b : CanBus) (i a : ℕ) → get_or (store_of b construct_tx_handler) i none ≡ some a → ⊥
      none_in can_bus1 i a e = cc (get_or-replicate {A = Option ℕ} 8 i none)
      none_in can_bus2 i a e = cc (get_or-replicate {A = Option ℕ} 8 i none)

  -- The handler after a motor is put into its slot, or the slot is cleared.
  abbrev pub put : ℕ → Option ℕ → DjiMotorTxHandler → DjiMotorTxHandler
  put motor v h =
      let bus = (motors motor).motor_can_bus in
      with_store bus (set (store_of bus h) (normalized_id (motors motor).motor_identifier) v) h

  module _ (motor : ℕ) (v : Option ℕ) (h : DjiMotorTxHandler) (w : IsPlaced h) where
    abbrev bus : CanBus
    bus = (motors motor).motor_can_bus

    abbrev slot : ℕ
    slot = normalized_id (motors motor).motor_identifier

    pub get_or-put :
        (b : CanBus) (j : ℕ)
        → slot < 8
        → get_or (store_of b (put motor v h)) j none
          ≡ (if same_bus b bus && (slot == j) then v else get_or (store_of b h) j none)
    get_or-put b j p =
        rw (store_of-with b bus (set (store_of bus h) slot v) h)
          elim (Bool-cases (same_bus b bus)) [
            | inl e ↦
                let q : b ≡ bus = same_bus_lem b bus e in
                rw (e) (
                  get_or-set_if (store_of bus h) slot j v (omega (arith, w.eight bus))
                  ∙ ap (λ c. if slot == j then v else get_or (store_of c h) j none) (sym q))
            | inr e ↦ rw (e)
          ]

    put_eight : (b : CanBus) → length (store_of b (put motor v h)) ≡ 8
    put_eight b =
        rw (store_of-with b bus (set (store_of bus h) slot v) h)
          elim (Bool-cases (same_bus b bus)) [
            | inl e ↦ rw (e) (length-set (store_of bus h) slot v ∙ w.eight bus)
            | inr e ↦ rw (e) (w.eight b)
          ]

    both : (b : CanBus) (i : ℕ) → (same_bus b bus && (slot == i)) ≡ true → (b ≡ bus) × (slot ≡ i)
    both b i t =
        let e : same_bus b bus ≡ true = ground arith in (same_bus_lem b bus e, ground arith)

    pub put-IsPlaced : slot < 8 → (v ≡ none) ⊎ (v ≡ some motor) → IsPlaced (put motor v h)
    put-IsPlaced p kind = record { eight = put_eight; placed = at }
      where
        at :
            (b : CanBus) (i a : ℕ)
            → get_or (store_of b (put motor v h)) i none ≡ some a
            → (normalized_id (motors a).motor_identifier ≡ i) × ((motors a).motor_can_bus ≡ b)
        at b i a e = elim (Bool-cases (same_bus b bus && (slot == i))) [
          | inl t ↦
              let q : v ≡ some a = rw (get_or-put b i p, t) at e in
              let same : (b ≡ bus) × (slot ≡ i) = both b i t in
              elim kind [
                | inl n ↦ cc
                | inr n ↦
                    let m : a ≡ motor = cc in
                    (
                      ap (λ x. normalized_id (motors x).motor_identifier) m ∙ same.1,
                      ap (λ x. (motors x).motor_can_bus) m ∙ sym same.0,
                    )
              ]
          | inr t ↦ w.placed b i a (rw (get_or-put b i p, t) at e)
        ]

  pub is_motor_id_lem : (id : ℕ) → is_motor_id id ≡ ltb (normalized_id id) 8
  unfolding normalized_id
  is_motor_id_lem id = ground arith

  pub slot_eq :
      (id j : ℕ) → is_motor_id id ≡ true → (normalized_id id == normalized_id j) ≡ (id == j)
  unfolding normalized_id
  slot_eq id j p = ground arith

  pub get_motor_lem :
      (b : CanBus) (id : ℕ) (h : DjiMotorTxHandler)
      → get_motor b id h
        ≡ (if is_motor_id id then get_or (store_of b h) (normalized_id id) none else none)
  unfolding get_motor normalized_id
  get_motor_lem b id h = ground arith

  -- addMotorToManager fails exactly if the identifier is none of MOTOR1 to MOTOR8 or its slot is taken.
  pub add_motor-none :
      (motor : ℕ) (h : DjiMotorTxHandler)
      → let id = (motors motor).motor_identifier in
        (add_motor_to_manager motors motor h ≡ none)
        ↔ ((is_motor_id id && is_null (get_motor (motors motor).motor_can_bus id h)) ≡ false)
  unfolding add_motor_to_manager add_motor_to_store
  add_motor-none motor h = ground (
    arith,
    is_motor_id_lem (motors motor).motor_identifier,
    get_motor_lem (motors motor).motor_can_bus (motors motor).motor_identifier h,
  )

  pub add_motor_lem :
      (motor : ℕ) (h h' : DjiMotorTxHandler)
      → add_motor_to_manager motors motor h ≡ some h'
      → (is_motor_id (motors motor).motor_identifier ≡ true) × (h' ≡ put motor (some motor) h)
  unfolding add_motor_to_manager add_motor_to_store
  add_motor_lem motor h h' e = ground (arith, is_motor_id_lem (motors motor).motor_identifier)
