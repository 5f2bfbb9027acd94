-- ===== src/Motors/Frames.antt =====
-- What the messages hold after the loop over the motors of a bus.
use lateral_root.Prelude.{
  ℕ, ◌+◌, ◌*◌, ◌%◌, ◌<◌, ◌≡◌, refl, ap, ◌∙◌, Bool, true, false, ◌||◌, Option, none, some, List, [],
  ◌∷◌, foldl, arith, replicate, set, if◌then◌else◌, leb, Bool-cases, inl, inr,
}
use lateral_root.Prelude.Int.{ℤ}
use lateral_root.Motors.{
  DjiMotor, Message, Outgoing, empty_message, normalized_id, serialize_slot,
  serialize_can_send_data, serialize_motor_store_send_data, high_byte, low_byte,
}

-- The two bytes of a slot, which are 0 if no motor writes there.
abbrev pub byte_high : Option ℤ → ℕ
byte_high none = 0
byte_high (some v) = high_byte v

abbrev pub byte_low : Option ℤ → ℕ
byte_low none = 0
byte_low (some v) = low_byte v

abbrev pub frame : Option ℤ → Option ℤ → Option ℤ → Option ℤ → List ℕ
frame a b c d =
    byte_high a
    ∷ byte_low a
    ∷ byte_high b
    ∷ byte_low b
    ∷ byte_high c
    ∷ byte_low c
    ∷ byte_high d
    ∷ byte_low d
    ∷ []

abbrev pub has {ℓ} : {A : Type ℓ} → Option A → Bool
has none = false
has (some a) = true

abbrev pub filled : (low high current : List ℕ) (v1 v2 v3 : Bool) → Outgoing
filled low high current v1 v2 v3 = record {
  message_low = record (empty_message 0x200) { content = low };
  message_high = record (empty_message 0x1FF) { content = high };
  message_6020_current = record (empty_message 0x1FE) { content = current };
  valid_low = v1;
  valid_high = v2;
  valid_6020_current = v3;
}

-- The writes of a motor to the slot `i` of a message.
write : ℕ → Option ℤ → List ℕ → List ℕ
write i none l = l
write i (some v) l = set (set l (2 * i) (high_byte v)) (2 * i + 1) (low_byte v)

write_0 : (o : Option ℤ) (r : List ℕ) → write 0 o (0 ∷ 0 ∷ r) ≡ byte_high o ∷ byte_low o ∷ r
unfolding write
write_0 none r = refl
write_0 (some v) r = refl

write_1 :
    (o : Option ℤ) (x y : ℕ) (r : List ℕ)
    → write 1 o (x ∷ y ∷ 0 ∷ 0 ∷ r) ≡ x ∷ y ∷ byte_high o ∷ byte_low o ∷ r
unfolding write
write_1 none x y r = refl
write_1 (some v) x y r = refl

write_2 :
    (o : Option ℤ) (x y z w : ℕ) (r : List ℕ)
    → write 2 o (x ∷ y ∷ z ∷ w ∷ 0 ∷ 0 ∷ r) ≡ x ∷ y ∷ z ∷ w ∷ byte_high o ∷ byte_low o ∷ r
unfolding write
write_2 none x y z w r = refl
write_2 (some v) x y z w r = refl

write_3 :
    (o : Option ℤ) (x y z w u v : ℕ) (r : List ℕ)
    → write 3 o (x ∷ y ∷ z ∷ w ∷ u ∷ v ∷ 0 ∷ 0 ∷ r)
      ≡ x ∷ y ∷ z ∷ w ∷ u ∷ v ∷ byte_high o ∷ byte_low o ∷ r
unfolding write
write_3 none x y z w u v r = refl
write_3 (some n) x y z w u v r = refl

write_four :
    (a b c d : Option ℤ)
    → write 3 d (write 2 c (write 1 b (write 0 a (replicate 8 0)))) ≡ frame a b c d
write_four a b c d =
    ap (λ l. write 3 d (write 2 c (write 1 b l))) (write_0 a _)
    ∙ ap (λ l. write 3 d (write 2 c l)) (write_1 b _ _ _)
    ∙ ap (write 3 d) (write_2 c _ _ _ _ _)
    ∙ write_3 d _ _ _ _ _ _ _

any_four : (a b c d : Bool) → ((((false || a) || b) || c) || d) ≡ (a || b || c || d)
any_four a b c d = ground arith

filled_cong :
    {l l' h h' c c' : List ℕ} {v1 v1' v2 v2' v3 v3' : Bool}
    → l ≡ l'
    → h ≡ h'
    → c ≡ c'
    → v1 ≡ v1'
    → v2 ≡ v2'
    → v3 ≡ v3'
    → filled l h c v1 v2 v3 ≡ filled l' h' c' v1' v2' v3'
filled_cong p q r e f g = cc

-- Where a motor writes.
serialize_at :
    (m : DjiMotor) (i j : ℕ) (message : Message)
    → normalized_id m.motor_identifier ≡ j
    → j % 4 ≡ i
    → serialize_can_send_data m message
      ≡ record message { content = write i (some m.desired_output) message.content }
unfolding serialize_can_send_data write
serialize_at m i j message p q =
    let e : normalized_id m.motor_identifier % 4 ≡ i = omega arith in rw (e)

module _ (motors : ℕ → DjiMotor) where
  -- The motor in a slot, if there is one, has the slot's number.
  abbrev pub IsAt : ℕ → Option ℕ → Type 0
  IsAt i none = Unit {0}
  IsAt i (some a) = normalized_id (motors a).motor_identifier ≡ i

  abbrev pub output : Option ℕ → Option ℤ
  output none = none
  output (some a) = some (motors a).desired_output

  -- The outputs of the motors that are not, and that are, under current control.
  abbrev pub voltage_output : Option ℕ → Option ℤ
  voltage_output none = none
  voltage_output (some a) =
      if (motors a).current_control then none else some (motors a).desired_output

  abbrev pub current_output : Option ℕ → Option ℤ
  current_output none = none
  current_output (some a) =
      if (motors a).current_control then some (motors a).desired_output else none

  low_slot :
      (i : ℕ) (o : Option ℕ) (l h c : List ℕ) (v1 v2 v3 : Bool)
      → i < 4
      → IsAt i o
      → serialize_slot motors (filled l h c v1 v2 v3) o
        ≡ filled (write i (output o) l) h c (v1 || has o) v2 v3
  unfolding serialize_slot write normalized_id
  low_slot i none l h c v1 v2 v3 p q = ground arith
  low_slot i (some a) l h c v1 v2 v3 p q =
      let t : leb (normalized_id (motors a).motor_identifier) 3 ≡ true = ground arith in
      rw
        (
          t,
          serialize_at (motors a) i i (record { identifier = 0x200; length = 8; content = l }) q
              (omega arith),
        )
        (ground arith)

  high_slot :
      (i : ℕ) (o : Option ℕ) (l h c : List ℕ) (v1 v2 v3 : Bool)
      → i < 4
      → IsAt (4 + i) o
      → serialize_slot motors (filled l h c v1 v2 v3) o
        ≡ filled l
            (write i (voltage_output o) h)
            (write i (current_output o) c)
            v1
            (v2 || has (voltage_output o))
            (v3 || has (current_output o))
  unfolding serialize_slot write normalized_id serialize_can_send_data
  high_slot i none l h c v1 v2 v3 p q = ground arith
  high_slot i (some a) l h c v1 v2 v3 p q =
      let t : leb (normalized_id (motors a).motor_identifier) 3 ≡ false = ground arith in
      elim (Bool-cases (motors a).current_control) [
        | inl e ↦
            rw
              (
                t,
                e,
                serialize_at (motors a) i (4 + i)
                    (record { identifier = 0x1FE; length = 8; content = c }) q (omega arith),
              )
              (ground arith)
        | inr e ↦
            rw
              (
                t,
                e,
                serialize_at (motors a) i (4 + i)
                    (record { identifier = 0x1FF; length = 8; content = h }) q (omega arith),
              )
              (ground arith)
      ]

  low_half :
      (s1 s2 s3 s4 : Option ℕ) (l h c : List ℕ) (v1 v2 v3 : Bool)
      → IsAt 0 s1 × IsAt 1 s2 × IsAt 2 s3 × IsAt 3 s4
      → foldl (serialize_slot motors) (filled l h c v1 v2 v3) (s1 ∷ s2 ∷ s3 ∷ s4 ∷ [])
        ≡ filled
            (write 3
              (output s4)
              (write 2 (output s3) (write 1 (output s2) (write 0 (output s1) l))))
            h
            c
            ((((v1 || has s1) || has s2) || has s3) || has s4)
            v2
            v3
  low_half s1 s2 s3 s4 l h c v1 v2 v3 (p1, p2, p3, p4) =
      ap (λ u. foldl (serialize_slot motors) u (s2 ∷ s3 ∷ s4 ∷ []))
        (low_slot 0 s1 l h c v1 v2 v3 (omega arith) p1)
      ∙ ap (λ u. foldl (serialize_slot motors) u (s3 ∷ s4 ∷ []))
          (low_slot 1 s2 _ h c _ v2 v3 (omega arith) p2)
      ∙ ap (λ u. serialize_slot motors u s4) (low_slot 2 s3 _ h c _ v2 v3 (omega arith) p3)
      ∙ low_slot 3 s4 _ h c _ v2 v3 (omega arith) p4

  high_half :
      (s1 s2 s3 s4 : Option ℕ) (l h c : List ℕ) (v1 v2 v3 : Bool)
      → IsAt 4 s1 × IsAt 5 s2 × IsAt 6 s3 × IsAt 7 s4
      → foldl (serialize_slot motors) (filled l h c v1 v2 v3) (s1 ∷ s2 ∷ s3 ∷ s4 ∷ [])
        ≡ filled l
            (write 3 (voltage_output s4) (
              write 2
                (voltage_output s3)
                (write 1 (voltage_output s2) (write 0 (voltage_output s1) h))))
            (write 3 (current_output s4) (
              write 2
                (current_output s3)
                (write 1 (current_output s2) (write 0 (current_output s1) c))))
            v1
            ((((v2 || has (voltage_output s1)) || has (voltage_output s2))
                || has (voltage_output s3))
              || has (voltage_output s4))
            ((((v3 || has (current_output s1)) || has (current_output s2))
                || has (current_output s3))
              || has (current_output s4))
  high_half s1 s2 s3 s4 l h c v1 v2 v3 (p1, p2, p3, p4) =
      ap (λ u. foldl (serialize_slot motors) u (s2 ∷ s3 ∷ s4 ∷ []))
        (high_slot 0 s1 l h c v1 v2 v3 (omega arith) p1)
      ∙ ap (λ u. foldl (serialize_slot motors) u (s3 ∷ s4 ∷ []))
          (high_slot 1 s2 l _ _ v1 _ _ (omega arith) p2)
      ∙ ap (λ u. serialize_slot motors u s4) (high_slot 2 s3 l _ _ v1 _ _ (omega arith) p3)
      ∙ high_slot 3 s4 l _ _ v1 _ _ (omega arith) p4

  -- If every motor of a bus is in the slot of its number, the loop over the bus leaves in the first message
  -- the two bytes of the outputs of motors 1 to 4, in the second those of motors 5 to 8 that are not under
  -- current control, and in the third those of the motors 5 to 8 that are, with 0 where there is no such
  -- motor; and a message is flagged as valid exactly if there is such a motor.
  pub serialize-frames :
      (s1 s2 s3 s4 s5 s6 s7 s8 : Option ℕ)
      → IsAt 0 s1
        × IsAt 1 s2
        × IsAt 2 s3
        × IsAt 3 s4
        × IsAt 4 s5
        × IsAt 5 s6
        × IsAt 6 s7
        × IsAt 7 s8
      → serialize_motor_store_send_data motors (s1 ∷ s2 ∷ s3 ∷ s4 ∷ s5 ∷ s6 ∷ s7 ∷ s8 ∷ [])
        ≡ filled
            (frame (output s1) (output s2) (output s3) (output s4))
            (frame (voltage_output s5) (voltage_output s6) (voltage_output s7) (voltage_output s8))
            (frame (current_output s5) (current_output s6) (current_output s7) (current_output s8))
            (has s1 || has s2 || has s3 || has s4)
            (has (voltage_output s5)
              || has (voltage_output s6)
              || has (voltage_output s7)
              || has (voltage_output s8))
            (has (current_output s5)
              || has (current_output s6)
              || has (current_output s7)
              || has (current_output s8))
  unfolding serialize_motor_store_send_data
  serialize-frames s1 s2 s3 s4 s5 s6 s7 s8 (p1, p2, p3, p4, p5, p6, p7, p8) =
      ap (λ u. foldl (serialize_slot motors) u (s5 ∷ s6 ∷ s7 ∷ s8 ∷ []))
        (low_half s1 s2 s3 s4 (replicate 8 0) (replicate 8 0) (replicate 8 0) false false false
          (p1, p2, p3, p4))
      ∙ high_half s5 s6 s7 s8 _ (replicate 8 0) (replicate 8 0) _ false false (p5, p6, p7, p8)
      ∙ filled_cong (write_four (output s1) (output s2) (output s3) (output s4))
          (write_four (voltage_output s5) (voltage_output s6) (voltage_output s7)
            (voltage_output s8))
          (write_four (current_output s5) (current_output s6) (current_output s7)
            (current_output s8))
          (any_four (has s1) (has s2) (has s3) (has s4))
          (any_four (has (voltage_output s5)) (has (voltage_output s6)) (has (voltage_output s7))
            (has (voltage_output s8)))
          (any_four (has (current_output s5)) (has (current_output s6)) (has (current_output s7))
            (has (current_output s8)))
