-- ===== src/Examples/Messages.antt =====
-- Runs of the CAN receive handler.
use lateral_root.Prelude.{
  ℕ, ◌≡◌, refl, Bool, false, none, some, List, [], ◌∷◌, ◌++◌, arith, ◌==◌, if◌then◌else◌,
}
use lateral_root.Can.{
  Listeners, can_bus1, dji_can1, rev_can1, CanRxHandler, attach_to_store, process_received_can_data,
}
use lateral_root.Can.Process.{
  first_with, process_found, process_received_can_data-first_with, process_received_can_data-attach,
}

-- A listener's address is its identifier; it writes down that it was called. A message is its
-- identifier, and whether it is extended.
abbrev listeners : Listeners (ℕ × Bool) (List ℕ)
listeners = record {
  can_identifier = λ a. a;
  can_bus = λ a. can_bus1;
  process_message = λ a m w. w ++ a ∷ [];
  get_identifier = λ m. m.0;
  identifier = λ m. m.0;
  is_extended = λ m. m.1;
}

-- The listeners 513, 521 and 529 are in bin 1 of one store, and 8 is in bin 0 of another one.
abbrev handler : CanRxHandler
handler = record {
  bins = λ s i. elim s [
    | dji_can1 ↦ if i == 1 then some 513 else none
    | rev_can1 ↦ if i == 0 then some 8 else none
    | _ ↦ none
  ];
  next = λ a. if a == 513 then some 521 else if a == 521 then some 529 else none;
  errors = [];
}

process_received_can_data-first_with_example :
    process_received_can_data listeners 4 (529, false) dji_can1 handler []
    ≡ some
        (process_found listeners (529, false) (first_with listeners 529 (513 ∷ 521 ∷ 529 ∷ [])) [])
process_received_can_data-first_with_example =
    process_received_can_data-first_with listeners 4 (529, false) dji_can1 handler []
      (513 ∷ 521 ∷ 529 ∷ []) (refl, (refl, (refl, refl))) (omega arith)

process_received_can_data-attach_example :
    (h : CanRxHandler) × (attach_to_store listeners 5 537 dji_can1 handler ≡ some h)
    × (process_received_can_data listeners 5 (537, false) dji_can1 h [] ≡ some (537 ∷ []))
process_received_can_data-attach_example =
    process_received_can_data-attach listeners 5 (537, false) 537 dji_can1 handler []
      (513 ∷ 521 ∷ 529 ∷ []) (refl, (refl, (refl, refl)))
      ((omega arith, (omega arith, tt)), ((omega arith, tt), (tt, tt)))
      (omega arith, (omega arith, (omega arith, tt))) refl refl refl refl (omega arith)
