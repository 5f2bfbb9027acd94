-- ===== src/Can/Process.antt =====
-- Which listener a received message is passed to.
use lateral_root.Prelude.{
  ℕ, zero, suc, ◌<◌, ◌≡◌, ◌≢◌, refl, ap, ◌∙◌, Bool, true, false, Option, none, some, List, [], ◌∷◌,
  ◌++◌, arith, ◌==◌, ==_refl, length, length-append, if◌then◌else◌,
}
use lateral_root.Can.{
  Listeners, Store, CanRxHandler, bin_index_for_can_id, find_listener, wanted_identifier, deliver,
  process_received_can_data, attach_to_store,
}
use lateral_root.Can.Chains.{Chain, IsFree, AreDifferent}
use lateral_root.Can.Attach.{HasChain, bin_of, attach_to_store-appends}

module _ {M W : Type 0} (o : Listeners M W) where
  -- The first listener of a list with the identifier.
  abbrev pub first_with : ℕ → List ℕ → Option ℕ
  first_with wanted [] = none
  first_with wanted (x ∷ xs) = if o.can_identifier x == wanted then some x else first_with wanted xs

  find_listener-first_with :
      (fuel wanted : ℕ) (next : ℕ → Option ℕ) (p : Option ℕ) (xs : List ℕ)
      → Chain next p xs
      → length xs < fuel
      → find_listener o fuel wanted next p ≡ some (first_with wanted xs)
  unfolding find_listener
  find_listener-first_with zero wanted next p xs c h = absurd (omega arith)
  find_listener-first_with (suc fuel) wanted next p [] c h = rw (c, find_listener)
  find_listener-first_with (suc fuel) wanted next p (x ∷ xs) c h =
      rw
        (
          c.0,
          find_listener,
          find_listener-first_with fuel wanted next (next x) xs c.1 (omega arith),
        )
        (push (o.can_identifier x == wanted))
    where
      push :
          (b : Bool)
          → (if b then some (some x) else some (first_with wanted xs))
            ≡ some (if b then some x else first_with wanted xs)
      push true = refl
      push false = refl

  abbrev pub process_found : M → Option ℕ → W → W
  process_found m none w = w
  process_found m (some a) w = o.process_message a m w

  deliver-process_found :
      (m : M) (p : Option ℕ) (w : W) → deliver o m (some p) w ≡ some (process_found m p w)
  deliver-process_found m none w = refl
  deliver-process_found m (some a) w = refl

  -- A message is processed once, by the first listener in the chain of its bin that has the wanted
  -- identifier, or by none if there is no such listener; fuel above the length of the chain is enough.
  pub process_received_can_data-first_with :
      (fuel : ℕ) (m : M) (store : Store) (h : CanRxHandler) (w : W) (xs : List ℕ)
      → HasChain o h store (bin_index_for_can_id (o.get_identifier m)) xs
      → length xs < fuel
      → process_received_can_data o fuel m store h w
        ≡ some (process_found m (first_with (wanted_identifier o m) xs) w)
  unfolding process_received_can_data
  process_received_can_data-first_with fuel m store h w xs c lt =
      rw
        (
          process_received_can_data,
          find_listener-first_with fuel (wanted_identifier o m) h.next _ xs c lt,
        )
        (deliver-process_found m (first_with (wanted_identifier o m) xs) w)

  first_with-append :
      (listener : ℕ) (xs : List ℕ)
      → IsFree o.can_identifier (o.can_identifier listener) xs
      → first_with (o.can_identifier listener) (xs ++ listener ∷ []) ≡ some listener
  first_with-append listener [] free = rw (==_refl (o.can_identifier listener))
  first_with-append listener (x ∷ xs) free = rw (different) (first_with-append listener xs free.1)
    where
      different : (o.can_identifier x == o.can_identifier listener) ≡ false
      different = ground (arith, free.0)

  -- After a listener was attached to a bin that has no listener with its identifier, a standard message
  -- with this identifier is processed by that listener, and by no other. The listeners of the bin have
  -- different identifiers, the new one has no `next` yet, and the fuel is above their number.
  pub process_received_can_data-attach :
      (fuel : ℕ) (m : M) (listener : ℕ) (store : Store) (h : CanRxHandler) (w : W) (xs : List ℕ)
      → HasChain o h store (bin_of o listener) xs
      → AreDifferent o.can_identifier xs
      → IsFree o.can_identifier (o.can_identifier listener) xs
      → h.next listener ≡ none
      → o.is_extended m ≡ false
      → o.get_identifier m ≡ o.can_identifier listener
      → o.identifier m ≡ o.can_identifier listener
      → suc (length xs) < fuel
      → (h' : CanRxHandler) × (attach_to_store o fuel listener store h ≡ some h')
        × (process_received_can_data o fuel m store h' w ≡ some (o.process_message listener m w))
  process_received_can_data-attach fuel m listener store h w xs c d free fresh standard got same
        lt =
      let (h', attached, chain, errors) =
        attach_to_store-appends o fuel listener store h xs c d free fresh (omega arith) in
      (
        h',
        attached,
        process_received_can_data-first_with fuel m store h' w (xs ++ listener ∷ []) (rw got chain)
              (omega (arith, length-append xs (listener ∷ [])))
            ∙ ap (λ p. some (process_found m p w)) {y = some listener}
                (rw (standard, same) (first_with-append listener xs free)),
      )

  -- Every listener of a list has the identifier.
  abbrev pub AllHave : ℕ → List ℕ → Type 0
  AllHave i [] = Unit {0}
  AllHave i (x ∷ xs) = (o.can_identifier x ≡ i) × AllHave i xs

  none_with : (i wanted : ℕ) (xs : List ℕ) → i ≢ wanted → AllHave i xs → first_with wanted xs ≡ none
  none_with i wanted [] ne a = refl
  none_with i wanted (x ∷ xs) ne a = rw (different) (none_with i wanted xs ne a.1)
    where
      different : (o.can_identifier x == wanted) ≡ false
      different = ground (arith, a.0)

  -- An extended message whose identifier falls in bin 0 is processed by no listener, if all
  -- listeners of this bin have the identifier 8, the only valid one of extended messages that falls
  -- in it; fuel above the length of the chain is enough.
  pub process_received_can_data-extended_8 :
      (fuel : ℕ) (m : M) (store : Store) (h : CanRxHandler) (w : W) (xs : List ℕ)
      → HasChain o h store 0 xs
      → AllHave 8 xs
      → o.is_extended m ≡ true
      → bin_index_for_can_id (o.get_identifier m) ≡ 0
      → length xs < fuel
      → process_received_can_data o fuel m store h w ≡ some w
  process_received_can_data-extended_8 fuel m store h w xs c eights extended bin lt =
      process_received_can_data-first_with fuel m store h w xs (rw bin c) lt
      ∙ ap (λ p. some (process_found m p w)) {y = none}
          (rw (extended, bin) (none_with 8 0 xs (λ e. absurd (omega arith)) eights))
