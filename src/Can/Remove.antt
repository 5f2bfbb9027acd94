-- ===== src/Can/Remove.antt =====
-- `removeReceiveHandler` on the chain of a bin: it removes the first or the second listener, and does
-- not return if the identifier is further on.
use lateral_root.Prelude.{
  ℕ, zero, suc, ◌<◌, ◌≡◌, ◌≢◌, refl, false, none, some, List, [], ◌∷◌, arith, ◌==◌, ==_iff, length,
}
use lateral_root.Can.{
  Listeners, Store, CanRxHandler, set_bin, set_next, raise_can_error,
  listener_not_in_handler_storage, unlink, remove_from_store,
}
use lateral_root.Can.Chains.{IsFree, AreDifferent, update_self, update-Chain}
use lateral_root.Can.Attach.{HasChain, bin_of, set_bin_self}

module _ {M W : Type 0} (o : Listeners M W) where
  -- The first listener of a bin is removed if it has the identifier.
  pub remove_from_store-first :
      (fuel listener x : ℕ) (store : Store) (h : CanRxHandler) (xs : List ℕ)
      → HasChain o h store (bin_of o listener) (x ∷ xs)
      → o.can_identifier x ≡ o.can_identifier listener
      → (h' : CanRxHandler) × (remove_from_store o fuel listener store h ≡ some h')
        × HasChain o h' store (bin_of o listener) xs
  unfolding remove_from_store
  remove_from_store-first fuel listener x store h xs c e = (
    set_bin store (bin_of o listener) (h.next x) h,
    rw (c.0, remove_from_store, (==_iff _ _).1 e),
    rw (set_bin_self o store (bin_of o listener) (h.next x) h) c.1,
  )

  -- If the listeners of a bin have different identifiers, its second listener is removed when it has
  -- the identifier; one round of the loop is enough.
  pub remove_from_store-second :
      (fuel listener x y : ℕ) (store : Store) (h : CanRxHandler) (xs : List ℕ)
      → HasChain o h store (bin_of o listener) (x ∷ y ∷ xs)
      → AreDifferent o.can_identifier (x ∷ y ∷ xs)
      → o.can_identifier y ≡ o.can_identifier listener
      → (h' : CanRxHandler) × (remove_from_store o (suc fuel) listener store h ≡ some h')
        × HasChain o h' store (bin_of o listener) (x ∷ xs)
  unfolding remove_from_store unlink
  remove_from_store-second fuel listener x y store h xs c d e = (
    set_next x (h.next y) h,
    rw (c.0, remove_from_store, different, unlink, c.1.0, (==_iff _ _).1 e),
    (
      c.0,
      rw (update_self h.next x (h.next y))
          (update-Chain o.can_identifier h.next x (h.next y) (h.next y) xs d.0.1 c.1.1),
    ),
  )
    where
      different : (o.can_identifier x == o.can_identifier listener) ≡ false
      different = ground (arith, d.0.0)

  unlink-stuck :
      (fuel can_id x y : ℕ) (h : CanRxHandler)
      → h.next x ≡ some y
      → (o.can_identifier y == can_id) ≡ false
      → unlink o fuel can_id x h ≡ none
  unfolding unlink
  unlink-stuck zero can_id x y h e other = refl
  unlink-stuck (suc fuel) can_id x y h e other =
      rw (unlink, e, other) (unlink-stuck fuel can_id x y h e other)

  -- If a bin has two listeners or more, and neither of its first two has the identifier, then
  -- `removeReceiveHandler` does not return: no amount of fuel is enough.
  pub remove_from_store-stuck :
      (fuel listener x y : ℕ) (store : Store) (h : CanRxHandler) (xs : List ℕ)
      → HasChain o h store (bin_of o listener) (x ∷ y ∷ xs)
      → o.can_identifier x ≢ o.can_identifier listener
      → o.can_identifier y ≢ o.can_identifier listener
      → remove_from_store o fuel listener store h ≡ none
  unfolding remove_from_store
  remove_from_store-stuck fuel listener x y store h xs c nx ny = rw (
    c.0,
    remove_from_store,
    unlink-stuck fuel (o.can_identifier listener) x y h c.1.0 (ground arith),
    first,
  )
    where
      first : (o.can_identifier x == o.can_identifier listener) ≡ false
      first = ground arith

  -- If a bin has no listener or one with another identifier, an error is raised and nothing is removed.
  pub remove_from_store-absent :
      (fuel listener : ℕ) (store : Store) (h : CanRxHandler) (xs : List ℕ)
      → HasChain o h store (bin_of o listener) xs
      → IsFree o.can_identifier (o.can_identifier listener) xs
      → length xs < 2
      → remove_from_store o (suc fuel) listener store h
        ≡ some (raise_can_error listener_not_in_handler_storage h)
  unfolding remove_from_store unlink
  remove_from_store-absent fuel listener store h [] c free lt = rw (c, remove_from_store)
  remove_from_store-absent fuel listener store h (x ∷ []) c free lt =
      rw (c.0, remove_from_store, different, unlink, c.1)
    where
      different : (o.can_identifier x == o.can_identifier listener) ≡ false
      different = ground (arith, free.0)
  remove_from_store-absent fuel listener store h (x ∷ y ∷ xs) c free lt = absurd (omega arith)
