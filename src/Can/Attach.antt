-- ===== src/Can/Attach.antt =====
-- `attachReceiveHandler` appends a listener to the chain of its bin, unless one with its identifier is
-- there.
use lateral_root.Prelude.{
  ℕ, zero, suc, ◌<◌, ◌≡◌, ◌≢◌, refl, false, ◌⊎◌, Option, none, some, List, [], ◌∷◌, ◌++◌, arith,
  ◌==◌, ==_iff, ==_refl, Bool-cases, length, inl, inr,
}
use lateral_root.Can.{
  Listeners, Store, dji_can1, rev_can1, dji_can2, rev_can2, CanRxHandler, bin_index_for_can_id,
  set_bin, set_next, raise_can_error, overloading_can_rx_listener, overloaded, last, walk,
  attach_to_store,
}
use lateral_root.Can.Chains.{Chain, IsFree, AreDifferent, last_of, append-Chain}

module _ {M W : Type 0} (o : Listeners M W) where
  -- The chain of a listener's bin.
  abbrev pub HasChain : CanRxHandler → Store → ℕ → List ℕ → Type 0
  HasChain h store bin xs = Chain h.next (h.bins store bin) xs

  abbrev pub bin_of : ℕ → ℕ
  bin_of listener = bin_index_for_can_id (o.can_identifier listener)

  pub set_bin_self :
      (store : Store) (bin : ℕ) (p : Option ℕ) (h : CanRxHandler)
      → (set_bin store bin p h).bins store bin ≡ p
  set_bin_self dji_can1 bin p h = rw (==_refl bin)
  set_bin_self rev_can1 bin p h = rw (==_refl bin)
  set_bin_self dji_can2 bin p h = rw (==_refl bin)
  set_bin_self rev_can2 bin p h = rw (==_refl bin)

  unequal : (a b : ℕ) → a ≢ b → (a == b) ≡ false
  unequal a b ne = ground arith

  walk-last :
      (fuel listener x : ℕ) (next : ℕ → Option ℕ) (xs : List ℕ)
      → Chain next (next x) xs
      → IsFree o.can_identifier (o.can_identifier listener) (x ∷ xs)
      → length xs < fuel
      → walk o fuel listener next x ≡ some (last (last_of o.can_identifier x xs))
  unfolding walk
  walk-last zero listener x next xs c free h = absurd (omega arith)
  walk-last (suc fuel) listener x next [] c free h = rw (unequal _ _ free.0, c)
  walk-last (suc fuel) listener x next (y ∷ ys) c free h =
      rw (unequal _ _ free.0, c.0) (walk-last fuel listener y next ys c.1 free.1 (omega arith))

  -- Some listener of the list has the identifier.
  abbrev pub IsTaken : ℕ → List ℕ → Type 0
  IsTaken i [] = ⊥
  IsTaken i (x ∷ xs) = (o.can_identifier x ≡ i) ⊎ IsTaken i xs

  walk-overloaded :
      (fuel listener x : ℕ) (next : ℕ → Option ℕ) (xs : List ℕ)
      → Chain next (next x) xs
      → IsTaken (o.can_identifier listener) (x ∷ xs)
      → length xs < fuel
      → walk o fuel listener next x ≡ some overloaded
  unfolding walk
  walk-overloaded zero listener x next xs c taken h = absurd (omega arith)
  walk-overloaded (suc fuel) listener x next xs c (inl e) h = rw ((==_iff _ _).1 e)
  walk-overloaded (suc fuel) listener x next [] c (inr t) h = absurd t
  walk-overloaded (suc fuel) listener x next (y ∷ ys) c (inr t) h =
      elim (Bool-cases (o.can_identifier x == o.can_identifier listener)) [
        | inl e ↦ rw e
        | inr e ↦ rw (e, c.0) (walk-overloaded fuel listener y next ys c.1 t (omega arith))
      ]

  -- A listener whose identifier is not in the chain of its bin is appended to the chain, and no error
  -- is raised; fuel above the length of the chain is enough. The listeners of the chain have different
  -- identifiers, and the new one has no `next` yet.
  pub attach_to_store-appends :
      (fuel listener : ℕ) (store : Store) (h : CanRxHandler) (xs : List ℕ)
      → HasChain h store (bin_of listener) xs
      → AreDifferent o.can_identifier xs
      → IsFree o.can_identifier (o.can_identifier listener) xs
      → h.next listener ≡ none
      → length xs < fuel
      → (h' : CanRxHandler) × (attach_to_store o fuel listener store h ≡ some h')
        × HasChain h' store (bin_of listener) (xs ++ listener ∷ [])
        × (h'.errors ≡ h.errors)
  unfolding attach_to_store
  attach_to_store-appends fuel listener store h [] c d free fresh lt = (
    set_bin store (bin_of listener) (some listener) h,
    rw (c, attach_to_store),
    (set_bin_self store (bin_of listener) (some listener) h, fresh),
    refl,
  )
  attach_to_store-appends fuel listener store h (x ∷ xs) c d free fresh lt = (
    set_next (last_of o.can_identifier x xs) (some listener) h,
    rw (c.0, attach_to_store, walk-last fuel listener x h.next xs c.1 free (omega arith)),
    (c.0, append-Chain o.can_identifier h.next listener x xs c.1 d free fresh),
    refl,
  )

  -- A listener whose identifier is in the chain of its bin is not attached, and an error is raised;
  -- fuel above the length of the chain is enough.
  pub attach_to_store-overloads :
      (fuel listener : ℕ) (store : Store) (h : CanRxHandler) (xs : List ℕ)
      → HasChain h store (bin_of listener) xs
      → IsTaken (o.can_identifier listener) xs
      → length xs < fuel
      → attach_to_store o fuel listener store h
        ≡ some (raise_can_error overloading_can_rx_listener h)
  unfolding attach_to_store
  attach_to_store-overloads fuel listener store h [] c t lt = absurd t
  attach_to_store-overloads fuel listener store h (x ∷ xs) c t lt =
      rw (c.0, attach_to_store, walk-overloaded fuel listener x h.next xs c.1 t (omega arith))
