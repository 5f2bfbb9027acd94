-- ===== src/Can/Chains.antt =====
-- The listeners of one bin as a list.
use lateral_root.Prelude.{ℕ, ◌≡◌, ◌≢◌, ap, sym, ◌∙◌, Option, none, some, List, [], ◌∷◌, ◌++◌, arith}
use lateral_root.Can.{update}

-- The list of the nodes from a pointer on.
abbrev pub Chain : (ℕ → Option ℕ) → Option ℕ → List ℕ → Type 0
Chain next p [] = p ≡ none
Chain next p (x ∷ xs) = (p ≡ some x) × Chain next (next x) xs

module _ (can_identifier : ℕ → ℕ) where
  -- No listener of a list has the identifier.
  abbrev pub IsFree : ℕ → List ℕ → Type 0
  IsFree i [] = Unit {0}
  IsFree i (x ∷ xs) = (can_identifier x ≢ i) × IsFree i xs

  -- No two listeners of a list have the same identifier.
  abbrev pub AreDifferent : List ℕ → Type 0
  AreDifferent [] = Unit {0}
  AreDifferent (x ∷ xs) = IsFree (can_identifier x) xs × AreDifferent xs

  abbrev pub last_of : ℕ → List ℕ → ℕ
  last_of x [] = x
  last_of x (y ∷ ys) = last_of y ys

  pub last_of_ne : (i x : ℕ) (xs : List ℕ) → IsFree i (x ∷ xs) → can_identifier (last_of x xs) ≢ i
  last_of_ne i x [] h = h.0
  last_of_ne i x (y ∷ ys) h = last_of_ne i y ys h.1

pub update_self : (next : ℕ → Option ℕ) (n : ℕ) (p : Option ℕ) → update next n p n ≡ p
update_self next n p = ground arith

pub update_ne : (next : ℕ → Option ℕ) (n a : ℕ) (p : Option ℕ) → n ≢ a → update next n p a ≡ next a
update_ne next n a p ne = ground arith

module _ (can_identifier : ℕ → ℕ) where
  -- A chain without a node does not see an assignment to the node's member.
  pub update-Chain :
      (next : ℕ → Option ℕ) (n : ℕ) (p q : Option ℕ) (xs : List ℕ)
      → IsFree can_identifier (can_identifier n) xs
      → Chain next q xs
      → Chain (update next n p) q xs
  update-Chain next n p q [] free c = c
  update-Chain next n p q (x ∷ xs) free c = (
    c.0,
    rw (update_ne next n x p (λ e. free.0 (ap can_identifier (sym e))))
        (update-Chain next n p (next x) xs free.1 c.1),
  )

  -- Linking a new listener behind the last one appends it.
  pub append-Chain :
      (next : ℕ → Option ℕ) (listener x : ℕ) (xs : List ℕ)
      → Chain next (next x) xs
      → AreDifferent can_identifier (x ∷ xs)
      → IsFree can_identifier (can_identifier listener) (x ∷ xs)
      → next listener ≡ none
      → let next' = update next (last_of can_identifier x xs) (some listener) in
        Chain next' (next' x) (xs ++ listener ∷ [])
  append-Chain next listener x [] c d free fresh = (
    update_self next x (some listener),
    update_ne next x listener (some listener) (λ e. free.0 (ap can_identifier e)) ∙ fresh,
  )
  append-Chain next listener x (y ∷ ys) c d free fresh = (
    update_ne next (last_of can_identifier y ys) x (some listener)
          (λ e. last_of_ne can_identifier (can_identifier x) y ys d.0 (ap can_identifier e))
        ∙ c.0,
    append-Chain next listener y ys c.1 d.1 free.1 fresh,
  )
