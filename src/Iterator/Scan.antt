-- ===== src/Iterator/Scan.antt =====
-- A loop over an iterator is a scan of all indices from 0 up, which runs the body where the bit of an
-- index is set when its turn comes.
use lateral_root.Prelude.{
  ℕ, zero, suc, ◌+◌, ◌-◌, ◌<◌, ◌≡◌, refl, ap, subst, true, false, arith, if◌then◌else◌, Bool-cases,
  inl, inr,
}
use lateral_root.Iterator.{has_bit, seek, increment, make_iterator, loop, for_each}

-- The begin iterator is the first index with its bit set.
pub make_iterator-seek :
    (max_index bitmap : ℕ) → make_iterator max_index bitmap 0 ≡ seek max_index bitmap 0
unfolding make_iterator seek
make_iterator-seek zero bitmap = refl
make_iterator-seek (suc n) bitmap = ground arith

module _ {ℓ} {S : Type ℓ} (bitmap : S → ℕ) (max_index : ℕ) (body : ℕ → S → S) where
  abbrev pub visit : ℕ → S → S
  visit i s = if has_bit (bitmap s) i then body i s else s

  -- The first argument is the number of indices left.
  unfoldable pub scan : ℕ → ℕ → S → S
  scan zero i s = s
  scan (suc rounds) i s = scan rounds (suc i) (visit i s)

  pub scan-set :
      (rounds i : ℕ) (s : S)
      → has_bit (bitmap s) i ≡ true
      → scan (suc rounds) i s ≡ scan rounds (suc i) (body i s)
  unfolding scan
  scan-set rounds i s e = ap (λ b. scan rounds (suc i) (if b then body i s else s)) e

  pub scan-unset :
      (rounds i : ℕ) (s : S)
      → has_bit (bitmap s) i ≡ false
      → scan (suc rounds) i s ≡ scan rounds (suc i) s
  unfolding scan
  scan-unset rounds i s e = ap (λ b. scan rounds (suc i) (if b then body i s else s)) e

  loop-scan :
      (rounds i fuel : ℕ) (s : S)
      → rounds + i ≡ max_index
      → rounds < fuel
      → loop bitmap max_index body fuel (seek rounds (bitmap s) i) s ≡ scan rounds i s
  unfolding loop seek scan increment
  loop-scan zero i (suc fuel) s e h = refl
  loop-scan rounds i zero s e h = absurd (omega arith)
  loop-scan (suc rounds) i (suc fuel) s e h = elim (Bool-cases (has_bit (bitmap s) i)) [
    | inl set ↦
        rw (set, rounds_left) (loop-scan rounds (suc i) fuel (body i s) (omega arith) (omega arith))
    | inr unset ↦ rw unset (loop-scan rounds (suc i) (suc fuel) s (omega arith) (omega arith))
  ]
    where
      rounds_left : max_index - suc i ≡ rounds
      rounds_left = omega arith

  pub for_each-scan : (s : S) → for_each bitmap max_index body s ≡ scan max_index 0 s
  unfolding for_each
  for_each-scan s =
      rw (make_iterator-seek max_index (bitmap s))
        (loop-scan max_index 0 (suc max_index) s (omega arith) (omega arith))

-- The invariant rule of the loop: `P i` holds when the turn of index `i` comes.
module _ {ℓ κ} {S : Type ℓ} (bitmap : S → ℕ) (max_index : ℕ) (body : ℕ → S → S) (P : ℕ → S → Type κ)
    (set : (i : ℕ) (s : S)
      → i < max_index
      → has_bit (bitmap s) i ≡ true
      → P i s
      → P (suc i) (body i s))
    (unset : (i : ℕ) (s : S)
      → i < max_index
      → has_bit (bitmap s) i ≡ false
      → P i s
      → P (suc i) s) where
  visit_rule : (i : ℕ) (s : S) → i < max_index → P i s → P (suc i) (visit bitmap max_index body i s)
  visit_rule i s h p = elim (Bool-cases (has_bit (bitmap s) i)) [
    | inl e ↦ rw e (set i s h e p)
    | inr e ↦ rw e (unset i s h e p)
  ]

  scan_rule :
      (rounds i : ℕ) (s : S)
      → rounds + i ≡ max_index
      → P i s
      → P max_index (scan bitmap max_index body rounds i s)
  unfolding scan
  scan_rule zero i s e p = subst (λ (j : ℕ). P j s) {x = i} (omega arith) p
  scan_rule (suc rounds) i s e p =
      scan_rule rounds (suc i) (visit bitmap max_index body i s) (omega arith)
        (visit_rule i s (omega arith) p)

  pub for_each_rule : (s : S) → P 0 s → P max_index (for_each bitmap max_index body s)
  for_each_rule s p =
      rw (for_each-scan bitmap max_index body s) (scan_rule max_index 0 s (omega arith) p)
