-- ===== src/Iterator.antt =====
-- `CommandIterator` and `SubsystemIterator` of tap/control/command_scheduler.cpp, and the loops
-- `for (auto it = begin(); it != end(); it++)` over them. The two classes have the same code, over
-- a bitmap and a registrar of their own. An index is a number, and `none` is INVALID_ITER_INDEX; the
-- end iterator is `none`.
pub mod Scan
use Prim.Native.Nat.{bit_and}
use lateral_root.Prelude.{ℕ, zero, suc, ◌-◌, Bool, Option, none, some, leb, ◌!=◌, if◌then◌else◌}
use lateral_root.Bits.{one_hot}

-- `bitmap & (1 << i)`, read as a condition
abbrev pub has_bit : ℕ → ℕ → Bool
has_bit bitmap i = bit_and bitmap (one_hot i) != 0

-- The loop `while (currIndex < maxIndex)` from an index; the first argument is the number of rounds
-- left, `maxIndex - currIndex`.
unfoldable pub seek : ℕ → ℕ → ℕ → Option ℕ
seek zero bitmap i = none
seek (suc rounds) bitmap i =
    let rest = seek rounds bitmap (suc i) in if has_bit bitmap i then some i else rest

-- `operator++`
unfoldable pub increment : ℕ → ℕ → Option ℕ → Option ℕ
unfolding seek
increment max_index bitmap none = none
increment max_index bitmap (some i) = seek (max_index - suc i) bitmap (suc i)

-- The constructor, at an index that is not negative.
unfoldable pub make_iterator : ℕ → ℕ → ℕ → Option ℕ
unfolding increment
make_iterator max_index bitmap i =
    if leb max_index i
    then none
    else if has_bit bitmap i
    then some i
    else increment max_index bitmap (some i)

-- The body of a loop may change the bitmap, which `operator++` then reads again. The first argument is
-- fuel for the rounds of the `for` loop.
module _ {ℓ} {S : Type ℓ} (bitmap : S → ℕ) (max_index : ℕ) (body : ℕ → S → S) where
  unfoldable pub loop : ℕ → Option ℕ → S → S
  loop zero it s = s
  loop (suc fuel) none s = s
  loop (suc fuel) (some i) s =
      let s' = body i s in loop fuel (increment max_index (bitmap s') (some i)) s'

  unfoldable pub for_each : S → S
  unfolding loop make_iterator
  for_each s = loop (suc max_index) (make_iterator max_index (bitmap s) 0) s
