-- ===== src/Serial/Buffer.antt =====
-- The bytes of a message of dji_serial.hpp under writes.
use lateral_root.Prelude.{
  ℕ, zero, suc, ◌+◌, ◌≤◌, ◌<◌, ◌≡◌, refl, sym, ap, ◌∙◌, List, [], ◌∷◌, ◌++◌, arith, length, get_or,
  set, take, length-set, ◌==◌, some,
}
use mathlib.Core.List.{append-nil}
use lateral_root.Crc.{calculate_crc8, crc8_init}
use lateral_root.Serial.{write_at, data_length, header_crc8, verify_crc8}

pub length-write_at :
    (i : ℕ) (bytes message : List ℕ) → length (write_at i bytes message) ≡ length message
unfolding write_at
length-write_at i [] message = refl
length-write_at i (b ∷ bytes) message =
    length-write_at (i + 1) bytes (set message i b) ∙ length-set message i b

take-set : (k i : ℕ) (m : List ℕ) (b : ℕ) → k ≤ i → take k (set m i b) ≡ take k m
take-set zero i m b h = refl
take-set (suc k) i [] b h = refl
take-set (suc k) zero (x ∷ m) b h = absurd (omega arith)
take-set (suc k) (suc i) (x ∷ m) b h = ap (λ l. x ∷ l) (take-set k i m b (omega arith))

-- What stands before the write stays.
pub take-write_at_before :
    (k i : ℕ) (bytes message : List ℕ) → k ≤ i → take k (write_at i bytes message) ≡ take k message
unfolding write_at
take-write_at_before k i [] message h = refl
take-write_at_before k i (b ∷ bytes) message h =
    take-write_at_before k (i + 1) bytes (set message i b) (omega arith) ∙ take-set k i message b h

pub take-set_self :
    (i : ℕ) (m : List ℕ) (b : ℕ) → i < length m → take (suc i) (set m i b) ≡ take i m ++ b ∷ []
take-set_self i [] b h = absurd (omega arith)
take-set_self zero (x ∷ m) b h = refl
take-set_self (suc i) (x ∷ m) b h = ap (λ l. x ∷ l) (take-set_self i m b (omega arith))

append_step : (xs ys : List ℕ) (b : ℕ) → (xs ++ b ∷ []) ++ ys ≡ xs ++ b ∷ ys
append_step [] ys b = refl
append_step (x ∷ xs) ys b = ap (λ l. x ∷ l) (append_step xs ys b)

-- The bytes that are written follow what stands before them.
pub take-write_at :
    (i : ℕ) (bytes message : List ℕ)
    → i + length bytes ≤ length message
    → take (i + length bytes) (write_at i bytes message) ≡ take i message ++ bytes
unfolding write_at
take-write_at i [] message h = ap (λ k. take k message) {y = i} (omega arith) ∙ sym (append-nil _)
take-write_at i (b ∷ bytes) message h =
    ap (λ k. take k (write_at (i + 1) bytes (set message i b))) {y = i + 1 + length bytes}
      (omega arith)
    ∙ take-write_at (i + 1) bytes (set message i b) (omega (arith, length-set {0} message i b))
    ∙ ap (λ l. l ++ bytes)
        (ap (λ k. take k (set message i b)) {y = suc i} (omega arith)
          ∙ take-set_self i message b (omega arith))
    ∙ append_step (take i message) bytes b

pub length-take : (k : ℕ) (m : List ℕ) → k ≤ length m → length (take k m) ≡ k
length-take zero m h = refl
length-take (suc k) [] h = absurd (omega arith)
length-take (suc k) (x ∷ m) h = ap suc (length-take k m (omega arith))

-- What stands behind `xs`.
pub get_or-append :
    (xs ys : List ℕ) (i j : ℕ) → i ≡ length xs + j → get_or (xs ++ ys) i 0 ≡ get_or ys j 0
get_or-append [] ys i j e = ap (λ k. get_or ys k 0) (omega arith)
get_or-append (x ∷ xs) ys zero j e = absurd (omega arith)
get_or-append (x ∷ xs) ys (suc i) j e = get_or-append xs ys i j (omega arith)

pub get_or-take : (k j : ℕ) (m : List ℕ) → j < k → get_or (take k m) j 0 ≡ get_or m j 0
get_or-take zero j m h = absurd (omega arith)
get_or-take (suc k) j [] h = refl
get_or-take (suc k) zero (x ∷ m) h = refl
get_or-take (suc k) (suc j) (x ∷ m) h = get_or-take k j m (omega arith)

pub take-take : (j k : ℕ) (m : List ℕ) → j ≤ k → take j (take k m) ≡ take j m
take-take zero k m h = refl
take-take (suc j) zero m h = absurd (omega arith)
take-take (suc j) (suc k) [] h = refl
take-take (suc j) (suc k) (x ∷ m) h = ap (λ l. x ∷ l) (take-take j k m (omega arith))

-- Bytes that agree up to some place agree at each index before it.
pub get_or-same :
    (k j : ℕ) (m n : List ℕ) → j < k → take k m ≡ take k n → get_or m j 0 ≡ get_or n j 0
get_or-same k j m n h e = sym (get_or-take k j m h) ∙ ap (λ l. get_or l j 0) e ∙ get_or-take k j n h

pub take-same : (j k : ℕ) (m n : List ℕ) → j ≤ k → take k m ≡ take k n → take j m ≡ take j n
take-same j k m n h e = sym (take-take j k m h) ∙ ap (take j) e ∙ take-take j k n h

-- The header decides the length of the data and whether its checksum is right.
module _ (m n : List ℕ) (e : take 5 m ≡ take 5 n) where
  pub data_length-same : data_length m ≡ data_length n
  data_length-same =
      omega (arith, get_or-same 5 1 m n (omega arith) e, get_or-same 5 2 m n (omega arith) e)

  pub verify_crc8-same : verify_crc8 m ≡ verify_crc8 n
  verify_crc8-same =
      ap (λ t. calculate_crc8 (some t) crc8_init == header_crc8 m)
        (take-same 4 5 m n (omega arith) e)
      ∙ ap (λ (t : ℕ). calculate_crc8 (some (take 4 n)) crc8_init == t)
          (get_or-same 5 4 m n (omega arith) e)
