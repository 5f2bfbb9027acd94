-- ===== src/Registry/Laws.antt =====
-- What constructing and destroying commands and subsystems does to a registrar.
use Prim.Native.Nat.{max}
use native.Mathlib.Decide.{ℕ_discrete}
use lateral_root.Prelude.{
  ℕ, suc, ◌≤◌, ◌<◌, ◌≡◌, ◌≢◌, refl, sym, subst, ◌∙◌, none, some, arith, length, set, length-set,
  get_or-set_self, get_or-set_ne, get_or-replicate,
}
use lateral_root.Registry.{
  Registry, max_count, empty, ok, failed, too_many_constructed, construct, destruct, at, release,
}
use lateral_root.Registry.Slots.{IsLowest, lowest_null-IsLowest, lowest_null-found}

-- Every pointer stands below `max_index`, and the array has its 64 places.
pub record IsValid (r : Registry) : Type 0 where
  pub size : length r.slots ≡ max_count
  pub bounded : r.max_index ≤ max_count
  pub free : (i : ℕ) → r.max_index ≤ i → at r i ≡ none

pub empty-IsValid : IsValid empty
empty-IsValid = record {
  size = refl;
  bounded = omega arith;
  free = λ i h. get_or-replicate max_count i none;
}

-- What a successful construction with index `i` leaves.
pub record Constructed (object i : ℕ) (r r' : Registry) : Type 0 where
  pub lowest : IsLowest r.slots i
  pub held : at r' i ≡ some object
  pub others : (j : ℕ) → j ≢ i → at r' j ≡ at r j
  pub within : i < r'.max_index
  pub grows : r.max_index ≤ r'.max_index
  pub valid : IsValid r'

placed : (object : ℕ) (r : Registry) → ℕ → Registry
placed object r i = record {
  slots = set r.slots i (some object);
  max_index = max r.max_index (suc i);
}

placed-Constructed :
    {r : Registry} (object i : ℕ)
    → IsValid r
    → IsLowest r.slots i
    → Constructed object i r (placed object r i)
unfolding placed
placed-Constructed {r} object i v low = record {
  lowest = low;
  held = get_or-set_self r.slots i (some object) none low.inside;
  others = λ j ne. get_or-set_ne r.slots i j (some object) none (λ e. ne (sym e));
  within = omega arith;
  grows = omega arith;
  valid = record {
    size = length-set r.slots i (some object) ∙ v.size;
    bounded = omega (arith, low.inside, v.size, v.bounded);
    free = λ j h.
        get_or-set_ne r.slots i j (some object) none (λ e. absurd (omega arith))
        ∙ v.free j (omega arith);
  };
}

-- In a valid registrar whose `max_index` is below 64, constructing an object succeeds: it gets the
-- lowest index that holds no pointer, every other index keeps what it held, and the registrar stays
-- valid.
pub construct_lem :
    {r : Registry} (object : ℕ)
    → IsValid r
    → r.max_index < max_count
    → (i : ℕ) × (r' : Registry) × (construct (some object) r ≡ ok (some i, r'))
      × Constructed object i r r'
unfolding construct
construct_lem {r} object v room =
    let (i, found) =
      lowest_null-found r.slots r.max_index (omega (arith, v.size))
        (v.free r.max_index (omega arith)) in
    (
      i,
      placed object r i,
      unfold placed in ground (arith, found),
      placed-Constructed object i v (lowest_null-IsLowest r.slots i found),
    )

emptied_self : {r : Registry} → IsValid r → (i : ℕ) → i < max_count → at (release i r) i ≡ none
unfolding release
emptied_self {r} v i h = get_or-set_self r.slots i none none (omega (arith, v.size))

emptied_ne : (r : Registry) (i j : ℕ) → j ≢ i → at (release i r) j ≡ at r j
unfolding release
emptied_ne r i j ne = get_or-set_ne r.slots i j none none (λ e. ne (sym e))

release-bounded : (r : Registry) (i : ℕ) → (release i r).max_index ≤ r.max_index
unfolding release
release-bounded r i = ground arith

released_at_end : (r : Registry) (i j : ℕ) → (release i r).max_index ≤ j → j ≢ i → r.max_index ≤ j
unfolding release
released_at_end r i j h ne = ground arith

release-IsValid : {r : Registry} (i : ℕ) → IsValid r → i < max_count → IsValid (release i r)
release-IsValid {r} i v h = record {
  size = unfold release in length-set r.slots i none ∙ v.size;
  bounded = omega (arith, release-bounded r i, v.bounded);
  free = λ j q. elim (ℕ_discrete j i) [
    | yes e ↦ subst (λ k. at (release i r) k ≡ none) (sym e) (emptied_self v i h)
    | no ne ↦ emptied_ne r i j ne ∙ v.free j (released_at_end r i j q ne)
  ];
}

-- Destroying the object with an index below 64 empties that index of a valid registrar, keeps every
-- other index, and keeps the registrar valid.
pub destruct_lem :
    {r : Registry} (object i : ℕ)
    → IsValid r
    → i < max_count
    → (r' : Registry) × (destruct (some object) (some i) r ≡ ok r')
      × (at r' i ≡ none)
      × ((j : ℕ) → j ≢ i → at r' j ≡ at r j)
      × IsValid r'
unfolding destruct
destruct_lem {r} object i v h =
    (release i r, ground arith, emptied_self v i h, emptied_ne r i, release-IsValid i v h)

-- When `max_index` is 64, construction is refused, also after an index below the highest became
-- free.
pub construct-destruct_full :
    (r : Registry) {r' : Registry} (old new i : ℕ)
    → r.max_index ≡ max_count
    → suc i < max_count
    → destruct (some old) (some i) r ≡ ok r'
    → construct (some new) r' ≡ failed too_many_constructed
unfolding construct destruct
construct-destruct_full r old new i full h e = ground arith
