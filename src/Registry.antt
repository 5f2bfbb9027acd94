-- ===== src/Registry.antt =====
-- The global registrars of tap/control/command_scheduler.cpp: an array of 64 pointers and the index
-- past the last one in use, once for commands and once for subsystems. A pointer is its address; the
-- null pointer is `none`.
pub mod Slots
pub mod Laws
use Slots.{lowest_null}
use lateral_root.Prelude.{
  ℕ, zero, suc, ◌+◌, ◌-◌, max, Bool, true, false, Option, none, some, List, [], ◌∷◌, ltb, ◌==◌,
  if◌then◌else◌, get_or, set, replicate,
}

abbrev pub max_count : ℕ
max_count = 64

pub record Registry : Type 0 where
  pub slots : List (Option ℕ)
  pub max_index : ℕ

-- The static arrays start with null pointers only.
abbrev pub empty : Registry
empty = record { slots = replicate max_count none; max_index = 0 }

-- What a `modm_assert` that fails says.
pub data AssertError : Type 0 where
  null_pointer too_many_constructed invalid_identifier : AssertError

pub data Asserted {ℓ} (A : Type ℓ) : Type ℓ where
  ok : A → Asserted A
  failed : AssertError → Asserted A

-- The loop over the registrar; `none` beside the registry is the result -1.
insert : ℕ → Registry → Option ℕ → Option ℕ × Registry
insert object r none = (none, r)
insert object r (some i) =
    (some i, record { slots = set r.slots i (some object); max_index = max r.max_index (suc i) })

-- `constructCommand` and `constructSubsystem`
unfoldable pub construct : Option ℕ → Registry → Asserted (Option ℕ × Registry)
unfolding insert
construct none r = failed null_pointer
construct (some object) r =
    if ltb r.max_index max_count
    then ok (insert object r (lowest_null r.slots))
    else failed too_many_constructed

release : ℕ → Registry → Registry
release i r = record {
  slots = set r.slots i none;
  max_index = if suc i == r.max_index then r.max_index - 1 else r.max_index;
}

-- `destructCommand` and `destructSubsystem`. The second argument is the object's global identifier,
-- `none` for a negative one.
unfoldable pub destruct : Option ℕ → Option ℕ → Registry → Asserted Registry
unfolding release
destruct none id r = failed null_pointer
destruct (some object) none r = failed invalid_identifier
destruct (some object) (some i) r =
    if ltb i max_count then ok (release i r) else failed invalid_identifier

-- What the registrar holds at an index.
abbrev pub at : Registry → ℕ → Option ℕ
at r i = get_or r.slots i none
