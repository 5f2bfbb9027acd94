-- ===== src/Can.antt =====
-- tap/communication/can/can_rx_handler.cpp: listeners, kept in bins, each of which is a chain of
-- listeners linked by their `next` members. A listener is its address; the members that no method
-- changes, and `processMessage`, which robot code derives, are the parameter `Listeners`. The messages
-- and the CAN driver are those of modm, and a parameter too.
pub mod Chains
pub mod Attach
pub mod Process
pub mod Remove
use lateral_root.Prelude.{
  ℕ, zero, suc, ◌+◌, ◌%◌, ◌^◌, Bool, true, false, not, ◌&&◌, ◌||◌, Option, none, some, List, [],
  ◌∷◌, ◌++◌, leb, ◌==◌, if◌then◌else◌,
}

pub data CanBus : Type 0 where
  can_bus1 can_bus2 : CanBus

-- `M` is `modm::can::Message`; `get_identifier` is its method, `identifier` its member.
pub record Listeners (M W : Type 0) : Type 0 where
  pub can_identifier : ℕ → ℕ
  pub can_bus : ℕ → CanBus
  pub process_message : ℕ → M → W → W
  pub get_identifier : M → ℕ
  pub identifier : M → ℕ
  pub is_extended : M → Bool

-- The four arrays `messageHandlerStore`.
pub data Store : Type 0 where
  dji_can1 rev_can1 dji_can2 rev_can2 : Store

pub data CanError : Type 0 where
  overloading_can_rx_listener listener_not_in_handler_storage : CanError

-- `bins` are the arrays of CAN_BINS pointers, `next` the members of that name of all listeners.
pub record CanRxHandler : Type 0 where
  pub bins : Store → ℕ → Option ℕ
  pub next : ℕ → Option ℕ
  pub errors : List CanError

-- The argument of these functions is a `uint16_t`.
abbrev pub uint16 : ℕ → ℕ
uint16 n = n % 2 ^ 16

abbrev pub is_dji_can_id : ℕ → Bool
is_dji_can_id can_id = leb 0x201 (uint16 can_id) && leb (uint16 can_id) 0x208

abbrev pub is_rev_can_id : ℕ → Bool
is_rev_can_id can_id = leb 1 (uint16 can_id) && leb (uint16 can_id) 8

abbrev pub is_valid_can_id : ℕ → Bool
is_valid_can_id can_id = is_dji_can_id can_id || is_rev_can_id can_id

abbrev pub bin_index_for_can_id : ℕ → ℕ
bin_index_for_can_id can_id = uint16 can_id % 8

abbrev pub construct_handler : (ℕ → Option ℕ) → CanRxHandler
construct_handler next = record { bins = λ s i. none; next = next; errors = [] }

abbrev pub raise_can_error : CanError → CanRxHandler → CanRxHandler
raise_can_error e h = record h { errors = h.errors ++ e ∷ [] }

abbrev pub same_store : Store → Store → Bool
same_store dji_can1 dji_can1 = true
same_store rev_can1 rev_can1 = true
same_store dji_can2 dji_can2 = true
same_store rev_can2 rev_can2 = true
same_store _ _ = false

-- The assignments `messageHandlerStore[bin] = p` and `node->next = p`.
abbrev pub set_bin : Store → ℕ → Option ℕ → CanRxHandler → CanRxHandler
set_bin store bin p h = record h {
  bins = λ s i. if same_store store s && (bin == i) then p else h.bins s i;
}

abbrev pub update : (ℕ → Option ℕ) → ℕ → Option ℕ → ℕ → Option ℕ
update next node p a = if node == a then p else next a

abbrev pub set_next : ℕ → Option ℕ → CanRxHandler → CanRxHandler
set_next node p h = record h { next = update h.next node p }

-- How the loop of `attachReceiveHandler` ends.
pub data Walk : Type 0 where
  overloaded : Walk
  last : ℕ → Walk

-- A loop that is out of fuel gives `none`.
module _ {M W : Type 0} (o : Listeners M W) where
  unfoldable pub walk : ℕ → ℕ → (ℕ → Option ℕ) → ℕ → Option Walk
  walk zero listener next node = none
  walk (suc fuel) listener next node =
      if o.can_identifier node == o.can_identifier listener
      then some overloaded
      else elim (next node) [ none ↦ some (last node) | some n ↦ walk fuel listener next n ]

  abbrev pub attach_after : ℕ → Option Walk → CanRxHandler → Option CanRxHandler
  attach_after listener none h = none
  attach_after listener (some overloaded) h = some (raise_can_error overloading_can_rx_listener h)
  attach_after listener (some (last node)) h = some (set_next node (some listener) h)

  unfoldable pub attach_to_store : ℕ → ℕ → Store → CanRxHandler → Option CanRxHandler
  attach_to_store fuel listener store h =
      let bin = bin_index_for_can_id (o.can_identifier listener) in
      elim (h.bins store bin) [
        | none ↦ some (set_bin store bin (some listener) h)
        | some node ↦ attach_after listener (walk fuel listener h.next node) h
      ]

  -- The store of a listener, `none` for an identifier that is not valid.
  unfoldable pub store_for : CanBus → ℕ → Option Store
  store_for can_bus1 can_id =
      if is_rev_can_id can_id
      then some rev_can1
      else if is_dji_can_id can_id
      then some dji_can1
      else none
  store_for can_bus2 can_id =
      if is_rev_can_id can_id
      then some rev_can2
      else if is_dji_can_id can_id
      then some dji_can2
      else none

  unfoldable pub attach_receive_handler : ℕ → ℕ → CanRxHandler → Option CanRxHandler
  attach_receive_handler fuel listener h =
      elim (store_for (o.can_bus listener) (o.can_identifier listener)) [
        | none ↦ some h
        | some store ↦ attach_to_store fuel listener store h
      ]

  -- The loop of `processReceivedCanData`.
  unfoldable pub find_listener : ℕ → ℕ → (ℕ → Option ℕ) → Option ℕ → Option (Option ℕ)
  find_listener zero wanted next p = none
  find_listener (suc fuel) wanted next none = some none
  find_listener (suc fuel) wanted next (some a) =
      let rest = find_listener fuel wanted next (next a) in
      if o.can_identifier a == wanted then some (some a) else rest

  abbrev pub wanted_identifier : M → ℕ
  wanted_identifier m =
      if o.is_extended m then bin_index_for_can_id (o.get_identifier m) else o.identifier m

  abbrev pub deliver : M → Option (Option ℕ) → W → Option W
  deliver m none w = none
  deliver m (some none) w = some w
  deliver m (some (some a)) w = some (o.process_message a m w)

  unfoldable pub process_received_can_data : ℕ → M → Store → CanRxHandler → W → Option W
  process_received_can_data fuel m store h w =
      deliver m
        (find_listener fuel (wanted_identifier m) h.next
          (h.bins store (bin_index_for_can_id (o.get_identifier m))))
        w

  -- One half of `pollCanData`; `none` in its third argument says that the driver has no message.
  unfoldable pub poll_bus : ℕ → Store → Store → Option M → CanRxHandler → W → Option W
  poll_bus fuel rev dji none h w = some w
  poll_bus fuel rev dji (some m) h w =
      if o.is_extended m
      then process_received_can_data fuel m rev h w
      else process_received_can_data fuel m dji h w

  unfoldable pub poll_can_data : ℕ → Option M → Option M → CanRxHandler → W → Option W
  poll_can_data fuel m1 m2 h w = elim (poll_bus fuel rev_can1 dji_can1 m1 h w) [
    | none ↦ none
    | some u ↦ poll_bus fuel rev_can2 dji_can2 m2 h u
  ]

  -- The loop of `removeReceiveHandler`. It does not change `node`.
  unfoldable pub unlink : ℕ → ℕ → ℕ → CanRxHandler → Option CanRxHandler
  unlink zero can_id node h = none
  unlink (suc fuel) can_id node h = elim (h.next node) [
    | none ↦ some (raise_can_error listener_not_in_handler_storage h)
    | some n ↦
        let rest = unlink fuel can_id node h in
        if o.can_identifier n == can_id then some (set_next node (h.next n) h) else rest
  ]

  unfoldable pub remove_from_store : ℕ → ℕ → Store → CanRxHandler → Option CanRxHandler
  remove_from_store fuel listener store h =
      let can_id = o.can_identifier listener in
      let bin = bin_index_for_can_id can_id in
      elim (h.bins store bin) [
        | none ↦ some (raise_can_error listener_not_in_handler_storage h)
        | some node ↦
            let rest = unlink fuel can_id node h in
            if o.can_identifier node == can_id
            then some (set_bin store bin (h.next node) h)
            else rest
      ]

  -- Also the destructor of `CanRxListener`.
  unfoldable pub remove_receive_handler : ℕ → ℕ → CanRxHandler → Option CanRxHandler
  remove_receive_handler fuel listener h =
      elim (store_for (o.can_bus listener) (o.can_identifier listener)) [
        | none ↦ some h
        | some store ↦ remove_from_store fuel listener store h
      ]
