-- ===== src/Core/KvStore.antt =====
-- src/core/kv_store.cpp and include/tinykv/core/kv_store.h: the store behind every command.
-- Each method holds `m_mutex` from its first read to its last write, so a call is one function of
-- the state. `now`, what `steady_clock::now()` gave, is an argument, in nanoseconds.
mod Tests
pub mod Sweep
pub mod Lookup
pub mod Trace
pub mod View
pub mod Spec
pub mod Refinement
pub mod Invariant
pub mod Tracking
pub mod Heap
use tinykvcache.Prelude.{
  ℕ, zero, suc, ◌+◌, ◌-◌, ◌*◌, ◌/◌, ◌%◌, ◌^◌, Bool, true, false, not, ◌&&◌, List, [], ◌∷◌, Option,
  none, some, ltb, leb, ◌==◌, if◌then◌else◌, length,
}
use tinykvcache.Prelude.Equality.{bytes_beq, bytes_eq}
use tinykvcache.Prelude.Map.{Map, find, put, erase}
use tinykvcache.Prelude.Words.{inc64, dec64}
use tinykvcache.Prelude.Int.{ℤ, pos, negsuc, to_int}
use tinykvcache.Core.FrameCodec.{Bytes}

abbrev pub second : ℕ
second = 1_000_000_000

pub record Entry : Type 0 where
  pub value : Bytes
  pub expire_at : Option ℕ
  pub generation : ℕ

pub record ExpirationRecord : Type 0 where
  pub expire_at : ℕ
  pub key : Bytes
  pub generation : ℕ

-- `std::priority_queue` with the earliest deadline on top: a list in that order.
abbrev pub ExpirationQueue : Type 0
ExpirationQueue = List ExpirationRecord

pub push : ExpirationRecord → ExpirationQueue → ExpirationQueue
push r [] = r ∷ []
push r (x ∷ xs) = if ltb r.expire_at x.expire_at then r ∷ x ∷ xs else x ∷ push r xs

pub record KvStore : Type 0 where
  pub entries : Map Bytes Entry
  pub next_expiration_generation : ℕ
  pub persistent_keys : ℕ
  pub expiring_keys : ℕ
  pub expirations : ExpirationQueue

pub record InnerStats : Type 0 where
  pub keys : ℕ
  pub persistent_keys : ℕ
  pub expiring_keys : ℕ

pub record SweepResult : Type 0 where
  pub processed : ℕ
  pub removed : ℕ
  pub has_more_expired : Bool
  pub heap_rebuilt : Bool

abbrev pub init : KvStore
init = record {
  entries = [];
  next_expiration_generation = 0;
  persistent_keys = 0;
  expiring_keys = 0;
  expirations = [];
}

abbrev pub has_value : Option ℕ → Bool
has_value none = false
has_value (some t) = true

abbrev pub is_expiring : Entry → Bool
is_expiring entry = has_value entry.expire_at

abbrev pub is_persistent : Entry → Bool
is_persistent entry = not (has_value entry.expire_at)

abbrev reached : Option ℕ → ℕ → Bool
reached none now = false
reached (some t) now = leb t now

pub is_expired : Entry → ℕ → Bool
is_expired entry now = reached entry.expire_at now

-- The iterator is the key with the entry that `find` gave.
pub erase_entry_locked : KvStore → Bytes → Entry → KvStore
erase_entry_locked s key entry =
    if is_expiring entry
    then record s { entries = erase key s.entries; expiring_keys = dec64 s.expiring_keys }
    else record s { entries = erase key s.entries; persistent_keys = dec64 s.persistent_keys }

-- `SET` of a key that is there: the deadline goes, and so do the records that speak of it.
pub set_found : KvStore → Bytes → Bytes → Entry → KvStore
set_found s key value entry =
    let entry' : Entry = record {
      value = value;
      expire_at = none;
      generation = inc64 entry.generation;
    } in
    if is_expiring entry
    then record s {
      entries = put key entry' s.entries;
      expiring_keys = dec64 s.expiring_keys;
      persistent_keys = inc64 s.persistent_keys;
    }
    else record s { entries = put key entry' s.entries }

pub set_new : KvStore → Bytes → Bytes → KvStore
set_new s key value = record s {
  entries = put key (record { value = value; expire_at = none; generation = 0 }) s.entries;
  persistent_keys = inc64 s.persistent_keys;
}

pub set : KvStore → Bytes → Bytes → KvStore
unfolding set_new set_found
set s key value = elim (find key s.entries) [
  | none ↦ set_new s key value
  | some entry ↦ set_found s key value entry
]

-- The output parameter, if `Get` returns true.
pub get : KvStore → Bytes → ℕ → KvStore × Option Bytes
unfolding is_expired erase_entry_locked
get s key now = elim (find key s.entries) [
  | none ↦ (s, none)
  | some entry ↦
      if is_expired entry now then (erase_entry_locked s key entry, none) else (s, some entry.value)
]

pub del : KvStore → Bytes → ℕ → KvStore × Bool
unfolding is_expired erase_entry_locked
del s key now = elim (find key s.entries) [
  | none ↦ (s, false)
  | some entry ↦
      if is_expired entry now
      then (erase_entry_locked s key entry, false)
      else (erase_entry_locked s key entry, true)
]

pub set_deadline : KvStore → Bytes → Entry → ℕ → KvStore
unfolding push
set_deadline s key entry deadline =
    let generation = inc64 s.next_expiration_generation in
    let entry' : Entry = record entry { expire_at = some deadline; generation = generation } in
    let t : KvStore = if is_expiring entry then s else record s {
      persistent_keys = dec64 s.persistent_keys;
      expiring_keys = inc64 s.expiring_keys;
    } in
    record t {
      entries = put key entry' s.entries;
      next_expiration_generation = generation;
      expirations =
          push (record { expire_at = deadline; key = key; generation = generation }) s.expirations;
    }

pub expire_positive : KvStore → Bytes → ℕ → ℕ → KvStore × Bool
unfolding is_expired erase_entry_locked set_deadline
expire_positive s key seconds now = elim (find key s.entries) [
  | none ↦ (s, false)
  | some entry ↦
      if is_expired entry now
      then (erase_entry_locked s key entry, false)
      else (set_deadline s key entry (now + seconds * second), true)
]

pub expire : KvStore → Bytes → ℤ → ℕ → KvStore × Bool
unfolding expire_positive
expire s key (pos zero) now = (s, false)
expire s key (pos (suc n)) now = expire_positive s key (suc n) now
expire s key (negsuc n) now = (s, false)

abbrev pub ceil_seconds : ℕ → ℕ
ceil_seconds ns = (ns + (second - 1)) / second

abbrev remaining : Option ℕ → ℕ → ℤ
remaining none now = negsuc 0
remaining (some t) now = to_int (ceil_seconds (t - now))

pub ttl : KvStore → Bytes → ℕ → KvStore × ℤ
unfolding is_expired erase_entry_locked
ttl s key now = elim (find key s.entries) [
  | none ↦ (s, negsuc 1)
  | some entry ↦
      if is_expired entry now
      then (erase_entry_locked s key entry, negsuc 1)
      else (s, remaining entry.expire_at now)
]

pub size : KvStore → ℕ
size s = (s.persistent_keys + s.expiring_keys) % 2 ^ 64

pub stats : KvStore → InnerStats
stats s = record {
  keys = (s.persistent_keys + s.expiring_keys) % 2 ^ 64;
  persistent_keys = s.persistent_keys;
  expiring_keys = s.expiring_keys;
}
