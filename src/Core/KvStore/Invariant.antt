-- ===== src/Core/KvStore/Invariant.antt =====
-- What every method of src/core/kv_store.cpp keeps: one entry for each key, counters that count,
-- and a heap, in order, that has a record for each key with a deadline.
use tinykvcache.Prelude.{ℕ, ◌+◌, ◌%◌, ◌^◌, ◌<◌, ◌≡◌, none, some, arith}
use tinykvcache.Prelude.Equality.{bytes_eq}
use tinykvcache.Prelude.Map.{
  find, put, count, weight, Distinct, put-Distinct, erase-Distinct, count-put, count-erase,
}
use tinykvcache.Prelude.Words.{inc64}
use tinykvcache.Core.FrameCodec.{Bytes}
use tinykvcache.Core.KvStore.{
  KvStore, Entry, is_expiring, is_persistent, erase_entry_locked, set_new, set_found, set_deadline,
}

pub record Counts (s : KvStore) : Type 0 where
  pub distinct : Distinct s.entries
  pub persistent : s.persistent_keys ≡ count is_persistent s.entries % 2 ^ 64
  pub expiring : s.expiring_keys ≡ count is_expiring s.entries % 2 ^ 64

pub erase_entry-Counts :
    (s : KvStore) (key : Bytes) (entry : Entry)
    → Counts s
    → find key s.entries ≡ some entry
    → Counts (erase_entry_locked s key entry)
unfolding erase_entry_locked
erase_entry-Counts s key entry c found = ground (
  arith,
  erase-Distinct key s.entries c.distinct,
  count-erase is_persistent key s.entries c.distinct,
  count-erase is_expiring key s.entries c.distinct,
)

-- A write of one key: the counters move as the written entry and the one that it replaces say.
put-Counts :
    (s t : KvStore) (key : Bytes) (v : Entry)
    → Counts s
    → t.entries ≡ put key v s.entries
    → (t.persistent_keys + weight is_persistent (find key s.entries)) % 2 ^ 64
      ≡ (s.persistent_keys + weight is_persistent (some v)) % 2 ^ 64
    → (t.expiring_keys + weight is_expiring (find key s.entries)) % 2 ^ 64
      ≡ (s.expiring_keys + weight is_expiring (some v)) % 2 ^ 64
    → t.persistent_keys < 2 ^ 64
    → t.expiring_keys < 2 ^ 64
    → Counts t
put-Counts s t key v c written hp he bp be = record {
  distinct = rw written (put-Distinct key v s.entries c.distinct);
  persistent = rw written (omega (arith, c.persistent, count-put is_persistent key v s.entries));
  expiring = rw written (omega (arith, c.expiring, count-put is_expiring key v s.entries));
}

pub set_new-Counts :
    (s : KvStore) (key value : Bytes)
    → Counts s
    → find key s.entries ≡ none
    → Counts (set_new s key value)
unfolding set_new
set_new-Counts s key value c absent =
    put-Counts s (set_new s key value) key
      (record { value = value; expire_at = none; generation = 0 }) c (ground arith) (ground arith)
      (ground arith) (ground arith) (ground arith)

pub set_found-Counts :
    (s : KvStore) (key value : Bytes) (entry : Entry)
    → Counts s
    → find key s.entries ≡ some entry
    → Counts (set_found s key value entry)
unfolding set_found
set_found-Counts s key value entry c found =
    put-Counts s (set_found s key value entry) key
      (record { value = value; expire_at = none; generation = inc64 entry.generation }) c
      (ground arith) (ground arith) (ground arith) (ground arith) (ground arith)

pub set_deadline-Counts :
    (s : KvStore) (key : Bytes) (entry : Entry) (deadline : ℕ)
    → Counts s
    → find key s.entries ≡ some entry
    → Counts (set_deadline s key entry deadline)
unfolding set_deadline
set_deadline-Counts s key entry deadline c found =
    put-Counts s (set_deadline s key entry deadline) key
      (record entry { expire_at = some deadline; generation = inc64 s.next_expiration_generation })
      c (ground arith) (ground arith) (ground arith) (ground arith) (ground arith)
