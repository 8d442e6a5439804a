-- ===== src/Core/KvStore/View.antt =====
-- What a client can see of the store of src/core/kv_store.cpp at a time: the entries that have not
-- expired, without generations, counters and heap.
use tinykvcache.Prelude.{
  ℕ, ◌≤◌, ◌≡◌, Bool, true, false, Option, none, some, leb, if◌then◌else◌, arith,
}
use tinykvcache.Prelude.Equality.{bytes_beq, bytes_eq, bytes_beq_iff}
use tinykvcache.Prelude.Map.{find, find-put, find-erase, put}
use tinykvcache.Prelude.Words.{inc64}
use tinykvcache.Core.FrameCodec.{Bytes}
use tinykvcache.Core.KvStore.{
  KvStore, Entry, is_expired, set, set_new, set_found, set_deadline, erase_entry_locked,
}
use tinykvcache.Core.KvStore.Tracking.{entries-erase_entry}

pub record Item : Type 0 where
  pub value : Bytes
  pub deadline : Option ℕ

abbrev pub is_over : Option ℕ → ℕ → Bool
is_over none now = false
is_over (some t) now = leb t now

-- An item is there until its deadline.
abbrev pub live_at : ℕ → Option Item → Option Item
live_at now none = none
live_at now (some i) = if is_over i.deadline now then none else some i

abbrev pub item_of : Option Entry → Option Item
item_of none = none
item_of (some e) = some (record { value = e.value; deadline = e.expire_at })

unfoldable pub view : KvStore → ℕ → Bytes → Option Item
view s now key = live_at now (item_of (find key s.entries))

-- What is over stays over.
pub live_at-live_at :
    (now later : ℕ) (i : Option Item)
    → now ≤ later
    → live_at later (live_at now i) ≡ live_at later i
live_at-live_at now later i h = ground arith

pub view-later :
    (s : KvStore) (now later : ℕ) (key : Bytes)
    → now ≤ later
    → live_at later (view s now key) ≡ view s later key
unfolding view
view-later s now later key h = live_at-live_at now later (item_of (find key s.entries)) h

-- Dropping an expired entry changes no view.
pub view-lapsed :
    (s : KvStore) (key : Bytes) (entry : Entry) (now : ℕ)
    → find key s.entries ≡ some entry
    → is_expired entry now ≡ true
    → (j : Bytes) → view (erase_entry_locked s key entry) now j ≡ view s now j
unfolding view is_expired
view-lapsed s key entry now found late j =
    rw (entries-erase_entry s key entry, find-erase key j s.entries)
      (ground (arith, bytes_beq_iff key j))

pub view-erase :
    (s : KvStore) (key : Bytes) (entry : Entry) (now : ℕ) (j : Bytes)
    → view (erase_entry_locked s key entry) now j ≡ (if bytes_beq key j then none else view s now j)
unfolding view
view-erase s key entry now j =
    rw (entries-erase_entry s key entry, find-erase key j s.entries) (ground arith)

-- A write of one key, seen from every key.
pub view-written :
    (s t : KvStore) (key : Bytes) (v : Entry) (now : ℕ) (j : Bytes)
    → t.entries ≡ put key v s.entries
    → view t now j ≡ (if bytes_beq key j then live_at now (item_of (some v)) else view s now j)
unfolding view
view-written s t key v now j e = rw (e, find-put key j v s.entries) (ground arith)

pub view-set :
    (s : KvStore) (key value : Bytes) (now : ℕ) (j : Bytes)
    → view (set s key value) now j
      ≡ (if bytes_beq key j then some (record { value = value; deadline = none }) else view s now j)
unfolding set set_new set_found view
view-set s key value now j = grind (arith, find-put)

pub view-set_deadline :
    (s : KvStore) (key : Bytes) (entry : Entry) (deadline now : ℕ) (j : Bytes)
    → view (set_deadline s key entry deadline) now j ≡ (
        if bytes_beq key j
        then live_at now (some (record { value = entry.value; deadline = some deadline }))
        else view s now j)
view-set_deadline s key entry deadline now j =
    view-written s (set_deadline s key entry deadline) key
      (record entry { expire_at = some deadline; generation = inc64 s.next_expiration_generation })
      now j (unfold set_deadline in ground arith)
