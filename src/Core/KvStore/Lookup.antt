-- ===== src/Core/KvStore/Lookup.antt =====
-- The three cases that the methods of src/core/kv_store.cpp tell apart after `m_data.find(key)`.
use tinykvcache.Prelude.{ℕ, ◌≡◌, inl, inr, true, false, none, some, Option-cases, Bool-cases}
use tinykvcache.Prelude.Equality.{bytes_eq}
use tinykvcache.Prelude.Map.{find}
use tinykvcache.Core.FrameCodec.{Bytes}
use tinykvcache.Core.KvStore.{KvStore, Entry, is_expired}

pub data Held (s : KvStore) (key : Bytes) (now : ℕ) : Type 0 where
  absent : find key s.entries ≡ none → Held s key now
  lapsed :
      (entry : Entry)
      → find key s.entries ≡ some entry
      → is_expired entry now ≡ true
      → Held s key now
  live :
      (entry : Entry)
      → find key s.entries ≡ some entry
      → is_expired entry now ≡ false
      → Held s key now

pub held : (s : KvStore) (key : Bytes) (now : ℕ) → Held s key now
held s key now = elim (Option-cases (find key s.entries)) [
  | inl f ↦ absent f
  | inr (entry, f) ↦ elim (Bool-cases (is_expired entry now)) [
    | inl x ↦ lapsed entry f x
    | inr x ↦ live entry f x
  ]
]
