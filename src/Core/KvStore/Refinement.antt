-- ===== src/Core/KvStore/Refinement.antt =====
-- The store of src/core/kv_store.cpp and its contract, call by call.
use tinykvcache.Prelude.{
  ℕ, zero, suc, ◌+◌, ◌*◌, ◌≤◌, ◌≡◌, refl, ap, sym, ◌∙◌, List, [], ◌∷◌, none, if◌then◌else◌, arith,
}
use tinykvcache.Prelude.Equality.{bytes_beq, bytes_eq, bytes_beq_iff}
use tinykvcache.Prelude.Map.{find}
use tinykvcache.Prelude.Int.{pos, negsuc}
use tinykvcache.Core.FrameCodec.{Bytes}
use tinykvcache.Core.KvStore.{
  KvStore, init, is_expired, get, del, ttl, expire, expire_positive, second,
}
use tinykvcache.Core.KvStore.Lookup.{held, absent, lapsed, live}
use tinykvcache.Core.KvStore.View.{
  live_at, live_at-live_at, view, view-later, view-lapsed, view-erase, view-set, view-set_deadline,
}
use tinykvcache.Core.KvStore.Sweep.Visible.{view-sweep_expired}
use tinykvcache.Core.KvStore.Trace.{Call, sets, gets, dels, ttls, expires, sweeps, step, replies}
use tinykvcache.Core.KvStore.Spec.{Spec, empty, answer, next, answers, update, value_of}

-- At the time `now` the store and the contract's map look the same.
abbrev pub Agree : KvStore → ℕ → Spec → Type 0
Agree s now m = (key : Bytes) → view s now key ≡ live_at now (m key)

Agree-later :
    (s : KvStore) (now later : ℕ) (m : Spec) → now ≤ later → Agree s now m → Agree s later m
Agree-later s now later m h a key =
    sym (view-later s now later key h)
    ∙ ap (live_at later) (a key)
    ∙ live_at-live_at now later (m key) h

abbrev Refines : KvStore → ℕ → Spec → Call → Type 0
Refines s now m c = ((step s now c).1 ≡ answer m now c) × Agree (step s now c).0 now (next m now c)

module _ (s : KvStore) (now : ℕ) (m : Spec) (a : Agree s now m) where
  get-Refines : (key : Bytes) → Refines s now m (gets key)
  unfolding step get
  get-Refines key = elim (held s key now) [
    | absent f ↦ rw (f, get) (unfold view in ground (arith, a key), a)
    | lapsed e f x ↦
        rw (f, get, x)
          (
            unfold view is_expired in ground (arith, a key),
            λ j. view-lapsed s key e now f x j ∙ a j,
          )
    | live e f x ↦ rw (f, get, x) (unfold view is_expired in ground (arith, a key), a)
  ]

  ttl-Refines : (key : Bytes) → Refines s now m (ttls key)
  unfolding step ttl
  ttl-Refines key = elim (held s key now) [
    | absent f ↦ rw (f, ttl) (unfold view in ground (arith, a key), a)
    | lapsed e f x ↦
        rw (f, ttl, x)
          (
            unfold view is_expired in ground (arith, a key),
            λ j. view-lapsed s key e now f x j ∙ a j,
          )
    | live e f x ↦ rw (f, ttl, x) (unfold view is_expired in ground (arith, a key), a)
  ]

  -- What the map shows once a key has been deleted.
  deleted :
      (key j : Bytes)
      → (if bytes_beq key j then none else view s now j) ≡ live_at now (update m key none j)
  deleted key j = ground (arith, a j)

  del-Refines : (key : Bytes) → Refines s now m (dels key)
  unfolding step del
  del-Refines key = elim (held s key now) [
    | absent f ↦
        rw (f, del)
          (
            unfold view in ground (arith, a key),
            λ j. unfold view in ground (arith, a j, bytes_beq_iff key j),
          )
    | lapsed e f x ↦
        rw (f, del, x)
          (
            unfold view is_expired in ground (arith, a key),
            λ j. view-erase s key e now j ∙ deleted key j,
          )
    | live e f x ↦
        rw (f, del, x)
          (
            unfold view is_expired in ground (arith, a key),
            λ j. view-erase s key e now j ∙ deleted key j,
          )
  ]

  set-Refines : (key v : Bytes) → Refines s now m (sets key v)
  unfolding step
  set-Refines key v = (refl, λ j. view-set s key v now j ∙ ground (arith, a j))

  expire_positive-Refines : (key : Bytes) (n : ℕ) → Refines s now m (expires key (pos (suc n)))
  unfolding step expire expire_positive
  expire_positive-Refines key n = elim (held s key now) [
    | absent f ↦
        rw (f, expire_positive)
          (
            unfold view in ground (arith, a key),
            λ j. unfold view in ground (arith, a j, a key, bytes_beq_iff key j),
          )
    | lapsed e f x ↦
        rw (f, expire_positive, x)
          (
            unfold view is_expired in ground (arith, a key),
            λ j.
                view-lapsed s key e now f x j
                ∙ unfold view is_expired in ground (arith, a j, a key),
          )
    | live e f x ↦
        rw (f, expire_positive, x)
          (
            unfold view is_expired in ground (arith, a key),
            λ j.
                view-set_deadline s key e (now + suc n * second) now j
                ∙ unfold view is_expired in ground (arith, a j, a key),
          )
  ]

  step-Refines : (c : Call) → Refines s now m c
  unfolding step expire
  step-Refines (sets key v) = set-Refines key v
  step-Refines (gets key) = get-Refines key
  step-Refines (dels key) = del-Refines key
  step-Refines (ttls key) = ttl-Refines key
  step-Refines (expires key (pos zero)) = (refl, a)
  step-Refines (expires key (pos (suc n))) = expire_positive-Refines key n
  step-Refines (expires key (negsuc n)) = (refl, a)
  step-Refines (sweeps limit) = (refl, λ j. view-sweep_expired s now limit j ∙ a j)

-- The clock is steady: no call is earlier than the one before it.
abbrev pub Steady : ℕ → List (ℕ × Call) → Type 0
Steady t [] = Unit
Steady t ((now, c) ∷ cs) = (t ≤ now) × Steady now cs

replies-Agree :
    (s : KvStore) (t : ℕ) (m : Spec) (cs : List (ℕ × Call))
    → Agree s t m
    → Steady t cs
    → replies s cs ≡ answers m cs
unfolding replies answers
replies-Agree s t m [] a h = refl
replies-Agree s t m ((now, c) ∷ cs) a (h, hs) =
    let (same, agree) = step-Refines s now m (Agree-later s t now m h a) c in
    let rest = replies-Agree (step s now c).0 now (next m now c) cs agree hs in cc (same, rest)

-- For any calls of SET, GET, DEL, EXPIRE and TTL and any sweeps, on a new store and at times that do
-- not go back: the replies to SET, GET, DEL, EXPIRE and TTL are those of a map that never removes
-- an expired key and never sweeps.
pub replies-answers : (cs : List (ℕ × Call)) → Steady 0 cs → replies init cs ≡ answers empty cs
replies-answers cs h = replies-Agree init 0 empty cs (λ key. unfold view find in refl) h

-- A read gives what can be seen.
pub get-view : (s : KvStore) (key : Bytes) (now : ℕ) → (get s key now).1 ≡ value_of (view s now key)
unfolding get
get-view s key now = elim (held s key now) [
  | absent f ↦ rw (f, get) (unfold view in ground arith)
  | lapsed e f x ↦ rw (f, get, x) (unfold view is_expired in ground arith)
  | live e f x ↦ rw (f, get, x) (unfold view is_expired in ground arith)
]
