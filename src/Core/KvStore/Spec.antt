-- ===== src/Core/KvStore/Spec.antt =====
-- The contract of include/tinykv/core/kv_store.h: a map from keys to values with deadlines that
-- never removes what has expired and never sweeps, and is read through the time of the call.
use tinykvcache.Prelude.{
  ℕ, suc, ◌+◌, ◌-◌, ◌*◌, Bool, true, false, List, [], ◌∷◌, Option, none, some, if◌then◌else◌,
}
use tinykvcache.Prelude.Equality.{bytes_beq}
use tinykvcache.Prelude.Int.{ℤ, pos, negsuc, to_int}
use tinykvcache.Core.FrameCodec.{Bytes}
use tinykvcache.Core.KvStore.{second, ceil_seconds}
use tinykvcache.Core.KvStore.View.{Item, live_at}
use tinykvcache.Core.KvStore.Trace.{
  Call, Reply, sets, gets, dels, ttls, expires, sweeps, done, value, flag, seconds,
}

abbrev pub Spec : Type 0
Spec = Bytes → Option Item

abbrev pub empty : Spec
empty key = none

abbrev pub update : Spec → Bytes → Option Item → Spec
update m key i j = if bytes_beq key j then i else m j

abbrev pub is_some {ℓ} : {A : Type ℓ} → Option A → Bool
is_some none = false
is_some (some a) = true

abbrev pub value_of : Option Item → Option Bytes
value_of none = none
value_of (some i) = some i.value

-- -2: not there; -1: no deadline; else the seconds left, rounded up.
abbrev pub left : Option ℕ → ℕ → ℤ
left none now = negsuc 0
left (some t) now = to_int (ceil_seconds (t - now))

abbrev pub time_left : Option Item → ℕ → ℤ
time_left none now = negsuc 1
time_left (some i) now = left i.deadline now

-- A deadline is set on what is there, by a positive number of seconds.
abbrev pub due_in : Spec → Bytes → ℕ → ℕ → Option Item → Spec
due_in m key n now none = m
due_in m key n now (some i) = update m key (some (record i { deadline = some (now + n * second) }))

abbrev pub answer : Spec → ℕ → Call → Reply
answer m now (sets key v) = done
answer m now (gets key) = value (value_of (live_at now (m key)))
answer m now (dels key) = flag (is_some (live_at now (m key)))
answer m now (ttls key) = seconds (time_left (live_at now (m key)) now)
answer m now (expires key (pos (suc n))) = flag (is_some (live_at now (m key)))
answer m now (expires key _) = flag false
answer m now (sweeps limit) = done

abbrev pub next : Spec → ℕ → Call → Spec
next m now (sets key v) = update m key (some (record { value = v; deadline = none }))
next m now (dels key) = update m key none
next m now (expires key (pos (suc n))) = due_in m key (suc n) now (live_at now (m key))
next m now _ = m

unfoldable pub answers : Spec → List (ℕ × Call) → List Reply
answers m [] = []
answers m ((now, c) ∷ cs) = answer m now c ∷ answers (next m now c) cs
