-- ===== src/Core/KvStore/Tests.antt =====
-- Runs of src/core/kv_store.cpp.
use tinykvcache.Prelude.{
  ℕ, ◌*◌, ◌^◌, ◌<◌, ◌≡◌, refl, List, [], ◌∷◌, some, none, false, arith, length,
}
use tinykvcache.Prelude.Equality.{bytes_eq}
use tinykvcache.Prelude.Map.{find, put, erase}
use tinykvcache.Prelude.Int.{pos}
use tinykvcache.Core.FrameCodec.{Bytes}
use tinykvcache.Core.KvStore.{
  KvStore, Entry, init, second, set, expire, is_expired, set_new, set_found, expire_positive,
  set_deadline, push, erase_entry_locked,
}
use tinykvcache.Core.KvStore.Sweep.{
  sweep_expired, rebuild, sweep_expired_locked, sweep_loop, sweep_record, has_more, should_rebuild,
  live_records, make_heap,
}
use tinykvcache.Core.KvStore.Sweep.Visible.{view-sweep_expired, sweep_expired_complete}
use tinykvcache.Core.KvStore.Tracking.{Inv, init-Inv, set-Inv, expire-Inv}
use tinykvcache.Core.KvStore.View.{view}
use tinykvcache.Core.KvStore.Spec.{answers, empty}
use tinykvcache.Core.KvStore.Refinement.{replies-answers, Steady}
use tinykvcache.Core.KvStore.Trace.{Call, sets, gets, ttls, expires, sweeps, run, replies, run-Inv}

abbrev key_a : Bytes
key_a = b'a' ∷ []

abbrev key_b : Bytes
key_b = b'b' ∷ []

-- A key is written, gets a deadline, and is asked for before and after it.
abbrev calls : List (ℕ × Call)
calls =
    (1, sets key_a key_b)
    ∷ (2, expires key_a (pos 3))
    ∷ (second, ttls key_a)
    ∷ (second, gets key_a)
    ∷ (4 * second, sweeps 10)
    ∷ (5 * second, gets key_a)
    ∷ []

calls-Steady : Steady 0 calls
calls-Steady =
    (omega arith, (omega arith, (omega arith, (omega arith, (omega arith, (omega arith, tt))))))

-- Two keys, one of them with a deadline.
abbrev store : KvStore
store = (expire (set (set init key_a key_b) key_b key_a) key_a (pos 3) 0).0

store-Inv : Inv store
store-Inv =
    expire-Inv (set (set init key_a key_b) key_b key_a) key_a (pos 3) 0
      (set-Inv (set init key_a key_b) key_b key_a (set-Inv init key_a key_b init-Inv))

store_room : length store.entries < 2 ^ 64
unfolding set set_new set_found expire expire_positive set_deadline find put is_expired
store_room = omega arith

replies-answers_example : replies init calls ≡ answers empty calls
replies-answers_example = replies-answers calls calls-Steady

run-Inv_example : Inv (run init calls)
run-Inv_example = run-Inv calls (omega arith)

view-sweep_expired_example :
    view (sweep_expired store (4 * second) 10).0 (4 * second) key_b ≡ view store (4 * second) key_b
view-sweep_expired_example = view-sweep_expired store (4 * second) 10 key_b

abbrev entry_b : Entry
entry_b = record { value = key_a; expire_at = none; generation = 0 }

sweep_finished : (sweep_expired store (4 * second) 10).1.has_more_expired ≡ false
unfolding sweep_expired sweep_expired_locked sweep_loop sweep_record has_more should_rebuild rebuild
    set set_new set_found expire expire_positive set_deadline push find put erase is_expired
    erase_entry_locked live_records make_heap
sweep_finished = refl

entry_b_kept : find key_b (sweep_expired store (4 * second) 10).0.entries ≡ some entry_b
unfolding sweep_expired sweep_expired_locked sweep_loop sweep_record has_more should_rebuild rebuild
    set set_new set_found expire expire_positive set_deadline push find put erase is_expired
    erase_entry_locked live_records make_heap
entry_b_kept = refl

sweep_expired_complete_example : is_expired entry_b (4 * second) ≡ false
sweep_expired_complete_example =
    sweep_expired_complete store (4 * second) 10 key_b entry_b store-Inv store_room sweep_finished
      entry_b_kept
