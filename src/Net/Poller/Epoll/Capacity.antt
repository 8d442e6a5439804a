-- ===== src/Net/Poller/Epoll/Capacity.antt =====
-- The array that `epoll_wait` of src/net/poll/epoll_poller.cpp fills.
use tinykvcache.Prelude.{ℕ, ◌≤◌, ◌<◌, ◌≡◌, ◌⊎◌, Bool, List, some, arith, length}
use tinykvcache.Prelude.Int.{ℤ}
use tinykvcache.Net.Poller.{Flags, Call, done, retry}
use tinykvcache.Net.Poller.Epoll.{
  EpollPoller, Control, wait, wait_answered, grown, initial_event_capacity, max_event_capacity,
}

abbrev pub HasRoom : ℕ → Type 0
HasRoom capacity = (initial_event_capacity ≤ capacity) × (capacity ≤ max_event_capacity)

-- Room for a wait that has filled the array, up to the largest size.
abbrev pub Wider : ℕ → ℕ → ℕ → Type 0
Wider result old new =
    HasRoom new × (old ≤ new) × (old ≤ result → (old < new) ⊎ (new ≡ max_event_capacity))

module _ {K : Type 0} (flags : Flags) (control : Control → ℤ → K → K × Bool) where
  grown-Wider :
      (p : EpollPoller K) (result : ℕ)
      → HasRoom p.capacity
      → result ≤ p.capacity
      → Wider result p.capacity (grown flags control p result).capacity
  unfolding grown
  grown-Wider p result h k = ground arith

  -- Where `epoll_wait` returns no more events than the array holds: the array never shrinks, holds
  -- 64 to 4096 events, and is larger behind a wait that has filled it, unless it holds 4096.
  pub wait-Wider :
      (calls : List (Call (List (ℤ × ℕ)))) (events : List (ℤ × ℕ)) (p : EpollPoller K)
      → retry calls ≡ some (done events)
      → HasRoom p.capacity
      → length events ≤ p.capacity
      → Wider (length events) p.capacity (wait flags control calls p).0.capacity
  unfolding wait wait_answered
  wait-Wider calls events p e h k = rw e (grown-Wider p (length events) h k)
