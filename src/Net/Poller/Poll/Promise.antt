-- ===== src/Net/Poller/Poll/Promise.antt =====
-- src/net/poll/poll_poller.cpp as a `Poller`.
use tinykvcache.Prelude.{◌≡◌, Bool, true, Option, arith}
use tinykvcache.Prelude.Map.{find, find-put, find-erase}
use tinykvcache.Prelude.Int.{ℤ, int_beq_iff, int_eq}
use tinykvcache.Net.Poller.{PollerError}
use tinykvcache.Net.Poller.Command.{
  Command, add_fd, modify_fd, remove_fd, View, promised_answer, after, IsPoller,
}
use tinykvcache.Net.Poller.Poll.{
  Interests, add, add_valid, emplace, modify, modify_valid, replace, remove,
}

abbrev pub poll_perform : Command → Interests → Interests × Option PollerError
poll_perform (add_fd fd i) m = add fd i m
poll_perform (modify_fd fd i) m = modify fd i m
poll_perform (remove_fd fd) m = remove fd m

abbrev pub poll_view : Interests → View
poll_view m fd = find fd m

abbrev pub poll_accepts : Command → Interests → Bool
poll_accepts c m = true

poll_answers :
    (c : Command) (m : Interests) → (poll_perform c m).1 ≡ promised_answer true c (poll_view m)
unfolding promised_answer add add_valid emplace modify modify_valid replace remove
poll_answers (add_fd fd i) m = ground arith
poll_answers (modify_fd fd i) m = ground arith
poll_answers (remove_fd fd) m = ground arith

poll_holds :
    (c : Command) (m : Interests) (fd : ℤ)
    → poll_view (poll_perform c m).0 fd
      ≡ after (promised_answer true c (poll_view m)) c (poll_view m) fd
unfolding promised_answer add add_valid emplace modify modify_valid replace remove
poll_holds (add_fd fd i) m j = ground (arith, find-put fd j i m)
poll_holds (modify_fd fd i) m j = ground (arith, find-put fd j i m)
poll_holds (remove_fd fd) m j = ground (arith, find-erase fd j m, int_beq_iff fd j)

-- `PollPoller` keeps the promises of `Poller`, with no system call to refuse anything.
pub poll-IsPoller : IsPoller poll_perform poll_view poll_accepts
poll-IsPoller = record { answers = poll_answers; holds = poll_holds }
