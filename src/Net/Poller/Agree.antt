-- ===== src/Net/Poller/Agree.antt =====
-- src/net/poll/poll_poller.cpp and src/net/poll/epoll_poller.cpp behind one interface.
use tinykvcache.Prelude.{
  ◌≡◌, refl, sym, ap, ◌∙◌, Bool, true, false, not, ◌&&◌, arith, List, [], ◌∷◌, Option, none, some,
}
use tinykvcache.Prelude.Int.{ℤ}
use tinykvcache.Net.Poller.{
  PollerError, negative_fd, no_interest, already_registered, unknown_fd, too_many_descriptors,
  wait_failed, control_failed, create_failed, epoll_unavailable, Flags,
}
use tinykvcache.Net.Poller.Command.{
  Command, add_fd, modify_fd, remove_fd, View, promised_answer, after, IsPoller,
}
use tinykvcache.Net.Poller.Poll.{Interests}
use tinykvcache.Net.Poller.Poll.Promise.{poll_perform, poll_view, poll_accepts, poll-IsPoller}
use tinykvcache.Net.Poller.Epoll.{EpollPoller, Control}
use tinykvcache.Net.Poller.Epoll.Promise.{perform, view, accepts, epoll-IsPoller}

-- The calls one behind the other, with what each of them throws.
abbrev pub run :
    {S : Type 0}
    → (Command → S → S × Option PollerError)
    → List Command
    → S
    → S × List (Option PollerError)
run perform [] s = (s, [])
run perform (c ∷ cs) s =
    let r = perform c s in let rest = run perform cs r.0 in (rest.0, r.1 ∷ rest.1)

promised_answer-cong :
    (a : Bool) (c : Command) (v w : View)
    → ((fd : ℤ) → v fd ≡ w fd)
    → promised_answer a c v ≡ promised_answer a c w
unfolding promised_answer
promised_answer-cong a (add_fd fd i) v w h = rw (h fd)
promised_answer-cong a (modify_fd fd i) v w h = rw (h fd)
promised_answer-cong a (remove_fd fd) v w h = rw (h fd)

after-cong :
    (e : Option PollerError) (c : Command) (v w : View) (fd : ℤ)
    → v fd ≡ w fd
    → after e c v fd ≡ after e c w fd
after-cong none c v w fd h = rw h
after-cong (some e) c v w fd h = h

-- The exception for a call that the system refuses.
abbrev pub is_refusal : Option PollerError → Bool
is_refusal none = false
is_refusal (some negative_fd) = false
is_refusal (some no_interest) = false
is_refusal (some already_registered) = false
is_refusal (some unknown_fd) = false
is_refusal (some too_many_descriptors) = false
is_refusal (some wait_failed) = false
is_refusal (some control_failed) = true
is_refusal (some create_failed) = false
is_refusal (some epoll_unavailable) = false

abbrev pub none_refused : List (Option PollerError) → Bool
none_refused [] = true
none_refused (e ∷ es) = not (is_refusal e) && none_refused es

-- Where the exception is not that of a refusal, it is that of a system that takes the call.
promised_answer-taken :
    (a : Bool) (c : Command) (v : View)
    → is_refusal (promised_answer a c v) ≡ false
    → promised_answer a c v ≡ promised_answer true c v
unfolding promised_answer
promised_answer-taken true c v h = refl
promised_answer-taken false (add_fd fd i) v h = ground arith
promised_answer-taken false (modify_fd fd i) v h = ground arith
promised_answer-taken false (remove_fd fd) v h = ground arith

-- Two pollers that keep the promises, where the system takes every call of the first.
module _ {S T : Type 0} (p : Command → S → S × Option PollerError) (v : S → View)
    (a : Command → S → Bool) (q : Command → T → T × Option PollerError) (w : T → View)
    (b : Command → T → Bool) (hp : IsPoller p v a) (hq : IsPoller q w b)
    (ha : (c : Command) (s : S) → a c s ≡ true) where
  -- What both throw for a call that the second is not refused.
  same_promise :
      (c : Command) (s : S) (t : T)
      → ((fd : ℤ) → v s fd ≡ w t fd)
      → is_refusal (q c t).1 ≡ false
      → promised_answer (a c s) c (v s) ≡ promised_answer (b c t) c (w t)
  same_promise c s t h k =
      ap (λ x. promised_answer x c (v s)) (ha c s)
      ∙ promised_answer-cong true c (v s) (w t) h
      ∙ sym (promised_answer-taken (b c t) c (w t) (ap is_refusal (sym (hq.answers c t)) ∙ k))

  same_answer :
      (c : Command) (s : S) (t : T)
      → ((fd : ℤ) → v s fd ≡ w t fd)
      → is_refusal (q c t).1 ≡ false
      → (p c s).1 ≡ (q c t).1
  same_answer c s t h k = hp.answers c s ∙ same_promise c s t h k ∙ sym (hq.answers c t)

  same_view :
      (c : Command) (s : S) (t : T)
      → ((fd : ℤ) → v s fd ≡ w t fd)
      → is_refusal (q c t).1 ≡ false
      → (fd : ℤ) → v (p c s).0 fd ≡ w (q c t).0 fd
  same_view c s t h k fd =
      hp.holds c s fd
      ∙ ap (λ e. after e c (v s) fd) (same_promise c s t h k)
      ∙ after-cong (promised_answer (b c t) c (w t)) c (v s) (w t) fd (h fd)
      ∙ sym (hq.holds c t fd)

  same_run :
      (cs : List Command) (s : S) (t : T)
      → ((fd : ℤ) → v s fd ≡ w t fd)
      → none_refused (run q cs t).1 ≡ true
      → ((run p cs s).1 ≡ (run q cs t).1) × ((fd : ℤ) → v (run p cs s).0 fd ≡ w (run q cs t).0 fd)
  same_run [] s t h n = (refl, h)
  same_run (c ∷ cs) s t h n =
      let k : is_refusal (q c t).1 ≡ false = ground arith in
      let rest = same_run cs (p c s).0 (q c t).0 (same_view c s t h k) (ground arith) in
      (rw (same_answer c s t h k, rest.0) refl, rest.1)

-- The two backends, from the same registered interests, for any sequence of calls of which none
-- throws on epoll because `epoll_ctl` failed, throw the same exceptions and hold the same
-- interests behind it. A call that never comes to `epoll_ctl` may throw.
pub run-poll-epoll :
    {K : Type 0} (flags : Flags) (control : Control → ℤ → K → K × Bool) (cs : List Command)
    (m : Interests) (p : EpollPoller K)
    → none_refused (run (perform flags control) cs p).1 ≡ true
    → ((fd : ℤ) → poll_view m fd ≡ view p fd)
    → ((run poll_perform cs m).1 ≡ (run (perform flags control) cs p).1)
      × ((fd : ℤ)
          → poll_view (run poll_perform cs m).0 fd ≡ view (run (perform flags control) cs p).0 fd)
run-poll-epoll flags control cs m p h k =
    same_run poll_perform poll_view poll_accepts (perform flags control) view
      (accepts flags control) poll-IsPoller (epoll-IsPoller flags control) (λ c s. refl) cs m p k h
