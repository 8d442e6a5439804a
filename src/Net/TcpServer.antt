-- ===== src/Net/TcpServer.antt =====
-- src/net/tcp_server.cpp: the acceptor and its sub-reactors. A time is a count
-- of nanoseconds of the steady clock.
pub mod Accepting
pub mod Draining
pub mod Sweeper
pub mod Loop
mod Tests
use tinykvcache.Prelude.{
  ℕ, zero, suc, ◌+◌, ◌*◌, ◌%◌, Bool, true, false, not, ◌&&◌, ◌||◌, List, [], ◌∷◌, Option, none,
  some, leb, ltb, ◌==◌, if◌then◌else◌, length, map,
}
use tinykvcache.Net.Connection.{NetworkOptions}
use tinykvcache.Net.SubReactor.{
  ServerState, created, running, draining, stopped, is_running, is_draining, SubReactor,
  enque_client, is_stopped, has_failed, wait_until,
}
use tinykvcache.Net.SubReactor as Reactor
use tinykvcache.Config.{
  ConfigError, small_read_buffer, low_above_high, high_above_hard, zero_write_bytes, zero_accepts,
  sub_reactors_out_of_range, validate_network, ReactorOptions,
}

-- The checks of the constructor: the error that it throws, if it does.
unfoldable pub check_options : NetworkOptions → ReactorOptions → Option ConfigError
check_options n r =
    if ltb n.max_read_buffer_bytes 4
    then some small_read_buffer
    else if ltb n.write_high_watermark_bytes n.write_low_watermark_bytes
    then some low_above_high
    else if ltb n.write_hard_limit_bytes n.write_high_watermark_bytes
    then some high_above_hard
    else if n.max_write_bytes_per_event == 0
    then some zero_write_bytes
    else if n.max_accepts_per_event == 0
    then some zero_accepts
    else if ltb r.sub_reactor_count 1 || ltb 16 r.sub_reactor_count
    then some sub_reactors_out_of_range
    else none

-- `listening` is whether `m_listenFd` is valid.
pub record TcpServer : Type 0 where
  pub state : ServerState
  pub listening : Bool
  pub sub_reactors : List SubReactor
  pub next_sub_reactor_index : ℕ
  pub shutdown_deadline : ℕ
  pub force_stop_sent : Bool

-- `graceful_timeout` is in nanoseconds too.
pub begin_graceful_shutdown : ℕ → ℕ → TcpServer → TcpServer
begin_graceful_shutdown graceful_timeout now s =
    let deadline = now + graceful_timeout in
    if not (is_running s.state) then s else record s {
      state = draining;
      shutdown_deadline = deadline;
      listening = false;
      sub_reactors = map (Reactor.stop deadline) s.sub_reactors;
    }

unfoldable pub all_stopped : List SubReactor → Bool
all_stopped [] = true
all_stopped (r ∷ rs) = is_stopped r && all_stopped rs

force_running : SubReactor → SubReactor
force_running r = if is_stopped r then r else Reactor.force_stop r

pub check_shutdown_progress : ℕ → TcpServer → TcpServer
unfolding force_running
check_shutdown_progress now s =
    if not (is_draining s.state)
    then s
    else if all_stopped s.sub_reactors
    then record s { state = stopped }
    else if not s.force_stop_sent && leb s.shutdown_deadline now
    then record s { sub_reactors = map force_running s.sub_reactors; force_stop_sent = true }
    else s

pub compute_wait_timeout : ℕ → TcpServer → ℕ
compute_wait_timeout now s =
    if is_running s.state
    then 500
    else if not (is_draining s.state)
    then 0
    else if s.force_stop_sent
    then 10
    else wait_until 100 s.shutdown_deadline now

unfoldable pub any_failed : List SubReactor → Bool
any_failed [] = false
any_failed (r ∷ rs) = has_failed r || any_failed rs

pub check_sub_reactor_health : ℕ → ℕ → TcpServer → TcpServer
unfolding begin_graceful_shutdown
check_sub_reactor_health graceful_timeout now s =
    if not (is_running s.state)
    then s
    else if any_failed s.sub_reactors
    then begin_graceful_shutdown graceful_timeout now s
    else s

-- What `accept` gave. `unusable` is a descriptor that cannot be made non-blocking.
pub data Accepted : Type 0 where
  client unusable : ℕ → Accepted
  interrupted would_block failed : Accepted

-- A client to the reactor at `index`; false if the reactor refuses it.
pub enque_at : ℕ → ℕ → List SubReactor → List SubReactor × Bool
enque_at index fd [] = ([], false)
enque_at zero fd (r ∷ rs) = let (r', taken) = enque_client fd r in (r' ∷ rs, taken)
enque_at (suc index) fd (r ∷ rs) = let (rs', taken) = enque_at index fd rs in (r ∷ rs', taken)

pub assign : ℕ → TcpServer → TcpServer
unfolding enque_at
assign fd s = record s {
  next_sub_reactor_index = (s.next_sub_reactor_index + 1) % length s.sub_reactors;
  sub_reactors = (enque_at s.next_sub_reactor_index fd s.sub_reactors).0;
}

-- The loop over what `accept` gives, one result for each call, with the number of calls that may
-- still succeed. `none` is the exception. A list that ends is a queue that is empty.
unfoldable pub accept_loop : ℕ → List Accepted → TcpServer → Option TcpServer
unfolding assign
accept_loop zero results s = some s
accept_loop (suc left) [] s = some s
accept_loop (suc left) (interrupted ∷ results) s = accept_loop (suc left) results s
accept_loop (suc left) (would_block ∷ results) s = some s
accept_loop (suc left) (failed ∷ results) s = none
accept_loop (suc left) (unusable fd ∷ results) s = accept_loop left results s
accept_loop (suc left) (client fd ∷ results) s = accept_loop left results (assign fd s)

unfoldable pub accept_new_clients : NetworkOptions → List Accepted → TcpServer → Option TcpServer
unfolding accept_loop
accept_new_clients o results s = accept_loop o.max_accepts_per_event results s
