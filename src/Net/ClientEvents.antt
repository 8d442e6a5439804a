-- ===== src/Net/ClientEvents.antt =====
-- src/net/sub_reactor.cpp: the handlers of a client's events, on its connection, the counters and the
-- store. `build_stats` is the text of `BuildStatsResponse`, which `std::ostringstream` formats, with
-- two numbers in `double`; `begin` and `elapsed` are the clock's, for each payload of a read.
pub mod Writes
pub mod Limits
pub mod Returns
pub mod Closing
use tinykvcache.Prelude.{
  ℕ, zero, suc, ◌+◌, ◌-◌, ◌*◌, Bool, true, false, not, ◌&&◌, ◌||◌, List, [], ◌∷◌, Option, none,
  some, ltb, leb, ◌==◌, if◌then◌else◌, length, min,
}
use tinykvcache.Prelude.Int.{ℤ}
use tinykvcache.Prelude.Text.{codes}
use tinykvcache.Core.FrameCodec.{Bytes, Decoded, Result, ok, err, decode_received}
use tinykvcache.Core.KvStore as Store
use tinykvcache.Core.CommandParser.{
  Command, CommandType, ping, set, get, del, expire, ttl, stats, quit, help, unknown, parse_command,
}
use tinykvcache.Core.CommandExecutor.{execute}
use tinykvcache.Net.OutputBuffer.{OutputBuffer}
use tinykvcache.Net.OutputBuffer as Output
use tinykvcache.Net.IoEvent.{read_event, write_event, error_event, hangup_event, has_io_event}
use tinykvcache.Net.Connection.{
  NetworkOptions, Connection, Session, mark_closed, close, update_read_back_pressure,
  queue_response, refresh_connection_interest,
}
use tinykvcache.Observability.ServerMetrics.{
  ServerMetrics, add_bytes_received, add_bytes_sent, add_frames_received, on_command_processed,
  on_command_error, on_protocol_error, record_command_latency,
}

-- What the clock gave round the execution of one payload.
pub record Tick : Type 0 where
  pub begin : ℕ
  pub elapsed : ℤ

-- What `recv` gave: some bytes, none (the peer has shut down), EAGAIN, or another error.
pub data Recv : Type 0 where
  received : Bytes → Recv
  recv_end recv_would_block recv_failed : Recv

-- What `send` gave: a count, EAGAIN, or another error.
pub data Send : Type 0 where
  sent : ℕ → Send
  send_would_block send_failed : Send

abbrev pub is_unknown : CommandType → Bool
is_unknown unknown = true
is_unknown _ = false

abbrev pub is_quit : CommandType → Bool
is_quit quit = true
is_quit _ = false

abbrev pub is_stats : CommandType → Bool
is_stats stats = true
is_stats _ = false

-- `std::array<char, 16U * 1024U> temp`
abbrev pub temp_size : ℕ
temp_size = 16 * 1024

-- The third argument of `recv`.
pub read_size : NetworkOptions → Connection → ℕ
read_size o conn = min temp_size (o.max_read_buffer_bytes - length conn.read_buffer)

pub bytes_to_write : NetworkOptions → Connection → ℕ
bytes_to_write o conn = min (Output.size conn.write_buffer) o.max_write_bytes_per_event

pub reject_oversized_read_buffer : NetworkOptions → Session → Session
reject_oversized_read_buffer o s =
    let (t, queued) = queue_response o (codes "-ERR request buffer too large") s in
    if queued then record t { conn = record t.conn { close_after_write = true } } else close t

-- After a write of `n` bytes has left `buffer` to be sent.
after_write : NetworkOptions → Session → ℕ → OutputBuffer → Session
after_write o s n buffer =
    let t = update_read_back_pressure o (record s {
      conn = record s.conn { write_buffer = buffer };
      metrics = add_bytes_sent n s.metrics;
    }) in
    if Output.is_empty t.conn.write_buffer && t.conn.close_after_write then close t else t

consumed : NetworkOptions → Session → ℕ → Option OutputBuffer → Option Session
unfolding after_write
consumed o s n none = none
consumed o s n (some buffer) = some (after_write o s n buffer)

-- `none` is the exception of `Consume`. `send` writes at most what it is passed, and then there is
-- none.
write_result : NetworkOptions → Session → Send → Option Session
unfolding consumed
write_result o s (sent zero) = some (close s)
write_result o s (sent (suc n)) = consumed o s (suc n) (Output.consume s.conn.write_buffer (suc n))
write_result o s send_would_block = some s
write_result o s send_failed = some (close s)

write_empty : NetworkOptions → Session → Session
write_empty o s =
    let t = update_read_back_pressure o s in if t.conn.close_after_write then close t else t

pub handle_client_write : NetworkOptions → Send → Session → Option Session
unfolding write_result write_empty
handle_client_write o result s =
    if s.conn.closed
    then some s
    else if Output.is_empty s.conn.write_buffer
    then some (write_empty o s)
    else write_result o s result

module _ (o : NetworkOptions) (build_stats : Store.InnerStats → ServerMetrics → Bytes) where
  count_command : CommandType → ServerMetrics → ServerMetrics
  count_command kind m =
      let n = on_command_processed m in if is_unknown kind then on_command_error n else n

  -- The response, and the store after the command.
  pub respond : Command → ℕ → Session → Store.KvStore × Bytes
  respond c begin s =
      if is_stats c.kind
      then (s.store, build_stats (Store.stats s.store) s.metrics)
      else execute s.store c begin

  after_response : CommandType → Session × Bool → Session × Bool
  after_response kind (s, queued) =
      if queued
      then (if is_quit kind
          then (record s { conn = record s.conn { close_after_write = true } }, false)
          else (s, true))
      else (s, false)

  -- False: the connection takes no further payload.
  pub process_payload : Tick → Bytes → Session → Session × Bool
  unfolding count_command respond after_response
  process_payload t payload s =
      let c = parse_command payload in
      let counted : Session = record s { metrics = count_command c.kind s.metrics } in
      let (store', response) = respond c t.begin counted in
      after_response c.kind (
        queue_response o response (record counted {
          store = store';
          metrics = record_command_latency t.elapsed counted.metrics;
        }))

  -- The loop over the payloads of one read; `clock` counts them.
  pub process_payloads : (ℕ → Tick) → ℕ → List Bytes → Session → Session
  unfolding process_payload
  process_payloads clock i [] s = s
  process_payloads clock i (p ∷ ps) s =
      let r = process_payload (clock i) p s in
      let rest = process_payloads clock (i + 1) ps r.0 in if r.1 then rest else r.0

  protocol_error : Session → Session
  protocol_error s =
      let r =
        queue_response o (codes "-ERR protocol error")
          (record s { metrics = on_protocol_error s.metrics }) in
      if r.1 then record r.0 { conn = record r.0.conn { close_after_write = true } } else r.0

  decoded : (ℕ → Tick) → Session → Bytes → Result (List Bytes) → Session
  unfolding process_payloads protocol_error
  decoded clock s buffer (err e) =
      protocol_error (record s { conn = record s.conn { read_buffer = buffer } })
  decoded clock s buffer (ok payloads) = process_payloads clock 0 payloads (record s {
    conn = record s.conn { read_buffer = buffer };
    metrics = add_frames_received (length payloads) s.metrics;
  })

  -- The end of the stream: `MarkClosed` first, then the flags, then a test that finds the buffer
  -- empty.
  at_end : Session → Session
  at_end s =
      let t = close s in
      let u : Session = record t {
        conn = record t.conn { read_paused = true; close_after_write = true };
      } in
      if Output.is_empty u.conn.write_buffer then close u else u

  read_result : (ℕ → Tick) → Session → Recv → Session
  unfolding decoded at_end
  read_result clock s (received bytes) =
      let d = decode_received s.conn.read_buffer bytes in
      decoded clock (record s { metrics = add_bytes_received (length bytes) s.metrics }) d.buffer
        d.frames
  read_result clock s recv_end = at_end s
  read_result clock s recv_would_block = s
  read_result clock s recv_failed = close s

  pub handle_client_read : (ℕ → Tick) → Recv → Session → Session
  unfolding read_result
  handle_client_read clock result s =
      if s.conn.closed || s.conn.read_paused || s.conn.close_after_write
      then s
      else if leb o.max_read_buffer_bytes (length s.conn.read_buffer)
      then reject_oversized_read_buffer o s
      else read_result clock s result

  -- The branch for a hang-up.
  hangup : Session → Session
  hangup s =
      let t : Session = record s {
        conn = record s.conn { read_paused = true; close_after_write = true };
      } in
      if Output.is_empty t.conn.write_buffer then close t else t

  pub on_read : Bool → ℕ → (ℕ → Tick) → Recv → Session → Session
  unfolding handle_client_read
  on_read running events clock r s =
      if running && has_io_event events read_event then handle_client_read clock r s else s

  on_write : ℕ → Send → Session → Option Session
  unfolding handle_client_write
  on_write events w s =
      if not s.conn.closed && has_io_event events write_event
      then handle_client_write o w s
      else some s

  on_hangup : ℕ → Session → Session
  unfolding hangup
  on_hangup events s = if not s.conn.closed && has_io_event events hangup_event then hangup s else s

  on_rest : ℕ → Option Session → Option (Session × Option ℕ)
  unfolding on_hangup
  on_rest events none = none
  on_rest events (some s) = some (refresh_connection_interest o (on_hangup events s))

  -- The body of `EventLoop` for one ready client, with the argument of the call of `Modity`.
  pub handle_ready : Bool → ℕ → (ℕ → Tick) → Recv → Send → Session → Option (Session × Option ℕ)
  unfolding on_read on_write on_rest
  handle_ready running events clock r w s =
      if has_io_event events error_event
      then some (close s, none)
      else on_rest events (on_write events w (on_read running events clock r s))
