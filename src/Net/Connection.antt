-- ===== src/Net/Connection.antt =====
-- src/net/sub_reactor.cpp: what a reactor does with one client connection. The results of `recv`
-- and `send` (after their retries on EINTR) and the clock are arguments.
pub mod Bounds
pub mod Interest
pub mod Closing
use tinykvcache.Prelude.{
  ℕ, zero, suc, ◌+◌, ◌-◌, ◌*◌, Bool, true, false, not, ◌&&◌, ◌||◌, List, [], ◌∷◌, Option, none,
  some, ltb, leb, ◌==◌, if◌then◌else◌, length, min,
}
use tinykvcache.Prelude.Int.{ℤ}
use tinykvcache.Prelude.Text.{codes}
use tinykvcache.Core.FrameCodec.{Bytes, Result, ok, err, encode, decode_received}
use tinykvcache.Core.KvStore.{KvStore}
use tinykvcache.Core.CommandParser.{Command, CommandType, stats, quit, unknown, parse_command}
use tinykvcache.Core.CommandExecutor.{execute}
use tinykvcache.Net.OutputBuffer.{OutputBuffer}
use tinykvcache.Net.OutputBuffer as Output
use tinykvcache.Net.IoEvent.{
  no_event, read_event, write_event, error_event, hangup_event, join, has_io_event,
}
use tinykvcache.Observability.ServerMetrics.{
  ServerMetrics, add_bytes_received, add_bytes_sent, add_frames_received, on_command_processed,
  on_command_error, on_protocol_error, on_slow_client_disconnected, on_read_paused, on_read_resumed,
  observe_pending_write_bytes, record_command_latency,
}

-- include/tinykv/common/server_info.h
pub record NetworkOptions : Type 0 where
  pub max_read_buffer_bytes : ℕ
  pub write_high_watermark_bytes : ℕ
  pub write_low_watermark_bytes : ℕ
  pub write_hard_limit_bytes : ℕ
  pub max_write_bytes_per_event : ℕ
  pub max_accepts_per_event : ℕ

abbrev pub default_options : NetworkOptions
default_options = record {
  max_read_buffer_bytes = 1024 * 1024 + 4;
  write_high_watermark_bytes = 1024 * 1024;
  write_low_watermark_bytes = 512 * 1024;
  write_hard_limit_bytes = 4 * 1024 * 1024;
  max_write_bytes_per_event = 64 * 1024;
  max_accepts_per_event = 64;
}

pub record Connection : Type 0 where
  pub fd : ℕ
  pub read_buffer : Bytes
  pub write_buffer : OutputBuffer
  pub read_paused : Bool
  pub close_after_write : Bool
  pub closed : Bool
  pub registered_events : ℕ

abbrev pub new_connection : ℕ → Connection
new_connection fd = record {
  fd = fd;
  read_buffer = [];
  write_buffer = Output.init;
  read_paused = false;
  close_after_write = false;
  closed = false;
  registered_events = no_event;
}

-- A connection with the counters and the store that its reactor shares.
pub record Session : Type 0 where
  pub conn : Connection
  pub metrics : ServerMetrics
  pub store : KvStore

pub mark_closed : Connection → Connection
mark_closed conn = record conn {
  closed = true;
  read_paused = false;
  close_after_write = false;
  read_buffer = [];
  write_buffer = Output.clear conn.write_buffer;
}

abbrev pub close : Session → Session
close s = record s { conn = mark_closed s.conn }

resume_read : NetworkOptions → Session → Session
resume_read o s =
    if leb (Output.size s.conn.write_buffer) o.write_low_watermark_bytes
    then record s {
      conn = record s.conn { read_paused = false };
      metrics = on_read_resumed s.metrics;
    }
    else s

pause_read : NetworkOptions → Session → Session
pause_read o s =
    if leb o.write_high_watermark_bytes (Output.size s.conn.write_buffer)
    then record s {
      conn = record s.conn { read_paused = true };
      metrics = on_read_paused s.metrics;
    }
    else s

pub update_read_back_pressure : NetworkOptions → Session → Session
unfolding resume_read pause_read
update_read_back_pressure o s =
    if s.conn.close_after_write || s.conn.closed
    then s
    else if s.conn.read_paused
    then resume_read o s
    else pause_read o s

-- What follows the encoding. The comparison is the source's: `hardLimit - pendingBytes` is not
-- reached where it would wrap.
queue_frame : NetworkOptions → Bytes → Session → Session × Bool
unfolding update_read_back_pressure
queue_frame o frame s =
    let pending_bytes = Output.size s.conn.write_buffer in
    let buffer = Output.append s.conn.write_buffer frame in
    if ltb o.write_hard_limit_bytes pending_bytes
      || ltb (o.write_hard_limit_bytes - pending_bytes) (length frame)
    then (close (record s { metrics = on_slow_client_disconnected s.metrics }), false)
    else (
      update_read_back_pressure o (record s {
        conn = record s.conn { write_buffer = buffer };
        metrics = observe_pending_write_bytes (Output.size buffer) s.metrics;
      }),
      true,
    )

queue_encoded : NetworkOptions → Result Bytes → Session → Session × Bool
unfolding queue_frame
queue_encoded o (ok frame) s = queue_frame o frame s
queue_encoded o (err e) s = (close s, false)

pub queue_response : NetworkOptions → Bytes → Session → Session × Bool
unfolding queue_encoded
queue_response o response s = queue_encoded o (encode response) s

pub desired_events : Connection → ℕ
desired_events conn =
    let reading =
      if (not conn.read_paused && not conn.close_after_write) then read_event else no_event in
    if conn.closed
    then no_event
    else if Output.is_empty conn.write_buffer
    then reading
    else join reading write_event

-- `RefreshConnectionInterest`, with the argument of the call `Modity`, if there is one, where the
-- poller takes that call. Where it does not, the exception leaves the loop: `modify_refused`.
pub refresh_connection_interest : NetworkOptions → Session → Session × Option ℕ
unfolding update_read_back_pressure desired_events
refresh_connection_interest o s =
    let t = update_read_back_pressure o s in
    let desired = desired_events t.conn in
    if s.conn.closed
    then (s, none)
    else if t.conn.close_after_write && Output.is_empty t.conn.write_buffer
    then (close t, none)
    else if desired == no_event
    then (close t, none)
    else if desired == t.conn.registered_events
    then (t, none)
    else (record t { conn = record t.conn { registered_events = desired } }, some desired)

-- The call `Modity` throws: there is one, and the poller does not take it.
unfoldable pub modify_refused : Bool → Option ℕ → Bool
modify_refused takes none = false
modify_refused takes (some events) = not takes
