-- ===== src/Net/ClientEvents/Limits.antt =====
-- src/net/sub_reactor.cpp: the handlers of a client and the hard limit of its write buffer.
use tinykvcache.Prelude.{
  ℕ, ◌+◌, refl, inl, inr, Bool, true, ◌&&◌, not, List, [], ◌∷◌, Option, none, some, arith,
  Bool-cases, length,
}
use tinykvcache.Prelude.Text.{codes}
use tinykvcache.Core.FrameCodec.{Bytes, Result, ok, err, decode_received}
use tinykvcache.Core.KvStore as Store
use tinykvcache.Core.CommandParser.{CommandType, parse_command}
use tinykvcache.Net.IoEvent.{error_event, has_io_event, write_event}
use tinykvcache.Net.Connection.{NetworkOptions, Connection, Session, mark_closed, queue_response}
use tinykvcache.Net.Connection.Bounds.{
  IsBounded, mark_closed-IsBounded, same_buffer-IsBounded, queue_response-IsBounded,
  refresh-IsBounded,
}
use tinykvcache.Net.ClientEvents.{
  Tick, Recv, received, recv_end, recv_would_block, recv_failed, Send, count_command, respond,
  after_response, process_payload, process_payloads, protocol_error, decoded, at_end, read_result,
  handle_client_read, hangup, on_read, on_write, on_hangup, on_rest, handle_ready,
}
use tinykvcache.Observability.ServerMetrics.{
  ServerMetrics, add_bytes_received, add_frames_received, on_protocol_error, record_command_latency,
}
use tinykvcache.Net.ClientEvents.Writes.{
  AllBounded, reject-IsBounded, handle_client_write-IsBounded,
}

module _ (o : NetworkOptions) (build_stats : Store.InnerStats → ServerMetrics → Bytes) where
  after_response-IsBounded :
      (kind : CommandType) (r : Session × Bool)
      → IsBounded o r.0.conn
      → IsBounded o (after_response o build_stats kind r).0.conn
  unfolding after_response
  after_response-IsBounded kind (s, queued) b = ground (arith, same_buffer-IsBounded o s.conn)

  process_payload-IsBounded :
      (t : Tick) (p : Bytes) (s : Session)
      → IsBounded o s.conn
      → IsBounded o (process_payload o build_stats t p s).0.conn
  unfolding process_payload
  process_payload-IsBounded t p s b =
      let c = parse_command p in
      let m = count_command o build_stats c.kind s.metrics in
      let r =
        respond o build_stats c t.begin (record { conn = s.conn; metrics = m; store = s.store }) in
      let u : Session = record {
        conn = s.conn;
        metrics = record_command_latency t.elapsed m;
        store = r.0;
      } in
      after_response-IsBounded c.kind (queue_response o r.1 u) (queue_response-IsBounded o r.1 u b)

  process_payloads-IsBounded :
      (clock : ℕ → Tick) (i : ℕ) (ps : List Bytes) (s : Session)
      → IsBounded o s.conn
      → IsBounded o (process_payloads o build_stats clock i ps s).conn
  unfolding process_payloads
  process_payloads-IsBounded clock i [] s b = b
  process_payloads-IsBounded clock i (p ∷ ps) s b =
      let first = process_payload-IsBounded (clock i) p s b in
      ground (
        arith,
        first,
        process_payloads-IsBounded clock (i + 1) ps (process_payload o build_stats (clock i) p s).0
            first,
      )

  protocol_error-IsBounded :
      (s : Session) → IsBounded o s.conn → IsBounded o (protocol_error o build_stats s).conn
  unfolding protocol_error
  protocol_error-IsBounded s b =
      let q =
        queue_response-IsBounded o (codes "-ERR protocol error")
          (record { conn = s.conn; metrics = on_protocol_error s.metrics; store = s.store }) b in
      ground (arith, q)

  decoded-IsBounded :
      (clock : ℕ → Tick) (s : Session) (buffer : Bytes) (r : Result (List Bytes))
      → IsBounded o s.conn
      → IsBounded o (decoded o build_stats clock s buffer r).conn
  unfolding decoded
  decoded-IsBounded clock s buffer (err e) b =
      protocol_error-IsBounded
        (record {
          conn = record s.conn { read_buffer = buffer };
          metrics = s.metrics;
          store = s.store;
        })
        (same_buffer-IsBounded o s.conn (record s.conn { read_buffer = buffer }) refl b)
  decoded-IsBounded clock s buffer (ok payloads) b =
      process_payloads-IsBounded clock 0 payloads
        (record {
          conn = record s.conn { read_buffer = buffer };
          metrics = add_frames_received (length payloads) s.metrics;
          store = s.store;
        })
        (same_buffer-IsBounded o s.conn (record s.conn { read_buffer = buffer }) refl b)

  at_end-IsBounded : (s : Session) → IsBounded o (at_end o build_stats s).conn
  unfolding at_end
  at_end-IsBounded s =
      let m = mark_closed-IsBounded o s.conn in
      let c : Connection = record (mark_closed s.conn) {
        read_paused = true;
        close_after_write = true;
      } in
      ground
        (arith, same_buffer-IsBounded o (mark_closed s.conn) c refl m, mark_closed-IsBounded o c)

  read_result-IsBounded :
      (clock : ℕ → Tick) (s : Session) (r : Recv)
      → IsBounded o s.conn
      → IsBounded o (read_result o build_stats clock s r).conn
  unfolding read_result
  read_result-IsBounded clock s (received bytes) b =
      decoded-IsBounded clock
        (record {
          conn = s.conn;
          metrics = add_bytes_received (length bytes) s.metrics;
          store = s.store;
        })
        (decode_received s.conn.read_buffer bytes).buffer
        (decode_received s.conn.read_buffer bytes).frames b
  read_result-IsBounded clock s recv_end b = at_end-IsBounded s
  read_result-IsBounded clock s recv_would_block b = b
  read_result-IsBounded clock s recv_failed b = mark_closed-IsBounded o s.conn

  handle_client_read-IsBounded :
      (clock : ℕ → Tick) (r : Recv) (s : Session)
      → IsBounded o s.conn
      → IsBounded o (handle_client_read o build_stats clock r s).conn
  unfolding handle_client_read
  handle_client_read-IsBounded clock r s b =
      ground (arith, reject-IsBounded o s b, read_result-IsBounded clock s r b)

  on_read-IsBounded :
      (running : Bool) (events : ℕ) (clock : ℕ → Tick) (r : Recv) (s : Session)
      → IsBounded o s.conn
      → IsBounded o (on_read o build_stats running events clock r s).conn
  unfolding on_read
  on_read-IsBounded running events clock r s b =
      ground (arith, handle_client_read-IsBounded clock r s b)

  on_write-IsBounded :
      (events : ℕ) (w : Send) (s : Session)
      → IsBounded o s.conn
      → AllBounded o (on_write o build_stats events w s)
  unfolding on_write AllBounded
  on_write-IsBounded events w s b =
      elim (Bool-cases (not s.conn.closed && has_io_event events write_event)) [
        | inl asked ↦ rw asked (handle_client_write-IsBounded o w s b)
        | inr idle ↦ rw idle b
      ]

  on_hangup-IsBounded :
      (events : ℕ) (s : Session)
      → IsBounded o s.conn
      → IsBounded o (on_hangup o build_stats events s).conn
  unfolding on_hangup hangup
  on_hangup-IsBounded events s b =
      let c : Connection = record s.conn { read_paused = true; close_after_write = true } in
      ground (arith, same_buffer-IsBounded o s.conn c refl b, mark_closed-IsBounded o c)

  -- Of what one round of events gives.
  unfoldable pub ReplyBounded : Option (Session × Option ℕ) → Type 0
  ReplyBounded none = Unit {0}
  ReplyBounded (some (s, asked)) = IsBounded o s.conn

  on_rest-IsBounded :
      (events : ℕ) (r : Option Session)
      → AllBounded o r
      → ReplyBounded (on_rest o build_stats events r)
  unfolding on_rest AllBounded ReplyBounded
  on_rest-IsBounded events none b = tt
  on_rest-IsBounded events (some s) b =
      refresh-IsBounded o (on_hangup o build_stats events s) (on_hangup-IsBounded events s b)

  -- One round of events, of every kind: a write buffer that is valid and within the hard limit
  -- stays so, whatever is read and however much is sent, unless a handler throws.
  pub handle_ready-IsBounded :
      (running : Bool) (events : ℕ) (clock : ℕ → Tick) (r : Recv) (w : Send) (s : Session)
      → IsBounded o s.conn
      → ReplyBounded (handle_ready o build_stats running events clock r w s)
  unfolding handle_ready ReplyBounded
  handle_ready-IsBounded running events clock r w s b =
      let read = on_read o build_stats running events clock r s in
      elim (Bool-cases (has_io_event events error_event)) [
        | inl failed ↦ rw failed (mark_closed-IsBounded o s.conn)
        | inr fine ↦ rw fine (
            on_rest-IsBounded events (on_write o build_stats events w read)
              (on_write-IsBounded events w read (on_read-IsBounded running events clock r s b)))
      ]
