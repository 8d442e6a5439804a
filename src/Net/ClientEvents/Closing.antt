-- ===== src/Net/ClientEvents/Closing.antt =====
-- src/net/sub_reactor.cpp: the handlers of a client that is to be closed.
use tinykvcache.Prelude.{
  ℕ, zero, suc, refl, Bool, true, false, not, ◌&&◌, Option, none, some, inl, inr, Bool-cases,
  if◌then◌else◌,
}
use tinykvcache.Core.FrameCodec.{Bytes}
use tinykvcache.Core.KvStore as Store
use tinykvcache.Net.IoEvent.{has_io_event, write_event, hangup_event, error_event}
use tinykvcache.Net.OutputBuffer.{OutputBuffer}
use tinykvcache.Net.OutputBuffer as Output
use tinykvcache.Net.Connection.{NetworkOptions, Session, close, update_read_back_pressure}
use tinykvcache.Net.Connection.Closing.{
  IsClosing, mark_closed-IsClosing, if-IsClosing, update-IsClosing, refresh-IsClosing,
}
use tinykvcache.Net.ClientEvents.{
  Tick, Recv, Send, sent, send_would_block, send_failed, after_write, consumed, write_result,
  write_empty, handle_client_write, hangup, on_read, on_write, on_hangup, on_rest, handle_ready,
}
use tinykvcache.Observability.ServerMetrics.{ServerMetrics, add_bytes_sent}

after_write-IsClosing :
    (o : NetworkOptions) (s : Session) (n : ℕ) (buffer : OutputBuffer)
    → IsClosing s.conn
    → IsClosing (after_write o s n buffer).conn
unfolding after_write
after_write-IsClosing o s n buffer h =
    let t : Session = record s {
      conn = record s.conn { write_buffer = buffer };
      metrics = add_bytes_sent n s.metrics;
    } in
    let u = update_read_back_pressure o t in
    if-IsClosing (Output.is_empty u.conn.write_buffer && u.conn.close_after_write) (close u) u
      (mark_closed-IsClosing u.conn) (update-IsClosing o t (record { closing = h.closing }))

-- Of an optional session.
AllClosing : Option Session → Type 0
AllClosing none = Unit {0}
AllClosing (some s) = IsClosing s.conn

consumed-AllClosing :
    (o : NetworkOptions) (s : Session) (n : ℕ) (r : Option OutputBuffer)
    → IsClosing s.conn
    → AllClosing (consumed o s n r)
unfolding consumed AllClosing
consumed-AllClosing o s n none h = tt
consumed-AllClosing o s n (some buffer) h = after_write-IsClosing o s n buffer h

write_result-AllClosing :
    (o : NetworkOptions) (s : Session) (w : Send)
    → IsClosing s.conn
    → AllClosing (write_result o s w)
unfolding write_result AllClosing
write_result-AllClosing o s (sent zero) h = mark_closed-IsClosing s.conn
write_result-AllClosing o s (sent (suc n)) h = consumed-AllClosing o s (suc n) _ h
write_result-AllClosing o s send_would_block h = h
write_result-AllClosing o s send_failed h = mark_closed-IsClosing s.conn

write_empty-IsClosing :
    (o : NetworkOptions) (s : Session) → IsClosing s.conn → IsClosing (write_empty o s).conn
unfolding write_empty
write_empty-IsClosing o s h =
    let u = update_read_back_pressure o s in
    if-IsClosing u.conn.close_after_write (close u) u (mark_closed-IsClosing u.conn)
      (update-IsClosing o s h)

if-AllClosing :
    (t : Bool) (x y : Option Session)
    → AllClosing x
    → AllClosing y
    → AllClosing (if t then x else y)
if-AllClosing true x y a b = a
if-AllClosing false x y a b = b

some-AllClosing : (s : Session) → IsClosing s.conn → AllClosing (some s)
unfolding AllClosing
some-AllClosing s h = h

handle_client_write-AllClosing :
    (o : NetworkOptions) (w : Send) (s : Session)
    → IsClosing s.conn
    → AllClosing (handle_client_write o w s)
unfolding handle_client_write
handle_client_write-AllClosing o w s h = if-AllClosing s.conn.closed _ _ (some-AllClosing s h) (
    if-AllClosing (Output.is_empty s.conn.write_buffer) _ _
      (some-AllClosing _ (write_empty-IsClosing o s h)) (write_result-AllClosing o s w h))

module _ (o : NetworkOptions) (build_stats : Store.InnerStats → ServerMetrics → Bytes) where
  on_hangup-IsClosing :
      (events : ℕ) (s : Session)
      → IsClosing s.conn
      → IsClosing (on_hangup o build_stats events s).conn
  unfolding on_hangup hangup
  on_hangup-IsClosing events s h =
      let t : Session = record s {
        conn = record s.conn { read_paused = true; close_after_write = true };
      } in
      if-IsClosing (not s.conn.closed && has_io_event events hangup_event) _ s
        (if-IsClosing (Output.is_empty s.conn.write_buffer) (close t) t
          (mark_closed-IsClosing t.conn) (record { closing = refl }))
        h

  -- Of what one round of events gives.
  unfoldable pub ReplyClosing : Option (Session × Option ℕ) → Type 0
  ReplyClosing none = Unit {0}
  ReplyClosing (some (s, asked)) = IsClosing s.conn

  on_rest-ReplyClosing :
      (events : ℕ) (r : Option Session)
      → AllClosing r
      → ReplyClosing (on_rest o build_stats events r)
  unfolding on_rest AllClosing ReplyClosing
  on_rest-ReplyClosing events none h = tt
  on_rest-ReplyClosing events (some s) h =
      refresh-IsClosing o (on_hangup o build_stats events s) (on_hangup-IsClosing events s h)

  -- A reactor that does not run leaves a client that is to be closed one that is.
  pub handle_ready-ReplyClosing :
      (events : ℕ) (clock : ℕ → Tick) (r : Recv) (w : Send) (s : Session)
      → IsClosing s.conn
      → ReplyClosing (handle_ready o build_stats false events clock r w s)
  unfolding handle_ready ReplyClosing on_write on_read
  handle_ready-ReplyClosing events clock r w s h =
      elim (Bool-cases (has_io_event events error_event)) [
        | inl failed ↦ rw failed (mark_closed-IsClosing s.conn)
        | inr fine ↦ rw fine (
            on_rest-ReplyClosing events _ (
              if-AllClosing (not s.conn.closed && has_io_event events write_event) _ _
                (handle_client_write-AllClosing o w s h) (some-AllClosing s h)))
      ]
