-- ===== src/Net/ClientEvents/Writes.antt =====
-- src/net/sub_reactor.cpp: writing to a client and the hard limit of its write buffer.
use tinykvcache.Prelude.{
  ℕ, zero, suc, ◌≡◌, refl, Bool, true, false, Option, none, some, arith, if◌then◌else◌,
}
use tinykvcache.Prelude.Text.{codes}
use tinykvcache.Net.OutputBuffer.{OutputBuffer}
use tinykvcache.Net.OutputBuffer as Output
use tinykvcache.Net.OutputBuffer.Contents.{consume-IsValid, size-consume}
use tinykvcache.Net.Connection.{NetworkOptions, Session, update_read_back_pressure, queue_response}
use tinykvcache.Net.Connection.Bounds.{
  IsBounded, mark_closed-IsBounded, update-IsBounded, queue_response-IsBounded,
}
use tinykvcache.Net.ClientEvents.{
  Send, sent, send_would_block, send_failed, reject_oversized_read_buffer, after_write, consumed,
  write_result, write_empty, handle_client_write,
}
use tinykvcache.Observability.ServerMetrics.{add_bytes_sent}

pub reject-IsBounded :
    (o : NetworkOptions) (s : Session)
    → IsBounded o s.conn
    → IsBounded o (reject_oversized_read_buffer o s).conn
unfolding reject_oversized_read_buffer
reject-IsBounded o s b =
    let t = (queue_response o (codes "-ERR request buffer too large") s).0 in
    let q = queue_response-IsBounded o (codes "-ERR request buffer too large") s b in
    ground (arith, q, mark_closed-IsBounded o t.conn)

after_write-IsBounded :
    (o : NetworkOptions) (s : Session) (n : ℕ) (buffer : OutputBuffer)
    → IsBounded o s.conn
    → Output.consume s.conn.write_buffer n ≡ some buffer
    → IsBounded o (after_write o s n buffer).conn
unfolding after_write
after_write-IsBounded o s n buffer b h =
    let t : Session = record {
      conn = record s.conn { write_buffer = buffer };
      metrics = add_bytes_sent n s.metrics;
      store = s.store;
    } in
    let v : IsBounded o t.conn = record {
      valid = consume-IsValid s.conn.write_buffer buffer n b.valid h;
      bounded = omega (arith, b.bounded, size-consume s.conn.write_buffer buffer n b.valid h);
    } in
    ground
      (arith, update-IsBounded o t v, mark_closed-IsBounded o (update_read_back_pressure o t).conn)

-- Of an optional session.
unfoldable pub AllBounded : NetworkOptions → Option Session → Type 0
AllBounded o none = Unit {0}
AllBounded o (some s) = IsBounded o s.conn

consumed-IsBounded :
    (o : NetworkOptions) (s : Session) (n : ℕ) (r : Option OutputBuffer)
    → IsBounded o s.conn
    → Output.consume s.conn.write_buffer n ≡ r
    → AllBounded o (consumed o s n r)
unfolding consumed AllBounded
consumed-IsBounded o s n none b h = tt
consumed-IsBounded o s n (some buffer) b h = after_write-IsBounded o s n buffer b h

write_result-IsBounded :
    (o : NetworkOptions) (w : Send) (s : Session)
    → IsBounded o s.conn
    → AllBounded o (write_result o s w)
unfolding write_result AllBounded
write_result-IsBounded o (sent zero) s b = mark_closed-IsBounded o s.conn
write_result-IsBounded o (sent (suc n)) s b =
    consumed-IsBounded o s (suc n) (Output.consume s.conn.write_buffer (suc n)) b refl
write_result-IsBounded o send_would_block s b = b
write_result-IsBounded o send_failed s b = mark_closed-IsBounded o s.conn

write_empty-IsBounded :
    (o : NetworkOptions) (s : Session) → IsBounded o s.conn → IsBounded o (write_empty o s).conn
unfolding write_empty
write_empty-IsBounded o s b =
    ground
      (arith, update-IsBounded o s b, mark_closed-IsBounded o (update_read_back_pressure o s).conn)

pub if-AllBounded :
    (o : NetworkOptions) (t : Bool) (x y : Option Session)
    → AllBounded o x
    → AllBounded o y
    → AllBounded o (if t then x else y)
if-AllBounded o true x y a b = a
if-AllBounded o false x y a b = b

pub handle_client_write-IsBounded :
    (o : NetworkOptions) (w : Send) (s : Session)
    → IsBounded o s.conn
    → AllBounded o (handle_client_write o w s)
unfolding handle_client_write AllBounded
handle_client_write-IsBounded o w s b =
    let busy =
      if-AllBounded o (Output.is_empty s.conn.write_buffer) (some (write_empty o s))
        (write_result o s w) (write_empty-IsBounded o s b) (write_result-IsBounded o w s b) in
    if-AllBounded o s.conn.closed (some s) _ b busy
