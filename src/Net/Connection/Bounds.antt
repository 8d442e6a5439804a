-- ===== src/Net/Connection/Bounds.antt =====
-- The size of the write buffer of a connection of src/net/sub_reactor.cpp, and its hard limit.
use tinykvcache.Prelude.{
  ℕ, ◌-◌, ◌≤◌, ◌≡◌, inl, inr, Bool, true, false, ◌||◌, Option, arith, Bool-cases, ltb, length,
  if◌then◌else◌,
}
use tinykvcache.Core.FrameCodec.{Bytes, Result, ok, err, encode}
use tinykvcache.Net.OutputBuffer.{OutputBuffer}
use tinykvcache.Net.OutputBuffer as Output
use tinykvcache.Net.OutputBuffer.Contents.{
  IsValid, init-IsValid, clear-IsValid, size-clear, size-init, size-append, append-IsValid,
}
use tinykvcache.Net.Connection.{
  NetworkOptions, Connection, Session, new_connection, mark_closed, update_read_back_pressure,
  queue_frame, queue_encoded, queue_response, refresh_connection_interest,
}
use tinykvcache.Observability.ServerMetrics.{observe_pending_write_bytes}

pub record IsBounded (o : NetworkOptions) (c : Connection) : Type 0 where
  pub valid : IsValid c.write_buffer
  pub bounded : Output.size c.write_buffer ≤ o.write_hard_limit_bytes

pub new_connection-IsBounded : (o : NetworkOptions) (fd : ℕ) → IsBounded o (new_connection fd)
new_connection-IsBounded o fd = record { valid = init-IsValid; bounded = omega (arith, size-init) }

pub mark_closed-IsBounded : (o : NetworkOptions) (c : Connection) → IsBounded o (mark_closed c)
unfolding mark_closed
mark_closed-IsBounded o c = record {
  valid = clear-IsValid c.write_buffer;
  bounded = omega (arith, size-clear c.write_buffer);
}

pub write_buffer-update :
    (o : NetworkOptions) (s : Session)
    → (update_read_back_pressure o s).conn.write_buffer ≡ s.conn.write_buffer
unfolding update_read_back_pressure
write_buffer-update o s = ground arith

-- Only the write buffer counts.
pub same_buffer-IsBounded :
    (o : NetworkOptions) (c d : Connection)
    → d.write_buffer ≡ c.write_buffer
    → IsBounded o c
    → IsBounded o d
same_buffer-IsBounded o c d e b = record { valid = rw e b.valid; bounded = rw e b.bounded }

pub update-IsBounded :
    (o : NetworkOptions) (s : Session)
    → IsBounded o s.conn
    → IsBounded o (update_read_back_pressure o s).conn
update-IsBounded o s b = same_buffer-IsBounded o s.conn _ (write_buffer-update o s) b

-- The session in which the frame is queued and the watermarks are still to be looked at.
abbrev with_frame : Bytes → Session → Session
with_frame frame s = record {
  conn = record s.conn { write_buffer = Output.append s.conn.write_buffer frame };
  metrics =
      observe_pending_write_bytes (Output.size (Output.append s.conn.write_buffer frame)) s.metrics;
  store = s.store;
}

queue_frame-IsBounded :
    (o : NetworkOptions) (frame : Bytes) (s : Session)
    → IsBounded o s.conn
    → IsBounded o (queue_frame o frame s).0.conn
unfolding queue_frame
queue_frame-IsBounded o frame s b =
    elim (Bool-cases (
      ltb o.write_hard_limit_bytes (Output.size s.conn.write_buffer)
      || ltb (o.write_hard_limit_bytes - Output.size s.conn.write_buffer) (length frame))) [
        | inl slow ↦ rw slow (mark_closed-IsBounded o s.conn)
        | inr room ↦ rw room (
            update-IsBounded o (with_frame frame s) (record {
              valid = append-IsValid s.conn.write_buffer frame b.valid;
              bounded = ground (arith, size-append s.conn.write_buffer frame b.valid);
            }))
      ]

queue_encoded-IsBounded :
    (o : NetworkOptions) (r : Result Bytes) (s : Session)
    → IsBounded o s.conn
    → IsBounded o (queue_encoded o r s).0.conn
unfolding queue_encoded
queue_encoded-IsBounded o (ok frame) s b = queue_frame-IsBounded o frame s b
queue_encoded-IsBounded o (err e) s b = mark_closed-IsBounded o s.conn

pub queue_response-IsBounded :
    (o : NetworkOptions) (response : Bytes) (s : Session)
    → IsBounded o s.conn
    → IsBounded o (queue_response o response s).0.conn
unfolding queue_response
queue_response-IsBounded o response s b = queue_encoded-IsBounded o (encode response) s b

pub if-IsBounded :
    (o : NetworkOptions) (t : Bool) (x y : Session)
    → IsBounded o x.conn
    → IsBounded o y.conn
    → IsBounded o (if t then x else y).conn
if-IsBounded o true x y a b = a
if-IsBounded o false x y a b = b

if_asking-IsBounded :
    (o : NetworkOptions) (t : Bool) (x y : Session × Option ℕ)
    → IsBounded o x.0.conn
    → IsBounded o y.0.conn
    → IsBounded o (if t then x else y).0.conn
if_asking-IsBounded o true x y a b = a
if_asking-IsBounded o false x y a b = b

pub refresh-IsBounded :
    (o : NetworkOptions) (s : Session)
    → IsBounded o s.conn
    → IsBounded o (refresh_connection_interest o s).0.conn
unfolding refresh_connection_interest
refresh-IsBounded o s b = ground (
  arith,
  update-IsBounded o s b,
  mark_closed-IsBounded o (update_read_back_pressure o s).conn,
  same_buffer-IsBounded o (update_read_back_pressure o s).conn,
)
