-- ===== src/Net/Connection/Interest.antt =====
-- src/net/sub_reactor.cpp: back pressure, and the events that a connection is registered for.
use tinykvcache.Prelude.{
  ℕ, Option, none, some, ◌<◌, ◌≡◌, ◌≢◌, refl, ◌⊎◌, true, false, arith, leb, if◌then◌else◌,
}
use tinykvcache.Net.IoEvent.{no_event}
use tinykvcache.Net.OutputBuffer as Output
use tinykvcache.Observability.ServerMetrics.Balance.{active-on_read_paused, active-on_read_resumed}
use tinykvcache.Net.Connection.{
  NetworkOptions, Connection, Session, mark_closed, update_read_back_pressure, desired_events,
  refresh_connection_interest,
}

pub closed-mark_closed : (c : Connection) → (mark_closed c).closed ≡ true
unfolding mark_closed
closed-mark_closed c = refl

pub closed-update :
    (o : NetworkOptions) (s : Session) → (update_read_back_pressure o s).conn.closed ≡ s.conn.closed
unfolding update_read_back_pressure
closed-update o s = ground arith

registered-update :
    (o : NetworkOptions) (s : Session)
    → (update_read_back_pressure o s).conn.registered_events ≡ s.conn.registered_events
unfolding update_read_back_pressure
registered-update o s = ground arith

-- A connection that is closing is left as it is.
pub update_closing :
    (o : NetworkOptions) (s : Session)
    → s.conn.close_after_write ≡ true
    → update_read_back_pressure o s ≡ s
unfolding update_read_back_pressure
update_closing o s h = ground arith

-- Where the low watermark is below the high one, of a connection that is neither closed nor
-- closing: reading stops at the high watermark, goes on at the low one, and between them is as it
-- was.
pub read_paused-update :
    (o : NetworkOptions) (s : Session)
    → o.write_low_watermark_bytes < o.write_high_watermark_bytes
    → s.conn.close_after_write ≡ false
    → s.conn.closed ≡ false
    → (update_read_back_pressure o s).conn.read_paused ≡ (
        if leb o.write_high_watermark_bytes (Output.size s.conn.write_buffer)
        then true
        else if leb (Output.size s.conn.write_buffer) o.write_low_watermark_bytes
        then false
        else s.conn.read_paused)
unfolding update_read_back_pressure
read_paused-update o s h f g = ground arith

-- What the poller has for a descriptor that it had `old` for, behind the call `Modity`, if there is
-- one, where the poller takes it.
abbrev pub told : ℕ → Option ℕ → ℕ
told old none = old
told old (some events) = events

-- A refresh of a connection that was open, where the poller takes the call `Modity` and had for it
-- what the connection was registered for: the connection is closed, and the poller is not called; or
-- what the connection is registered for is what the poller has for it now, which is what it wants
-- and is something, and the poller has not been called with what it had.
pub refresh-registered :
    (o : NetworkOptions) (s : Session)
    → s.conn.closed ≡ false
    → (((refresh_connection_interest o s).0.conn.closed ≡ true)
        × ((refresh_connection_interest o s).1 ≡ none))
      ⊎ ((told s.conn.registered_events (refresh_connection_interest o s).1
            ≡ (refresh_connection_interest o s).0.conn.registered_events)
          × ((refresh_connection_interest o s).0.conn.registered_events
              ≡ desired_events (refresh_connection_interest o s).0.conn)
          × ((refresh_connection_interest o s).0.conn.registered_events ≢ no_event)
          × ((refresh_connection_interest o s).1 ≢ some s.conn.registered_events))
unfolding refresh_connection_interest desired_events
refresh-registered o s h = ground (
  arith,
  closed-update o s,
  registered-update o s,
  closed-mark_closed (update_read_back_pressure o s).conn,
)

-- Of a connection that is closing and has something to be sent.
pub refresh_closing :
    (o : NetworkOptions) (s : Session)
    → s.conn.closed ≡ false
    → s.conn.close_after_write ≡ true
    → Output.is_empty s.conn.write_buffer ≡ false
    → ((refresh_connection_interest o s).0.conn.closed ≡ false)
      × ((refresh_connection_interest o s).0.conn.read_paused ≡ s.conn.read_paused)
      × ((refresh_connection_interest o s).0.conn.close_after_write ≡ true)
      × ((refresh_connection_interest o s).0.conn.write_buffer ≡ s.conn.write_buffer)
unfolding refresh_connection_interest desired_events
refresh_closing o s h k e = ground (arith, update_closing o s k)

pub refresh_closed :
    (o : NetworkOptions) (s : Session)
    → s.conn.closed ≡ true
    → (refresh_connection_interest o s).0.conn.closed ≡ true
unfolding refresh_connection_interest
refresh_closed o s h = ground arith

-- A refresh opens and closes no connection for the counters.
pub active-refresh :
    (o : NetworkOptions) (s : Session)
    → (refresh_connection_interest o s).0.metrics.active_connections ≡ s.metrics.active_connections
unfolding refresh_connection_interest update_read_back_pressure
active-refresh o s =
    ground (arith, active-on_read_paused s.metrics, active-on_read_resumed s.metrics)
