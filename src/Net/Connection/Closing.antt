-- ===== src/Net/Connection/Closing.antt =====
-- Connections of src/net/sub_reactor.cpp that are to be closed.
use tinykvcache.Prelude.{◌≡◌, refl, Bool, true, false, ◌||◌, arith, if◌then◌else◌}
use tinykvcache.Net.Connection.{
  NetworkOptions, Connection, Session, mark_closed, update_read_back_pressure,
  refresh_connection_interest,
}

-- Closed, or to be closed when everything has been sent: nothing more is read.
pub record IsClosing (c : Connection) : Type 0 where
  pub closing : (c.close_after_write || c.closed) ≡ true

pub mark_closed-IsClosing : (c : Connection) → IsClosing (mark_closed c)
unfolding mark_closed
mark_closed-IsClosing c = record { closing = refl }

pub if-IsClosing :
    (t : Bool) (x y : Session)
    → IsClosing x.conn
    → IsClosing y.conn
    → IsClosing (if t then x else y).conn
if-IsClosing true x y a b = a
if-IsClosing false x y a b = b

pub update-IsClosing :
    (o : NetworkOptions) (s : Session)
    → IsClosing s.conn
    → IsClosing (update_read_back_pressure o s).conn
unfolding update_read_back_pressure
update-IsClosing o s h = rw (h.closing) h

pub refresh-IsClosing :
    (o : NetworkOptions) (s : Session)
    → IsClosing s.conn
    → IsClosing (refresh_connection_interest o s).0.conn
unfolding refresh_connection_interest update_read_back_pressure
refresh-IsClosing o s h =
    let k = h.closing in record { closing = ground (arith, (mark_closed-IsClosing s.conn).closing) }
