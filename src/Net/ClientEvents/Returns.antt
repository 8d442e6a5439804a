-- ===== src/Net/ClientEvents/Returns.antt =====
-- src/net/sub_reactor.cpp: the handlers of a client's events and the exception of `Consume`.
use tinykvcache.Prelude.{ℕ, zero, suc, ◌≤◌, ◌≢◌, refl, Bool, Option, none, some, arith}
use tinykvcache.Core.FrameCodec.{Bytes}
use tinykvcache.Core.KvStore as Store
use tinykvcache.Net.OutputBuffer.{OutputBuffer}
use tinykvcache.Net.OutputBuffer as Output
use tinykvcache.Net.OutputBuffer.Contents.{consume_total}
use tinykvcache.Net.Connection.{NetworkOptions, Connection, Session}
use tinykvcache.Net.ClientEvents.{
  Tick, Recv, Send, sent, send_would_block, send_failed, bytes_to_write, consumed, write_result,
  handle_client_write, on_read, on_write, on_rest, handle_ready,
}
use tinykvcache.Observability.ServerMetrics.{ServerMetrics}

-- `send` reports at most the bytes that it was passed.
unfoldable pub IsAllowed : NetworkOptions → Connection → Send → Type 0
IsAllowed o conn (sent n) = n ≤ bytes_to_write o conn
IsAllowed o conn send_would_block = Unit {0}
IsAllowed o conn send_failed = Unit {0}

consumed_total :
    (o : NetworkOptions) (s : Session) (n : ℕ) (r : Option OutputBuffer)
    → r ≢ none
    → consumed o s n r ≢ none
unfolding consumed
consumed_total o s n none h = absurd (h refl)
consumed_total o s n (some buffer) h = λ e. cc

write_result_total :
    (o : NetworkOptions) (w : Send) (s : Session) → IsAllowed o s.conn w → write_result o s w ≢ none
unfolding write_result IsAllowed bytes_to_write
write_result_total o (sent zero) s a = λ e. cc
write_result_total o (sent (suc n)) s a =
    consumed_total o s (suc n) (Output.consume s.conn.write_buffer (suc n))
      (consume_total s.conn.write_buffer (suc n) (omega arith))
write_result_total o send_would_block s a = λ e. cc
write_result_total o send_failed s a = λ e. cc

handle_client_write_total :
    (o : NetworkOptions) (w : Send) (s : Session)
    → IsAllowed o s.conn w
    → handle_client_write o w s ≢ none
unfolding handle_client_write
handle_client_write_total o w s a = let t = write_result_total o w s a in ground arith

on_rest_total :
    (o : NetworkOptions) (build_stats : Store.InnerStats → ServerMetrics → Bytes) (events : ℕ)
    (r : Option Session)
    → r ≢ none
    → on_rest o build_stats events r ≢ none
unfolding on_rest
on_rest_total o build_stats events none h = absurd (h refl)
on_rest_total o build_stats events (some s) h = λ e. cc

-- If `send` reports at most the bytes that it was passed, no handler of a client's events throws:
-- `Consume` is never asked for more than there is.
pub handle_ready_total :
    (o : NetworkOptions) (build_stats : Store.InnerStats → ServerMetrics → Bytes)
    → (running : Bool) (events : ℕ) (clock : ℕ → Tick) (r : Recv) (w : Send) (s : Session)
    → IsAllowed o (on_read o build_stats running events clock r s).conn w
    → handle_ready o build_stats running events clock r w s ≢ none
unfolding handle_ready on_write
handle_ready_total o build_stats running events clock r w s a =
    let read = on_read o build_stats running events clock r s in
    let t = handle_client_write_total o w read a in
    let u = on_rest_total o build_stats events (on_write o build_stats events w read) in
    ground arith
