-- ===== src/Net/OutputBuffer/Runs.antt =====
-- include/tinykv/net/output_buffer.h and src/net/output_buffer.cpp: what any sequence of calls leaves.
use tinykvcache.Prelude.{ℕ, ◌*◌, ◌+◌, ◌≤◌, ◌≡◌, refl, List, [], ◌∷◌, Option, none, some, length}
use tinykvcache.Core.FrameCodec.{Bytes}
use tinykvcache.Net.OutputBuffer.{
  OutputBuffer, init, append, consume, clear, unsent, compact_threshold,
}
use tinykvcache.Net.OutputBuffer.Contents.{
  IsValid, init-IsValid, append-IsValid, consume-IsValid, clear-IsValid, storage_bound,
}

-- The calls that change a buffer.
pub data Call : Type 0 where
  appends : Bytes → Call
  consumes : ℕ → Call
  clears : Call

-- A `Consume` that throws changes nothing.
abbrev pub unless_thrown : OutputBuffer → Option OutputBuffer → OutputBuffer
unless_thrown b none = b
unless_thrown b (some c) = c

abbrev pub call : OutputBuffer → Call → OutputBuffer
call b (appends bytes) = append b bytes
call b (consumes n) = unless_thrown b (consume b n)
call b clears = clear b

unfoldable pub run : OutputBuffer → List Call → OutputBuffer
run b [] = b
run b (c ∷ cs) = run (call b c) cs

unless_thrown-IsValid :
    (b : OutputBuffer) (n : ℕ) (c : Option OutputBuffer)
    → IsValid b
    → consume b n ≡ c
    → IsValid (unless_thrown b c)
unless_thrown-IsValid b n none v h = v
unless_thrown-IsValid b n (some c) v h = consume-IsValid b c n v h

call-IsValid : (b : OutputBuffer) (c : Call) → IsValid b → IsValid (call b c)
call-IsValid b (appends bytes) v = append-IsValid b bytes v
call-IsValid b (consumes n) v = unless_thrown-IsValid b n (consume b n) v refl
call-IsValid b clears v = clear-IsValid b

run-IsValid : (b : OutputBuffer) (cs : List Call) → IsValid b → IsValid (run b cs)
unfolding run
run-IsValid b [] v = v
run-IsValid b (c ∷ cs) v = run-IsValid (call b c) cs (call-IsValid b c v)

-- After any calls of `Append`, `Consume` and `Clear` on a new buffer, those that throw included, its
-- storage holds at most twice what is to be sent, and 64 KiB.
pub storage-run_bound :
    (cs : List Call)
    → length (run init cs).storage ≤ 2 * length (unsent (run init cs)) + compact_threshold
storage-run_bound cs = storage_bound (run init cs) (run-IsValid init cs init-IsValid)
