-- ===== src/Net/OutputBuffer/Tests.antt =====
-- Runs of src/net/output_buffer.cpp.
use tinykvcache.Prelude.{◌+◌, ◌*◌, ◌≤◌, ◌≡◌, inl, List, [], ◌∷◌, arith, length}
use tinykvcache.Core.FrameCodec.{Bytes}
use tinykvcache.Net.OutputBuffer.{OutputBuffer, init, unsent, consume, compact_threshold}
use tinykvcache.Net.OutputBuffer.Contents.{IsValid, unsent?, dequeue, unsent-consume}
use tinykvcache.Net.OutputBuffer.Runs.{Call, appends, consumes, run, storage-run_bound}

-- Three bytes, of which one has been sent.
abbrev buffer : OutputBuffer
buffer = record { storage = 7 ∷ 8 ∷ 9 ∷ []; read_pos = 1 }

buffer-IsValid : IsValid buffer
buffer-IsValid = record { within = omega arith; compact = inl (omega arith) }

abbrev more : Bytes
more = 4 ∷ []

unsent-consume_example : unsent? (consume buffer 2) ≡ dequeue (unsent buffer) 2
unsent-consume_example = unsent-consume buffer 2 buffer-IsValid

-- A buffer is filled, sent in part, and asked for more than it has.
abbrev calls : List Call
calls = appends (7 ∷ 8 ∷ 9 ∷ []) ∷ consumes 1 ∷ consumes 5 ∷ appends more ∷ []

storage-run_bound_example :
    length (run init calls).storage ≤ 2 * length (unsent (run init calls)) + compact_threshold
storage-run_bound_example = storage-run_bound calls
