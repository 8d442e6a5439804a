-- ===== src/Core/CommandExecutor/Replies.antt =====
-- src/core/command_executor.cpp behind the parser: what a client that writes a value reads back.
use tinykvcache.Prelude.{ℕ, ◌≡◌, ◌∙◌, ap, ◌++◌, some, arith}
use tinykvcache.Prelude.Equality.{bytes_beq_iff}
use tinykvcache.Prelude.Text.{codes}
use tinykvcache.Core.FrameCodec.{Bytes}
use tinykvcache.Core.KvStore.{KvStore}
use tinykvcache.Core.KvStore as Store
use tinykvcache.Core.KvStore.View.{view-set}
use tinykvcache.Core.KvStore.Spec.{value_of}
use tinykvcache.Core.KvStore.Refinement.{get-view}
use tinykvcache.Core.CommandParser.{parse_command}
use tinykvcache.Core.CommandParser.Words.{IsWord, IsTrimmed}
use tinykvcache.Core.CommandParser.Lines.{
  set_line, key_line, parse_command-set_line, parse_command-get_line,
}
use tinykvcache.Core.CommandExecutor.{execute, execute_kind, value_response}

get-set :
    (s : KvStore) (key value : Bytes) (later : ℕ)
    → (Store.get (Store.set s key value) key later).1 ≡ some value
get-set s key value later =
    get-view (Store.set s key value) key later
    ∙ ap value_of (view-set s key value later key)
    ∙ ground (arith, bytes_beq_iff key key)

-- After `SET key value`, `GET key` answers with the value, whatever the store held before and at
-- whatever times; the key is one word and the value has no space at its ends.
pub execute-get_set :
    (s : KvStore) (key value : Bytes) (now later : ℕ)
    → IsWord key
    → IsTrimmed value
    → (execute
        (execute s (parse_command (set_line key value)) now).0
        (parse_command (key_line (codes "GET") key))
        later).1
      ≡ codes "$" ++ value
unfolding execute execute_kind
execute-get_set s key value now later k v =
    rw (parse_command-set_line key value k v, parse_command-get_line key k)
      (ap value_response (get-set s key value later))
