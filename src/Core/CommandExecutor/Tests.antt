-- ===== src/Core/CommandExecutor/Tests.antt =====
-- Runs of src/core/command_executor.cpp.
use tinykvcache.Prelude.{◌≡◌, ◌++◌}
use tinykvcache.Prelude.Text.{codes}
use tinykvcache.Core.KvStore.{init}
use tinykvcache.Core.CommandParser.{parse_command}
use tinykvcache.Core.CommandParser.Tests.{key-IsWord, value-IsTrimmed}
use tinykvcache.Core.CommandParser.Lines.{set_line, key_line}
use tinykvcache.Core.CommandExecutor.{execute}
use tinykvcache.Core.CommandExecutor.Replies.{execute-get_set}

execute-get_set_example :
    (execute
      (execute init (parse_command (set_line (codes "k") (codes "a  b"))) 5).0
      (parse_command (key_line (codes "GET") (codes "k")))
      7).1
    ≡ codes "$" ++ codes "a  b"
execute-get_set_example =
    execute-get_set init (codes "k") (codes "a  b") 5 7 key-IsWord value-IsTrimmed
