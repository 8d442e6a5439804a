-- ===== src/Core/CommandExecutor.antt =====
-- src/core/command_executor.cpp: a command on the store, and the text of its response.
mod Tests
pub mod Replies
use tinykvcache.Prelude.{ℕ, Bool, true, false, [], ◌∷◌, ◌++◌, Option, none, some, if◌then◌else◌}
use tinykvcache.Prelude.Text.{codes, to_string, int_to_string}
use tinykvcache.Core.FrameCodec.{Bytes}
use tinykvcache.Core.KvStore.{KvStore}
use tinykvcache.Core.KvStore as Store
use tinykvcache.Core.CommandParser.{
  Command, CommandType, ping, set, get, del, expire, ttl, stats, quit, help, unknown,
}

abbrev pub nil : Bytes
nil = codes "$nil"

abbrev pub value_response : Option Bytes → Bytes
value_response none = nil
value_response (some v) = codes "$" ++ v

abbrev pub flag_response : Bool → Bytes
flag_response found = if found then codes "+OK" else nil

abbrev pub help_text : Bytes
help_text =
    codes "Supported commands:\n"
    ++ codes "  PING\n"
    ++ codes "  SET <key> <value>\n"
    ++ codes "  GET <key>\n"
    ++ codes "  DEL <key>\n"
    ++ codes "  EXPIRE <key> <seconds>\n"
    ++ codes "  TTL <key>\n"
    ++ codes "  STATS\n"
    ++ codes "  HELP\n"
    ++ codes "  QUIT"

pub stats_response : Store.InnerStats → Bytes
stats_response s =
    codes "+keys="
    ++ (to_string s.keys
        ++ (codes ",persistent="
            ++ (to_string s.persistent_keys ++ (codes ",expiring=" ++ to_string s.expiring_keys))))

-- The `switch`.
execute_kind : CommandType → KvStore → Command → ℕ → KvStore × Bytes
unfolding stats_response
execute_kind ping s c now = (s, codes "+PONG")
execute_kind set s c now = (Store.set s c.key c.value, codes "+OK")
execute_kind get s c now = let (t, found) = Store.get s c.key now in (t, value_response found)
execute_kind del s c now = let (t, found) = Store.del s c.key now in (t, flag_response found)
execute_kind expire s c now =
    let (t, found) = Store.expire s c.key c.seconds now in (t, flag_response found)
execute_kind ttl s c now =
    let (t, left) = Store.ttl s c.key now in (t, codes "$" ++ int_to_string left)
execute_kind stats s c now = (s, stats_response (Store.stats s))
execute_kind quit s c now = (s, codes "+BYE")
execute_kind help s c now = (s, help_text)
execute_kind unknown s c now = (s, codes "-ERR unknown command")

unfoldable pub execute : KvStore → Command → ℕ → KvStore × Bytes
unfolding execute_kind
execute s c now = execute_kind c.kind s c now
