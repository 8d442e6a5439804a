-- ===== src/Net/IoEvent.antt =====
-- include/tinykv/net/poll/io_event.h: events as bits of a word.
use tinykvcache.Prelude.{ℕ, Bool, not, ◌==◌, bit_and, bit_or}

abbrev pub no_event : ℕ
no_event = 0

abbrev pub read_event : ℕ
read_event = 1

abbrev pub write_event : ℕ
write_event = 2

abbrev pub error_event : ℕ
error_event = 4

abbrev pub hangup_event : ℕ
hangup_event = 8

-- `operator|`, and `operator|=`.
abbrev pub join : ℕ → ℕ → ℕ
join left right = bit_or left right

unfoldable pub has_io_event : ℕ → ℕ → Bool
has_io_event events expected = not (bit_and events expected == 0)
