-- ===== src/Config.antt =====
-- src/config/config_loader.cpp and src/config/config_parser.cpp, and what they share with
-- src/config/command_line.cpp.
-- The TOML document is a parameter, as toml++ gives it: what `get`, `as_table` and `value<T>` return.
mod Tests
pub mod Loader
pub mod CommandLine
pub mod Startup
use tinykvcache.Prelude.{
  ℕ, zero, suc, ◌/◌, ◌≡◌, Bool, true, false, ◌||◌, List, [], ◌∷◌, Option, none, some, ltb, leb,
  ◌==◌, if◌then◌else◌, length, min, max,
}
use tinykvcache.Prelude.Equality.{bytes_beq}
use tinykvcache.Prelude.Int.{ℤ, pos, negsuc}
use tinykvcache.Prelude.Text.{codes}
use tinykvcache.Core.FrameCodec.{Bytes}
use tinykvcache.Net.Connection.{NetworkOptions, default_options}

-- include/tinykv/common/server_info.h
pub data PollerBackend : Type 0 where
  auto poll epoll : PollerBackend

-- include/tinykv/observability/logger.h
pub data LogLevel : Type 0 where
  debug info warn error off : LogLevel

pub record ReactorOptions : Type 0 where
  pub poller_backend : PollerBackend
  pub sub_reactor_count : ℕ

-- `shutdown.gracefulTimeout` is `graceful_timeout`.
pub record AppConfig : Type 0 where
  pub host : Bytes
  pub port : ℤ
  pub network : NetworkOptions
  pub reactor : ReactorOptions
  pub graceful_timeout : ℤ
  pub sweep_interval : ℤ
  pub log_level : LogLevel

abbrev pub default_config : AppConfig
default_config = record {
  host = codes "0.0.0.0";
  port = pos 7777;
  network = default_options;
  reactor = record { poller_backend = auto; sub_reactor_count = 2 };
  graceful_timeout = pos 3000;
  sweep_interval = pos 5000;
  log_level = info;
}

-- The exceptions, one for each message.
pub data ConfigError : Type 0 where
  section_not_table value_not_string value_not_integer value_negative : ConfigError
  empty_host port_out_of_range small_read_buffer low_above_high high_above_hard : ConfigError
  zero_write_bytes zero_accepts sub_reactors_out_of_range graceful_timeout_not_positive :
      ConfigError
  sweep_interval_negative unknown_poller unknown_log_level : ConfigError
  missing_value empty_value argument_mismatch invalid_integer : ConfigError
  duplicate_config_path unknown_option help_not_alone : ConfigError

pub data Outcome (A : Type 0) : Type 0 where
  valid : A → Outcome A
  invalid : ConfigError → Outcome A

unfoldable pub and_then : {A B : Type 0} → Outcome A → (A → Outcome B) → Outcome B
and_then (valid a) f = f a
and_then (invalid e) f = invalid e

-- A node: what `value<std::string>()` and `value<std::int64_t>()` give.
pub record Node : Type 0 where
  pub as_string : Option Bytes
  pub as_integer : Option ℤ

-- What `root.get(section)` leads to.
pub data Section : Type 0 where
  no_section not_table : Section
  table : (Bytes → Option Node) → Section

abbrev pub Document : Type 0
Document = Bytes → Section

abbrev pub is_negative : ℤ → Bool
is_negative (pos n) = false
is_negative (negsuc n) = true

-- At most 0.
abbrev pub is_not_positive : ℤ → Bool
is_not_positive (pos n) = n == 0
is_not_positive (negsuc n) = true

-- Below `low` or above `high`.
abbrev pub is_outside : ℕ → ℕ → ℤ → Bool
is_outside low high (pos n) = ltb n low || ltb high n
is_outside low high (negsuc n) = true

-- A cast of a number that is not negative.
abbrev pub to_nat : ℤ → ℕ
to_nat (pos n) = n
to_nat (negsuc n) = 0

find_in : Section → Bytes → Outcome (Option Node)
find_in no_section key = valid none
find_in not_table key = invalid section_not_table
find_in (table get) key = valid (get key)

pub find_node : Document → Bytes → Bytes → Outcome (Option Node)
unfolding find_in
find_node root section key = find_in (root section) key

string_of : Option Node → Outcome (Option Bytes)
string_of none = valid none
string_of (some n) = elim n.as_string [ none ↦ invalid value_not_string | some s ↦ valid (some s) ]

pub read_string : Document → Bytes → Bytes → Outcome (Option Bytes)
unfolding find_node string_of
read_string root section key = and_then (find_node root section key) string_of

integer_of : Option Node → Outcome (Option ℤ)
integer_of none = valid none
integer_of (some n) = elim n.as_integer [
  | none ↦ invalid value_not_integer
  | some i ↦ valid (some i)
]

pub read_integer : Document → Bytes → Bytes → Outcome (Option ℤ)
unfolding find_node integer_of
read_integer root section key = and_then (find_node root section key) integer_of

-- An `std::int64_t` that is not negative fits `std::size_t`.
pub to_size : ℤ → Outcome ℕ
to_size value = if is_negative value then invalid value_negative else valid (to_nat value)

pub parse_poller_backend : Bytes → Outcome PollerBackend
parse_poller_backend value =
    if bytes_beq value (codes "auto")
    then valid auto
    else if bytes_beq value (codes "epoll")
    then valid epoll
    else if bytes_beq value (codes "poll")
    then valid poll
    else invalid unknown_poller

pub parse_poller_backend_name : PollerBackend → Bytes
parse_poller_backend_name auto = codes "auto"
parse_poller_backend_name poll = codes "poll"
parse_poller_backend_name epoll = codes "epoll"

pub parse_log_level : Bytes → Outcome LogLevel
parse_log_level value =
    if bytes_beq value (codes "debug")
    then valid debug
    else if bytes_beq value (codes "info")
    then valid info
    else if bytes_beq value (codes "warn")
    then valid warn
    else if bytes_beq value (codes "error")
    then valid error
    else if bytes_beq value (codes "off")
    then valid off
    else invalid unknown_log_level

-- `if (const auto value = ...)`: a missing key leaves the configuration as it is.
pub when_some : {A : Type 0} → (A → Outcome AppConfig) → AppConfig → Option A → Outcome AppConfig
when_some set c none = valid c
when_some set c (some a) = set a

-- `std::clamp(std::thread::hardware_concurrency() / 2, 1U, 8U)`
abbrev pub auto_count : ℕ → ℕ
auto_count cores = min (max (cores / 2) 1) 8

pub validate_network : NetworkOptions → Option ConfigError
validate_network n =
    if ltb n.max_read_buffer_bytes 4
    then some small_read_buffer
    else if ltb n.write_high_watermark_bytes n.write_low_watermark_bytes
    then some low_above_high
    else if ltb n.write_hard_limit_bytes n.write_high_watermark_bytes
    then some high_above_hard
    else if n.max_write_bytes_per_event == 0
    then some zero_write_bytes
    else if n.max_accepts_per_event == 0
    then some zero_accepts
    else none

validate_rest : AppConfig → Option ConfigError → Option ConfigError
validate_rest c (some e) = some e
validate_rest c none =
    if ltb 16 c.reactor.sub_reactor_count
    then some sub_reactors_out_of_range
    else if is_not_positive c.graceful_timeout
    then some graceful_timeout_not_positive
    else if is_negative c.sweep_interval
    then some sweep_interval_negative
    else none

-- The first check that fails, if one does.
pub validate : AppConfig → Option ConfigError
unfolding validate_network validate_rest
validate c =
    if length c.host == 0
    then some empty_host
    else if is_outside 1 65535 c.port
    then some port_out_of_range
    else validate_rest c (validate_network c.network)
