-- ===== src/Config/CommandLine.antt =====
-- src/config/command_line.cpp. The arguments are those behind the program's name, `argv[1]` and on;
-- the index `i` of the loops is the list of what is still to come.
pub mod Unroll
pub mod Rendered
pub mod Found
pub mod Kept
mod Tests
use tinykvcache.Prelude.{
  ℕ, zero, suc, ◌+◌, ◌-◌, ◌*◌, ◌^◌, Bool, true, false, not, ◌&&◌, ◌||◌, List, [], ◌∷◌, ◌++◌, Option,
  none, some, ltb, leb, ◌==◌, if◌then◌else◌, length, drop,
}
use tinykvcache.Prelude.Equality.{bytes_beq}
use tinykvcache.Prelude.Int.{ℤ, pos, negsuc, int_max}
use tinykvcache.Prelude.Text.{codes}
use tinykvcache.Core.FrameCodec.{Bytes}
use tinykvcache.Config.{
  AppConfig, Outcome, valid, invalid, and_then, missing_value, empty_value, argument_mismatch,
  invalid_integer, duplicate_config_path, unknown_option, parse_poller_backend, parse_log_level,
  auto_count,
}

-- The value, and the arguments behind it.
pub require_next_value : List Bytes → Outcome (Bytes × List Bytes)
require_next_value [] = invalid missing_value
require_next_value (value ∷ rest) =
    if length value == 0 then invalid empty_value else valid (value, rest)

pub starts_with : Bytes → Bytes → Bool
starts_with value [] = true
starts_with [] (p ∷ prefix) = false
starts_with (v ∷ value) (p ∷ prefix) = v == p && starts_with value prefix

pub matches_option : Bytes → Bytes → Bool
unfolding starts_with
matches_option argument option =
    bytes_beq argument option || starts_with argument (option ++ codes "=")

pub parse_inline_value : Bytes → Bytes → Outcome (Option Bytes)
unfolding starts_with
parse_inline_value argument option =
    let prefix = option ++ codes "=" in
    let value = drop (length prefix) argument in
    if bytes_beq argument option
    then valid none
    else if not (starts_with argument prefix)
    then valid none
    else if length value == 0
    then invalid empty_value
    else valid (some value)

inline_or_mismatch : List Bytes → Option Bytes → Outcome (Bytes × List Bytes)
inline_or_mismatch rest none = invalid argument_mismatch
inline_or_mismatch rest (some value) = valid (value, rest)

pub read_option_value : Bytes → Bytes → List Bytes → Outcome (Bytes × List Bytes)
read_option_value argument option rest =
    if bytes_beq argument option
    then require_next_value rest
    else and_then (parse_inline_value argument option) (inline_or_mismatch rest)

-- The digits of a number, all of them.
pub digits_loop : ℕ → Bytes → Option ℕ
digits_loop n [] = some n
digits_loop n (c ∷ cs) =
    let rest = digits_loop (n * 10 + (c - 48)) cs in if leb 48 c && leb c 57 then rest else none

pub digits : Bytes → Option ℕ
unfolding digits_loop
digits [] = none
digits (c ∷ cs) = digits_loop 0 (c ∷ cs)

negative : Option ℕ → Outcome ℤ
negative none = invalid invalid_integer
negative (some zero) = valid (pos 0)
negative (some (suc n)) =
    if leb (suc n) (int_max + 1) then valid (negsuc n) else invalid invalid_integer

natural : ℕ → Option ℕ → Outcome ℕ
natural limit none = invalid invalid_integer
natural limit (some n) = if leb n limit then valid n else invalid invalid_integer

-- `ParseInteger<int>`: `std::from_chars` takes a minus sign and no plus sign.
pub parse_int : Bytes → Outcome ℤ
unfolding digits negative natural
parse_int [] = invalid invalid_integer
parse_int (c ∷ cs) =
    if c == b'-'
    then negative (digits cs)
    else and_then (natural int_max (digits (c ∷ cs))) (λ n. valid (pos n))

-- `ParseInteger<std::size_t>`: no sign.
pub parse_size : Bytes → Outcome ℕ
unfolding digits natural
parse_size value = natural (2 ^ 64 - 1) (digits value)

path_once : Option Bytes → Bytes × List Bytes → Outcome (Option Bytes × List Bytes)
path_once none (value, rest) = valid (some value, rest)
path_once (some path) (value, rest) = invalid duplicate_config_path

-- One round of the loop of `FindConfigPath`.
pub find_argument : Option Bytes → Bytes → List Bytes → Outcome (Option Bytes × List Bytes)
find_argument path argument rest =
    if bytes_beq argument (codes "--config") || bytes_beq argument (codes "-c")
    then and_then (require_next_value rest) (path_once path)
    else if matches_option argument (codes "--config")
    then and_then (read_option_value argument (codes "--config") rest) (path_once path)
    else valid (path, rest)

-- The loop, on fuel: each round takes an argument.
pub find_loop : ℕ → Option Bytes → List Bytes → Outcome (Option Bytes)
unfolding find_argument
find_loop fuel path [] = valid path
find_loop zero path (argument ∷ rest) = valid path
find_loop (suc fuel) path (argument ∷ rest) =
    and_then (find_argument path argument rest) (λ r. find_loop fuel r.0 r.1)

pub find_config_path : List Bytes → Outcome (Option Bytes)
unfolding find_loop
find_config_path arguments = find_loop (length arguments) none arguments

-- A value is read for the option, and set.
pub with_value :
    Bytes → Bytes → List Bytes → (Bytes → Outcome AppConfig) → Outcome (AppConfig × List Bytes)
with_value argument option rest set =
    and_then (read_option_value argument option rest)
      (λ r. and_then (set r.0) (λ c. valid (c, r.1)))

module _ (cores : ℕ) (config : AppConfig) where
  override_host : Bytes → Outcome AppConfig
  override_host value = valid (record config { host = value })

  override_port : Bytes → Outcome AppConfig
  unfolding parse_int
  override_port value = and_then (parse_int value) (λ n. valid (record config { port = n }))

  override_poller : Bytes → Outcome AppConfig
  override_poller value =
      and_then (parse_poller_backend value)
        (λ b. valid (record config { reactor = record config.reactor { poller_backend = b } }))

  override_sub_reactors : Bytes → Outcome AppConfig
  unfolding parse_size
  override_sub_reactors value = and_then (parse_size value) (λ n. valid (record config {
    reactor = record config.reactor { sub_reactor_count = if n == 0 then auto_count cores else n };
  }))

  override_log_level : Bytes → Outcome AppConfig
  override_log_level value =
      and_then (parse_log_level value) (λ l. valid (record config { log_level = l }))

  -- One round of the loop of `ApplyCommandLineOverrides`.
  pub apply_argument : Bytes → List Bytes → Outcome (AppConfig × List Bytes)
  apply_argument argument rest =
      if bytes_beq argument (codes "--config") || bytes_beq argument (codes "-c")
      then and_then (require_next_value rest) (λ r. valid (config, r.1))
      else if matches_option argument (codes "--config")
      then and_then (read_option_value argument (codes "--config") rest) (λ r. valid (config, r.1))
      else if matches_option argument (codes "--host")
      then with_value argument (codes "--host") rest override_host
      else if matches_option argument (codes "--port")
      then with_value argument (codes "--port") rest override_port
      else if matches_option argument (codes "--poller")
      then with_value argument (codes "--poller") rest override_poller
      else if matches_option argument (codes "--sub-reactors")
      then with_value argument (codes "--sub-reactors") rest override_sub_reactors
      else if matches_option argument (codes "--log-level")
      then with_value argument (codes "--log-level") rest override_log_level
      else if bytes_beq argument (codes "--help") || bytes_beq argument (codes "-h")
      then valid (config, rest)
      else invalid unknown_option

-- The loop, on fuel: each round takes an argument.
pub apply_loop : ℕ → ℕ → List Bytes → AppConfig → Outcome AppConfig
unfolding apply_argument
apply_loop fuel cores [] config = valid config
apply_loop zero cores (argument ∷ rest) config = valid config
apply_loop (suc fuel) cores (argument ∷ rest) config =
    and_then (apply_argument cores config argument rest) (λ r. apply_loop fuel cores r.1 r.0)

-- `cores` is `std::thread::hardware_concurrency()`.
pub apply_command_line_overrides : ℕ → List Bytes → AppConfig → Outcome AppConfig
unfolding apply_loop
apply_command_line_overrides cores arguments config =
    apply_loop (length arguments) cores arguments config
