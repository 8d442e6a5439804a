-- ===== src/Config/CommandLine/Tests.antt =====
-- Runs of src/config/command_line.cpp.
use tinykvcache.Prelude.{◌≡◌, refl, List, [], ◌∷◌, Bool, true, false}
use tinykvcache.Prelude.Int.{negsuc}
use tinykvcache.Prelude.Text.{codes}
use tinykvcache.Config.{
  valid, invalid, and_then, default_config, epoll, unknown_option, duplicate_config_path,
  missing_value, empty_value, invalid_integer,
}
use tinykvcache.Config.CommandLine.{
  find_argument, apply_argument, path_once, with_value, override_port, override_host,
  require_next_value, read_option_value, parse_inline_value, inline_or_mismatch, matches_option,
  starts_with, find_config_path, apply_command_line_overrides, parse_int, parse_size,
}
use tinykvcache.Config.CommandLine.Rendered.{Setting, config_is, port_is, poller_is}

abbrev settings : List (Bool × Setting)
settings = (true, port_is 80) ∷ (false, config_is (codes "a.toml")) ∷ (true, poller_is epoll) ∷ []

two_files :
    find_config_path (codes "-c" ∷ codes "a" ∷ codes "--config=b" ∷ [])
    ≡ invalid duplicate_config_path
unfolding find_config_path find_argument path_once require_next_value read_option_value
    parse_inline_value inline_or_mismatch matches_option starts_with and_then
two_files = refl

no_option :
    apply_command_line_overrides 8 (codes "--prt=80" ∷ []) default_config ≡ invalid unknown_option
unfolding apply_command_line_overrides apply_argument with_value override_port override_host
    require_next_value read_option_value parse_inline_value inline_or_mismatch matches_option
    starts_with and_then
no_option = refl

no_value :
    apply_command_line_overrides 8 (codes "--port" ∷ []) default_config ≡ invalid missing_value
unfolding apply_command_line_overrides apply_argument with_value override_port override_host
    require_next_value read_option_value parse_inline_value inline_or_mismatch matches_option
    starts_with and_then
no_value = refl

no_text : apply_command_line_overrides 8 (codes "--host=" ∷ []) default_config ≡ invalid empty_value
unfolding apply_command_line_overrides apply_argument with_value override_port override_host
    require_next_value read_option_value parse_inline_value inline_or_mismatch matches_option
    starts_with and_then
no_text = refl

plus_port :
    apply_command_line_overrides 8 (codes "--port=+1" ∷ []) default_config ≡ invalid invalid_integer
unfolding apply_command_line_overrides apply_argument with_value override_port override_host
    require_next_value read_option_value parse_inline_value inline_or_mismatch matches_option
    starts_with and_then
plus_port = refl

negative_port : parse_int (codes "-7") ≡ valid (negsuc 6)
unfolding parse_int and_then
negative_port = refl

too_large : parse_size (codes "18446744073709551616") ≡ invalid invalid_integer
unfolding parse_size
too_large = refl
