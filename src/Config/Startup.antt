-- ===== src/Config/Startup.antt =====
-- app/server_main.cpp, up to the construction of the server.
pub mod Accepted
mod Tests
use tinykvcache.Prelude.{
  ℕ, Bool, true, false, ◌||◌, List, [], ◌∷◌, Option, none, some, ◌==◌, if◌then◌else◌, length,
}
use tinykvcache.Prelude.Equality.{bytes_beq}
use tinykvcache.Prelude.Text.{codes}
use tinykvcache.Core.FrameCodec.{Bytes}
use tinykvcache.Config.{
  AppConfig, ConfigError, Document, Outcome, valid, invalid, and_then, default_config, validate,
  help_not_alone,
}
use tinykvcache.Config.Loader.{load_from_file, validated}
use tinykvcache.Config.CommandLine.{find_config_path, apply_command_line_overrides}

pub data Startup : Type 0 where
  show_help : Startup
  serve : AppConfig → Startup

asks_for_help : List Bytes → Bool
asks_for_help [] = false
asks_for_help (argument ∷ rest) =
    bytes_beq argument (codes "--help") || bytes_beq argument (codes "-h") || asks_for_help rest

-- The arguments are those behind the program's name.
pub need_show_help : List Bytes → Outcome Bool
unfolding asks_for_help
need_show_help arguments =
    if asks_for_help arguments
    then if length arguments == 1 then valid true else invalid help_not_alone
    else valid false

module _ (cores : ℕ) (documents : Bytes → Outcome Document) where
  -- `documents` is what the parser of toml++ gives for a path.
  pub read_config : Option Bytes → Outcome AppConfig
  read_config none = valid default_config
  read_config (some path) = and_then (documents path) (λ root. load_from_file root cores)

  pub read_arguments : List Bytes → Outcome AppConfig
  unfolding read_config
  read_arguments arguments = and_then (find_config_path arguments) (λ path.
      and_then (read_config path) (λ file.
        and_then (apply_command_line_overrides cores arguments file)
          (λ c. validated c (validate c))))

  configure : List Bytes → Bool → Outcome Startup
  configure arguments true = valid show_help
  configure arguments false = and_then (read_arguments arguments) (λ c. valid (serve c))

  -- `main`, up to the construction of the server.
  pub start : List Bytes → Outcome Startup
  unfolding need_show_help configure
  start arguments = and_then (need_show_help arguments) (configure arguments)
